-- ===== src/Map/Update.antt =====
-- insert_map of ce_util/ce_map.c where the table is large enough.
use cloudeagle.Common.{
  ℕ, ◌+◌, ◌-◌, ◌%◌, ◌^◌, ◌<◌, ◌≤◌, ◌≡◌, ◌≢◌, refl, ap, sym, ◌∙◌, subst, arith, Bool, true, false,
  inl, inr, ◌⊎◌, some, if◌then◌else◌, ◌↔◌, List,
}
use cloudeagle.Common.Memory.{Memory, c_string}
use cloudeagle.Map.{Key, null, dummy, string, Entry, CeMap, CeStr, bytes_of, slot, string_hash}
use cloudeagle.Map.Change.{set_entry, int_leb, count_used, fill}
use cloudeagle.Map.Search.{key_at, Reaches}
use cloudeagle.Map.Texts.{text_hash, string_hash-lem}
use cloudeagle.Map.Table.{IsTable, Reaches-lt, Binds}
use cloudeagle.Map.Put.{Puts, string_inj, IsTable-string, Binds-here, Binds-else_where}
use cloudeagle.Map.Lookup.{Absent}
use cloudeagle.Map.Count.{IsMap, IsMap-Puts, power_bounds, filled, living}
use cloudeagle.Map.Room.{set_entry-Puts}

-- The second map binds `u` to `v` and the other strings as the first one does.
pub record Sets (mem : Memory) (mp : CeMap) (u : List ℕ) (v : ℕ) (mp' : CeMap) : Type 0 where
  pub is_map : IsMap mem mp'
  pub bound : Binds mem mp'.ma_keys u v
  pub others : (w : List ℕ) (x : ℕ) → w ≢ u → Binds mem mp.ma_keys w x ↔ Binds mem mp'.ma_keys w x
  pub counted : mp'.ma_used ≡ mp.ma_used + 1

no_string : (k : Key) (b : ℕ) → (k ≡ null) ⊎ (k ≡ dummy) → ¬ (k ≡ string b)
no_string k b (inl h) e = cc
no_string k b (inr h) e = cc

pub string-elim :
    {A : Type 0} (k : Key) (a : ℕ)
    → k ≡ string a
    → (x y z : A) → elim k [ null ↦ x | dummy ↦ y | string b ↦ z ] ≡ z
string-elim k a h x y z = rw h refl

pub if-false : {A : Type 0} {b : Bool} (x y : A) → b ≡ false → (if b then x else y) ≡ y
if-false x y h = rw h refl

pub if-true : {A : Type 0} {b : Bool} (x y : A) → b ≡ true → (if b then x else y) ≡ x
if-true x y h = rw h refl

positive-lem : (n : ℕ) → int_leb n 0 ≡ false → 0 < n
positive-lem n h = ground arith

module _ (mem : Memory) (mp : CeMap) (key : CeStr) (v : ℕ) (m : IsMap mem mp) (v≢ : v ≢ 0)
    (used< : mp.ma_used < 2 ^ 25) (address : key.address ≢ 0)
    (ends : c_string mem key.address ≡ bytes_of mem key) where
  abbrev u : List ℕ
  u = bytes_of mem key

  abbrev pub new_entry : Entry
  new_entry = record { m_hash = string_hash mem key; m_key = string key.address; m_value = v }

  next_used : (mp.ma_used + 1) % 2 ^ 32 ≡ mp.ma_used + 1
  next_used = omega arith

  module _ (mp' : CeMap) (s a : ℕ) (e : Entry) (p : Puts mp.ma_keys mp'.ma_keys s e)
      (k : e.m_key ≡ string a) (text : c_string mem a ≡ u)
      (hash : e.m_hash ≡ text_hash (c_string mem a)) (value : e.m_value ≡ v)
      (reach : let h = text_hash (c_string mem a) in Reaches mp.ma_keys (slot mp.ma_keys h) h s)
      (alone : (t b : ℕ) → t ≢ s → key_at mp.ma_keys t ≡ string b → c_string mem b ≢ c_string mem a)
      (old : (b : ℕ) → key_at mp.ma_keys s ≡ string b → c_string mem b ≡ u)
      (static : mp'.ma_keys.is_static ≡ mp.ma_keys.is_static)
      (room : 1 + mp'.ma_keys.m_key_usable ≤ filled (key_at mp.ma_keys s) + mp.ma_keys.m_key_usable)
      (used : mp'.ma_used ≡ mp.ma_used + 1) where
    put-IsTable : IsTable mem mp'.ma_keys
    put-IsTable =
        IsTable-string mp.ma_keys mp'.ma_keys s e p mem m.table a k hash (λ z. v≢ (sym value ∙ z))
          reach alone

    put-IsMap : IsMap mem mp'
    put-IsMap =
        let (lo, hi) = power_bounds m.width m.at_least m.at_most in
        let s< =
          Reaches-lt mp.ma_keys (slot mp.ma_keys (text_hash (c_string mem a)))
            (text_hash (c_string mem a)) s (omega (arith, m.size)) reach in
        IsMap-Puts mem mp mp' s e m s< p put-IsTable static (omega (arith, ap filled k))
          (omega (arith, ap living k)) (omega arith)

    Sets-put : Sets mem mp u v mp'
    Sets-put = record {
      is_map = put-IsMap;
      bound =
          subst (λ w. Binds mem mp'.ma_keys w v) text
            (Binds-here mp.ma_keys mp'.ma_keys s e p mem m.table a v k value);
      others = λ w x ne.
          Binds-else_where mp.ma_keys mp'.ma_keys s e p mem m.table w x
            (λ b k' z. ne (sym z ∙ old b k'))
            (λ b k' z. ne (sym z ∙ ap (c_string mem) (string_inj b a (sym k' ∙ k)) ∙ text));
      counted = used;
    }

  -- A value in the place of the old one.
  pub Sets-present :
      (s a : ℕ)
      → key_at mp.ma_keys s ≡ string a
      → c_string mem a ≡ u
      → Sets mem mp u v (
          count_used (record mp {
            ma_keys = set_entry mp.ma_keys s (record (mp.ma_keys.m_key_entries s) { m_value = v });
          }))
  Sets-present s a k same =
      Sets-put _ s a (record (mp.ma_keys.m_key_entries s) { m_value = v })
        (set_entry-Puts mp.ma_keys mp.ma_keys.m_key_usable s
          (record (mp.ma_keys.m_key_entries s) { m_value = v }))
        k same (m.table.hashed s a k) refl (m.table.reached s a k)
        (λ t b ne k' z. ne (m.table.unique t s b a k' k z))
        (λ b k'. ap (c_string mem) (string_inj b a (sym k' ∙ k)) ∙ same) refl
        (omega (arith, ap filled k)) next_used

  -- A new entry in a place without a string.
  pub Sets-absent :
      (s n : ℕ)
      → ((t a : ℕ) → key_at mp.ma_keys t ≡ string a → c_string mem a ≢ u)
      → (key_at mp.ma_keys s ≡ null) ⊎ (key_at mp.ma_keys s ≡ dummy)
      → Reaches mp.ma_keys (slot mp.ma_keys (text_hash u)) (text_hash u) s
      → n + 1 ≤ filled (key_at mp.ma_keys s) + mp.ma_keys.m_key_usable
      → Sets mem mp u v (
          count_used (record mp {
            ma_keys = set_entry (record mp.ma_keys { m_key_usable = n }) s new_entry;
          }))
  Sets-absent s n absent k reach room =
      Sets-put _ s key.address new_entry (set_entry-Puts mp.ma_keys n s new_entry) refl ends
        (string_hash-lem mem key address ∙ ap text_hash (sym ends)) refl
        (subst (λ t. let h = text_hash t in Reaches mp.ma_keys (slot mp.ma_keys h) h s) (sym ends)
          reach)
        (λ t b ne k' z. absent t b k' (z ∙ ends))
        (λ b k'. absurd (no_string (key_at mp.ma_keys s) b k k')) refl (omega arith) next_used

  pub fill-Sets :
      (s : ℕ)
      → Absent mem mp.ma_keys key m.table s
      → key_at mp.ma_keys s ≡ null
      → int_leb mp.ma_keys.m_key_usable 0 ≡ false
      → (mp' : CeMap) × (fill mp s new_entry ≡ some (true, mp')) × Sets mem mp u v mp'
  unfolding Absent
  fill-Sets s (absent, k, reach) h pos =
      let lt = positive-lem mp.ma_keys.m_key_usable pos in
      (
        _,
        rw pos refl,
        Sets-absent s (mp.ma_keys.m_key_usable - 1) absent k reach (omega (arith, ap filled h)),
      )
