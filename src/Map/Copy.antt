-- ===== src/Map/Copy.antt =====
-- The loop of map_resize of ce_util/ce_map.c that puts the old entries into the new table.
use native.Mathlib.Nat.{pow-le-pow_right}
use cloudeagle.Common.{
  ℕ, suc, ◌+◌, ◌^◌, ◌<◌, ◌≤◌, ◌≡◌, ◌≢◌, refl, ap, sym, ◌∙◌, subst, arith, false, inl, inr, some,
}
use cloudeagle.Common.Memory.{Memory, c_string}
use cloudeagle.Map.{Key, null, string, Entry, Keys, slot}
use cloudeagle.Map.Change.{insertmap_clean, set_entry}
use cloudeagle.Map.Search.{key_at, Key-cases}
use cloudeagle.Map.Texts.{text_hash}
use cloudeagle.Map.Table.{IsTable, Reaches-lt, Binds}
use cloudeagle.Map.Put.{
  Puts, string_inj, string-cases, IsTable-string, Binds-here, Binds-else_where,
}
use cloudeagle.Map.Lookup.{HasRoom}
use cloudeagle.Map.Count.{
  sum_lt, sum_change, sum, filled, living, filled_in, living_in, filled_zero, last-cases,
}
use cloudeagle.Map.Room.{insertmap_clean-lem, set_entry-Puts, Empty}

null_string : (keys : Keys) (s a : ℕ) → key_at keys s ≡ null → ¬ (key_at keys s ≡ string a)
null_string keys s a h k = cc

module _ (mem : Memory) (old : Keys) (width usable : ℕ) (old_table : IsTable mem old)
    (width_le : width ≤ 26) where
  -- The first `i` old entries have been put into the new table.
  pub record Copied (i : ℕ) (keys : Keys) : Type 0 where
    pub table : IsTable mem keys
    pub size : keys.m_key_num ≡ 2 ^ width
    pub not_static : keys.is_static ≡ false
    pub usable_same : keys.m_key_usable ≡ usable
    pub all_filled : filled_in keys (2 ^ width) ≡ living_in old i
    pub all_living : living_in keys (2 ^ width) ≡ living_in old i
    pub forth :
        (s a : ℕ)
        → s < i
        → key_at old s ≡ string a
        → Binds mem keys (c_string mem a) (old.m_key_entries s).m_value
    pub back : (t b : ℕ) → key_at keys t ≡ string b → (s : ℕ) × (s < i) × (key_at old s ≡ string b)

  Copied-HasRoom :
      (i : ℕ) (keys : Keys) → Copied i keys → living_in old i < 2 ^ width → HasRoom keys
  Copied-HasRoom i keys c h =
      let (t, lt, e) =
        sum_lt (λ t. filled (key_at keys t)) (2 ^ width) (omega (arith, c.all_filled)) in
      record {
        width = width;
        width_le = width_le;
        size = c.size;
        free = t;
        free_lt = rw c.size lt;
        is_null = filled_zero (key_at keys t) e;
      }

  pass-living : (i : ℕ) → (old.m_key_entries i).m_value ≡ 0 → living (key_at old i) ≡ 0
  pass-living i e = elim (Key-cases (key_at old i)) [
    | inl h ↦ ap living h
    | inr (inl h) ↦ ap living h
    | inr (inr (a, h)) ↦ absurd (old_table.valued i a h e)
  ]

  -- An entry without a value is passed over.
  pub Copied-pass :
      (i : ℕ) (keys : Keys)
      → (old.m_key_entries i).m_value ≡ 0
      → Copied i keys
      → Copied (suc i) keys
  Copied-pass i keys e c =
      let none_here : living (key_at old i) ≡ 0 = pass-living i e in
      record {
        table = c.table;
        size = c.size;
        not_static = c.not_static;
        usable_same = c.usable_same;
        all_filled = omega (arith, c.all_filled, none_here);
        all_living = omega (arith, c.all_living, none_here);
        forth = λ s a lt k. elim (last-cases i s lt) [
          | inl same ↦
              absurd (old_table.valued s a k (ap (λ t. (old.m_key_entries t).m_value) same ∙ e))
          | inr lt' ↦ c.forth s a lt' k
        ];
        back = λ t b k. let (s, lt, k') = c.back t b k in (s, omega arith, k');
      }

  -- An entry with a value is put in.
  module _ (i a : ℕ) (keys : Keys) (c : Copied i keys) (key : key_at old i ≡ string a)
      (room : living_in old i < 2 ^ width) where
    abbrev e : Entry
    e = record {
      m_hash = (old.m_key_entries i).m_hash;
      m_key = string a;
      m_value = (old.m_key_entries i).m_value;
    }

    abbrev hash : ℕ
    hash = text_hash (c_string mem a)

    -- No entry of the new table has the string yet.
    alone : (t b : ℕ) → key_at keys t ≡ string b → c_string mem b ≢ c_string mem a
    alone t b k same =
        let (s, lt, k') = c.back t b k in omega (arith, old_table.unique s i b a k' key same)

    module _ (keys' : Keys) (s : ℕ) (p : Puts keys keys' s e)
        (found : Empty keys (slot keys hash) hash s) where
      place_lt : s < 2 ^ width
      place_lt =
          let pos : 1 ≤ 2 ^ width = pow-le-pow_right (omega arith) {i = 0} (omega arith) in
          omega
            (arith, Reaches-lt keys (slot keys hash) hash s (omega (arith, c.size)) found.1, c.size)

      put-IsTable : IsTable mem keys'
      put-IsTable =
          IsTable-string keys keys' s e p mem c.table a refl (old_table.hashed i a key)
            (old_table.valued i a key) found.1 (λ t b ne k. alone t b k)

      put-forth :
          (t b : ℕ)
          → t < suc i
          → key_at old t ≡ string b
          → Binds mem keys' (c_string mem b) (old.m_key_entries t).m_value
      put-forth t b lt k = elim (last-cases i t lt) [
        | inl same ↦
            subst (λ d. Binds mem keys' (c_string mem d) (old.m_key_entries t).m_value)
              (string_inj a b (sym key ∙ ap (key_at old) (sym same) ∙ k))
              (Binds-here keys keys' s e p mem c.table a (old.m_key_entries t).m_value refl
                (ap (λ u. (old.m_key_entries u).m_value) (sym same)))
        | inr lt' ↦
            (Binds-else_where keys keys' s e p mem c.table (c_string mem b)
                (old.m_key_entries t).m_value (λ b' k' z. null_string keys s b' found.0 k')
                (λ b' k' z. omega (
                  arith,
                  old_table.unique i t a b key k (ap (c_string mem) (string_inj a b' k') ∙ z),
                ))).0
              (c.forth t b lt' k)
      ]

      put-back :
          (t b : ℕ) → key_at keys' t ≡ string b → (u : ℕ) × (u < suc i) × (key_at old u ≡ string b)
      put-back t b k = elim (string-cases keys keys' s e p t b k) [
        | inl (h, k', _) ↦ (i, omega arith, key ∙ k')
        | inr (h, k', _) ↦ let (u, lt, k'') = c.back t b k' in (u, omega arith, k'')
      ]

      put-count :
          (w : Key → ℕ)
          → w null ≡ 0
          → w (string a) ≡ 1
          → sum (λ t. w (key_at keys' t)) (2 ^ width) ≡ sum (λ t. w (key_at keys t)) (2 ^ width) + 1
      put-count w w0 w1 = omega (
        arith,
        sum_change (λ t. w (key_at keys t)) (λ t. w (key_at keys' t)) (2 ^ width) s place_lt
            (λ t ne. ap (λ y. w y.m_key) (p.else_where t ne)),
        ap w found.0,
        w0,
        ap (λ y. w y.m_key) p.here,
        w1,
      )

    pub Copied-put :
        (keys' : Keys) × (insertmap_clean keys
            (string a)
            (old.m_key_entries i).m_hash
            (old.m_key_entries i).m_value
          ≡ some keys')
        × Copied (suc i) keys'
    Copied-put =
        let same_hash : (old.m_key_entries i).m_hash ≡ hash = old_table.hashed i a key in
        let (s, inserted, found) =
          insertmap_clean-lem mem keys a (old.m_key_entries i).m_hash (old.m_key_entries i).m_value
            c.table (Copied-HasRoom i keys c room) (omega (arith, same_hash))
            (old_table.valued i a key) in
        let keys' : Keys = set_entry keys s e in
        let p : Puts keys keys' s e = set_entry-Puts keys keys.m_key_usable s e in
        let place : Empty keys (slot keys hash) hash s =
          subst (λ h. Empty keys (slot keys h) h s) same_hash found in
        (
          keys',
          inserted,
          record {
            table = put-IsTable keys' s p place;
            size = c.size;
            not_static = c.not_static;
            usable_same = c.usable_same;
            all_filled =
                put-count keys' s p place filled refl refl
                ∙ ap (λ n. n + 1) c.all_filled
                ∙ omega (arith, ap living key);
            all_living =
                put-count keys' s p place living refl refl
                ∙ ap (λ n. n + 1) c.all_living
                ∙ omega (arith, ap living key);
            forth = put-forth keys' s p place;
            back = put-back keys' s p place;
          },
        )
