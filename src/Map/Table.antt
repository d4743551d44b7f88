-- ===== src/Map/Table.antt =====
-- A well-formed table of ce_util/ce_map.c, what it binds, and that changes of one entry keep it
-- well-formed.
use native.Mathlib.Nat.{mod-lt}
use cloudeagle.Common.{ℕ, zero, suc, ◌/◌, ◌%◌, ◌<◌, ◌≡◌, ◌≢◌, refl, ap, sym, ◌∙◌, subst, ◌⊎◌, List}
use cloudeagle.Common.Memory.{Memory, c_string}
use cloudeagle.Map.{null, dummy, string, Keys, slot, next_i}
use cloudeagle.Map.Walk.{walk}
use cloudeagle.Map.Search.{key_at, NoNull, Reaches}
use cloudeagle.Map.Texts.{text_hash}

pub Reaches-lt :
    (keys : Keys) (i perturb s : ℕ)
    → 0 < keys.m_key_num
    → Reaches keys i perturb s
    → s < keys.m_key_num
unfolding Reaches
Reaches-lt keys i perturb s pos (n, h, e) =
    subst (λ t. t < keys.m_key_num) e (mod-lt (walk n i perturb) pos)

module _ (mem : Memory) where
  -- Each string stands where a search for it comes by, under its hash and with a value, and in one
  -- entry only; the other entries have no value.
  pub record IsTable (keys : Keys) : Type 0 where
    pub hashed :
        (s a : ℕ)
        → key_at keys s ≡ string a
        → (keys.m_key_entries s).m_hash ≡ text_hash (c_string mem a)
    pub reached :
        (s a : ℕ)
        → key_at keys s ≡ string a
        → let h = text_hash (c_string mem a) in Reaches keys (slot keys h) h s
    pub unique :
        (s t a b : ℕ)
        → key_at keys s ≡ string a
        → key_at keys t ≡ string b
        → c_string mem a ≡ c_string mem b
        → s ≡ t
    pub valued : (s a : ℕ) → key_at keys s ≡ string a → (keys.m_key_entries s).m_value ≢ 0
    pub unvalued :
        (s : ℕ)
        → (key_at keys s ≡ null) ⊎ (key_at keys s ≡ dummy)
        → (keys.m_key_entries s).m_value ≡ 0

  -- An entry has the string `u` and the value `v`.
  unfoldable pub Binds : Keys → List ℕ → ℕ → Type 0
  Binds keys u v =
      (s : ℕ) × (a : ℕ) × (key_at keys s ≡ string a)
      × (c_string mem a ≡ u)
      × ((keys.m_key_entries s).m_value ≡ v)

  pub Binds-unique :
      (keys : Keys) (u : List ℕ) (v w : ℕ) → IsTable keys → Binds keys u v → Binds keys u w → v ≡ w
  unfolding Binds
  Binds-unique keys u v w t (s, a, k, e, x) (s', a', k', e', x') =
      sym x ∙ ap (λ z. (keys.m_key_entries z).m_value) (t.unique s s' a a' k k' (e ∙ sym e')) ∙ x'

  pub Binds-nonzero : (keys : Keys) (u : List ℕ) (v : ℕ) → IsTable keys → Binds keys u v → v ≢ 0
  unfolding Binds
  Binds-nonzero keys u v t (s, a, k, e, x) h = t.valued s a k (x ∙ h)

-- Keys that are NULL in the second table are so in the first.
abbrev pub Grows : Keys → Keys → Type 0
Grows keys keys' =
    (keys'.m_key_num ≡ keys.m_key_num) × ((t : ℕ) → key_at keys' t ≡ null → key_at keys t ≡ null)

module _ (keys keys' : Keys) (g : Grows keys keys') where
  slot-Grows : (i : ℕ) → slot keys i ≡ slot keys' i
  slot-Grows i = ap (λ n. i % n) (sym g.0)

  NoNull-Grows : (n i perturb : ℕ) → NoNull keys n i perturb → NoNull keys' n i perturb
  NoNull-Grows zero i perturb h = tt
  NoNull-Grows (suc n) i perturb (h, hs) = (
    λ k. h (ap (key_at keys) (slot-Grows i) ∙ g.1 (slot keys' i) k),
    NoNull-Grows n (next_i i perturb) (perturb / 32) hs,
  )

  pub Reaches-Grows : (i perturb s : ℕ) → Reaches keys i perturb s → Reaches keys' i perturb s
  unfolding Reaches
  Reaches-Grows i perturb s (n, h, e) =
      (n, NoNull-Grows n i perturb h, sym (slot-Grows (walk n i perturb)) ∙ e)

  -- The same for a search from its start.
  pub Reaches-Grows_start :
      (h s : ℕ) → Reaches keys (slot keys h) h s → Reaches keys' (slot keys' h) h s
  Reaches-Grows_start h s r =
      subst (λ i. Reaches keys' i h s) (slot-Grows h) (Reaches-Grows (slot keys h) h s r)

-- The count of usable entries is no part of the table.
pub IsTable-usable :
    (mem : Memory) (keys : Keys) (n : ℕ)
    → IsTable mem keys
    → IsTable mem (record keys { m_key_usable = n })
IsTable-usable mem keys n t = record {
  hashed = t.hashed;
  reached = λ s a k.
      Reaches-Grows_start keys (record keys { m_key_usable = n }) (refl, λ u z. z)
        (text_hash (c_string mem a)) s (t.reached s a k);
  unique = t.unique;
  valued = t.valued;
  unvalued = t.unvalued;
}
