-- ===== src/Map/CopyLoop.antt =====
-- The whole loop of map_resize of ce_util/ce_map.c over the old entries.
use cloudeagle.Common.{
  ℕ, zero, suc, ◌+◌, ◌^◌, ◌<◌, ◌≤◌, ◌≡◌, refl, ap, ◌∙◌, subst, arith, true, false, inl, inr, ◌⊎◌,
  some, ◌==◌, ◌↔◌, List,
}
use cloudeagle.Common.Memory.{Memory, c_string}
use cloudeagle.Map.{string, Keys}
use cloudeagle.Map.Change.{insert_all}
use cloudeagle.Map.Search.{key_at, Key-cases}
use cloudeagle.Map.Table.{IsTable, Reaches-lt, Binds, Binds-unique}
use cloudeagle.Map.Count.{sum_mono, living, living_in}
use cloudeagle.Map.Copy.{Copied, Copied-pass, Copied-put}

value-cases :
    (mem : Memory) (keys : Keys) (s : ℕ)
    → IsTable mem keys
    → (((keys.m_key_entries s).m_value == 0) ≡ true) × ((keys.m_key_entries s).m_value ≡ 0)
      ⊎ (((keys.m_key_entries s).m_value == 0) ≡ false) × ((a : ℕ) × (key_at keys s ≡ string a))
value-cases mem keys s t = elim (Key-cases (key_at keys s)) [
  | inl h ↦ let e = t.unvalued s (inl h) in inl (ap (λ v. v == 0) e, e)
  | inr (inl h) ↦ let e = t.unvalued s (inr h) in inl (ap (λ v. v == 0) e, e)
  | inr (inr (a, h)) ↦ let ne = t.valued s a h in inr (ground arith, (a, h))
]

module _ (mem : Memory) (old : Keys) (width usable : ℕ) (old_table : IsTable mem old)
    (width_le : width ≤ 26) where
  pub insert_all-lem :
      (n i : ℕ) (keys : Keys)
      → i + n ≡ old.m_key_num
      → living_in old old.m_key_num < 2 ^ width
      → Copied mem old width usable old_table width_le i keys
      → (keys' : Keys) × (insert_all n i old keys ≡ some keys')
        × Copied mem old width usable old_table width_le old.m_key_num keys'
  unfolding insert_all
  insert_all-lem zero i keys sum room c = (
    keys,
    refl,
    subst (λ j. Copied mem old width usable old_table width_le j keys) (omega arith) c,
  )
  insert_all-lem (suc n) i keys sum room c = elim (value-cases mem old i old_table) [
    | inl (test, e) ↦
        let (keys', done, c') =
          insert_all-lem n (suc i) keys (omega arith) room
            (Copied-pass mem old width usable old_table width_le i keys e c) in
        (keys', rw (test, insert_all) done, c')
    | inr (test, (a, h)) ↦
        let le = sum_mono (λ t. living (key_at old t)) i old.m_key_num (omega arith) in
        let (keys1, put, c1) =
          Copied-put mem old width usable old_table width_le i a keys c h (omega arith) in
        let (keys', done, c') = insert_all-lem n (suc i) keys1 (omega arith) room c1 in
        (keys', rw (test, h, put, insert_all) done, c')
  ]

  pub Copied-Binds :
      (keys : Keys)
      → 0 < old.m_key_num
      → Copied mem old width usable old_table width_le old.m_key_num keys
      → (u : List ℕ) (v : ℕ) → Binds mem old u v ↔ Binds mem keys u v
  unfolding Binds
  Copied-Binds keys pos c u v = (
    λ (s, a, k, text, x).
        let lt : s < old.m_key_num = Reaches-lt old _ _ s pos (old_table.reached s a k) in
        subst (λ w. Binds mem keys w v) text
          (subst (Binds mem keys (c_string mem a)) x (c.forth s a lt k)),
    λ (t, b, k, text, x).
        let (s, lt, k') = c.back t b k in
        (
          s,
          b,
          k',
          text,
          Binds-unique mem keys (c_string mem b) _ _ c.table (c.forth s b lt k')
                (t, b, k, refl, refl)
              ∙ x,
        ),
  )
