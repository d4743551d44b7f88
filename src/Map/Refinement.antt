-- ===== src/Map/Refinement.antt =====
-- The functions of ce_util/ce_map.c against a map from strings to values, in which a string without
-- a value has 0.
use cloudeagle.Common.{
  ℕ, ◌+◌, ◌^◌, ◌<◌, ◌≡◌, ◌≢◌, refl, ap, sym, ◌∙◌, subst, true, not, inl, inr, some, ◌==◌,
  if◌then◌else◌, ◌↔◌, List, [], ◌∷◌,
}
use cloudeagle.Common.Memory.{Memory, c_string}
use cloudeagle.Map.{string, CeMap, CeStr, bytes_of}
use cloudeagle.Map.Change.{ce_map_get_value, ce_map_set_value, ce_map_del_value, ce_map_coceins}
use cloudeagle.Map.Assoc.{Assoc, update, update-cases, nonzero, zero-cases}
use cloudeagle.Map.Table.{Binds, Binds-unique, Binds-nonzero}
use cloudeagle.Map.Lookup.{Looks, ce_map_get_value-lem}
use cloudeagle.Map.Count.{IsMap, IsMap-HasRoom}
use cloudeagle.Map.Insert.{ce_map_set_value-lem}
use cloudeagle.Map.Delete.{ce_map_del_value-lem}

-- The map binds each string to its value, and no string without one.
pub record Represents (mem : Memory) (mp : CeMap) (f : Assoc) : Type 0 where
  pub is_map : IsMap mem mp
  pub binds : (w : List ℕ) (x : ℕ) → Binds mem mp.ma_keys w x ↔ ((f w ≡ x) × (x ≢ 0))

-- A string that ends where its length says.
abbrev pub IsKey : Memory → CeStr → Type 0
IsKey mem key = (key.address ≢ 0) × (c_string mem key.address ≡ bytes_of mem key)

module _ (mem : Memory) (mp : CeMap) (f : Assoc) (r : Represents mem mp f) (key : CeStr) where
  -- In a map that represents an abstract map, a key that is not at NULL: `ce_map_get_value` gives
  -- the abstract map's value, and `ce_map_coceins` whether that is one.
  pub ce_map_get_value-Represents :
      key.address ≢ 0
      → (ce_map_get_value mem mp key ≡ some (f (bytes_of mem key)))
        × (ce_map_coceins mem mp key ≡ some (not (f (bytes_of mem key) == 0)))
  unfolding Looks
  ce_map_get_value-Represents address =
      let (v, found, get, has, looks) =
        ce_map_get_value-lem mem mp key r.is_map.table (IsMap-HasRoom mem mp r.is_map) address in
      elim looks [
        | inl (bound, e) ↦
            let (fv, ne) = (r.binds (bytes_of mem key) v).0 bound in
            (
              get ∙ ap some (sym fv),
              has ∙ ap some (e ∙ sym (nonzero (f (bytes_of mem key)) (λ z. ne (sym fv ∙ z)))),
            )
        | inr (v0, e, unbound) ↦ elim (zero-cases (f (bytes_of mem key))) [
          | inl f0 ↦
              (get ∙ ap some (v0 ∙ sym f0), has ∙ ap some (e ∙ ap (λ n. not (n == 0)) (sym f0)))
          | inr f1 ↦
              absurd (unbound _ ((r.binds (bytes_of mem key) (f (bytes_of mem key))).1 (refl, f1)))
        ]
      ]

  -- A map that binds one string to `v`, or to nothing if that is 0, and the others as before.
  Represents-update :
      (mp' : CeMap) (u : List ℕ) (v : ℕ)
      → IsMap mem mp'
      → ((x : ℕ) → Binds mem mp'.ma_keys u x ↔ ((v ≡ x) × (x ≢ 0)))
      → ((w : List ℕ) (x : ℕ) → w ≢ u → Binds mem mp.ma_keys w x ↔ Binds mem mp'.ma_keys w x)
      → Represents mem mp' (update f u v)
  Represents-update mp' u v is_map here others = record {
    is_map = is_map;
    binds = λ w x. elim (update-cases f u w v) [
      | inl (same, e) ↦ (
        λ b. let (p, q) = (here x).0 (subst (λ z. Binds mem mp'.ma_keys z x) same b) in (e ∙ p, q),
        λ (p, q). subst (λ z. Binds mem mp'.ma_keys z x) (sym same) ((here x).1 (sym e ∙ p, q)),
      )
      | inr (ne, e) ↦ (
        λ b. let (p, q) = (r.binds w x).0 ((others w x ne).1 b) in (e ∙ p, q),
        λ (p, q). (others w x ne).0 ((r.binds w x).1 (sym e ∙ p, q)),
      )
    ];
  }

  -- A key that ends where its length says and a value that is not NULL, with memory for a larger
  -- table and fewer than 2 ^ 25 values counted: `ce_map_set_value` gives CE_OK, the map then
  -- represents the updated abstract map, and `ma_used` is one more, also if the key was bound.
  pub ce_map_set_value-Represents :
      (v : ℕ)
      → IsKey mem key
      → v ≢ 0
      → mp.ma_used < 2 ^ 25
      → (mp' : CeMap) × (ce_map_set_value true mem mp key v ≡ some (true, mp'))
        × Represents mem mp' (update f (bytes_of mem key) v)
        × (mp'.ma_used ≡ mp.ma_used + 1)
  ce_map_set_value-Represents v (address, ends) v≢ used< =
      let (mp', set, sets) = ce_map_set_value-lem mem mp key v r.is_map v≢ used< address ends in
      (
        mp',
        set,
        Represents-update mp' (bytes_of mem key) v sets.is_map
            (λ x. (
              λ b. (
                Binds-unique mem mp'.ma_keys (bytes_of mem key) v x sets.is_map.table sets.bound b,
                Binds-nonzero mem mp'.ma_keys (bytes_of mem key) x sets.is_map.table b,
              ),
              λ (p, q). subst (Binds mem mp'.ma_keys (bytes_of mem key)) p sets.bound,
            ))
            sets.others,
        sets.counted,
      )

  -- A key that is bound: `ce_map_del_value` hands its string and its value to the callback if there
  -- is one, the map then represents the abstract map without the key, and `ma_used` is one less.
  pub ce_map_del_value-Represents :
      key.address ≢ 0
      → f (bytes_of mem key) ≢ 0
      → (a : ℕ) × (mp' : CeMap) × (c_string mem a ≡ bytes_of mem key)
        × (ce_map_del_value mem mp key
            ≡ some (if mp.kv_free_fun then (string a, f (bytes_of mem key)) ∷ [] else [], mp'))
        × Represents mem mp' (update f (bytes_of mem key) 0)
        × (mp'.ma_used + 1 ≡ mp.ma_used)
  ce_map_del_value-Represents address f1 =
      let (a, mp', same, del, removes) =
        ce_map_del_value-lem mem mp key r.is_map address (f (bytes_of mem key))
          ((r.binds (bytes_of mem key) (f (bytes_of mem key))).1 (refl, f1)) in
      (
        a,
        mp',
        same,
        del,
        Represents-update mp' (bytes_of mem key) 0 removes.is_map
            (λ x. (λ b. absurd (removes.unbound x b), λ (p, q). absurd (q (sym p)))) removes.others,
        removes.counted,
      )
