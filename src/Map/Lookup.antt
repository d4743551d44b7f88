-- ===== src/Map/Lookup.antt =====
-- ce_map_get_value and ce_map_coceins of ce_util/ce_map.c: a search of a well-formed table ends, and
-- finds what the table binds the key to.
use cloudeagle.Common.{
  ℕ, ◌%◌, ◌^◌, ◌<◌, ◌≤◌, ◌≡◌, ◌≢◌, refl, ap, sym, ◌∙◌, subst, arith, Bool, true, false, inl, inr,
  ◌⊎◌, none, some, List, ◌↔◌, ◌==◌, ◌&&◌,
}
use cloudeagle.Common.Memory.{Memory, c_string}
use cloudeagle.Map.{
  null, dummy, string, Keys, CeMap, CeStr, slot, bytes_of, is_key, enough, find_from,
  find_key_entry, string_hash,
}
use cloudeagle.Map.Change.{ce_map_get_value, ce_map_coceins}
use cloudeagle.Map.Walk.{walk, walk-meets}
use cloudeagle.Map.Search.{key_at, Reaches, Matches, Ends, Hit, Miss, Found, find_from-lem}
use cloudeagle.Map.Texts.{text_hash, string_hash-lem, ce_memn2cmp_self, ce_memn2cmp_same}
use cloudeagle.Map.Table.{IsTable, Binds}

-- The number of entries is a power of two, and one of the keys is NULL.
pub record HasRoom (keys : Keys) : Type 0 where
  pub width : ℕ
  pub width_le : width ≤ 26
  pub size : keys.m_key_num ≡ 2 ^ width
  pub free : ℕ
  pub free_lt : free < keys.m_key_num
  pub is_null : key_at keys free ≡ null

pub HasRoom-Ends :
    (keys : Keys) (i perturb : ℕ)
    → HasRoom keys
    → perturb < 2 ^ 31
    → Ends keys (enough keys) i perturb
unfolding Ends
HasRoom-Ends keys i perturb r p< =
    let (n, n<, e) = walk-meets r.width i perturb r.free (omega arith) p< (omega arith) in
    (
      n,
      omega arith,
      ap (λ m. key_at keys (walk n i perturb % m)) r.size ∙ ap (key_at keys) e ∙ r.is_null,
    )

and-true : {a b : Bool} → (a && b) ≡ true → (a ≡ true) × (b ≡ true)
and-true {a} {b} h = ground arith

true-and : {a b : Bool} → a ≡ true → b ≡ true → (a && b) ≡ true
true-and {a} {b} h k = ground arith

==-refl : (n : ℕ) → (n == n) ≡ true
==-refl n = ground arith

module _ (mem : Memory) (keys : Keys) (key : CeStr) (table : IsTable mem keys) where
  abbrev hash : ℕ
  hash = text_hash (bytes_of mem key)

  -- An entry that matches the key has its bytes, and one that has them matches it.
  pub Matches-lem :
      (s a : ℕ)
      → key_at keys s ≡ string a
      → (is_key mem key hash (keys.m_key_entries s) a ≡ true) ↔ (c_string mem a ≡ bytes_of mem key)
  Matches-lem s a k = (
    λ m. sym (ce_memn2cmp_same (bytes_of mem key) (c_string mem a) (and-true m).1),
    λ same.
        rw (table.hashed s a k, same)
          (true-and (==-refl hash) (ce_memn2cmp_self (bytes_of mem key))),
  )

  -- The entry that has the key.
  unfoldable pub Present : ℕ → Type 0
  Present s = (a : ℕ) × (key_at keys s ≡ string a) × (c_string mem a ≡ bytes_of mem key)

  -- No entry has the key, and a new one can be put here.
  unfoldable pub Absent : ℕ → Type 0
  Absent s =
      ((t a : ℕ) → key_at keys t ≡ string a → c_string mem a ≢ bytes_of mem key)
      × ((key_at keys s ≡ null) ⊎ (key_at keys s ≡ dummy))
      × Reaches keys (slot keys hash) hash s

  pub find-cases :
      HasRoom keys
      → (s : ℕ) × (find_from (enough keys) mem keys key hash (slot keys hash) hash none ≡ some s)
        × (Present s ⊎ Absent s)
  unfolding Found Hit Miss Matches Present Absent
  find-cases r =
      let (s, e, found) =
        find_from-lem mem keys key hash (enough keys) (slot keys hash) hash none
          (HasRoom-Ends keys (slot keys hash) hash r (omega arith)) (λ f z. cc) in
      (
        s,
        e,
        elim found [
          | inl (reach, (a, k, m)) ↦ inl (a, k, (Matches-lem s a k).0 m)
          | inr (miss, k, place) ↦ inr (
            λ t a k' same.
                miss t
                  (subst (λ u. let h = text_hash u in Reaches keys (slot keys h) h t) same
                    (table.reached t a k'))
                  (a, k', (Matches-lem t a k').1 same),
            k,
            elim place [ inl reach ↦ reach | inr z ↦ cc ],
          )
        ],
      )

-- The key is bound to the value, or to none and the value is NULL.
unfoldable pub Looks : Memory → Keys → List ℕ → ℕ → Bool → Type 0
Looks mem keys u v found =
    (Binds mem keys u v × (found ≡ true))
    ⊎ ((v ≡ 0) × (found ≡ false) × ((w : ℕ) → ¬ Binds mem keys u w))

module _ (mem : Memory) (mp : CeMap) (key : CeStr) (table : IsTable mem mp.ma_keys)
    (room : HasRoom mp.ma_keys) (address : key.address ≢ 0) where
  pub find_key_entry-cases :
      (s : ℕ) × (find_key_entry mem mp key (string_hash mem key) ≡ some s)
      × (Present mem mp.ma_keys key table s ⊎ Absent mem mp.ma_keys key table s)
  unfolding find_key_entry
  find_key_entry-cases =
      rw (string_hash-lem mem key address) (find-cases mem mp.ma_keys key table room)

  pub some_key : (key.address == 0) ≡ false
  some_key = ground arith

  pub ce_map_get_value-lem :
      (v : ℕ) × (found : Bool) × (ce_map_get_value mem mp key ≡ some v)
      × (ce_map_coceins mem mp key ≡ some found)
      × Looks mem mp.ma_keys (bytes_of mem key) v found
  unfolding ce_map_get_value ce_map_coceins Present Absent Binds Looks
  ce_map_get_value-lem =
      let (s, e, found) = find_key_entry-cases in
      elim found [
        | inl (a, k, same) ↦ (
          (mp.ma_keys.m_key_entries s).m_value,
          true,
          rw (e, k, ce_map_get_value) refl,
          rw (e, k, some_key, ce_map_coceins) refl,
          inl ((s, a, k, same, refl), refl),
        )
        | inr (absent, inl k, r) ↦ (
          0,
          false,
          rw (e, k, ce_map_get_value) refl,
          rw (e, k, some_key, ce_map_coceins) refl,
          inr (refl, refl, λ w (t, a, k', same, x). absent t a k' same),
        )
        | inr (absent, inr k, r) ↦ (
          0,
          false,
          rw (e, k, ce_map_get_value) refl,
          rw (e, k, some_key, ce_map_coceins) refl,
          inr (refl, refl, λ w (t, a, k', same, x). absent t a k' same),
        )
      ]
