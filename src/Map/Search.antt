-- ===== src/Map/Search.antt =====
-- What the searches of ce_util/ce_map.c find.
use cloudeagle.Common.{
  ℕ, zero, suc, ◌/◌, ◌<◌, ◌≡◌, ◌≢◌, refl, sym, subst, arith, true, false, Bool-cases, Option, none,
  some, Option-cases, inl, inr, ◌⊎◌,
}
use cloudeagle.Common.Memory.{Memory}
use cloudeagle.Map.{Key, null, dummy, string, Keys, CeStr, slot, next_i, is_key, find_from}
use cloudeagle.Map.Walk.{walk}

pub Key-cases : (k : Key) → (k ≡ null) ⊎ (k ≡ dummy) ⊎ ((a : ℕ) × (k ≡ string a))
Key-cases null = inl refl
Key-cases dummy = inr (inl refl)
Key-cases (string a) = inr (inr (a, refl))

module _ (keys : Keys) where
  -- The key of the entry that is looked at.
  abbrev pub key_at : ℕ → Key
  key_at s = (keys.m_key_entries s).m_key

  -- The first `n` looks of a search meet nn NULL key.
  abbrev pub NoNull : ℕ → ℕ → ℕ → Type 0
  NoNull zero i perturb = Unit
  NoNull (suc n) i perturb =
      (key_at (slot keys i) ≢ null) × NoNull n (next_i i perturb) (perturb / 32)

  -- A search comes to the slot before it has met a NULL key elsewhere.
  unfoldable pub Reaches : ℕ → ℕ → ℕ → Type 0
  Reaches i perturb s = (n : ℕ) × NoNull n i perturb × (slot keys (walk n i perturb) ≡ s)

  -- A NULL key is met by one of the first `fuel` looks.
  unfoldable pub Ends : ℕ → ℕ → ℕ → Type 0
  Ends fuel i perturb = (n : ℕ) × (n < fuel) × (key_at (slot keys (walk n i perturb)) ≡ null)

  pub Reaches-here : (i perturb : ℕ) → Reaches i perturb (slot keys i)
  unfolding Reaches walk
  Reaches-here i perturb = (0, tt, refl)

  pub Reaches-next :
      (i perturb s : ℕ)
      → key_at (slot keys i) ≢ null
      → Reaches (next_i i perturb) (perturb / 32) s
      → Reaches i perturb s
  unfolding Reaches walk
  Reaches-next i perturb s h (n, nn, e) = (suc n, (h, nn), e)

  -- Only the slot looked at, or one that the rest of the search reaches.
  Reaches-cases :
      (i perturb s : ℕ)
      → Reaches i perturb s
      → (slot keys i ≡ s)
        ⊎ ((key_at (slot keys i) ≢ null) × Reaches (next_i i perturb) (perturb / 32) s)
  unfolding Reaches walk
  Reaches-cases i perturb s (zero, nn, e) = inl e
  Reaches-cases i perturb s (suc n, (h, nn), e) = inr (h, (n, nn, e))

  pub Ends-next :
      (fuel i perturb : ℕ)
      → key_at (slot keys i) ≢ null
      → Ends (suc fuel) i perturb
      → Ends fuel (next_i i perturb) (perturb / 32)
  unfolding Ends walk
  Ends-next fuel i perturb h (zero, n<, e) = absurd (h e)
  Ends-next fuel i perturb h (suc n, n<, e) = (n, omega arith, e)

module _ (mem : Memory) (keys : Keys) (key : CeStr) (hash : ℕ) where
  -- The entry of the slot has the key that is searched for.
  unfoldable pub Matches : ℕ → Type 0
  Matches s =
      (a : ℕ) × (key_at keys s ≡ string a) × (is_key mem key hash (keys.m_key_entries s) a ≡ true)

  unfoldable pub Hit : ℕ → ℕ → ℕ → Type 0
  Hit i perturb s = Reaches keys i perturb s × Matches s

  unfoldable pub Miss : ℕ → ℕ → Option ℕ → ℕ → Type 0
  Miss i perturb free s =
      ((t : ℕ) → Reaches keys i perturb t → ¬ Matches t)
      × ((key_at keys s ≡ null) ⊎ (key_at keys s ≡ dummy))
      × (Reaches keys i perturb s ⊎ (free ≡ some s))

  abbrev pub or_else : Option ℕ → ℕ → Option ℕ
  or_else free s = elim free [ none ↦ some s | some f ↦ some f ]

  or_else-cases : (free : Option ℕ) (s t : ℕ) → or_else free s ≡ some t → (s ≡ t) ⊎ (free ≡ some t)
  or_else-cases none s t e = inl (cc)
  or_else-cases (some f) s t e = inr e

  unfoldable pub Found : ℕ → ℕ → ℕ → Option ℕ → Type 0
  Found fuel i perturb free =
      (s : ℕ) × (find_from fuel mem keys key hash i perturb free ≡ some s)
      × (Hit i perturb s ⊎ Miss i perturb free s)

  no-Matches : (s : ℕ) → (key_at keys s ≡ null) ⊎ (key_at keys s ≡ dummy) → ¬ Matches s
  unfolding Matches
  no-Matches s (inl h) (a, e, _) = cc
  no-Matches s (inr h) (a, e, _) = cc

  string-ne_Matches :
      (s a : ℕ)
      → key_at keys s ≡ string a
      → is_key mem key hash (keys.m_key_entries s) a ≡ false
      → ¬ Matches s
  unfolding Matches
  string-ne_Matches s a h ne (b, e, m) = cc

  -- What is not found here is not found at all, if it is not found by the rest of the search.
  no-Matches_here :
      (i perturb : ℕ)
      → ¬ Matches (slot keys i)
      → ((t : ℕ) → Reaches keys (next_i i perturb) (perturb / 32) t → ¬ Matches t)
      → (t : ℕ) → Reaches keys i perturb t
      → ¬ Matches t
  no-Matches_here i perturb here rest t r m = elim (Reaches-cases keys i perturb t r) [
    | inl same ↦ here (subst Matches (sym same) m)
    | inr (nn, r') ↦ rest t r' m
  ]

  Found-null :
      (fuel i perturb : ℕ) (free : Option ℕ)
      → key_at keys (slot keys i) ≡ null
      → ((f : ℕ) → free ≡ some f → key_at keys f ≡ dummy)
      → Found (suc fuel) i perturb free
  unfolding Found Miss find_from
  Found-null fuel i perturb free h ok =
      let none_later : (t : ℕ) → Reaches keys i perturb t → ¬ Matches t = λ t r m.
        elim (Reaches-cases keys i perturb t r) [
          | inl same ↦ no-Matches (slot keys i) (inl h) (subst Matches (sym same) m)
          | inr (nn, _) ↦ nn h
        ] in
      elim (Option-cases free) [
        | inl e ↦ (
          slot keys i,
          rw (h, e, find_from) refl,
          inr (none_later, inl h, inl (Reaches-here keys i perturb)),
        )
        | inr (f, e) ↦ (f, rw (h, e, find_from) refl, inr (none_later, inr (ok f e), inr e))
      ]

  Found-dummy :
      (fuel i perturb : ℕ) (free : Option ℕ)
      → key_at keys (slot keys i) ≡ dummy
      → Found fuel (next_i i perturb) (perturb / 32) (or_else free (slot keys i))
      → Found (suc fuel) i perturb free
  unfolding Found Hit Miss find_from
  Found-dummy fuel i perturb free h (s, e, inl (r, m)) =
      (s, rw (h, find_from) e, inl (Reaches-next keys i perturb s (λ k. cc) r, m))
  Found-dummy fuel i perturb free h (s, e, inr (nm, k, r)) = (
    s,
    rw (h, find_from) e,
    inr (
      no-Matches_here i perturb (no-Matches (slot keys i) (inr h)) nm,
      k,
      elim r [
        | inl r' ↦ inl (Reaches-next keys i perturb s (λ k'. cc) r')
        | inr f ↦ elim (or_else-cases free (slot keys i) s f) [
          | inl same ↦ inl (subst (Reaches keys i perturb) same (Reaches-here keys i perturb))
          | inr f' ↦ inr f'
        ]
      ],
    ),
  )

  Found-string :
      (fuel i perturb a : ℕ) (free : Option ℕ)
      → key_at keys (slot keys i) ≡ string a
      → is_key mem key hash (keys.m_key_entries (slot keys i)) a ≡ false
      → Found fuel (next_i i perturb) (perturb / 32) free
      → Found (suc fuel) i perturb free
  unfolding Found Hit Miss find_from
  Found-string fuel i perturb a free h ne (s, e, inl (r, m)) =
      (s, rw (h, ne, find_from) e, inl (Reaches-next keys i perturb s (λ k. cc) r, m))
  Found-string fuel i perturb a free h ne (s, e, inr (nm, k, r)) = (
    s,
    rw (h, ne, find_from) e,
    inr (
      no-Matches_here i perturb (string-ne_Matches (slot keys i) a h ne) nm,
      k,
      elim r [ inl r' ↦ inl (Reaches-next keys i perturb s (λ k'. cc) r') | inr f ↦ inr f ],
    ),
  )

  -- A search that meets a NULL key in time finds the entry with the key, or that there is none and
  -- the place for it: the first deleted entry on the way, or else the NULL key.
  pub find_from-lem :
      (fuel i perturb : ℕ) (free : Option ℕ)
      → Ends keys fuel i perturb
      → ((f : ℕ) → free ≡ some f → key_at keys f ≡ dummy)
      → Found fuel i perturb free
  unfolding Ends Found Hit Matches find_from
  find_from-lem zero i perturb free (n, n<, e) ok = absurd (omega arith)
  find_from-lem (suc fuel) i perturb free ends ok = elim (Key-cases (key_at keys (slot keys i))) [
    | inl h ↦ Found-null fuel i perturb free h ok
    | inr (inl h) ↦ Found-dummy fuel i perturb free h (
        find_from-lem fuel (next_i i perturb) (perturb / 32) (or_else free (slot keys i))
          (Ends-next keys fuel i perturb (λ k. cc) ends)
          (λ f e. elim (or_else-cases free (slot keys i) f e) [
            | inl same ↦ subst (λ t. key_at keys t ≡ dummy) same h
            | inr e' ↦ ok f e'
          ]))
    | inr (inr (a, h)) ↦
        elim (Bool-cases (is_key mem key hash (keys.m_key_entries (slot keys i)) a)) [
          | inl is ↦ (
            slot keys i,
            rw (h, is, find_from) refl,
            inl (Reaches-here keys i perturb, (a, h, is)),
          )
          | inr ne ↦ Found-string fuel i perturb a free h ne (
              find_from-lem fuel (next_i i perturb) (perturb / 32) free
                (Ends-next keys fuel i perturb (λ k. cc) ends) ok)
        ]
  ]
