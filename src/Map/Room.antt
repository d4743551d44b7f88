-- ===== src/Map/Room.antt =====
-- find_empty_slot and insertmap_clean of ce_util/ce_map.c on a table with room, and the size that
-- map_resize takes.
use native.Mathlib.Nat.{pow-succ', mod-eq_of_lt, pow-le-pow_right}
use cloudeagle.Common.{
  ℕ, zero, suc, ◌+◌, ◌*◌, ◌/◌, ◌%◌, ◌^◌, ◌<◌, ◌≤◌, ◌≡◌, ◌≢◌, refl, ap, ◌∙◌, arith, true, false, inl,
  inr, ◌⊎◌, some, ◌==◌, not, ◌&&◌, leb,
}
use cloudeagle.Common.Memory.{Memory}
use cloudeagle.Map.{null, string, Entry, Keys, slot, next_i, enough}
use cloudeagle.Map.Change.{
  empty_from, find_empty_slot, insertmap_clean, set_entry, new_size_from, int_leb,
}
use cloudeagle.Map.Search.{key_at, Reaches, Ends, Reaches-here, Reaches-next, Ends-next, Key-cases}
use cloudeagle.Map.Table.{IsTable}
use cloudeagle.Map.Put.{Puts}
use cloudeagle.Map.Lookup.{HasRoom, HasRoom-Ends}

-- A NULL key that a search comes to.
abbrev pub Empty : Keys → ℕ → ℕ → ℕ → Type 0
Empty keys i perturb s = (key_at keys s ≡ null) × Reaches keys i perturb s

empty_from-lem :
    (fuel : ℕ) (keys : Keys) (i perturb : ℕ)
    → Ends keys fuel i perturb
    → (s : ℕ) × (empty_from fuel keys i perturb ≡ some s) × Empty keys i perturb s
unfolding empty_from Ends
empty_from-lem zero keys i perturb (n, n<, e) = absurd (omega arith)
empty_from-lem (suc fuel) keys i perturb ends =
    let later : key_at keys (slot keys i) ≢ null
        → (s : ℕ) × (empty_from fuel keys (next_i i perturb) (perturb / 32) ≡ some s)
          × Empty keys i perturb s =
      λ ne.
        let (s, e, (k, r)) =
          empty_from-lem fuel keys (next_i i perturb) (perturb / 32)
            (Ends-next keys fuel i perturb ne ends) in
        (s, e, (k, Reaches-next keys i perturb s ne r)) in
    elim (Key-cases (key_at keys (slot keys i))) [
      | inl h ↦ (slot keys i, rw (h, empty_from) refl, (h, Reaches-here keys i perturb))
      | inr (inl h) ↦ let (s, e, k) = later (λ z. cc) in (s, rw (h, empty_from) e, k)
      | inr (inr (a, h)) ↦ let (s, e, k) = later (λ z. cc) in (s, rw (h, empty_from) e, k)
    ]

pub find_empty_slot-lem :
    (mem : Memory) (keys : Keys) (hash : ℕ)
    → IsTable mem keys
    → HasRoom keys
    → hash < 2 ^ 31
    → (s : ℕ) × (find_empty_slot keys hash ≡ some s) × Empty keys (slot keys hash) hash s
unfolding find_empty_slot
find_empty_slot-lem mem keys hash table room h< =
    let (s, e, (k, r)) =
      empty_from-lem (enough keys) keys (slot keys hash) hash
        (HasRoom-Ends keys (slot keys hash) hash room h<) in
    (s, rw (e, table.unvalued s (inl k), find_empty_slot) refl, (k, r))

pub set_entry-Puts :
    (keys : Keys) (n s : ℕ) (e : Entry)
    → Puts keys (set_entry (record keys { m_key_usable = n }) s e) s e
set_entry-Puts keys n s e = record {
  size = refl;
  here = ground arith;
  else_where = λ t ne. ground arith;
}

-- The table after `insertmap_clean`, and the place of the new entry.
pub insertmap_clean-lem :
    (mem : Memory) (keys : Keys) (a hash value : ℕ)
    → IsTable mem keys
    → HasRoom keys
    → hash < 2 ^ 31
    → value ≢ 0
    → (s : ℕ) × (insertmap_clean keys (string a) hash value
        ≡ some (set_entry keys s (record { m_hash = hash; m_key = string a; m_value = value })))
      × Empty keys (slot keys hash) hash s
unfolding insertmap_clean
insertmap_clean-lem mem keys a hash value table room h< v =
    let (s, e, found) = find_empty_slot-lem mem keys hash table room h< in
    let some_value : (value == 0) ≡ false = ground arith in (s, rw (some_value, e) refl, found)

leb-cases : (a b : ℕ) → ((leb a b ≡ true) × (a ≤ b)) ⊎ ((leb a b ≡ false) × (b < a))
leb-cases a b = ground arith

last-cases : (j : ℕ) → j ≤ 26 → (j ≡ 26) ⊎ (j < 26)
last-cases j le = ground arith

-- The test of the loop, for numbers that are no more than 2 ^ 26.
goes_on-lem :
    (size m : ℕ)
    → 0 < size
    → size ≤ 2 ^ 26
    → m < 2 ^ 26
    → (int_leb size m && not (int_leb size 0)) ≡ leb size m
goes_on-lem size m pos hi m< = ground arith

power_step : (j : ℕ) → j ≤ 26 → (0 < 2 ^ j) × (2 ^ j ≤ 2 ^ 26) × (2 ^ j * 2 % 2 ^ 32 ≡ 2 ^ suc j)
power_step j le =
    let pos : 1 ≤ 2 ^ j = pow-le-pow_right (omega arith) {i = 0} (omega arith) in
    let hi : 2 ^ j ≤ 2 ^ 26 = pow-le-pow_right (omega arith) le in
    (pos, hi, mod-eq_of_lt (omega arith) ∙ omega (arith, pow-succ' 2 j))

below : (j m : ℕ) → j ≤ 26 → 2 ^ j ≤ m → m < 2 ^ 26 → j < 26
below j m le lo hi = elim (last-cases j le) [
  | inl e ↦ absurd (omega (arith, ap (λ t. 2 ^ t) e))
  | inr lt ↦ lt
]

-- The size is a power of two above `minused`.
pub new_size_from-lem :
    (fuel j minused : ℕ)
    → minused < 2 ^ 26
    → j ≤ 26
    → 27 ≤ fuel + j
    → (k : ℕ) × (j ≤ k)
      × (k ≤ 26)
      × (new_size_from fuel (2 ^ j) minused ≡ 2 ^ k)
      × (minused < 2 ^ k)
unfolding new_size_from
new_size_from-lem zero j minused m< j≤ f = absurd (omega arith)
new_size_from-lem (suc fuel) j minused m< j≤ f =
    let (pos, hi, step) = power_step j j≤ in
    let test = goes_on-lem (2 ^ j) minused pos hi m< in
    elim (leb-cases (2 ^ j) minused) [
      | inl (t, le) ↦
          let (k, lo, up, e, lt) =
            new_size_from-lem fuel (suc j) minused m< (below j minused j≤ le m<) (omega arith) in
          (k, omega arith, up, rw (test, t, new_size_from) (rw step e), lt)
      | inr (t, lt) ↦ (j, omega arith, j≤, rw (test, t, new_size_from) refl, lt)
    ]
