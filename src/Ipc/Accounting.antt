-- ===== src/Ipc/Accounting.antt =====
-- Who has still to read a block of ce_util/ce_ipc_shm.c, and when the block can be collected.
use cloudeagle.Common.{
  ℕ, zero, suc, ◌+◌, ◌<◌, ◌≡◌, ◌≢◌, refl, ap, sym, inl, inr, arith, Option, none, some, List, [],
  ◌∷◌, Bool, true, false, ◌==◌, ◌&&◌, ◌||◌, if◌then◌else◌, modify, Bool-cases,
}
use mathlib.Core.Option
use cloudeagle.Ipc.Read.{getpid_index}
use cloudeagle.Ipc.Collect.{has}

-- How many of the first `n` entries name a reader.
abbrev pub outstanding : ℕ → List ℕ → ℕ
outstanding zero pids = 0
outstanding (suc n) [] = 0
outstanding (suc n) (p ∷ pids) = (if p == 0 then 0 else 1) + outstanding n pids

-- Each of the first `n` readers is gone or among `order`.
abbrev pub all_read : List ℕ → ℕ → List ℕ → Bool
all_read order zero pids = true
all_read order (suc n) [] = true
all_read order (suc n) (p ∷ pids) = (p == 0 || has p order) && all_read order n pids

-- `x` is none of the first `n` entries.
abbrev pub Missing : ℕ → ℕ → List ℕ → Type 0
Missing zero x pids = Unit
Missing (suc n) x [] = Unit
Missing (suc n) x (p ∷ pids) = (p ≢ x) × Missing n x pids

-- No reader stands twice among the first `n` entries.
abbrev pub OnceEach : ℕ → List ℕ → Type 0
OnceEach zero pids = Unit
OnceEach (suc n) [] = Unit
OnceEach (suc n) (p ∷ pids) = (0 < p → Missing n p pids) × OnceEach n pids

-- `x` is struck out.
abbrev pub cross : ℕ → ℕ → List ℕ → List ℕ
cross zero x pids = pids
cross (suc n) x [] = []
cross (suc n) x (p ∷ pids) = (if p == x then 0 else p) ∷ cross n x pids

cross-Missing : (n x : ℕ) (pids : List ℕ) → Missing n x pids → cross n x pids ≡ pids
cross-Missing zero x pids h = refl
cross-Missing (suc n) x [] h = refl
cross-Missing (suc n) x (p ∷ pids) (ne, h) = ground (arith, cross-Missing n x pids h)

abbrev pub Crossed : ℕ → ℕ → List ℕ → Option ℕ → Type 0
Crossed n x pids none = cross n x pids ≡ pids
Crossed n x pids (some i) =
    (modify i (λ p. 0) pids ≡ cross n x pids)
    × (outstanding n (modify i (λ p. 0) pids) + 1 ≡ outstanding n pids)

Crossed-suc :
    (n x p : ℕ) (pids : List ℕ) (o : Option ℕ)
    → (p == x) ≡ false
    → Crossed n x pids o
    → Crossed (suc n) x (p ∷ pids) (Option.map suc o)
Crossed-suc n x p pids none miss h = rw miss (ap (λ (l : List ℕ). p ∷ l) h)
Crossed-suc n x p pids (some i) miss (e, k) =
    (rw miss (ap (λ (l : List ℕ). p ∷ l) e), omega (arith, k))

pub getpid_index-Crossed :
    (n x : ℕ) (pids : List ℕ) → 0 < x → OnceEach n pids → Crossed n x pids (getpid_index n x pids)
unfolding getpid_index
getpid_index-Crossed zero x pids pos once = refl
getpid_index-Crossed (suc n) x [] pos once = refl
getpid_index-Crossed (suc n) x (p ∷ pids) pos (far, once) = elim (Bool-cases (p == x)) [
  | inl hit ↦
      let e : p ≡ x = ground arith in
      let out : Missing n x pids = rw e at (far (omega arith)) in
      rw (hit, getpid_index)
        (rw hit (ap (λ (l : List ℕ). 0 ∷ l) (sym (cross-Missing n x pids out))), ground arith)
  | inr miss ↦
      rw (miss, getpid_index)
        (Crossed-suc n x p pids (getpid_index n x pids) miss
          (getpid_index-Crossed n x pids pos once))
]

Missing-cross :
    (n x y : ℕ) (pids : List ℕ) → 0 < y → Missing n y pids → Missing n y (cross n x pids)
Missing-cross zero x y pids pos h = tt
Missing-cross (suc n) x y [] pos h = tt
Missing-cross (suc n) x y (p ∷ pids) pos (ne, h) = (ground arith, Missing-cross n x y pids pos h)

pub OnceEach-cross : (n x : ℕ) (pids : List ℕ) → OnceEach n pids → OnceEach n (cross n x pids)
OnceEach-cross zero x pids h = tt
OnceEach-cross (suc n) x [] h = tt
OnceEach-cross (suc n) x (p ∷ pids) (far, h) = elim (Bool-cases (p == x)) [
  | inl hit ↦ rw hit ((λ pos. absurd (omega arith)), OnceEach-cross n x pids h)
  | inr miss ↦ rw miss ((λ pos. Missing-cross n x p pids pos (far pos)), OnceEach-cross n x pids h)
]

pub all_read-cross :
    (order : List ℕ) (n x : ℕ) (pids : List ℕ)
    → all_read order n (cross n x pids) ≡ all_read (x ∷ order) n pids
all_read-cross order zero x pids = refl
all_read-cross order (suc n) x [] = refl
all_read-cross order (suc n) x (p ∷ pids) =
    let ih = all_read-cross order n x pids in
    elim (Bool-cases (p == x)) [ inl hit ↦ ground (arith, ih) | inr miss ↦ ground (arith, ih) ]

pub all_read-outstanding : (n : ℕ) (pids : List ℕ) → all_read [] n pids ≡ (outstanding n pids == 0)
all_read-outstanding zero pids = refl
all_read-outstanding (suc n) [] = refl
all_read-outstanding (suc n) (p ∷ pids) = ground (arith, all_read-outstanding n pids)
