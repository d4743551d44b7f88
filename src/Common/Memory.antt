-- ===== src/Common/Memory.antt =====
-- Byte-addressed memory: what an address holds, `memcpy` into it, and what a range holds.
use Prim.Native.Nat.{ℕ, zero, suc, ◌+◌, ◌-◌, ◌%◌, ◌^◌, ◌≤◌, ◌<◌}
use mathlib.Core.Path.{◌≡◌, refl}
use mathlib.Core.Logic.{◌⊎◌}
use mathlib.Core.Option
use mathlib.Core.Option.{Option, none, some}
use mathlib.Core.List.{List, [], ◌∷◌, ◌++◌}
use native.Mathlib.Omega.{arith}
use cloudeagle.Common.Lists.{length, All}
use cloudeagle.Common.Tests.{◌==◌, if◌then◌else◌}

abbrev pub Memory : Type 0
Memory = ℕ → ℕ

-- `memcpy(p, bytes, length bytes)`: one byte at a time.
unfoldable pub store : Memory → ℕ → List ℕ → Memory
store m p [] = m
store m p (b ∷ bs) = λ a. if a == p then b else store m (p + 1) bs a

-- The `n` bytes from `p` on.
unfoldable pub load : Memory → ℕ → ℕ → List ℕ
load m p zero = []
load m p (suc n) = m p ∷ load m (p + 1) n

-- `strlen`: the distance to the first zero byte. The fuel is the number of bytes that can be read
-- from `p` on; `none` means that there is no zero byte among them.
unfoldable pub strlen : ℕ → Memory → ℕ → Option ℕ
strlen zero m p = none
strlen (suc fuel) m p =
    let rest = Option.map suc (strlen fuel m (p + 1)) in if m p == 0 then some 0 else rest

-- A pointer moved by a number of bytes, in 64 bits.
abbrev pub ptr_add : ℕ → ℕ → ℕ
ptr_add p n = (p + n) % 2 ^ 64

-- The bytes `bs` stand at the addresses from `p` on.
abbrev pub Holds : Memory → ℕ → List ℕ → Type 0
Holds m p [] = Unit
Holds m p (b ∷ bs) = (m p ≡ b) × Holds m (p + 1) bs

pub store_outside :
    (m : Memory) (p : ℕ) (bs : List ℕ) (a : ℕ)
    → (a < p) ⊎ (p + length bs ≤ a)
    → store m p bs a ≡ m a
unfolding store
store_outside m p [] a h = refl
store_outside m p (b ∷ bs) a h = ground (arith, store_outside m (p + 1) bs a)

pub Holds-frame :
    (m m' : Memory) (p : ℕ) (bs : List ℕ)
    → ((a : ℕ) → p ≤ a → a < p + length bs → m' a ≡ m a)
    → Holds m p bs
    → Holds m' p bs
Holds-frame m m' p [] same h = tt
Holds-frame m m' p (b ∷ bs) same (h, hs) = (
  ground (arith, same p),
  Holds-frame m m' (p + 1) bs (λ a lo hi. same a (omega arith) (omega arith)) hs,
)

pub Holds-store : (m : Memory) (p : ℕ) (bs : List ℕ) → Holds (store m p bs) p bs
unfolding store
Holds-store m p [] = tt
Holds-store m p (b ∷ bs) = (
  ground arith,
  Holds-frame (store m (p + 1) bs) _ (p + 1) bs (λ a lo hi. ground arith)
      (Holds-store m (p + 1) bs),
)

pub Holds-append :
    (m : Memory) (p q : ℕ) (bs cs : List ℕ)
    → q ≡ p + length bs
    → Holds m p bs
    → Holds m q cs
    → Holds m p (bs ++ cs)
Holds-append m p q [] cs e h k = let e' : p ≡ q = omega arith in ground (arith, k)
Holds-append m p q (b ∷ bs) cs e (h, hs) k = (h, Holds-append m (p + 1) q bs cs (omega arith) hs k)

pub Holds-split :
    (m : Memory) (p q : ℕ) (bs cs : List ℕ)
    → q ≡ p + length bs
    → Holds m p (bs ++ cs)
    → Holds m p bs × Holds m q cs
Holds-split m p q [] cs e h = (tt, let e' : p ≡ q = omega arith in ground (arith, h))
Holds-split m p q (b ∷ bs) cs e (h, hs) =
    let (l, r) = Holds-split m (p + 1) q bs cs (omega arith) hs in ((h, l), r)

-- A text with no zero byte in it and one behind it has its own length.
pub strlen-Holds :
    (fuel : ℕ) (m : Memory) (p : ℕ) (bs : List ℕ)
    → length bs < fuel
    → All (λ b. 0 < b) bs
    → Holds m p (bs ++ (0 ∷ []))
    → strlen fuel m p ≡ some (length bs)
unfolding strlen
strlen-Holds zero m p bs lt pos h = absurd (omega arith)
strlen-Holds (suc fuel) m p [] lt pos h = ground arith
strlen-Holds (suc fuel) m p (b ∷ bs) lt (nonzero, pos) (h, hs) =
    ground (arith, strlen-Holds fuel m (p + 1) bs (omega arith) pos hs)

pub load-Holds : (m : Memory) (p : ℕ) (bs : List ℕ) → Holds m p bs → load m p (length bs) ≡ bs
unfolding load
load-Holds m p [] h = refl
load-Holds m p (b ∷ bs) (h, hs) = ground (arith, load-Holds m (p + 1) bs hs)

-- At most `n` bytes from `a` on, up to the first zero byte.
abbrev pub text : ℕ → Memory → ℕ → List ℕ
text zero m a = []
text (suc n) m a = elim (m a) [ zero ↦ [] | suc b ↦ suc b ∷ text n m (suc a) ]

-- The bytes of the C string at `a`, without its zero byte.
unfoldable pub c_string : Memory → ℕ → List ℕ
c_string m a = text (2 ^ 64 - a) m a
