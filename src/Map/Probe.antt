-- ===== src/Map/Probe.antt =====
-- The steps that find_key_entry of ce_util/ce_map.c takes from slot to slot.
use native.Mathlib.Nat.{zero-add, suc-add}
use cloudeagle.Common.{ℕ, zero, suc, ◌+◌, ◌*◌, ◌^◌, ◌<◌, ◌≡◌, refl, ◌∙◌, ap, inl, inr, ◌⊎◌, arith}

-- The steps that are left when `perturb` has become zero.
unfoldable pub orbit : ℕ → ℕ → ℕ
orbit zero x = x
orbit (suc n) x = orbit n (5 * x + 1)

pub orbit-add : (m n x : ℕ) → orbit (m + n) x ≡ orbit n (orbit m x)
unfolding orbit
orbit-add zero n x = rw zero-add refl
orbit-add (suc m) n x = rw suc-add (orbit-add m n (5 * x + 1))

module _ (p u w : ℕ) where
  -- Twice a map of this shape is one of the shape for `p + p`.
  abbrev jump : ℕ → ℕ
  jump x = x + 4 * (p * (u * x)) + p * (2 * w + 1)

  jump-jump :
      (x : ℕ)
      → jump (jump x)
        ≡ x
          + 4 * ((2 * p) * ((u + 2 * (p * (u * u))) * x))
          + (2 * p) * (2 * (w + 2 * (p * (u * w)) + p * u) + 1)
  jump-jump x = omega arith

-- 2 ^ k steps are the affine map of a factor 1 modulo 2 ^ (k + 2) and an odd multiple of 2 ^ k.
abbrev Jumps : ℕ → Type 0
Jumps k = (u w : ℕ) × ((x : ℕ) → orbit (2 ^ k) x ≡ jump (2 ^ k) u w x)

orbit-Jumps : (k : ℕ) → Jumps k
unfolding orbit
orbit-Jumps zero = (1, 0, λ x. omega arith)
orbit-Jumps (suc k) =
    let (u, w, all) = orbit-Jumps k in
    let p : ℕ = 2 ^ k in
    (
      u + 2 * (p * (u * u)),
      w + 2 * (p * (u * w)) + p * u,
      λ x.
          let two : 2 ^ suc k ≡ 2 * p = omega arith in
          let e : 2 * p ≡ p + p = omega arith in
          let double : orbit (2 * p) x ≡ orbit p (orbit p x) = rw e (orbit-add p p x) in
          rw two (double ∙ all (orbit p x) ∙ ap (jump p u w) (all x) ∙ jump-jump p u w x),
    )

parity : (n : ℕ) → ((j : ℕ) × (n ≡ 2 * j)) ⊎ ((j : ℕ) × (n ≡ 2 * j + 1))
parity zero = inl (0, refl)
parity (suc n) = elim (parity n) [
  | inl (j, h) ↦ inr (j, omega (arith, h))
  | inr (j, h) ↦ inl (j + 1, omega (arith, h))
]

module _ (p a q q' y j : ℕ) (e : a + p * q ≡ y + p * q') where
  meets-even : q + q' ≡ 2 * j → a + 2 * p * q ≡ y + 2 * p * j
  meets-even h = omega (arith, ap (λ t. p * t) h)

  meets-odd :
      (u w : ℕ)
      → q + q' ≡ 2 * j + 1
      → jump p u w a + 2 * p * q ≡ y + 2 * p * (j + 1 + 2 * (u * a) + w)
  meets-odd u w h = omega (arith, ap (λ t. p * t) h)

-- From any number, 2 ^ k steps meet every remainder of 2 ^ k.
pub orbit-meets :
    (k x y : ℕ) → (n : ℕ) × (n < 2 ^ k) × (q q' : ℕ) × (orbit n x + 2 ^ k * q ≡ y + 2 ^ k * q')
unfolding orbit
orbit-meets zero x y = (0, omega arith, y, x, omega arith)
orbit-meets (suc k) x y =
    let (n, n<, q, q', e) = orbit-meets k x y in
    let (u, w, all) = orbit-Jumps k in
    let two : 2 ^ suc k ≡ 2 * 2 ^ k = omega arith in
    elim (parity (q + q')) [
      | inl (j, h) ↦ (n, omega arith, q, j, rw two (meets-even (2 ^ k) (orbit n x) q q' y j e h))
      | inr (j, h) ↦ (
        n + 2 ^ k,
        omega arith,
        q,
        j + 1 + 2 * (u * orbit n x) + w,
        rw (two, orbit-add n (2 ^ k) x, all (orbit n x))
            (meets-odd (2 ^ k) (orbit n x) q q' y j e u w h),
      )
    ]
