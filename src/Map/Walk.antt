-- ===== src/Map/Walk.antt =====
-- Where the searches of ce_util/ce_map.c go: they meet every slot in as many looks as there are slots
-- and seven more.
use native.Mathlib.Nat.{
  add-zero, add-suc, pow-succ', mod-add-div, mod-mod_of_dvd, add-mul-mod_self_left, mod-eq_of_lt,
}
use cloudeagle.Common.{
  ℕ, zero, suc, ◌+◌, ◌-◌, ◌*◌, ◌/◌, ◌%◌, ◌^◌, ◌≤◌, ◌<◌, ◌≡◌, refl, ◌∙◌, sym, ap, arith,
}
use cloudeagle.Map.{next_i}
use cloudeagle.Map.Probe.{orbit, orbit-meets}

-- The `i` of the look after `n` more.
unfoldable pub walk : ℕ → ℕ → ℕ → ℕ
walk zero i perturb = i
walk (suc n) i perturb = walk n (next_i i perturb) (perturb / 32)

pow-split : (k j : ℕ) → 2 ^ (k + j) ≡ 2 ^ k * 2 ^ j
pow-split k zero = rw add-zero (omega arith)
pow-split k (suc j) =
    rw (add-suc, pow-succ' 2 (k + j), pow-succ' 2 j) (omega (arith, pow-split k j))

affine-mod : (m i : ℕ) → (5 * i + 1) % m ≡ (5 * (i % m) + 1) % m
affine-mod m i =
    let e : 5 * i + 1 ≡ 5 * (i % m) + 1 + m * (5 * (i / m)) = omega (arith, mod-add-div i m) in
    ap (λ t. t % m) e ∙ add-mul-mod_self_left (5 * (i % m) + 1) m (5 * (i / m))

next-mod : (k i j : ℕ) → k ≤ 32 → i % 2 ^ k ≡ j % 2 ^ k → next_i i 0 % 2 ^ k ≡ (5 * j + 1) % 2 ^ k
next-mod k i j k≤ e =
    let step : next_i i 0 ≡ (5 * i + 1) % 2 ^ 32 = omega arith in
    let all : 32 ≡ k + (32 - k) = omega arith in
    ap (λ t. t % 2 ^ k) step
    ∙ mod-mod_of_dvd (2 ^ k) (5 * i + 1)
        ∣ (2 ^ (32 - k), ap (λ t. 2 ^ t) all ∙ pow-split k (32 - k)) ∣₁
    ∙ affine-mod (2 ^ k) i
    ∙ ap (λ t. (5 * t + 1) % 2 ^ k) e
    ∙ sym (affine-mod (2 ^ k) j)

walk-orbit : (k n i j : ℕ) → k ≤ 32 → i % 2 ^ k ≡ j % 2 ^ k → walk n i 0 % 2 ^ k ≡ orbit n j % 2 ^ k
unfolding walk orbit
walk-orbit k zero i j k≤ e = e
walk-orbit k (suc n) i j k≤ e = walk-orbit k n (next_i i 0) (5 * j + 1) k≤ (next-mod k i j k≤ e)

remainder : (m a s q q' : ℕ) → s < m → a + m * q ≡ s + m * q' → a % m ≡ s
remainder m a s q q' s< e =
    sym (add-mul-mod_self_left a m q)
    ∙ ap (λ t. t % m) e
    ∙ add-mul-mod_self_left s m q'
    ∙ mod-eq_of_lt s<

-- From any place, and with a `perturb` below 2 ^ 31, each of 2 ^ k slots is looked at by one of
-- 2 ^ k + 7 looks, for k at most 32.
pub walk-meets :
    (k i perturb s : ℕ)
    → k ≤ 32
    → perturb < 2 ^ 31
    → s < 2 ^ k
    → (n : ℕ) × (n < 2 ^ k + 7) × (walk n i perturb % 2 ^ k ≡ s)
unfolding walk
walk-meets k i perturb s k≤ p< s< =
    let (n, n<, q, q', e) = orbit-meets k (walk 7 i perturb) s in
    let p : ℕ = perturb / 32 / 32 / 32 / 32 / 32 / 32 / 32 in
    let p0 : p ≡ 0 = omega arith in
    (
      suc (suc (suc (suc (suc (suc (suc n)))))),
      omega arith,
      ap (λ t. walk n (walk 7 i perturb) t % 2 ^ k) p0
          ∙ walk-orbit k n (walk 7 i perturb) (walk 7 i perturb) k≤ refl
          ∙ remainder (2 ^ k) (orbit n (walk 7 i perturb)) s q q' s< e,
    )
