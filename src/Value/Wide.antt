-- ===== src/Value/Wide.antt =====
-- VALUE_GET of eight bytes: the shifts by 32 and more are made on an int.
use cloudeagle.Common.{ℕ, zero, suc, ◌+◌, ◌-◌, ◌*◌, ◌%◌, ◌^◌, ◌≤◌, ◌<◌, ◌≡◌, ◌≢◌, ◌⊎◌, arith}
use cloudeagle.Common.{ltb, if◌then◌else◌}
use cloudeagle.Common.Memory.{Memory, Holds}
use cloudeagle.Value.{value_append, value_get, shl_int, from_int}

-- A 64-bit pattern whose number is within k * 2 ^ 31 of zero.
abbrev IsNear : ℕ → ℕ → Type 0
IsNear k x = (x < 2 ^ 64) × ((x ≤ k * 2 ^ 31) ⊎ (2 ^ 64 ≤ x + k * 2 ^ 31))

IsNear-from_int : (x : ℕ) → x < 2 ^ 32 → IsNear 1 (from_int 64 x)
unfolding from_int
IsNear-from_int x h = ground arith

shl_int-lt :
    (wide_shl : ℕ → ℕ → ℕ) (b s : ℕ) → wide_shl b s < 2 ^ 32 → shl_int wide_shl b s < 2 ^ 32
unfolding shl_int
shl_int-lt wide_shl b s h = ground arith

IsNear-add : (k a d : ℕ) → IsNear k a → IsNear 1 d → IsNear (k + 1) ((a + d) % 2 ^ 64)
IsNear-add k a d h g = ground arith

module _ (wide_shl : ℕ → ℕ → ℕ) (is_int : (b s : ℕ) → wide_shl b s < 2 ^ 32) where
  -- One round of the loop takes the sum at most 2 ^ 31 further from zero.
  IsNear-step :
      (k a b s : ℕ)
      → IsNear k a
      → IsNear (k + 1) ((a + from_int 64 (shl_int wide_shl b s)) % 2 ^ 64)
  IsNear-step k a b s h =
      IsNear-add k a _ h (IsNear-from_int _ (shl_int-lt wide_shl b s (is_int b s)))

  IsNear-value_get :
      (n k : ℕ) (m : Memory) (p a : ℕ) → IsNear k a → IsNear (k + n) (value_get wide_shl 64 n m p a)
  unfolding value_get
  IsNear-value_get zero k m p a h = let e : k ≡ k + zero = omega arith in rw (← e) h
  IsNear-value_get (suc n) k m p a h =
      let e : k + 1 + n ≡ k + suc n = omega arith in
      rw e at (IsNear-value_get n (k + 1) m (p + 1) _ (IsNear-step k a (m p) (8 * n % 256) h))

  -- Whatever the wide shifts give, as long as each is an int: an eight-byte read never returns a
  -- 64-bit value more than 2 ^ 34 away from zero, so no such value survives being written
  -- and read back.
  pub value_get-ne_wide :
      (m : Memory) (p v : ℕ) → 2 ^ 34 < v → v + 2 ^ 34 < 2 ^ 64 → value_get wide_shl 64 8 m p 0 ≢ v
  value_get-ne_wide m p v lo hi e = ground (arith, IsNear-value_get 8 0 m p 0 (omega arith))

-- Where the wide shifts take 0 to 0, an eight-byte field of a value below 2 ^ 31 is read back as
-- it was written, and one from there to 2 ^ 32 comes back with its upper half filled with ones.
pub value_get_low :
    (wide_shl : ℕ → ℕ → ℕ)
    → ((s : ℕ) → wide_shl 0 s ≡ 0)
    → (m : Memory) (p v : ℕ) → v < 2 ^ 32
    → Holds m p (value_append 8 v)
    → value_get wide_shl 64 8 m p 0 ≡ (if ltb v (2 ^ 31) then v else v + 2 ^ 64 - 2 ^ 32)
unfolding value_append value_get
value_get_low wide_shl zeros m p v hv h = ground (arith, zeros 56, zeros 48, zeros 40, zeros 32)
