-- ===== src/Value/RoundTrip.antt =====
-- VALUE_GET after VALUE_APPEND, for the fields of at most four bytes: the shift counts stay below 32,
-- so what a wider shift does plays no part.
use cloudeagle.Common.{ℕ, ◌%◌, ◌^◌, ◌≡◌, arith}
use cloudeagle.Common.Memory.{Memory, Holds}
use cloudeagle.Value.{value_append, value_get}

module _ (wide_shl : ℕ → ℕ → ℕ) (m : Memory) (p v : ℕ) where
  -- one byte, read into an `int`
  pub value_get_bool : Holds m p (value_append 1 v) → value_get wide_shl 32 1 m p 0 ≡ v % 2 ^ 8
  unfolding value_append value_get
  value_get_bool h = ground arith

  pub value_get_byte : Holds m p (value_append 1 v) → value_get wide_shl 8 1 m p 0 ≡ v % 2 ^ 8
  unfolding value_append value_get
  value_get_byte h = ground arith

  pub value_get_short : Holds m p (value_append 2 v) → value_get wide_shl 16 2 m p 0 ≡ v % 2 ^ 16
  unfolding value_append value_get
  value_get_short h = ground arith

  pub value_get_int : Holds m p (value_append 4 v) → value_get wide_shl 32 4 m p 0 ≡ v % 2 ^ 32
  unfolding value_append value_get
  value_get_int h = ground arith
