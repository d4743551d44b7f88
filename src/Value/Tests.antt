-- ===== src/Value/Tests.antt =====
-- Runs of the value macros, and the theorems at concrete inputs.
use cloudeagle.Common.{ℕ, ◌*◌, ◌%◌, ◌^◌, ◌≡◌, ◌≢◌, refl, arith, [], ◌∷◌}
use cloudeagle.Common.Memory.{Memory, store, Holds-store}
use cloudeagle.Value.{value_append, value_get}
use cloudeagle.Value.Wide.{value_get-ne_wide, value_get_low}

abbrev zeroes : Memory
zeroes a = 0

-- A shift count taken modulo 32, as an x86 `shl` does.
abbrev masked : ℕ → ℕ → ℕ
masked b s = b * 2 ^ (s % 32) % 2 ^ 32

value_append_897879 : value_append 4 897879 ≡ 0 ∷ 13 ∷ 179 ∷ 87 ∷ []
unfolding value_append
value_append_897879 = refl

value_get_897879 : value_get masked 64 8 (store zeroes 5 (value_append 8 897879)) 5 0 ≡ 897879
unfolding value_append value_get store
value_get_897879 = refl

-- 2 ^ 40 in eight bytes comes back as 256 with masked shifts.
value_get_2_40 : value_get masked 64 8 (store zeroes 5 (value_append 8 (2 ^ 40))) 5 0 ≡ 256
unfolding value_append value_get store
value_get_2_40 = refl

value_get-ne_wide_example :
    value_get (λ b s. 0) 64 8 (store zeroes 5 (value_append 8 (2 ^ 40))) 5 0 ≢ 2 ^ 40
value_get-ne_wide_example =
    value_get-ne_wide (λ b s. 0) (λ b s. omega arith) (store zeroes 5 (value_append 8 (2 ^ 40))) 5
      (2 ^ 40) (omega arith) (omega arith)

value_get_low_example :
    value_get (λ b s. 0) 64 8 (store zeroes 5 (value_append 8 3000000000)) 5 0
    ≡ 18446744072414584320
value_get_low_example =
    value_get_low (λ b s. 0) (λ s. refl) (store zeroes 5 (value_append 8 3000000000)) 5 3000000000
      (omega arith) (Holds-store zeroes 5 (value_append 8 3000000000))
