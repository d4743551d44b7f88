-- ===== src/Value/Bytes.antt =====
-- What VALUE_APPEND writes.
use cloudeagle.Common.{ℕ, zero, suc, ◌<◌, ◌≡◌, refl, ap, arith, length, All}
use cloudeagle.Value.{value_append}

pub length-value_append : (n v : ℕ) → length (value_append n v) ≡ n
unfolding value_append
length-value_append zero v = refl
length-value_append (suc k) v = ap suc (length-value_append k v)

pub value_append-IsByte : (n v : ℕ) → All (λ b. b < 256) (value_append n v)
unfolding value_append
value_append-IsByte zero v = tt
value_append-IsByte (suc k) v = (omega arith, value_append-IsByte k v)
