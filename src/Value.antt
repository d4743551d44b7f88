-- ===== src/Value.antt =====
-- The macros that move an integer to and from bytes: VALUE_APPEND and VALUE_GET of
-- cwaf/csp_kernel_record.c. VALUE_WRITE of ce_util/ce_data_writer_encoding.c and VALUE_READ of
-- ce_util/ce_data_reader_encoding.c have the same loops.
-- A value of a w-bit type is its two's complement pattern, below 2 ^ w.
use cloudeagle.Common.{ℕ, zero, suc, ◌+◌, ◌-◌, ◌*◌, ◌/◌, ◌%◌, ◌^◌, ◌<◌, List, [], ◌∷◌}
use cloudeagle.Common.{ltb, if◌then◌else◌}
use cloudeagle.Common.Memory.{Memory}
pub mod Float
pub mod Bytes
pub mod RoundTrip
pub mod Wide
mod Tests

-- `buf[i-1] = (value) >> (bytes - i*8) & 0xff`, for i from 1 to n. The number that the recursion
-- is on is n - i, so that the shift count is 8 times it.
unfoldable pub value_append : ℕ → ℕ → List ℕ
value_append zero v = []
value_append (suc k) v = (v / 2 ^ (8 * k) % 256) ∷ value_append k v

-- `b << s` for `b` promoted to a 32-bit int, as the int's pattern. C leaves the shift undefined
-- when `s` is 32 or more: `wide_shl b s` is what the compiled code makes of it.
unfoldable pub shl_int : (ℕ → ℕ → ℕ) → ℕ → ℕ → ℕ
shl_int wide_shl b s = if ltb s 32 then b * 2 ^ s % 2 ^ 32 else wide_shl b s

-- An int converted to a w-bit type, w at most 64: it is extended by its sign, then cut.
unfoldable pub from_int : ℕ → ℕ → ℕ
from_int w x = (if ltb x (2 ^ 31) then x else x + 2 ^ 64 - 2 ^ 32) % 2 ^ w

-- `b = *buf_p; buf_p += 1; (value) += (b << ((bytes - i*8) & 0xFF))`, for i from 1 to n, where
-- `value` has w bits and the recursion is on n - i.
unfoldable pub value_get : (ℕ → ℕ → ℕ) → ℕ → ℕ → Memory → ℕ → ℕ → ℕ
unfolding shl_int from_int
value_get wide_shl w zero m p acc = acc
value_get wide_shl w (suc k) m p acc =
    value_get wide_shl w k m (p + 1)
      ((acc + from_int w (shl_int wide_shl (m p) (8 * k % 256))) % 2 ^ w)
