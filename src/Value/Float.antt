-- ===== src/Value/Float.antt =====
-- Floating point numbers as bits: float2_raw_int_bits and double2_raw_int_bits of
-- cwaf/csp_kernel_record.c, which ce_util/ce_data_writer_encoding.c has in the same words.
use cloudeagle.Common.{ℕ, ◌^◌, ◌<◌, arith, ◌&&◌, not, ◌==◌, if◌then◌else◌, bit_and}

-- A float is its 32 bits, a double its 64 bits; each NaN becomes one and the same.
unfoldable pub float2_raw_int_bits : ℕ → ℕ
float2_raw_int_bits v =
    if (bit_and v 2139095040 == 2139095040) && not (bit_and v 8388607 == 0) then 0x7fc00000 else v

unfoldable pub double2_raw_int_bits : ℕ → ℕ
double2_raw_int_bits v =
    if (bit_and v 9218868437227405312 == 9218868437227405312)
      && not (bit_and v 4503599627370495 == 0)
    then 0x7ff8000000000000
    else v

pub float2_raw_int_bits-lt : (v : ℕ) → v < 2 ^ 32 → float2_raw_int_bits v < 2 ^ 32
unfolding float2_raw_int_bits
float2_raw_int_bits-lt v h = ground arith
