-- ===== src/Codec/Write.antt =====
-- ce_util/ce_data_writer_encoding.c. No function compares the position with the end of the buffer.
use cloudeagle.Common.{
  ℕ, ◌+◌, ◌%◌, ◌^◌, Option, none, some, List, [], ◌∷◌, ◌++◌, length, ◌==◌, ltb, ◌-◌, if◌then◌else◌,
}
use cloudeagle.Common.Memory.{store, load, ptr_add}
use cloudeagle.Value.{value_append}
use cloudeagle.Value.Float.{float2_raw_int_bits, double2_raw_int_bits}
use cloudeagle.Codec.{WrapBuf, Call, WriterOps}

-- The assertion is that the position is no NULL.
unfoldable pub write_bytes2_buf : List ℕ → Call ℕ
write_bytes2_buf bytes w =
    if w.pos == 0
    then none
    else some (
      length bytes,
      record w { mem = store w.mem w.pos bytes; pos = ptr_add w.pos (length bytes) },
    )

-- An `int` as a `size_t` or an offset.
abbrev pub extended : ℕ → ℕ
extended n = if ltb n (2 ^ 31) then n else n + 2 ^ 64 - 2 ^ 32

-- `len` and `offset` are the patterns of an `int`.
unfoldable pub writer_write_bytes : ℕ → ℕ → ℕ → Call ℕ
unfolding write_bytes2_buf
writer_write_bytes bytes len offset w =
    write_bytes2_buf (load w.mem (ptr_add bytes (extended offset)) (extended len)) w

unfoldable pub writer_write : ℕ → Call ℕ
writer_write v = write_bytes2_buf (value_append 1 v)

unfoldable pub writer_write_wchar : ℕ → Call ℕ
writer_write_wchar v = write_bytes2_buf (value_append 2 v)

unfoldable pub writer_write_boolean : ℕ → Call ℕ
unfolding writer_write
writer_write_boolean v = writer_write (if v == 0 then 0 else 1)

unfoldable pub writer_write_short : ℕ → Call ℕ
writer_write_short v = write_bytes2_buf (value_append 2 v)

unfoldable pub writer_write_int : ℕ → Call ℕ
writer_write_int v = write_bytes2_buf (value_append 4 v)

unfoldable pub writer_write_long : ℕ → Call ℕ
writer_write_long v = write_bytes2_buf (value_append 8 v)

unfoldable pub writer_write_ushort : ℕ → Call ℕ
writer_write_ushort v = write_bytes2_buf (value_append 2 v)

unfoldable pub writer_write_uint : ℕ → Call ℕ
writer_write_uint v = write_bytes2_buf (value_append 4 v)

unfoldable pub writer_write_ulong : ℕ → Call ℕ
writer_write_ulong v = write_bytes2_buf (value_append 8 v)

unfoldable pub writer_write_int8 : ℕ → Call ℕ
writer_write_int8 v = write_bytes2_buf (value_append 1 v)

unfoldable pub writer_write_int16 : ℕ → Call ℕ
writer_write_int16 v = write_bytes2_buf (value_append 2 v)

unfoldable pub writer_write_int32 : ℕ → Call ℕ
writer_write_int32 v = write_bytes2_buf (value_append 4 v)

unfoldable pub writer_write_int64 : ℕ → Call ℕ
writer_write_int64 v = write_bytes2_buf (value_append 8 v)

unfoldable pub writer_write_uint8 : ℕ → Call ℕ
writer_write_uint8 v = write_bytes2_buf (value_append 1 v)

unfoldable pub writer_write_uint16 : ℕ → Call ℕ
writer_write_uint16 v = write_bytes2_buf (value_append 2 v)

unfoldable pub writer_write_uint32 : ℕ → Call ℕ
writer_write_uint32 v = write_bytes2_buf (value_append 4 v)

unfoldable pub writer_write_uint64 : ℕ → Call ℕ
writer_write_uint64 v = write_bytes2_buf (value_append 8 v)

unfoldable pub writer_write_float : ℕ → Call ℕ
unfolding writer_write_int float2_raw_int_bits
writer_write_float v = writer_write_int (float2_raw_int_bits v)

unfoldable pub writer_write_double : ℕ → Call ℕ
unfolding writer_write_int64 double2_raw_int_bits
writer_write_double v = writer_write_int64 (double2_raw_int_bits v)

-- A C string, with its zero byte.
unfoldable pub writer_write_chars : List ℕ → Call ℕ
writer_write_chars v = write_bytes2_buf (v ++ (0 ∷ []))

-- The buffer after a call whose result is not looked at.
abbrev bind : Option (ℕ × WrapBuf) → Call ℕ → Option (ℕ × WrapBuf)
bind none f = none
bind (some (n, w)) f = f w

abbrev returning : ℕ → Option (ℕ × WrapBuf) → Option (ℕ × WrapBuf)
returning k none = none
returning k (some (n, w)) = some (k, w)

-- A `ce_str_t`: its length in four bytes, then its bytes.
unfoldable pub writer_write_string : List ℕ → Call ℕ
writer_write_string v w =
    returning (4 + length v) (bind (writer_write_uint32 (length v % 2 ^ 32) w) (write_bytes2_buf v))

abbrev pub ce_writer_encoding : WriterOps
ce_writer_encoding = record {
  ce_write_fn = writer_write;
  ce_write_bytes_fn = writer_write_bytes;
  ce_write_wchar_fn = writer_write_wchar;
  ce_write_boolean_fn = writer_write_boolean;
  ce_write_short_fn = writer_write_short;
  ce_write_int_fn = writer_write_int;
  ce_write_long_fn = writer_write_long;
  ce_write_ushort_fn = writer_write_ushort;
  ce_write_uint_fn = writer_write_uint;
  ce_write_ulong_fn = writer_write_ulong;
  ce_write_float_fn = writer_write_float;
  ce_write_double_fn = writer_write_double;
  ce_write_string_fn = writer_write_string;
  ce_write_chars_fn = writer_write_chars;
  ce_write_int8_fn = writer_write_int8;
  ce_write_int16_fn = writer_write_int16;
  ce_write_int32_fn = writer_write_int32;
  ce_write_int64_fn = writer_write_int64;
  ce_write_uint8_fn = writer_write_uint8;
  ce_write_uint16_fn = writer_write_uint16;
  ce_write_uint32_fn = writer_write_uint32;
  ce_write_uint64_fn = writer_write_uint64;
}
