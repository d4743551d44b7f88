-- ===== src/Codec.antt =====
-- ce_util/ce_data_wrapbuf.h, ce_util/ce_data_writer.c and ce_util/ce_data_reader.c: typed values in a
-- buffer, through a table of operations. `Write` and `Read` have the one implementation of the
-- tables, of ce_util/ce_data_writer_encoding.c and ce_util/ce_data_reader_encoding.c.
use cloudeagle.Common.{ℕ, ◌+◌, ◌-◌, ◌^◌, Bool, Option, none, some, List, ltb, if◌then◌else◌}
use cloudeagle.Common.Memory.{Memory, ptr_add}
pub mod Dispatch
pub mod Write
pub mod Read
pub mod Items
pub mod Writing
pub mod RoundTrip
pub mod Bounds
mod Tests

-- `ce_data_wrapbuf_t`; pointers are addresses in `mem`, of which those below `mapped` can be read.
-- No function here calls the `expand` callback.
pub record WrapBuf : Type 0 where
  pub mem : Memory
  pub mapped : ℕ
  pub start : ℕ
  pub pos : ℕ
  pub end : ℕ

-- CE_DATA_IS_FULL
abbrev pub is_full : WrapBuf → ℕ → Bool
is_full b size = ltb b.end (ptr_add b.pos size)

-- A call returns a value and the buffer after it; `none` is a failed assertion or a C string with no
-- end in mapped memory. The bytes of a number are read whether or not they are mapped.
abbrev pub Call : Type 0 → Type 0
Call A = WrapBuf → Option (A × WrapBuf)

infixl 5 ◌>>=◌
abbrev pub ◌>>=◌ : {A B : Type 0} → Call A → (A → Call B) → Call B
◌>>=◌ m f b = elim (m b) [ none ↦ none | some (a, b') ↦ f a b' ]

abbrev pub result : {A : Type 0} → A → Call A
result a b = some (a, b)

-- An `int` of the value of a `short`.
abbrev pub int_of_short : ℕ → ℕ
int_of_short v = if ltb v (2 ^ 15) then v else v + 2 ^ 32 - 2 ^ 16

-- `ce_data_writer_ops_t`. Each operation returns the number of bytes written. An array is given by
-- its address; a text by its bytes, without the zero byte of a C string.
pub record WriterOps : Type 0 where
  pub ce_write_fn : ℕ → Call ℕ
  pub ce_write_bytes_fn : ℕ → ℕ → ℕ → Call ℕ
  pub ce_write_wchar_fn : ℕ → Call ℕ
  pub ce_write_boolean_fn : ℕ → Call ℕ
  pub ce_write_short_fn : ℕ → Call ℕ
  pub ce_write_int_fn : ℕ → Call ℕ
  pub ce_write_long_fn : ℕ → Call ℕ
  pub ce_write_ushort_fn : ℕ → Call ℕ
  pub ce_write_uint_fn : ℕ → Call ℕ
  pub ce_write_ulong_fn : ℕ → Call ℕ
  pub ce_write_float_fn : ℕ → Call ℕ
  pub ce_write_double_fn : ℕ → Call ℕ
  pub ce_write_string_fn : List ℕ → Call ℕ
  pub ce_write_chars_fn : List ℕ → Call ℕ
  pub ce_write_int8_fn : ℕ → Call ℕ
  pub ce_write_int16_fn : ℕ → Call ℕ
  pub ce_write_int32_fn : ℕ → Call ℕ
  pub ce_write_int64_fn : ℕ → Call ℕ
  pub ce_write_uint8_fn : ℕ → Call ℕ
  pub ce_write_uint16_fn : ℕ → Call ℕ
  pub ce_write_uint32_fn : ℕ → Call ℕ
  pub ce_write_uint64_fn : ℕ → Call ℕ

-- `ce_data_reader_ops_t`. What an operation stores through its pointer is returned. A string is a
-- pointer and a length; of `chars` the bytes that are copied
-- into the caller's buffer are returned, and the buffer is no part of `mem`.
pub record ReaderOps : Type 0 where
  pub ce_read_fn : Call ℕ
  pub ce_read_boolean_fn : Call ℕ
  pub ce_read_short_fn : Call ℕ
  pub ce_read_int_fn : Call ℕ
  pub ce_read_long_fn : Call ℕ
  pub ce_read_ushort_fn : Call ℕ
  pub ce_read_uint_fn : Call ℕ
  pub ce_read_ulong_fn : Call ℕ
  pub ce_read_float_fn : Call ℕ
  pub ce_read_double_fn : Call ℕ
  pub ce_read_string_fn : Call (ℕ × ℕ)
  pub ce_read_chars_fn : ℕ → Call (List ℕ)
  pub ce_read_int8_fn : Call ℕ
  pub ce_read_int16_fn : Call ℕ
  pub ce_read_int32_fn : Call ℕ
  pub ce_read_int64_fn : Call ℕ
  pub ce_read_uint8_fn : Call ℕ
  pub ce_read_uint16_fn : Call ℕ
  pub ce_read_uint32_fn : Call ℕ
  pub ce_read_uint64_fn : Call ℕ
  pub ce_read_skip_bytes_fn : ℕ → Call ℕ
