-- ===== src/Codec/Dispatch.antt =====
-- ce_util/ce_data_writer.c and ce_util/ce_data_reader.c: each function calls through the table.
use cloudeagle.Common.{ℕ, List}
use cloudeagle.Codec.{Call, WriterOps, ReaderOps, int_of_short}

module _ (writer : WriterOps) where
  unfoldable pub ce_write : ℕ → Call ℕ
  ce_write v = writer.ce_write_fn v

  unfoldable pub ce_write_bytes : ℕ → ℕ → ℕ → Call ℕ
  ce_write_bytes bytes len offset = writer.ce_write_bytes_fn bytes len offset

  unfoldable pub ce_write_wchar : ℕ → Call ℕ
  ce_write_wchar v = writer.ce_write_wchar_fn v

  unfoldable pub ce_write_boolean : ℕ → Call ℕ
  ce_write_boolean v = writer.ce_write_boolean_fn v

  -- The argument is a `short`, the table's function takes an `int`.
  unfoldable pub ce_write_short : ℕ → Call ℕ
  ce_write_short v = writer.ce_write_short_fn (int_of_short v)

  unfoldable pub ce_write_int : ℕ → Call ℕ
  ce_write_int v = writer.ce_write_int_fn v

  unfoldable pub ce_write_long : ℕ → Call ℕ
  ce_write_long v = writer.ce_write_long_fn v

  unfoldable pub ce_write_ushort : ℕ → Call ℕ
  ce_write_ushort v = writer.ce_write_ushort_fn v

  unfoldable pub ce_write_uint : ℕ → Call ℕ
  ce_write_uint v = writer.ce_write_uint_fn v

  unfoldable pub ce_write_ulong : ℕ → Call ℕ
  ce_write_ulong v = writer.ce_write_ulong_fn v

  unfoldable pub ce_write_float : ℕ → Call ℕ
  ce_write_float v = writer.ce_write_float_fn v

  unfoldable pub ce_write_double : ℕ → Call ℕ
  ce_write_double v = writer.ce_write_double_fn v

  unfoldable pub ce_write_string : List ℕ → Call ℕ
  ce_write_string v = writer.ce_write_string_fn v

  unfoldable pub ce_write_chars : List ℕ → Call ℕ
  ce_write_chars v = writer.ce_write_chars_fn v

  unfoldable pub ce_write_int8 : ℕ → Call ℕ
  ce_write_int8 v = writer.ce_write_int8_fn v

  unfoldable pub ce_write_int16 : ℕ → Call ℕ
  ce_write_int16 v = writer.ce_write_int16_fn v

  unfoldable pub ce_write_int32 : ℕ → Call ℕ
  ce_write_int32 v = writer.ce_write_int32_fn v

  unfoldable pub ce_write_int64 : ℕ → Call ℕ
  ce_write_int64 v = writer.ce_write_int64_fn v

  unfoldable pub ce_write_uint8 : ℕ → Call ℕ
  ce_write_uint8 v = writer.ce_write_uint8_fn v

  unfoldable pub ce_write_uint16 : ℕ → Call ℕ
  ce_write_uint16 v = writer.ce_write_uint16_fn v

  unfoldable pub ce_write_uint32 : ℕ → Call ℕ
  ce_write_uint32 v = writer.ce_write_uint32_fn v

  unfoldable pub ce_write_uint64 : ℕ → Call ℕ
  ce_write_uint64 v = writer.ce_write_uint64_fn v

module _ (reader : ReaderOps) where
  unfoldable pub ce_read : Call ℕ
  ce_read = reader.ce_read_fn

  unfoldable pub ce_read_boolean : Call ℕ
  ce_read_boolean = reader.ce_read_boolean_fn

  unfoldable pub ce_read_short : Call ℕ
  ce_read_short = reader.ce_read_short_fn

  unfoldable pub ce_read_int : Call ℕ
  ce_read_int = reader.ce_read_int_fn

  unfoldable pub ce_read_long : Call ℕ
  ce_read_long = reader.ce_read_long_fn

  unfoldable pub ce_read_ushort : Call ℕ
  ce_read_ushort = reader.ce_read_ushort_fn

  unfoldable pub ce_read_uint : Call ℕ
  ce_read_uint = reader.ce_read_uint_fn

  unfoldable pub ce_read_ulong : Call ℕ
  ce_read_ulong = reader.ce_read_ulong_fn

  unfoldable pub ce_read_float : Call ℕ
  ce_read_float = reader.ce_read_float_fn

  unfoldable pub ce_read_double : Call ℕ
  ce_read_double = reader.ce_read_double_fn

  unfoldable pub ce_read_string : Call (ℕ × ℕ)
  ce_read_string = reader.ce_read_string_fn

  unfoldable pub ce_read_chars : ℕ → Call (List ℕ)
  ce_read_chars buf_size = reader.ce_read_chars_fn buf_size

  unfoldable pub ce_read_int8 : Call ℕ
  ce_read_int8 = reader.ce_read_int8_fn

  unfoldable pub ce_read_int16 : Call ℕ
  ce_read_int16 = reader.ce_read_int16_fn

  unfoldable pub ce_read_int32 : Call ℕ
  ce_read_int32 = reader.ce_read_int32_fn

  unfoldable pub ce_read_int64 : Call ℕ
  ce_read_int64 = reader.ce_read_int64_fn

  unfoldable pub ce_read_uint8 : Call ℕ
  ce_read_uint8 = reader.ce_read_uint8_fn

  unfoldable pub ce_read_uint16 : Call ℕ
  ce_read_uint16 = reader.ce_read_uint16_fn

  unfoldable pub ce_read_uint32 : Call ℕ
  ce_read_uint32 = reader.ce_read_uint32_fn

  unfoldable pub ce_read_uint64 : Call ℕ
  ce_read_uint64 = reader.ce_read_uint64_fn

  unfoldable pub ce_read_skip_bytes : ℕ → Call ℕ
  ce_read_skip_bytes len = reader.ce_read_skip_bytes_fn len
