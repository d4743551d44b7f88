-- ===== src/Codec/Read.antt =====
-- ce_util/ce_data_reader_encoding.c. A value is read without a look at the end of the buffer; only the
-- step behind it stops there.
use cloudeagle.Common.{ℕ, ◌+◌, ◌-◌, ◌%◌, ◌^◌, Option, none, some, List, ltb, ◌==◌, if◌then◌else◌}
use cloudeagle.Common.Memory.{load, strlen, ptr_add}
use cloudeagle.Value.{value_get}
use cloudeagle.Codec.{WrapBuf, Call, ReaderOps, is_full}

-- How far it went, in a `size_t`, and the buffer.
unfoldable pub reader_read_skip_bytes : ℕ → WrapBuf → ℕ × WrapBuf
reader_read_skip_bytes len r =
    let r_size = if is_full r len then (r.end + 2 ^ 64 - r.pos) % 2 ^ 64 else len in
    (r_size, record r { pos = ptr_add r.pos r_size })

-- `strlen` from the position on, cut to the caller's buffer, whose size is asserted not to be 0.
unfoldable pub reader_read_chars : ℕ → Call (List ℕ)
reader_read_chars buf_size r =
    let read = elim (strlen (r.mapped - r.pos) r.mem r.pos) as (λ _. Option (List ℕ × WrapBuf)) [
      | none ↦ none
      | some n ↦
          let len = if ltb buf_size (n + 1) then buf_size else n + 1 in
          some (load r.mem r.pos len, (reader_read_skip_bytes len r).1)
    ] in
    if buf_size == 0 then none else read

-- `wide_shl`: see `shl_int`.
module _ (wide_shl : ℕ → ℕ → ℕ) where
  -- A field of `n` bytes, read into a type of `w` bits; the result is always CE_OK.
  unfoldable pub read_value : ℕ → ℕ → Call ℕ
  read_value w n r = some (value_get wide_shl w n r.mem r.pos 0, (reader_read_skip_bytes n r).1)

  unfoldable pub reader_read : Call ℕ
  reader_read = read_value 32 1

  unfoldable pub reader_read_boolean : Call ℕ
  reader_read_boolean = read_value 32 1

  unfoldable pub reader_read_short : Call ℕ
  reader_read_short = read_value 16 2

  unfoldable pub reader_read_int : Call ℕ
  reader_read_int = read_value 32 4

  unfoldable pub reader_read_long : Call ℕ
  reader_read_long = read_value 64 8

  unfoldable pub reader_read_ushort : Call ℕ
  reader_read_ushort = read_value 16 2

  unfoldable pub reader_read_uint : Call ℕ
  reader_read_uint = read_value 32 4

  unfoldable pub reader_read_ulong : Call ℕ
  reader_read_ulong = read_value 64 8

  unfoldable pub reader_read_int64 : Call ℕ
  reader_read_int64 = read_value 64 8

  unfoldable pub reader_read_uint32 : Call ℕ
  reader_read_uint32 = read_value 32 4

  unfoldable pub reader_read_int8 : Call ℕ
  reader_read_int8 = read_value 8 1

  unfoldable pub reader_read_int16 : Call ℕ
  reader_read_int16 = read_value 16 2

  unfoldable pub reader_read_int32 : Call ℕ
  reader_read_int32 = read_value 32 4

  unfoldable pub reader_read_uint8 : Call ℕ
  reader_read_uint8 = read_value 8 1

  unfoldable pub reader_read_uint16 : Call ℕ
  reader_read_uint16 = read_value 16 2

  unfoldable pub reader_read_uint64 : Call ℕ
  reader_read_uint64 = read_value 64 8

  unfoldable pub reader_read_float : Call ℕ
  unfolding reader_read_int
  reader_read_float = reader_read_int

  unfoldable pub reader_read_double : Call ℕ
  unfolding reader_read_int64
  reader_read_double = reader_read_int64

  -- The string's `data` and `len`: the length is as it was read, also where it goes past the end.
  unfoldable pub reader_read_string : Call (ℕ × ℕ)
  unfolding reader_read_uint32
  reader_read_string r = elim (reader_read_uint32 r) [
    | none ↦ none
    | some (len, r') ↦ some ((r'.pos, len), (reader_read_skip_bytes len r').1)
  ]

  abbrev pub ce_reader_encoding : ReaderOps
  ce_reader_encoding = record {
    ce_read_fn = reader_read;
    ce_read_boolean_fn = reader_read_boolean;
    ce_read_short_fn = reader_read_short;
    ce_read_int_fn = reader_read_int;
    ce_read_long_fn = reader_read_long;
    ce_read_ushort_fn = reader_read_ushort;
    ce_read_uint_fn = reader_read_uint;
    ce_read_ulong_fn = reader_read_ulong;
    ce_read_float_fn = reader_read_float;
    ce_read_double_fn = reader_read_double;
    ce_read_string_fn = reader_read_string;
    ce_read_chars_fn = reader_read_chars;
    ce_read_int8_fn = reader_read_int8;
    ce_read_int16_fn = reader_read_int16;
    ce_read_int32_fn = reader_read_int32;
    ce_read_int64_fn = reader_read_int64;
    ce_read_uint8_fn = reader_read_uint8;
    ce_read_uint16_fn = reader_read_uint16;
    ce_read_uint32_fn = reader_read_uint32;
    ce_read_uint64_fn = reader_read_uint64;
    ce_read_skip_bytes_fn = λ len r. some (reader_read_skip_bytes len r);
  }
