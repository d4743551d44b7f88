-- ===== src/Codec/Items.antt =====
-- Sequences of values through the two tables: what a caller of ce_util/ce_data_writer.c and
-- ce_util/ce_data_reader.c does, with what it writes as a list.
use cloudeagle.Common.{
  ℕ, ◌+◌, ◌%◌, ◌^◌, ◌≤◌, ◌<◌, List, [], ◌∷◌, ◌++◌, length, ◌==◌, if◌then◌else◌, All,
}
use cloudeagle.Common.Memory.{load}
use cloudeagle.Value.{value_append}
use cloudeagle.Value.Float.{float2_raw_int_bits, double2_raw_int_bits}
use cloudeagle.Codec.{Call, ◌>>=◌, result, WriterOps, ReaderOps, int_of_short}
use cloudeagle.Codec.Dispatch.{
  ce_write, ce_write_boolean, ce_write_short, ce_write_int, ce_write_long, ce_write_ushort,
  ce_write_uint, ce_write_ulong, ce_write_float, ce_write_double, ce_write_int8, ce_write_int16,
  ce_write_int32, ce_write_int64, ce_write_uint8, ce_write_uint16, ce_write_uint32, ce_write_uint64,
  ce_write_string, ce_write_chars, ce_read, ce_read_boolean, ce_read_short, ce_read_int,
  ce_read_long, ce_read_ushort, ce_read_uint, ce_read_ulong, ce_read_float, ce_read_double,
  ce_read_int8, ce_read_int16, ce_read_int32, ce_read_int64, ce_read_uint8, ce_read_uint16,
  ce_read_uint32, ce_read_uint64, ce_read_string, ce_read_chars,
}

pub data Kind : Type 0 where
  byte boolean short int long ushort uint ulong float double : Kind
  int8 int16 int32 int64 uint8 uint16 uint32 uint64 : Kind

-- A number of some type, a `ce_str_t`, or a C string with the size of the buffer that it is read
-- into.
pub data Item : Type 0 where
  value : Kind → ℕ → Item
  string : List ℕ → Item
  chars : ℕ → List ℕ → Item

pub data Shape : Type 0 where
  value : Kind → Shape
  string : Shape
  chars : ℕ → Shape

-- What a reader gets.
pub data Reading : Type 0 where
  number : ℕ → Reading
  text : List ℕ → Reading

module _ (writer : WriterOps) where
  unfoldable pub write_value : Kind → ℕ → Call ℕ
  write_value byte = ce_write writer
  write_value boolean = ce_write_boolean writer
  write_value short = ce_write_short writer
  write_value int = ce_write_int writer
  write_value long = ce_write_long writer
  write_value ushort = ce_write_ushort writer
  write_value uint = ce_write_uint writer
  write_value ulong = ce_write_ulong writer
  write_value float = ce_write_float writer
  write_value double = ce_write_double writer
  write_value int8 = ce_write_int8 writer
  write_value int16 = ce_write_int16 writer
  write_value int32 = ce_write_int32 writer
  write_value int64 = ce_write_int64 writer
  write_value uint8 = ce_write_uint8 writer
  write_value uint16 = ce_write_uint16 writer
  write_value uint32 = ce_write_uint32 writer
  write_value uint64 = ce_write_uint64 writer

  unfoldable pub write_item : Item → Call ℕ
  unfolding write_value
  write_item (value k v) = write_value k v
  write_item (string v) = ce_write_string writer v
  write_item (chars buf_size v) = ce_write_chars writer v

  -- The sum of what the calls return.
  unfoldable pub write_items : List Item → Call ℕ
  write_items [] = result 0
  write_items (x ∷ xs) = do n ← write_item x; rest ← write_items xs; result (n + rest)

module _ (reader : ReaderOps) where
  unfoldable pub read_value_of : Kind → Call ℕ
  read_value_of byte = ce_read reader
  read_value_of boolean = ce_read_boolean reader
  read_value_of short = ce_read_short reader
  read_value_of int = ce_read_int reader
  read_value_of long = ce_read_long reader
  read_value_of ushort = ce_read_ushort reader
  read_value_of uint = ce_read_uint reader
  read_value_of ulong = ce_read_ulong reader
  read_value_of float = ce_read_float reader
  read_value_of double = ce_read_double reader
  read_value_of int8 = ce_read_int8 reader
  read_value_of int16 = ce_read_int16 reader
  read_value_of int32 = ce_read_int32 reader
  read_value_of int64 = ce_read_int64 reader
  read_value_of uint8 = ce_read_uint8 reader
  read_value_of uint16 = ce_read_uint16 reader
  read_value_of uint32 = ce_read_uint32 reader
  read_value_of uint64 = ce_read_uint64 reader

  -- The bytes that a `ce_str_t` points to are taken at once.
  unfoldable pub read_text : Call Reading
  read_text = do (p, len) ← ce_read_string reader; λ r. result (text (load r.mem p len)) r

  unfoldable pub read_item : Shape → Call Reading
  unfolding read_value_of read_text
  read_item (value k) = do v ← read_value_of k; result (number v)
  read_item string = read_text
  read_item (chars buf_size) = do v ← ce_read_chars reader buf_size; result (text v)

  unfoldable pub read_items : List Shape → Call (List Reading)
  read_items [] = result []
  read_items (x ∷ xs) = do v ← read_item x; vs ← read_items xs; result (v ∷ vs)

abbrev pub size_of : Kind → ℕ
size_of byte = 1
size_of boolean = 1
size_of short = 2
size_of int = 4
size_of long = 8
size_of ushort = 2
size_of uint = 4
size_of ulong = 8
size_of float = 4
size_of double = 8
size_of int8 = 1
size_of int16 = 2
size_of int32 = 4
size_of int64 = 8
size_of uint8 = 1
size_of uint16 = 2
size_of uint32 = 4
size_of uint64 = 8

abbrev pub read_bits : Kind → ℕ
read_bits byte = 32
read_bits boolean = 32
read_bits short = 16
read_bits int = 32
read_bits long = 64
read_bits ushort = 16
read_bits uint = 32
read_bits ulong = 64
read_bits float = 32
read_bits double = 64
read_bits int8 = 8
read_bits int16 = 16
read_bits int32 = 32
read_bits int64 = 64
read_bits uint8 = 8
read_bits uint16 = 16
read_bits uint32 = 32
read_bits uint64 = 64

-- The integer whose bytes are written.
abbrev pub raw_bits : Kind → ℕ → ℕ
raw_bits boolean v = if v == 0 then 0 else 1
raw_bits short v = int_of_short v
raw_bits float v = float2_raw_int_bits v
raw_bits double v = double2_raw_int_bits v
raw_bits _ v = v

abbrev pub encode_item : Item → List ℕ
encode_item (value k v) = value_append (size_of k) (raw_bits k v)
encode_item (string v) = value_append 4 (length v % 2 ^ 32) ++ v
encode_item (chars buf_size v) = v ++ (0 ∷ [])

abbrev pub encode : List Item → List ℕ
encode [] = []
encode (x ∷ xs) = encode_item x ++ encode xs

abbrev pub shape_of : Item → Shape
shape_of (value k v) = value k
shape_of (string v) = string
shape_of (chars buf_size v) = chars buf_size

-- A number of at most four bytes that its C type has, a text whose length is a `uint32_t`, or a
-- text with no zero byte and a buffer that it fits into.
abbrev pub IsReadable : Item → Type 0
IsReadable (value byte v) = v < 2 ^ 32
IsReadable (value boolean v) = v < 2 ^ 32
IsReadable (value k v) = (size_of k ≤ 4) × (v < 256 ^ size_of k)
IsReadable (string v) = length v < 2 ^ 32
IsReadable (chars buf_size v) = (length v < buf_size) × All (λ b. 0 < b) v

-- What comes back: an `int` written as a byte is cut to one, a boolean is 0 or 1, a float that is no
-- number becomes one fixed NaN, and a C string comes with its zero byte.
abbrev pub read_back : Item → Reading
read_back (value byte v) = number (v % 256)
read_back (value boolean v) = number (if v == 0 then 0 else 1)
read_back (value float v) = number (float2_raw_int_bits v)
read_back (value k v) = number v
read_back (string v) = text v
read_back (chars buf_size v) = text (v ++ (0 ∷ []))
