-- ===== src/Record/Calls.antt =====
-- The calls of cwaf/csp_kernel_record.c as data, so that a sequence of calls is a list.
use cloudeagle.Common.{ℕ, ◌≡◌, refl, List, [], ◌∷◌, length}
use cloudeagle.Common.Memory.{store}
use cloudeagle.Value.{value_append}
use cloudeagle.Record.{CspRecord, done, Call, ◌>>=◌}
use cloudeagle.Value.Float.{float2_raw_int_bits, double2_raw_int_bits}
use cloudeagle.Record.Append.{
  append_checked, record_append_start, record_append_end, record_append_string,
  record_append_struct, record_append_bool, record_append_short, record_append_int,
  record_append_long, record_append_ushort, record_append_uint, record_append_ulong,
  record_append_float, record_append_double, record_append_int8, record_append_int16,
  record_append_int32, record_append_int64, record_append_uint8, record_append_uint16,
  record_append_uint32, record_append_uint64, after,
}
use cloudeagle.Record.Get.{
  get_value, record_get_bool, record_get_short, record_get_int, record_get_long, record_get_ushort,
  record_get_uint, record_get_ulong, record_get_float, record_get_double, record_get_int8,
  record_get_int16, record_get_int32, record_get_int64, record_get_uint8, record_get_uint16,
  record_get_uint32, record_get_uint64,
}

-- The types that have an append and a get function of their own.
pub data Kind : Type 0 where
  bool short int long ushort uint ulong float double : Kind
  int8 int16 int32 int64 uint8 uint16 uint32 uint64 : Kind

unfoldable pub append_kind : Kind → ℕ → Call (Unit {0})
append_kind bool = record_append_bool
append_kind short = record_append_short
append_kind int = record_append_int
append_kind long = record_append_long
append_kind ushort = record_append_ushort
append_kind uint = record_append_uint
append_kind ulong = record_append_ulong
append_kind float = record_append_float
append_kind double = record_append_double
append_kind int8 = record_append_int8
append_kind int16 = record_append_int16
append_kind int32 = record_append_int32
append_kind int64 = record_append_int64
append_kind uint8 = record_append_uint8
append_kind uint16 = record_append_uint16
append_kind uint32 = record_append_uint32
append_kind uint64 = record_append_uint64

unfoldable pub get_kind : (ℕ → ℕ → ℕ) → Kind → Call ℕ
get_kind wide_shl bool = record_get_bool wide_shl
get_kind wide_shl short = record_get_short wide_shl
get_kind wide_shl int = record_get_int wide_shl
get_kind wide_shl long = record_get_long wide_shl
get_kind wide_shl ushort = record_get_ushort wide_shl
get_kind wide_shl uint = record_get_uint wide_shl
get_kind wide_shl ulong = record_get_ulong wide_shl
get_kind wide_shl float = record_get_float wide_shl
get_kind wide_shl double = record_get_double wide_shl
get_kind wide_shl int8 = record_get_int8 wide_shl
get_kind wide_shl int16 = record_get_int16 wide_shl
get_kind wide_shl int32 = record_get_int32 wide_shl
get_kind wide_shl int64 = record_get_int64 wide_shl
get_kind wide_shl uint8 = record_get_uint8 wide_shl
get_kind wide_shl uint16 = record_get_uint16 wide_shl
get_kind wide_shl uint32 = record_get_uint32 wide_shl
get_kind wide_shl uint64 = record_get_uint64 wide_shl

-- The bytes that a value of the kind takes, and the bits of the type that it is read into.
abbrev pub size_of : Kind → ℕ
size_of bool = 1
size_of short = 2
size_of int = 4
size_of long = 8
size_of ushort = 2
size_of uint = 4
size_of ulong = 8
size_of float = 4
size_of double = 8
size_of int8 = 1
size_of int16 = 2
size_of int32 = 4
size_of int64 = 8
size_of uint8 = 1
size_of uint16 = 2
size_of uint32 = 4
size_of uint64 = 8

abbrev pub read_bits : Kind → ℕ
read_bits bool = 32
read_bits short = 16
read_bits int = 32
read_bits long = 64
read_bits ushort = 16
read_bits uint = 32
read_bits ulong = 64
read_bits float = 32
read_bits double = 64
read_bits int8 = 8
read_bits int16 = 16
read_bits int32 = 32
read_bits int64 = 64
read_bits uint8 = 8
read_bits uint16 = 16
read_bits uint32 = 32
read_bits uint64 = 64

-- The integer whose bytes are written.
abbrev pub raw_bits : Kind → ℕ → ℕ
raw_bits float v = float2_raw_int_bits v
raw_bits double v = double2_raw_int_bits v
raw_bits _ v = v

pub append_kind_lem :
    (k : Kind) (v : ℕ) → append_kind k v ≡ append_checked (value_append (size_of k) (raw_bits k v))
unfolding append_kind record_append_bool record_append_short record_append_int record_append_long
    record_append_ushort record_append_uint record_append_ulong record_append_float
    record_append_double record_append_int8 record_append_int16 record_append_int32
    record_append_int64 record_append_uint8 record_append_uint16 record_append_uint32
    record_append_uint64
append_kind_lem float v = refl
append_kind_lem _ v = refl

pub get_kind_lem :
    (wide_shl : ℕ → ℕ → ℕ) (k : Kind)
    → get_kind wide_shl k ≡ get_value wide_shl (read_bits k) (size_of k)
unfolding get_kind record_get_bool record_get_short record_get_int record_get_long record_get_ushort
    record_get_uint record_get_ulong record_get_float record_get_double record_get_int8
    record_get_int16 record_get_int32 record_get_int64 record_get_uint8 record_get_uint16
    record_get_uint32 record_get_uint64
get_kind_lem wide_shl bool = refl
get_kind_lem wide_shl _ = refl

-- A call that writes. After `struct` the caller fills the space that it was given.
pub data AppendCall : Type 0 where
  open_msg close_msg : AppendCall
  value : Kind → ℕ → AppendCall
  string : List ℕ → AppendCall
  struct : List ℕ → AppendCall

abbrev pub fill : List ℕ → ℕ → Call (Unit {0})
fill bytes p r = done tt (record r { mem = store r.mem p bytes })

unfoldable pub append_struct : List ℕ → Call (Unit {0})
append_struct bytes = record_append_struct (length bytes) >>= fill bytes

unfoldable pub append_call : AppendCall → Call (Unit {0})
unfolding append_kind append_struct
append_call open_msg = record_append_start
append_call close_msg = record_append_end
append_call (value k v) = append_kind k v
append_call (string bytes) = record_append_string bytes
append_call (struct bytes) = append_struct bytes

-- A caller that ignores what each call returns.
unfoldable pub append_calls : List AppendCall → CspRecord → CspRecord
append_calls [] r = r
append_calls (c ∷ cs) r = append_calls cs (after (append_call c r) r)
