-- ===== src/Record/Get.antt =====
-- The functions of cwaf/csp_kernel_record.c that read a message.
use cloudeagle.Common.{ℕ, ◌+◌, ◌-◌, ◌%◌, ◌^◌, Bool, ◌||◌, not, none, some}
use cloudeagle.Common.{ltb, ◌==◌, if◌then◌else◌, replicate}
use cloudeagle.Common.Memory.{store, load, strlen, ptr_add}
use cloudeagle.Value.{value_get}
use cloudeagle.Record.{CspRecord, done, failed, fault, Call, ◌>>=◌}
use cloudeagle.Record.{hdr_size, load_record_size}

-- The header is read without a look at `end`.
unfoldable pub record_get_start : Call (Unit {0})
record_get_start r =
    if ltb r.mapped (r.pos + hdr_size)
    then fault
    else if not (r.start_mark == r.mem r.pos) || load_record_size r.mem r.pos == 0
    then failed r
    else done tt (record r {
      pos = ptr_add r.pos hdr_size;
      cur_msg_hdr = some r.pos;
      record_size = hdr_size;
    })

unfoldable pub record_get_end : Call (Unit {0})
record_get_end r = elim r.cur_msg_hdr [
  | none ↦ fault
  | some h ↦
      if not (r.record_size == load_record_size r.mem h)
      then failed r
      else done tt (record r { cur_msg_hdr = none; record_size = 0 })
]

-- The two tests of GET_CHECK for a header at `h`. The first sum is made in a type of `wide` values:
-- in 64 bits for a `size_t`, in 32 for a `__u32`.
abbrev pub past_end : ℕ → ℕ → CspRecord → ℕ → Bool
past_end wide sz r h =
    ltb (load_record_size r.mem h) ((r.record_size + sz) % wide) || ltb r.end (ptr_add r.pos sz)

-- `__record_get_skip_bytes`
unfoldable pub skip : ℕ → CspRecord → CspRecord
skip sz r = record r { pos = ptr_add r.pos sz; record_size = (r.record_size + sz) % 2 ^ 16 }

-- GET_CHECK, then a value that the record gives, and `sz` bytes further.
unfoldable pub get_checked : {A : Type 0} → ℕ → ℕ → (CspRecord → A) → Call A
unfolding skip
get_checked wide sz value r = elim r.cur_msg_hdr [
  | none ↦ fault
  | some h ↦ if past_end wide sz r h then failed r else done (value r) (skip sz r)
]

unfoldable pub record_get_skip_bytes : ℕ → Call (Unit {0})
record_get_skip_bytes size = get_checked (2 ^ 64) size (λ r. tt)

-- The result is where the string stands and its length: the zero byte is not skipped.
unfoldable pub record_get_string : Call (ℕ × ℕ)
record_get_string r = elim (strlen (r.mapped - r.pos) r.mem r.pos) [
  | none ↦ fault
  | some sz ↦ get_checked (2 ^ 64) sz (λ r'. (r'.pos, sz)) r
]

-- `buf` is an address. It is cleared first, and a string that is too long for it is skipped.
unfoldable pub record_get_string_copy : ℕ → ℕ → Call (Unit {0})
record_get_string_copy buf buf_size r =
    elim (record_get_string (record r { mem = store r.mem buf (replicate buf_size 0) })) [
      | fault ↦ fault
      | failed r' ↦ failed r'
      | done (v, len) r' ↦
          if ltb buf_size (len + 1)
          then failed r'
          else done tt (record r' { mem = store r'.mem buf (load r'.mem v len) })
    ]

-- `wide_shl`: see `shl_int`.
module _ (wide_shl : ℕ → ℕ → ℕ) where
  -- A field of `n` bytes, read into a type of `w` bits.
  unfoldable pub get_value : ℕ → ℕ → Call ℕ
  get_value w n = get_checked (2 ^ 64) n (λ r. value_get wide_shl w n r.mem r.pos 0)

  unfoldable pub record_get_bool : Call ℕ
  record_get_bool = get_value 32 1

  unfoldable pub record_get_short : Call ℕ
  record_get_short = get_value 16 2

  unfoldable pub record_get_int : Call ℕ
  record_get_int = get_value 32 4

  unfoldable pub record_get_long : Call ℕ
  record_get_long = get_value 64 8

  unfoldable pub record_get_ushort : Call ℕ
  record_get_ushort = get_value 16 2

  unfoldable pub record_get_uint : Call ℕ
  record_get_uint = get_value 32 4

  unfoldable pub record_get_ulong : Call ℕ
  record_get_ulong = get_value 64 8

  unfoldable pub record_get_int8 : Call ℕ
  record_get_int8 = get_value 8 1

  unfoldable pub record_get_int16 : Call ℕ
  record_get_int16 = get_value 16 2

  unfoldable pub record_get_int32 : Call ℕ
  record_get_int32 = get_value 32 4

  unfoldable pub record_get_int64 : Call ℕ
  record_get_int64 = get_value 64 8

  unfoldable pub record_get_uint8 : Call ℕ
  record_get_uint8 = get_value 8 1

  unfoldable pub record_get_uint16 : Call ℕ
  record_get_uint16 = get_value 16 2

  unfoldable pub record_get_uint32 : Call ℕ
  record_get_uint32 = get_value 32 4

  unfoldable pub record_get_uint64 : Call ℕ
  record_get_uint64 = get_value 64 8

  -- The union reads the integer's bits as a float's.
  unfoldable pub record_get_float : Call ℕ
  unfolding record_get_int
  record_get_float = record_get_int

  unfoldable pub record_get_double : Call ℕ
  unfolding record_get_int64
  record_get_double = record_get_int64

  -- The result is where the structure stands and its size.
  unfoldable pub record_get_struct : Call (ℕ × ℕ)
  unfolding record_get_uint32
  record_get_struct = do
    struct_size ← record_get_uint32
    get_checked (2 ^ 32) struct_size (λ r. (r.pos, struct_size))
