-- ===== src/Record/Append.antt =====
-- The functions of cwaf/csp_kernel_record.c that write a message.
use cloudeagle.Common.{ℕ, ◌+◌, ◌%◌, ◌^◌, none, some, List, [], ◌∷◌, ◌++◌, length}
use cloudeagle.Common.{if◌then◌else◌}
use cloudeagle.Common.Memory.{store, ptr_add}
use cloudeagle.Value.{value_append}
use cloudeagle.Value.Float.{float2_raw_int_bits, double2_raw_int_bits}
use cloudeagle.Record.{CspRecord, Reply, done, failed, fault, Call}
use cloudeagle.Record.{hdr_size, size_bytes, buf_full}

unfoldable pub append_bytes_buf : List ℕ → Call (Unit {0})
append_bytes_buf bytes r = done tt (record r {
  mem = store r.mem r.pos bytes;
  pos = ptr_add r.pos (length bytes);
  record_size = (r.record_size + length bytes) % 2 ^ 16;
})

-- APPEND_CHECK, then the bytes.
unfoldable pub append_checked : List ℕ → Call (Unit {0})
unfolding append_bytes_buf
append_checked bytes r = if buf_full r (length bytes) then failed r else append_bytes_buf bytes r

unfoldable pub record_append_start : Call (Unit {0})
record_append_start r =
    if buf_full r hdr_size
    then failed r
    else done tt (record r {
      mem = store (store r.mem r.pos (r.start_mark ∷ [])) (r.pos + 2) (size_bytes 0);
      pos = ptr_add r.pos hdr_size;
      record_size = hdr_size;
      cur_msg_hdr = some r.pos;
    })

unfoldable pub record_append_end : Call (Unit {0})
record_append_end r = elim r.cur_msg_hdr [
  | none ↦ fault
  | some h ↦
      done tt
        (record r { mem = store r.mem (h + 2) (size_bytes r.record_size); cur_msg_hdr = none })
]

unfoldable pub record_append_bool : ℕ → Call (Unit {0})
record_append_bool v = append_checked (value_append 1 v)

unfoldable pub record_append_short : ℕ → Call (Unit {0})
record_append_short v = append_checked (value_append 2 v)

unfoldable pub record_append_int : ℕ → Call (Unit {0})
record_append_int v = append_checked (value_append 4 v)

unfoldable pub record_append_long : ℕ → Call (Unit {0})
record_append_long v = append_checked (value_append 8 v)

unfoldable pub record_append_ushort : ℕ → Call (Unit {0})
record_append_ushort v = append_checked (value_append 2 v)

unfoldable pub record_append_uint : ℕ → Call (Unit {0})
record_append_uint v = append_checked (value_append 4 v)

unfoldable pub record_append_ulong : ℕ → Call (Unit {0})
record_append_ulong v = append_checked (value_append 8 v)

unfoldable pub record_append_int8 : ℕ → Call (Unit {0})
record_append_int8 v = append_checked (value_append 1 v)

unfoldable pub record_append_int16 : ℕ → Call (Unit {0})
record_append_int16 v = append_checked (value_append 2 v)

unfoldable pub record_append_int32 : ℕ → Call (Unit {0})
record_append_int32 v = append_checked (value_append 4 v)

unfoldable pub record_append_int64 : ℕ → Call (Unit {0})
record_append_int64 v = append_checked (value_append 8 v)

unfoldable pub record_append_uint8 : ℕ → Call (Unit {0})
record_append_uint8 v = append_checked (value_append 1 v)

unfoldable pub record_append_uint16 : ℕ → Call (Unit {0})
record_append_uint16 v = append_checked (value_append 2 v)

unfoldable pub record_append_uint32 : ℕ → Call (Unit {0})
record_append_uint32 v = append_checked (value_append 4 v)

unfoldable pub record_append_uint64 : ℕ → Call (Unit {0})
record_append_uint64 v = append_checked (value_append 8 v)

unfoldable pub record_append_float : ℕ → Call (Unit {0})
unfolding record_append_int float2_raw_int_bits
record_append_float v = record_append_int (float2_raw_int_bits v)

unfoldable pub record_append_double : ℕ → Call (Unit {0})
unfolding record_append_int64 double2_raw_int_bits
record_append_double v = record_append_int64 (double2_raw_int_bits v)

-- A C string is given by its bytes before the zero byte, which is written too.
unfoldable pub record_append_string : List ℕ → Call (Unit {0})
record_append_string v = append_checked (v ++ (0 ∷ []))

-- The record after a call whose result is ignored.
abbrev pub after : {A : Type 0} → Reply A → CspRecord → CspRecord
after (done a r') r = r'
after (failed r') r = r'
after fault r = r

-- The result is the address at which the caller then writes `size` bytes.
unfoldable pub record_append_struct : ℕ → Call ℕ
record_append_struct size r =
    let sz = (size + 4) % 2 ^ 64 in
    let r' = after (record_append_uint32 (size % 2 ^ 32) r) r in
    if buf_full r sz
    then failed r
    else done r'.pos
        (record r' { pos = ptr_add r'.pos size; record_size = (r'.record_size + sz) % 2 ^ 16 })
