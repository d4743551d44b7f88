-- ===== src/Record/Structs.antt =====
-- Structures in a message: `record_append_struct` and `record_get_struct`.
use cloudeagle.Common.{ℕ, ◌+◌, ◌%◌, ◌^◌, ◌≤◌, ◌<◌, ◌≡◌, arith, List, length, true, false}
use cloudeagle.Common.Memory.{store, ptr_add}
use cloudeagle.Value.{value_append}
use cloudeagle.Value.Bytes.{length-value_append}
use cloudeagle.Record.{CspRecord, done, failed, ◌>>=◌, buf_full}
use cloudeagle.Record.Append.{append_checked, record_append_uint32, record_append_struct}
use cloudeagle.Record.Calls.{append_struct}
use cloudeagle.Record.Room.{buf_full-room}

-- Where there is room, the length prefix of a structure is written as any other `__u32`.
pub record_append_uint32-room :
    (r : CspRecord) (v : ℕ)
    → r.pos + 4 ≤ r.end
    → r.end + 2 ^ 33 ≤ 2 ^ 64
    → record_append_uint32 v r
      ≡ done tt (record r {
        mem = store r.mem r.pos (value_append 4 v);
        pos = r.pos + 4;
        record_size = (r.record_size + 4) % 2 ^ 16;
      })
unfolding record_append_uint32 append_checked
record_append_uint32-room r v room small =
    let e : ptr_add r.pos 4 ≡ r.pos + 4 = omega arith in
    rw (length-value_append 4 v, buf_full-room r 4 room small, e)

-- `append_struct` with and without room for the prefix and the structure.
pub append_struct-full :
    (bytes : List ℕ) (r : CspRecord)
    → buf_full r ((length bytes + 4) % 2 ^ 64) ≡ true
    → append_struct bytes r ≡ failed r
unfolding append_struct record_append_struct
append_struct-full bytes r full = ground arith

abbrev pub struct_appended : List ℕ → CspRecord → CspRecord
struct_appended bytes r =
    let n = length bytes in
    record r {
      mem = store (store r.mem r.pos (value_append 4 n)) (r.pos + 4) bytes;
      pos = r.pos + 4 + n;
      record_size = (r.record_size + 4 + (n + 4)) % 2 ^ 16;
    }

record_append_struct-room :
    (n : ℕ) (r : CspRecord)
    → n < 2 ^ 32
    → r.pos ≤ r.end
    → r.end + 2 ^ 33 ≤ 2 ^ 64
    → buf_full r ((n + 4) % 2 ^ 64) ≡ false
    → record_append_struct n r
      ≡ done (r.pos + 4) (record r {
        mem = store r.mem r.pos (value_append 4 n);
        pos = r.pos + 4 + n;
        record_size = (r.record_size + 4 + (n + 4)) % 2 ^ 16;
      })
unfolding record_append_struct
record_append_struct-room n r lt in_mem s room =
    let e : n % 2 ^ 32 ≡ n = omega arith in
    let roomy : r.pos + n + 4 ≤ r.end = ground arith in
    let at : ptr_add (r.pos + 4) n ≡ r.pos + 4 + n = omega arith in
    let size : ((r.record_size + 4) % 2 ^ 16 + (n + 4) % 2 ^ 64) % 2 ^ 16
        ≡ (r.record_size + 4 + (n + 4)) % 2 ^ 16 =
      omega arith in
    rw (room, e, record_append_uint32-room r n (omega arith) s, at, size)

pub append_struct-room :
    (bytes : List ℕ) (r : CspRecord)
    → length bytes < 2 ^ 32
    → r.pos ≤ r.end
    → r.end + 2 ^ 33 ≤ 2 ^ 64
    → buf_full r ((length bytes + 4) % 2 ^ 64) ≡ false
    → append_struct bytes r ≡ done tt (struct_appended bytes r)
unfolding append_struct
append_struct-room bytes r lt in_mem s room =
    rw (record_append_struct-room (length bytes) r lt in_mem s room, ◌>>=◌)
