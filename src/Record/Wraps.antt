-- ===== src/Record/Wraps.antt =====
-- Sizes for which the sums of cwaf/csp_kernel_record.c wrap around.
use cloudeagle.Common.{ℕ, ◌+◌, ◌-◌, ◌%◌, ◌^◌, ◌≤◌, ◌<◌, ◌≡◌, refl, arith, false}
use cloudeagle.Common.Memory.{ptr_add, store}
use cloudeagle.Value.{value_append}
use cloudeagle.Record.{CspRecord, done, buf_full}
use cloudeagle.Record.Append.{record_append_struct}
use cloudeagle.Record.Safety.{IsSafe}
use cloudeagle.Record.Structs.{record_append_uint32-room}

-- A structure of 2 ^ 64 - `k` bytes, for `k` from 1 to the cursor's address, in a record whose cursor is
-- in its memory and has room for four bytes: record_append_struct finds room for it, and puts the
-- cursor `k` bytes in front of the end of the length that it writes, that is, for more than four
-- in front of where it was.
pub record_append_struct-wraps :
    (k : ℕ) (r : CspRecord)
    → 0 < k
    → k ≤ r.pos
    → IsSafe r
    → r.pos + 4 ≤ r.end
    → (p : ℕ) × (r' : CspRecord) × (record_append_struct (2 ^ 64 - k) r ≡ done p r')
      × (r'.pos + k ≡ r.pos + 4)
unfolding record_append_struct
record_append_struct-wraps k r pos low s room =
    let size = 2 ^ 64 - k in
    let wrapped : ptr_add r.pos ((size + 4) % 2 ^ 64) ≡ r.pos + 4 - k =
      omega (arith, s.before_end, s.no_wrap) in
    let fits : buf_full r ((size + 4) % 2 ^ 64) ≡ false = ground (arith, wrapped, s.before_end) in
    let prefix = record_append_uint32-room r (size % 2 ^ 32) room s.no_wrap in
    (
      r.pos + 4,
      record r {
        mem = store r.mem r.pos (value_append 4 (size % 2 ^ 32));
        pos = ptr_add (r.pos + 4) size;
        record_size = ((r.record_size + 4) % 2 ^ 16 + (size + 4) % 2 ^ 64) % 2 ^ 16;
      },
      rw (fits, prefix) refl,
      omega (arith, s.before_end, s.no_wrap),
    )
