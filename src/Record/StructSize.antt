-- ===== src/Record/StructSize.antt =====
-- A structure in a message: `record_append_struct` counts its four-byte length prefix twice.
use native.Mathlib.Nat.{mod-eq_of_lt}
use cloudeagle.Common.{
  ℕ, ◌+◌, ◌%◌, ◌^◌, ◌≤◌, ◌<◌, ◌≡◌, refl, ◌∙◌, arith, inl, some, List, ◌++◌, length, false,
}
use cloudeagle.Common.Memory.{
  Memory, Holds, Holds-store, Holds-frame, Holds-append, Holds-split, store, store_outside, ptr_add,
}
use cloudeagle.Value.{value_append}
use cloudeagle.Value.Bytes.{length-value_append}
use cloudeagle.Value.RoundTrip.{value_get_int}
use cloudeagle.Record.{CspRecord, done, failed, ◌>>=◌, ◌>>◌, init_record, load_record_size}
use cloudeagle.Record.Get.{
  record_get_start, record_get_struct, record_get_uint32, record_get_end, get_value, get_checked,
  past_end,
}
use cloudeagle.Record.Calls.{append_struct}
use cloudeagle.Record.Room.{get_checked-room, buf_full-room}
use cloudeagle.Record.Structs.{append_struct-room, struct_appended}
use cloudeagle.Record.Envelope.{
  init_record-fresh, fresh, moved, begun, entered, ended, Written, enclosed, enclosed-room,
  record_get_start-lem, record_get_end-failed,
}

record_get_uint32-room :
    (wide_shl : ℕ → ℕ → ℕ) (v h : ℕ) (r : CspRecord)
    → v < 2 ^ 32
    → Holds r.mem r.pos (value_append 4 v)
    → r.cur_msg_hdr ≡ some h
    → r.record_size + 4 ≤ load_record_size r.mem h
    → r.record_size + 4 < 2 ^ 16
    → r.pos + 4 ≤ r.end
    → r.end + 2 ^ 33 ≤ 2 ^ 64
    → record_get_uint32 wide_shl r ≡ done v (moved r r.mem 4)
unfolding record_get_uint32 get_value
record_get_uint32-room wide_shl v h r lt holds opened fits small room wrap =
    get_checked-room h 4 _ r opened fits small room wrap
    ∙ rw (value_get_int wide_shl r.mem r.pos v holds, mod-eq_of_lt lt)

-- The same as `get_checked-room` where the sum of sizes is made in 32 bits.
struct_checked :
    {A : Type 0} (h sz : ℕ) (value : CspRecord → A) (r : CspRecord)
    → r.cur_msg_hdr ≡ some h
    → r.record_size + sz ≤ load_record_size r.mem h
    → r.record_size + sz < 2 ^ 16
    → r.pos + sz ≤ r.end
    → r.end + 2 ^ 33 ≤ 2 ^ 64
    → get_checked (2 ^ 32) sz value r ≡ done (value r) (moved r r.mem sz)
unfolding get_checked
struct_checked h sz value r opened fits small room wrap =
    let at : ptr_add r.pos sz ≡ r.pos + sz = omega arith in
    let size : (r.record_size + sz) % 2 ^ 16 ≡ r.record_size + sz = omega arith in
    let inside : past_end (2 ^ 32) sz r h ≡ false = ground arith in
    simp (opened, get_checked) (rw (inside, at, size))

record_get_struct-room :
    (wide_shl : ℕ → ℕ → ℕ) (n h : ℕ) (r : CspRecord)
    → Holds r.mem r.pos (value_append 4 n)
    → r.cur_msg_hdr ≡ some h
    → r.record_size + (4 + n) ≤ load_record_size r.mem h
    → r.record_size + (4 + n) < 2 ^ 16
    → r.pos + (4 + n) ≤ r.end
    → r.end + 2 ^ 33 ≤ 2 ^ 64
    → record_get_struct wide_shl r
      ≡ done (r.pos + 4, n) (record r { pos = r.pos + 4 + n; record_size = r.record_size + 4 + n })
unfolding record_get_struct
record_get_struct-room wide_shl n h r holds opened fits small room wrap =
    rw
      (
        record_get_uint32-room wide_shl n h r (omega arith) holds opened (omega arith) (omega arith)
            (omega arith) wrap,
        ◌>>=◌,
      )
      (struct_checked h n _ (moved r r.mem 4) opened (omega arith) (omega arith) (omega arith) wrap)

append_struct-fits :
    (bytes : List ℕ) (r : CspRecord)
    → r.pos + 4 + length bytes ≤ r.end
    → length bytes < 2 ^ 16
    → r.end + 2 ^ 33 ≤ 2 ^ 64
    → append_struct bytes r ≡ done tt (struct_appended bytes r)
append_struct-fits bytes r room small wrap =
    let n = length bytes in
    let e : (n + 4) % 2 ^ 64 ≡ n + 4 = omega arith in
    append_struct-room bytes r (omega arith) (omega arith) wrap
      (rw e (buf_full-room r (n + 4) (omega arith) wrap))

-- The writer's side: the header says four more than there is.
write_struct :
    (bytes : List ℕ) (w : CspRecord)
    → w.pos + 4 + 4 + length bytes ≤ w.end
    → 12 + length bytes < 2 ^ 16
    → w.end + 2 ^ 33 ≤ 2 ^ 64
    → let n = length bytes in
      (m : Memory) × (enclosed (append_struct bytes) w
        ≡ done tt (ended w m (w.pos + 4 + 4 + n) (12 + n)))
      × Written w.start_mark w.pos (12 + n) (value_append 4 n ++ bytes) m
write_struct bytes w room small wrap =
    let n = length bytes in
    let prefix : List ℕ = value_append 4 n in
    let n4 : length prefix ≡ 4 = length-value_append 4 n in
    let at : ℕ = w.pos + 4 in
    let m1 : Memory = store (begun w).mem at prefix in
    let m : Memory = store m1 (at + 4) bytes in
    let size : (4 + 4 + (n + 4)) % 2 ^ 16 ≡ 12 + n = omega arith in
    let stays : (a : ℕ) → a < at + 4 → m a ≡ m1 a =
      λ a h. store_outside m1 (at + 4) bytes a (inl h) in
    enclosed-room (append_struct bytes) w m (at + 4 + n) (12 + n) (prefix ++ bytes) (omega arith)
      wrap small (append_struct-fits bytes (begun w) room (omega arith) wrap ∙ rw size)
      (
        Holds-append m at (at + 4) prefix bytes (omega (arith, n4))
            (Holds-frame m1 m at prefix (λ a lo hi. stays a (omega (arith, n4)))
              (Holds-store (begun w).mem at prefix))
            (Holds-store m1 (at + 4) bytes),
        λ a h. stays a (omega arith) ∙ store_outside (begun w).mem at prefix a (inl h),
      )

-- The reader's side.
abbrev struct_read : CspRecord → ℕ → CspRecord
struct_read q n = record (entered q) { pos = q.pos + 4 + 4 + n; record_size = 8 + n }

read_struct :
    (wide_shl : ℕ → ℕ → ℕ) (bytes : List ℕ) (q : CspRecord)
    → let n = length bytes in
      Written q.start_mark q.pos (12 + n) (value_append 4 n ++ bytes) q.mem
      → 12 + n < 2 ^ 16
      → q.pos + 4 + 4 + n ≤ q.end
      → q.end ≤ q.mapped
      → q.mapped + 2 ^ 33 ≤ 2 ^ 64
      → ((record_get_start >> record_get_struct wide_shl) q
          ≡ done (q.pos + 4 + 4, n) (struct_read q n))
        × Holds q.mem (q.pos + 4 + 4) bytes
        × (record_get_end (struct_read q n) ≡ failed (struct_read q n))
read_struct wide_shl bytes q written small room reach wrap =
    let n = length bytes in
    let (there, content) =
      Holds-split q.mem (q.pos + 4) (q.pos + 4 + 4) (value_append 4 n) bytes
        (omega (arith, length-value_append 4 n)) written.body_at in
    (
      rw
          (
            record_get_start-lem q (12 + n) (value_append 4 n ++ bytes) (omega arith) (omega arith)
                (omega arith) written,
            ◌>>=◌,
          )
          (record_get_struct-room wide_shl n q.pos (entered q) there refl
            (omega (arith, written.size_at)) (omega arith) (omega arith) (omega arith)),
      content,
      record_get_end-failed (struct_read q n) q.pos refl (omega (arith, written.size_at)),
    )

-- A message that holds one structure. The reader finds the structure where the writer filled it in,
-- but the size in the header is four too large, and its `record_get_end` returns -1.
pub record_get_end-record_get_struct :
    (wide_shl : ℕ → ℕ → ℕ) (bytes : List ℕ) (mem : Memory) (mapped start len p p' : ℕ)
    → 0 < start
    → 12 + length bytes ≤ len
    → len < 2 ^ 16
    → start + len ≤ mapped
    → mapped + 2 ^ 33 ≤ 2 ^ 64
    → (w r q s : CspRecord) × (init_record mem mapped start len p ≡ some w)
      × (enclosed (append_struct bytes) w ≡ done tt r)
      × (start + r.record_size ≡ r.pos + 4)
      × (init_record r.mem mapped start r.record_size p' ≡ some q)
      × ((record_get_start >> record_get_struct wide_shl) q ≡ done (start + 4 + 4, length bytes) s)
      × Holds s.mem (start + 4 + 4) bytes
      × (record_get_end s ≡ failed s)
record_get_end-record_get_struct wide_shl bytes mem mapped start len p p' nonnull room small reach
      wrap =
    let n = length bytes in
    let w : CspRecord = fresh mem mapped start len p in
    let (m, wrote, written) = write_struct bytes w (omega arith) (omega arith) (omega arith) in
    let q : CspRecord = fresh m mapped start (12 + n) p' in
    let (read, content, fails) =
      read_struct wide_shl bytes q written (omega arith) (omega arith) (omega arith) wrap in
    (
      w,
      ended w m (start + 4 + 4 + n) (12 + n),
      q,
      struct_read q n,
      init_record-fresh mem mapped start len p nonnull (omega arith) (omega arith),
      wrote,
      omega arith,
      init_record-fresh m mapped start (12 + n) p' nonnull (omega arith) (omega arith),
      read,
      content,
      fails,
    )
