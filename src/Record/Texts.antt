-- ===== src/Record/Texts.antt =====
-- Strings in a message: `record_append_string` writes the zero byte, `record_get_string` leaves it.
use cloudeagle.Common.{
  ℕ, ◌+◌, ◌-◌, ◌%◌, ◌^◌, ◌≤◌, ◌<◌, ◌≡◌, refl, ◌∙◌, arith, inl, some, List, [], ◌∷◌, ◌++◌, length,
  length-append, All,
}
use cloudeagle.Common.Memory.{
  Memory, Holds, Holds-store, Holds-split, store, store_outside, load, load-Holds, strlen-Holds,
}
use cloudeagle.Record.{CspRecord, done, failed, ◌>>=◌, ◌>>◌, init_record, load_record_size}
use cloudeagle.Record.Append.{record_append_string}
use cloudeagle.Record.Get.{record_get_start, record_get_string, record_get_end}
use cloudeagle.Record.Room.{append_checked-room, get_checked-room}
use cloudeagle.Record.Envelope.{
  init_record-fresh, fresh, moved, begun, entered, ended, enclosed, enclosed-room,
  record_get_start-lem, record_get_end-failed,
}

abbrev IsText : List ℕ → Type 0
IsText v = All (λ b. 0 < b) v

record_append_string-room :
    (v : List ℕ) (r : CspRecord)
    → r.pos + length v + 1 ≤ r.end
    → r.record_size + length v + 1 < 2 ^ 16
    → r.end + 2 ^ 33 ≤ 2 ^ 64
    → record_append_string v r
      ≡ done tt (moved r (store r.mem r.pos (v ++ (0 ∷ []))) (length v + 1))
unfolding record_append_string
record_append_string-room v r room small wrap =
    let n : length (v ++ (0 ∷ [])) ≡ length v + 1 = omega (arith, length-append v (0 ∷ [])) in
    let size : (r.record_size + (length v + 1)) % 2 ^ 16 ≡ r.record_size + (length v + 1) =
      omega arith in
    append_checked-room _ r (omega (arith, n)) wrap ∙ rw (n, size)

record_get_string-room :
    (v : List ℕ) (h : ℕ) (r : CspRecord)
    → IsText v
    → Holds r.mem r.pos (v ++ (0 ∷ []))
    → r.cur_msg_hdr ≡ some h
    → r.record_size + length v ≤ load_record_size r.mem h
    → r.record_size + length v < 2 ^ 16
    → r.pos + length v ≤ r.end
    → r.pos + length v < r.mapped
    → r.end + 2 ^ 33 ≤ 2 ^ 64
    → record_get_string r ≡ done (r.pos, length v) (moved r r.mem (length v))
unfolding record_get_string
record_get_string-room v h r text holds opened fits small room reach wrap =
    rw (strlen-Holds (r.mapped - r.pos) r.mem r.pos v (omega arith) text holds, record_get_string)
      (get_checked-room h (length v) (λ r'. (r'.pos, length v)) r opened fits small room wrap)

-- A message that holds one string. The reader gets the place and the length of that very string,
-- and then its `record_get_end` returns -1, since the zero byte is part of the message and was not
-- skipped.
pub record_get_end-record_get_string :
    (v : List ℕ) (mem : Memory) (mapped start len p p' : ℕ)
    → IsText v
    → 0 < start
    → 4 + length v + 1 ≤ len
    → len < 2 ^ 16
    → start + len ≤ mapped
    → mapped + 2 ^ 33 ≤ 2 ^ 64
    → (w r q s : CspRecord) × (init_record mem mapped start len p ≡ some w)
      × (enclosed (record_append_string v) w ≡ done tt r)
      × (init_record r.mem mapped start r.record_size p' ≡ some q)
      × ((record_get_start >> record_get_string) q ≡ done (start + 4, length v) s)
      × (load s.mem (start + 4) (length v) ≡ v)
      × (record_get_end s ≡ failed s)
record_get_end-record_get_string v mem mapped start len p p' text nonnull room small reach wrap =
    let n = length v in
    let bytes : List ℕ = v ++ (0 ∷ []) in
    let w : CspRecord = fresh mem mapped start len p in
    let m : Memory = store (begun w).mem (start + 4) bytes in
    let (m', wrote, written) =
      enclosed-room (record_append_string v) w m (start + 4 + (n + 1)) (4 + (n + 1)) bytes
        (omega arith) (omega arith) (omega arith)
        (record_append_string-room v (begun w) (omega arith) (omega arith) (omega arith))
        (
          Holds-store (begun w).mem (start + 4) bytes,
          λ a h. store_outside (begun w).mem (start + 4) bytes a (inl h),
        ) in
    let q : CspRecord = fresh m' mapped start (4 + (n + 1)) p' in
    let s : CspRecord = moved (entered q) m' n in
    (
      w,
      ended w m' (start + 4 + (n + 1)) (4 + (n + 1)),
      q,
      s,
      init_record-fresh mem mapped start len p nonnull (omega arith) (omega arith),
      wrote,
      init_record-fresh m' mapped start (4 + (n + 1)) p' nonnull (omega arith) (omega arith),
      rw
          (
            record_get_start-lem q (4 + (n + 1)) bytes (omega arith) (omega arith) (omega arith)
                written,
            ◌>>=◌,
          )
          (record_get_string-room v start (entered q) text written.body_at refl
            (omega (arith, written.size_at)) (omega arith) (omega arith) (omega arith)
            (omega arith)),
      load-Holds m' (start + 4) v
          (Holds-split m' (start + 4) (start + 4 + n) v (0 ∷ []) refl written.body_at).0,
      record_get_end-failed s start refl (omega (arith, written.size_at)),
    )
