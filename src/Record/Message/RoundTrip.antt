-- ===== src/Record/Message/RoundTrip.antt =====
-- Reading a message gives back what was written.
use cloudeagle.Common.{
  ℕ, ◌+◌, ◌%◌, ◌^◌, ◌≤◌, ◌<◌, ◌≡◌, refl, sym, ap, ◌∙◌, arith, inl, some, none, List, [], ◌∷◌, ◌++◌,
  map, length, length-append, All,
}
use cloudeagle.Common.Memory.{
  Memory, Holds, Holds-frame, Holds-store, Holds-append, Holds-split, store, store_outside,
}
use native.Mathlib.Nat.{add-zero, add_assoc}
use cloudeagle.Value.{value_append}
use cloudeagle.Value.Bytes.{length-value_append}
use cloudeagle.Record.{CspRecord, done, ◌>>=◌, init_record, load_record_size}
use cloudeagle.Record.Get.{get_value}
use cloudeagle.Record.Envelope.{
  init_record-fresh, fresh, moved, begun, entered, ended, Wrote, Written, enclosed-room,
  record_get_start-lem, record_get_end-lem,
}
use cloudeagle.Record.Calls.{
  Kind, size_of, raw_bits, append_kind, get_kind, append_kind_lem, get_kind_lem,
}
use cloudeagle.Record.Message.{
  Field, append_fields, write_message, get_fields, read_message, encode, IsNarrow, read_back,
  kind_of,
}
use cloudeagle.Record.Message.Fields.{read_back_lem}
use cloudeagle.Record.Room.{append_checked-room, get_checked-room}

append_kind-room :
    (k : Kind) (v : ℕ) (r : CspRecord)
    → r.pos + size_of k ≤ r.end
    → r.record_size + size_of k < 2 ^ 16
    → r.end + 2 ^ 33 ≤ 2 ^ 64
    → append_kind k v r
      ≡ done tt (moved r (store r.mem r.pos (value_append (size_of k) (raw_bits k v))) (size_of k))
append_kind-room k v r room small wrap =
    let n : length (value_append (size_of k) (raw_bits k v)) ≡ size_of k =
      length-value_append _ _ in
    let size : (r.record_size + size_of k) % 2 ^ 16 ≡ r.record_size + size_of k = omega arith in
    rw append_kind_lem (append_checked-room _ r (omega (arith, n)) wrap ∙ rw (n, size))

append_fields-room :
    (fs : List Field) (r : CspRecord)
    → r.pos + length (encode fs) ≤ r.end
    → r.record_size + length (encode fs) < 2 ^ 16
    → r.end + 2 ^ 33 ≤ 2 ^ 64
    → (m : Memory) × (append_fields fs r ≡ done tt (moved r m (length (encode fs))))
      × Wrote (encode fs) r m
unfolding append_fields
append_fields-room [] r room small wrap = (r.mem, simp add-zero, (tt, λ a h. refl))
append_fields-room ((k, v) ∷ fs) r room small wrap =
    let bytes : List ℕ = value_append (size_of k) (raw_bits k v) in
    let n : length bytes ≡ size_of k = length-value_append _ _ in
    let all : length (bytes ++ encode fs) ≡ length bytes + length (encode fs) =
      length-append bytes (encode fs) in
    let r' : CspRecord = moved r (store r.mem r.pos bytes) (size_of k) in
    let (m, rest, (there, before)) = append_fields-room fs r' (omega arith) (omega arith) wrap in
    let stays : (a : ℕ) → a < r.pos + size_of k → m a ≡ store r.mem r.pos bytes a = before in
    (
      m,
      rw (append_kind-room k v r (omega arith) (omega arith) wrap, ◌>>=◌)
          (rest ∙ simp (all, n, add_assoc)),
      (
        Holds-append m r.pos r'.pos bytes (encode fs) (omega (arith, n))
            (Holds-frame (store r.mem r.pos bytes) m r.pos bytes
              (λ a lo hi. stays a (omega (arith, n))) (Holds-store r.mem r.pos bytes))
            there,
        λ a h. stays a (omega arith) ∙ store_outside r.mem r.pos bytes a (inl h),
      ),
    )

-- `write_message` leaves a header with the mark and the size of the whole message, and the fields
-- behind it.
write_message-room :
    (fs : List Field) (r : CspRecord)
    → r.pos + 4 + length (encode fs) ≤ r.end
    → 4 + length (encode fs) < 2 ^ 16
    → r.end + 2 ^ 33 ≤ 2 ^ 64
    → let n = length (encode fs) in
      (m : Memory) × (write_message fs r ≡ done tt (ended r m (r.pos + 4 + n) (4 + n)))
      × Written r.start_mark r.pos (4 + n) (encode fs) m
unfolding write_message
write_message-room fs r room small wrap =
    let n = length (encode fs) in
    let (m, wrote, body) = append_fields-room fs (begun r) room small wrap in
    enclosed-room (append_fields fs) r m (r.pos + 4 + n) (4 + n) (encode fs) (omega arith) wrap
      small wrote body

get_kind-room :
    (wide_shl : ℕ → ℕ → ℕ) (k : Kind) (v h : ℕ) (r : CspRecord)
    → IsNarrow (k, v)
    → Holds r.mem r.pos (value_append (size_of k) (raw_bits k v))
    → r.cur_msg_hdr ≡ some h
    → r.record_size + size_of k ≤ load_record_size r.mem h
    → r.record_size + size_of k < 2 ^ 16
    → r.pos + size_of k ≤ r.end
    → r.end + 2 ^ 33 ≤ 2 ^ 64
    → get_kind wide_shl k r ≡ done (read_back (k, v)) (moved r r.mem (size_of k))
unfolding get_value
get_kind-room wide_shl k v h r narrow holds opened fits small room wrap = rw get_kind_lem (
    get_checked-room h (size_of k) _ r opened fits small room wrap
    ∙ ap (λ x. done x (moved r r.mem (size_of k)))
        (read_back_lem wide_shl k v r.mem r.pos narrow holds))

get_fields-room :
    (wide_shl : ℕ → ℕ → ℕ) (fs : List Field) (h : ℕ) (r : CspRecord)
    → All IsNarrow fs
    → Holds r.mem r.pos (encode fs)
    → r.cur_msg_hdr ≡ some h
    → r.record_size + length (encode fs) ≤ load_record_size r.mem h
    → r.record_size + length (encode fs) < 2 ^ 16
    → r.pos + length (encode fs) ≤ r.end
    → r.end + 2 ^ 33 ≤ 2 ^ 64
    → get_fields wide_shl (map kind_of fs) r
      ≡ done (map read_back fs) (moved r r.mem (length (encode fs)))
unfolding get_fields
get_fields-room wide_shl [] h r narrow holds opened fits small room wrap = simp add-zero
get_fields-room wide_shl ((k, v) ∷ fs) h r (one, narrow) holds opened fits small room wrap =
    let bytes : List ℕ = value_append (size_of k) (raw_bits k v) in
    let n : length bytes ≡ size_of k = length-value_append _ _ in
    let all : length (bytes ++ encode fs) ≡ length bytes + length (encode fs) =
      length-append bytes (encode fs) in
    let (here, there) =
      Holds-split r.mem r.pos (r.pos + size_of k) bytes (encode fs) (omega (arith, n)) holds in
    rw
      (
        get_kind-room wide_shl k v h r one here opened (omega arith) (omega arith) (omega arith)
            wrap,
        ◌>>=◌,
      )
      (rw
        (
          get_fields-room wide_shl fs h (moved r r.mem (size_of k)) narrow there opened
              (omega arith) (omega arith) (omega arith) wrap,
          ◌>>=◌,
        )
        (simp (all, n, add_assoc)))

read_message-room :
    (wide_shl : ℕ → ℕ → ℕ) (fs : List Field) (r : CspRecord)
    → All IsNarrow fs
    → Written r.start_mark r.pos (4 + length (encode fs)) (encode fs) r.mem
    → 4 + length (encode fs) < 2 ^ 16
    → r.pos + 4 + length (encode fs) ≤ r.end
    → r.end ≤ r.mapped
    → r.mapped + 2 ^ 33 ≤ 2 ^ 64
    → read_message wide_shl (map kind_of fs) r
      ≡ done
          (map read_back fs)
          (record r { pos = r.pos + 4 + length (encode fs); cur_msg_hdr = none; record_size = 0 })
unfolding read_message
read_message-room wide_shl fs r narrow w small room reach wrap =
    let n = length (encode fs) in
    rw
      (
        record_get_start-lem r (4 + n) (encode fs) (omega arith) (omega arith) (omega arith) w,
        ◌>>=◌,
      )
      (rw
        (
          get_fields-room wide_shl fs r.pos (entered r) narrow w.body_at refl
              (omega (arith, w.size_at)) small room (omega arith),
          ◌>>=◌,
        )
        (rw (record_get_end-lem (moved (entered r) r.mem n) r.pos refl (sym w.size_at), ◌>>=◌)))

-- A message of any fields of at most four bytes each, written into memory that it fits into by
-- calls that all succeed: a second record over what was written reads every field back in order,
-- a `bool` cut to a byte and a float made canonical, and ends where the message ends.
pub read_message-write_message :
    (wide_shl : ℕ → ℕ → ℕ) (fs : List Field) (mem : Memory) (mapped start len p p' : ℕ)
    → All IsNarrow fs
    → 0 < start
    → 4 + length (encode fs) ≤ len
    → len < 2 ^ 16
    → start + len ≤ mapped
    → mapped + 2 ^ 33 ≤ 2 ^ 64
    → (w r q : CspRecord) × (init_record mem mapped start len p ≡ some w)
      × (write_message fs w ≡ done tt r)
      × (init_record r.mem mapped start r.record_size p' ≡ some q)
      × (read_message wide_shl (map kind_of fs) q
          ≡ done
              (map read_back fs)
              (record q { pos = start + r.record_size; cur_msg_hdr = none; record_size = 0 }))
read_message-write_message wide_shl fs mem mapped start len p p' narrow nonnull room small reach
      wrap =
    let n = length (encode fs) in
    let w : CspRecord = fresh mem mapped start len p in
    let (m, wrote, written) = write_message-room fs w (omega arith) (omega arith) (omega arith) in
    let q : CspRecord = fresh m mapped start (4 + n) p' in
    (
      w,
      ended w m (start + 4 + n) (4 + n),
      q,
      init_record-fresh mem mapped start len p nonnull (omega arith) (omega arith),
      wrote,
      init_record-fresh m mapped start (4 + n) p' nonnull (omega arith) (omega arith),
      read_message-room wide_shl fs q narrow written (omega arith) (omega arith) (omega arith) wrap
          ∙ rw add_assoc,
    )
