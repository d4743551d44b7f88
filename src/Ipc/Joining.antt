-- ===== src/Ipc/Joining.antt =====
-- Readers of a queue of ce_util/ce_ipc_shm.c that register, and what a reader notes in a block: the
-- lists of blocks and the room in them stay as they are.
use cloudeagle.Common.{
  ℕ, ◌+◌, ◌^◌, ◌<◌, ◌≡◌, refl, ◌⊎◌, inl, inr, Option, none, some, List, Bool, true, false, ltb, leb,
  ◌&&◌, length, modify, Bool-cases, Option-cases, not, if◌then◌else◌,
}
use cloudeagle.Ipc.{ReaderInfo, ShmQueue, Shared, put, ◌>>=◌, max_reader_num}
use cloudeagle.Ipc.Readers.{
  settle, ipc_shm_queue_reader_find_by_name, ipc_shm_queue_reader_free,
  ipc_shm_queue_reader_info_init, ipc_shm_queue_reader_add, ipc_shm_reader_register, pid_at,
}
use cloudeagle.Ipc.Read.{getpid_index, note_read}
use cloudeagle.Ipc.Invariant.{IsQueue, put-SameLinks}
use cloudeagle.Ipc.Take.{put-SameRoom}
use cloudeagle.Ipc.Dead.{
  Undisturbed, Undisturbed-trans, same_Undisturbed, strike-Undisturbed, settle-same, length-modify,
  ipc_clear_dbk_for_reader-Undisturbed,
}

settle-Undisturbed : (s : Shared) (m : ℕ) → Undisturbed s (put s m (settle (s.block m)))
settle-Undisturbed s m =
    let d = settle (s.block m) in
    let (next, at, pos, size) = settle-same (s.block m) in
    let links = put-SameLinks s m d next at in
    record {
      links = record { used = refl; free = refl; next = links.next; at = links.at };
      room = put-SameRoom s m d pos size;
      cur = refl;
      readers = refl;
    }

pub note_read-Undisturbed : (s : Shared) (pid m : ℕ) → Undisturbed s (note_read s pid m)
unfolding note_read
note_read-Undisturbed s pid m =
    let d = s.block m in
    elim (Bool-cases (ltb 0 d.read_count && ltb d.read_count (2 ^ 63))) [
      | inl more ↦ elim (Option-cases (getpid_index s.queue.ref_count pid d.reader_pid)) [
        | inl e ↦ rw (more, e, note_read) (settle-Undisturbed s m)
        | inr (i, e) ↦
            rw (more, e, note_read)
              (strike-Undisturbed s i m _ refl refl refl (
                length-modify i (λ (r : ReaderInfo). record r { rcv_cnt = r.rcv_cnt + 1 })
                  s.queue.readers))
      ]
      | inr over ↦ rw (over, note_read) (settle-Undisturbed s m)
    ]

-- A change of the table of readers alone.
table-Undisturbed :
    (s : Shared) (n : ℕ) (rs : List ReaderInfo)
    → length rs ≡ length s.queue.readers
    → Undisturbed s (record s { queue = record s.queue { ref_count = n; readers = rs } })
table-Undisturbed s n rs e = record {
  links = record { used = refl; free = refl; next = λ a. refl; at = λ a. refl };
  room = λ a. (refl, refl);
  cur = refl;
  readers = e;
}

-- There is no room in the table, or its entries are as many as before.
abbrev Added : Shared → Option ShmQueue → Type 0
Added s r = (r ≡ none) ⊎ ((q : ShmQueue) × (r ≡ some q) × Undisturbed s (record s { queue = q }))

ipc_shm_queue_reader_add-Added :
    (s : Shared) (pid : ℕ) (name : List ℕ) → Added s (ipc_shm_queue_reader_add s.queue pid name)
unfolding ipc_shm_queue_reader_add
ipc_shm_queue_reader_add-Added s pid name =
    elim (Option-cases (ipc_shm_queue_reader_find_by_name s.queue name)) [
      | inl new ↦ elim (Option-cases (ipc_shm_queue_reader_free s.queue)) [
        | inl full ↦
            inl (rw (new, ipc_shm_queue_reader_add) (rw (full, ipc_shm_queue_reader_add) refl))
        | inr (i, e) ↦ inr (
          record s.queue {
            ref_count = s.queue.ref_count + 1;
            readers =
                modify i (λ r. ipc_shm_queue_reader_info_init r pid false name) s.queue.readers;
          },
          rw (new, ipc_shm_queue_reader_add) (rw (e, ipc_shm_queue_reader_add) refl),
          table-Undisturbed s _ _ (
              length-modify i (λ r. ipc_shm_queue_reader_info_init r pid false name)
                s.queue.readers),
        )
      ]
      | inr (i, e) ↦ inr (
        record s.queue {
          readers =
              modify i (λ (r : ReaderInfo). record r { reader_pid = pid; free = false })
                s.queue.readers;
        },
        rw (e, ipc_shm_queue_reader_add) refl,
        table-Undisturbed s s.queue.ref_count _ (
            length-modify i (λ (r : ReaderInfo). record r { reader_pid = pid; free = false })
              s.queue.readers),
      )
    ]

-- A registration faults, or leaves the lists and the room in the blocks.
abbrev pub Joined : Shared → Option (Shared × Bool) → Type 0
Joined s r = (r ≡ none) ⊎ ((s' : Shared) × (ok : Bool) × (r ≡ some (s', ok)) × Undisturbed s s')

-- The part behind the look for an earlier reader of the same name.
added-Joined :
    (s s1 : Shared) (pid : ℕ) (name : List ℕ) (connected : Bool)
    → Undisturbed s s1
    → Joined s (
        if not connected then some (s1, false) else do
          q ← ipc_shm_queue_reader_add s1.queue pid name
          some (record s1 { queue = q }, true))
added-Joined s s1 pid name false u = inr (s1, false, refl, u)
added-Joined s s1 pid name true u = elim (ipc_shm_queue_reader_add-Added s1 pid name) [
  | inl e ↦ inl (rw (e, ◌>>=◌) refl)
  | inr (q, e, u1) ↦ inr (_, true, rw (e, ◌>>=◌) refl, Undisturbed-trans s s1 _ u u1)
]

module _ (fuel n : ℕ) (used free : List ℕ) (lt : n < fuel) where
  pub ipc_shm_reader_register-Joined :
      (s : Shared) (pid : ℕ) (name : List ℕ) (connected : Bool)
      → IsQueue s n used free
      → Joined s (ipc_shm_reader_register fuel s pid name connected)
  unfolding ipc_shm_reader_register
  ipc_shm_reader_register-Joined s pid name connected q =
      elim (Bool-cases (leb max_reader_num s.queue.ref_count)) [
        | inl full ↦ inr (s, false, rw full refl, same_Undisturbed s)
        | inr room ↦ elim (Option-cases (ipc_shm_queue_reader_find_by_name s.queue name)) [
          | inl e ↦ rw (room, e, ◌>>=◌) (added-Joined s s pid name connected (same_Undisturbed s))
          | inr (i, e) ↦
              let (s1, e1, u) =
                ipc_clear_dbk_for_reader-Undisturbed fuel n used free lt s
                  (pid_at i s.queue.readers) q in
              rw (room, e) (rw (e1, ◌>>=◌) (added-Joined s s1 pid name connected u))
        ]
      ]
