-- ===== src/Ipc/Timeout.antt =====
-- The publication of blocks that are not full, of ce_util/ce_ipc_shm.c: by the thread that looks for
-- blocks that wait too long, and by a process that ends.
use cloudeagle.Common.{
  ℕ, zero, suc, ◌+◌, ◌%◌, ◌^◌, ◌≡◌, refl, ◌⊎◌, inl, inr, Option, none, some, List, [], ◌∷◌, ◌++◌,
  Bool, true, false, ◌==◌, leb, if◌then◌else◌, Bool-cases, length,
}
use cloudeagle.Ipc.{ShmQueue, Shared, Notice, put, ipc_queue_dbk_full}
use cloudeagle.Ipc.Write.{publish_block}
use cloudeagle.Ipc.Create.{Shm, set_queue}
use cloudeagle.Ipc.Invariant.{IsQueue, SameLinks, put-SameLinks}
use cloudeagle.Ipc.Collect.{has}
use cloudeagle.Ipc.Take.{SameRoom, put-SameRoom}
use cloudeagle.Ipc.Find.{kept_IsQueue}

-- DBK_WRITE_TIME_OUT
abbrev pub dbk_write_time_out : ℕ
dbk_write_time_out = 5

-- The branch in which the exchange of `cur_w_dbk` for 0 succeeds, in both functions. The notice has
-- the offset that was read there.
unfoldable pub publish_cur : Shared → Bool → Shared
unfolding publish_block
publish_cur s sent =
    let dbk = s.queue.cur_w_dbk in
    let q : ShmQueue = record s.queue { cur_w_dbk = 0 } in
    let s' = record (put s dbk (publish_block q (s.block dbk))) { queue = q } in
    let notice : Notice = record { q_id = q.q_id; dbk_offset = dbk % 2 ^ 32 } in
    if sent
    then record s' {
      queue = record q { send_cnt = q.send_cnt + 1 };
      notices = s.notices ++ notice ∷ [];
    }
    else record s' { queue = record q { send_failed_cnt = q.send_failed_cnt + 1 } }

-- One round of check_and_pub_timeout_dbk.
unfoldable pub check_queue : ℕ → Bool → Shared → Shared
unfolding publish_cur ipc_queue_dbk_full
check_queue now sent s =
    let dbk = s.queue.cur_w_dbk in
    if dbk == 0
    then s
    else (if ipc_queue_dbk_full (s.block dbk) s.queue.rcd_max_size
        then s
        else (if leb ((s.block dbk).first_write_time + dbk_write_time_out) now
            then publish_cur s sent
            else s))

-- One round of exit_pub_dbk.
unfoldable pub exit_queue : Bool → Shared → Shared
unfolding publish_cur
exit_queue sent s = if s.queue.cur_w_dbk == 0 then s else publish_cur s sent

-- The loop over the queues from offset `p` on, which no round links otherwise.
unfoldable pub each_queue : ℕ → (ℕ → Shared → Shared) → Shm → ℕ → Option Shm
each_queue zero round m p = none
each_queue (suc fuel) round m p =
    let rest =
      each_queue fuel round (set_queue m p (round p (m.at p))) (m.at p).queue.q_next_offset in
    if p == 0 then some m else rest

-- `list_for_ipc_shm_queue`. The assertion is that the first queue has an offset.
unfoldable pub list_for_ipc_shm_queue : ℕ → (ℕ → Shared → Shared) → Shm → Option Shm
unfolding each_queue
list_for_ipc_shm_queue fuel round m =
    if m.head.shm_queue_num == 0
    then some m
    else (if m.head.shm_queue_header == 0
        then none
        else each_queue fuel round m m.head.shm_queue_header)

-- For each queue, by its offset, the time when it is looked at and whether zmq_send succeeds.
unfoldable pub check_and_pub_timeout_dbk : ℕ → (ℕ → ℕ) → (ℕ → Bool) → Shm → Option Shm
unfolding list_for_ipc_shm_queue check_queue
check_and_pub_timeout_dbk fuel now sent m =
    list_for_ipc_shm_queue fuel (λ p. check_queue (now p) (sent p)) m

unfoldable pub exit_pub_dbk : ℕ → (ℕ → Bool) → Shm → Option Shm
unfolding list_for_ipc_shm_queue exit_queue
exit_pub_dbk fuel sent m = list_for_ipc_shm_queue fuel (λ p. exit_queue (sent p)) m

-- Links, room and the table of readers are as they were, and no block is written to any more or the
-- one that was.
pub record Published (s s' : Shared) : Type 0 where
  pub links : SameLinks s s'
  pub room : SameRoom s.block s'.block
  pub cur : (s'.queue.cur_w_dbk ≡ 0) ⊎ (s'.queue.cur_w_dbk ≡ s.queue.cur_w_dbk)
  pub readers : length s'.queue.readers ≡ length s.queue.readers

pub Published-IsQueue :
    (s s' : Shared) (n : ℕ) (used free : List ℕ)
    → Published s s'
    → IsQueue s n used free
    → IsQueue s' n used free
Published-IsQueue s s' n used free p q =
    kept_IsQueue s s' n used free p.links p.room cur p.readers q
  where
    cur : (s'.queue.cur_w_dbk ≡ 0) ⊎ (has s'.queue.cur_w_dbk used ≡ true)
    cur = elim p.cur [ inl e ↦ inl e | inr e ↦ rw e q.current ]

same_Published : (s : Shared) → Published s s
same_Published s = record {
  links = record { used = refl; free = refl; next = λ a. refl; at = λ a. refl };
  room = λ a. (refl, refl);
  cur = inr refl;
  readers = refl;
}

publish_cur-Published : (s : Shared) (sent : Bool) → Published s (publish_cur s sent)
unfolding publish_cur publish_block
publish_cur-Published s sent =
    let dbk = s.queue.cur_w_dbk in
    let d = publish_block (record s.queue { cur_w_dbk = 0 }) (s.block dbk) in
    let links = put-SameLinks s dbk d refl refl in
    let room = put-SameRoom s dbk d refl refl in
    elim sent as (λ b. Published s (publish_cur s b)) [
      | true ↦ record {
        links = record { used = refl; free = refl; next = links.next; at = links.at };
        room = room;
        cur = inl refl;
        readers = refl;
      }
      | false ↦ record {
        links = record { used = refl; free = refl; next = links.next; at = links.at };
        room = room;
        cur = inl refl;
        readers = refl;
      }
    ]

pub check_queue-Published :
    (now : ℕ) (sent : Bool) (s : Shared) → Published s (check_queue now sent s)
unfolding check_queue
check_queue-Published now sent s = elim (Bool-cases (s.queue.cur_w_dbk == 0)) [
  | inl idle ↦ rw idle (same_Published s)
  | inr written ↦
      elim (Bool-cases (ipc_queue_dbk_full (s.block s.queue.cur_w_dbk) s.queue.rcd_max_size)) [
        | inl full ↦ rw (written, full) (same_Published s)
        | inr room ↦
            elim (Bool-cases
              (leb ((s.block s.queue.cur_w_dbk).first_write_time + dbk_write_time_out) now)) [
                | inl late ↦ rw (written, room, late) (publish_cur-Published s sent)
                | inr early ↦ rw (written, room, early) (same_Published s)
              ]
      ]
]

pub exit_queue-Published : (sent : Bool) (s : Shared) → Published s (exit_queue sent s)
unfolding exit_queue
exit_queue-Published sent s = elim (Bool-cases (s.queue.cur_w_dbk == 0)) [
  | inl idle ↦ rw idle (same_Published s)
  | inr written ↦ rw written (publish_cur-Published s sent)
]
