-- ===== src/Ipc/Leaving.antt =====
-- The loop of ce_util/ce_ipc_shm.c over the queues in shared memory, and what exit_pub_dbk leaves.
use native.Mathlib.Nat.{add-zero}
use cloudeagle.Common.{
  ℕ, zero, suc, ◌+◌, ◌%◌, ◌^◌, ◌<◌, ◌≤◌, ◌≡◌, ◌≢◌, refl, ap, sym, subst, ◌∙◌, ◌⊎◌, inl, inr, arith,
  some, List, [], ◌∷◌, ◌++◌, Bool, true, false, ◌==◌, if◌then◌else◌, length, take, drop, All,
  Bool-cases,
}
use cloudeagle.Ipc.{Shared, ReaderInfo, reading}
use cloudeagle.Ipc.Write.{copy_pids, publish_block}
use cloudeagle.Ipc.Collectable.{put_here}
use cloudeagle.Ipc.Published.{pids_of}
use cloudeagle.Ipc.Tiles.{put_other}
use cloudeagle.Ipc.Create.{Shm, set_queue}
use cloudeagle.Ipc.Chain.{Fresh, Distinct}
use cloudeagle.Ipc.Invariant.{IsQueue}
use cloudeagle.Ipc.Timeout.{
  publish_cur, exit_queue, each_queue, list_for_ipc_shm_queue, exit_pub_dbk, Published-IsQueue,
  exit_queue-Published,
}

-- From `p` the offsets of the next queues lead through `qs` to 0.
abbrev pub Queues : (ℕ → Shared) → ℕ → List ℕ → Type 0
Queues at p [] = p ≡ 0
Queues at p (x ∷ qs) = (p ≡ x) × (0 < x) × Queues at (at x).queue.q_next_offset qs

-- Each of the queues went through the round, and nothing else changed.
pub record Rounds (round : ℕ → Shared → Shared) (m m' : Shm) (qs : List ℕ) : Type 0 where
  pub each : All (λ x. m'.at x ≡ round x (m.at x)) qs
  pub others : (a : ℕ) → Fresh a qs → m'.at a ≡ m.at a
  pub head : m'.head ≡ m.head

set_queue-other :
    (m : Shm) (p : ℕ) (s : Shared) (a : ℕ) → (a == p) ≡ false → (set_queue m p s).at a ≡ m.at a
set_queue-other m p s a miss = rw miss refl

Queues-set_queue :
    (m : Shm) (x : ℕ) (s : Shared) (p : ℕ) (qs : List ℕ)
    → Fresh x qs
    → Queues m.at p qs
    → Queues (set_queue m x s).at p qs
Queues-set_queue m x s p [] f h = h
Queues-set_queue m x s p (y ∷ qs) (ne, f) (e, pos, h) =
    let same = set_queue-other m x s y (ground arith) in
    (e, pos, rw same (Queues-set_queue m x s _ qs f h))

rounds_on :
    (round : ℕ → Shared → Shared) (m m' : Shm) (x : ℕ) (qs : List ℕ)
    → Fresh x qs
    → All (λ y. m'.at y ≡ round y ((set_queue m x (round x (m.at x))).at y)) qs
    → All (λ y. m'.at y ≡ round y (m.at y)) qs
rounds_on round m m' x [] f h = tt
rounds_on round m m' x (y ∷ qs) (ne, f) (e, h) = (
  e ∙ ap (round y) (set_queue-other m x (round x (m.at x)) y (ground arith)),
  rounds_on round m m' x qs f h,
)

each_queue-Rounds :
    (fuel : ℕ) (round : ℕ → Shared → Shared) (m : Shm) (p : ℕ) (qs : List ℕ)
    → length qs < fuel
    → Queues m.at p qs
    → Distinct qs
    → (m' : Shm) × (each_queue fuel round m p ≡ some m') × Rounds round m m' qs
unfolding each_queue
each_queue-Rounds zero round m p qs lt h d = absurd (omega arith)
each_queue-Rounds (suc fuel) round m p [] lt h d =
    let end : (p == 0) ≡ true = ground arith in
    (m, rw end refl, record { each = tt; others = λ a f. refl; head = refl })
each_queue-Rounds (suc fuel) round m p (x ∷ qs) lt (e, pos, h) (f, d) =
    let on : (x == 0) ≡ false = ground arith in
    let m1 = set_queue m x (round x (m.at x)) in
    let (m', e', r) =
      each_queue-Rounds fuel round m1 _ qs (omega arith)
        (Queues-set_queue m x (round x (m.at x)) _ qs f h) d in
    let here : m1.at x ≡ round x (m.at x) = ground arith in
    (
      m',
      rw e (rw on e'),
      record {
        each = (r.others x f ∙ here, rounds_on round m m' x qs f r.each);
        others = λ a (ne, fa).
            r.others a fa ∙ set_queue-other m x (round x (m.at x)) a (ground (arith, ne));
        head = r.head;
      },
    )

-- The readers' pids, as many as there are readers, over the entries that the block had.
abbrev pub addressed : Shared → List ℕ
addressed s =
    take s.queue.ref_count (pids_of s.queue.readers)
    ++ drop s.queue.ref_count (s.block s.queue.cur_w_dbk).reader_pid

-- The block that was written to is handed to the readers, and there is a notice of it where one could
-- be sent; no other block changes, and nothing else of the queue but the count of notices.
pub record Handed (sent : Bool) (s s' : Shared) : Type 0 where
  pub block : s'.block s.queue.cur_w_dbk ≡ record (s.block s.queue.cur_w_dbk) {
    dbk_state = reading;
    read_count = s.queue.ref_count;
    reader_pid = addressed s;
  }
  pub blocks : (a : ℕ) → a ≢ s.queue.cur_w_dbk → s'.block a ≡ s.block a
  pub notices : s'.notices ≡ (
      if sent
      then s.notices ++ record { q_id = s.queue.q_id; dbk_offset = s.queue.cur_w_dbk % 2 ^ 32 } ∷ []
      else s.notices)
  pub queue : s'.queue ≡ record s.queue {
    cur_w_dbk = 0;
    send_cnt = s.queue.send_cnt + (if sent then 1 else 0);
    send_failed_cnt = s.queue.send_failed_cnt + (if sent then 0 else 1);
  }

-- A queue that no block of was written to is as it was; in another the block is handed on. A
-- well-formed queue is well formed.
pub record Left (sent : Bool) (s s' : Shared) : Type 0 where
  pub handed : ((s.queue.cur_w_dbk ≡ 0) × (s' ≡ s)) ⊎ ((0 < s.queue.cur_w_dbk) × Handed sent s s')
  pub formed : (n : ℕ) (used free : List ℕ) → IsQueue s n used free → IsQueue s' n used free

-- The tables have an entry for each reader.
abbrev pub Tables : Shared → Type 0
Tables s =
    (s.queue.ref_count ≤ length s.queue.readers)
    × (s.queue.ref_count ≤ length (s.block s.queue.cur_w_dbk).reader_pid)

copy_pids-addressed :
    (n : ℕ) (rs : List ReaderInfo) (pids : List ℕ)
    → n ≤ length rs
    → n ≤ length pids
    → copy_pids n rs pids ≡ take n (pids_of rs) ++ drop n pids
unfolding copy_pids
copy_pids-addressed zero rs pids le le' = refl
copy_pids-addressed (suc n) [] pids le le' = absurd (omega arith)
copy_pids-addressed (suc n) (r ∷ rs) [] le le' = absurd (omega arith)
copy_pids-addressed (suc n) (r ∷ rs) (p ∷ pids) le le' =
    ap (λ (l : List ℕ). r.reader_pid ∷ l)
      (copy_pids-addressed n rs pids (omega arith) (omega arith))

publish_cur-Handed : (sent : Bool) (s : Shared) → Tables s → Handed sent s (publish_cur s sent)
unfolding publish_cur publish_block
publish_cur-Handed sent s (rows, entries) =
    let m = s.queue.cur_w_dbk in
    let d = publish_block (record s.queue { cur_w_dbk = 0 }) (s.block m) in
    let pids =
      copy_pids-addressed s.queue.ref_count s.queue.readers (s.block m).reader_pid rows entries in
    let here =
      put_here s m d
      ∙ ap
          (λ l. record (s.block m) {
            dbk_state = reading;
            read_count = s.queue.ref_count;
            reader_pid = l;
          })
          pids in
    elim sent as (λ b. Handed b s (publish_cur s b)) [
      | true ↦ record {
        block = here;
        blocks = put_other s m d;
        notices = refl;
        queue = simp add-zero refl;
      }
      | false ↦ record {
        block = here;
        blocks = put_other s m d;
        notices = refl;
        queue = simp add-zero refl;
      }
    ]

exit_queue-Left : (sent : Bool) (s s' : Shared) → Tables s → s' ≡ exit_queue sent s → Left sent s s'
unfolding exit_queue
exit_queue-Left sent s s' t e = record {
  handed = elim (Bool-cases (s.queue.cur_w_dbk == 0)) [
    | inl idle ↦ inl (ground arith, e ∙ rw idle refl)
    | inr written ↦
        let same : s' ≡ publish_cur s sent = e ∙ rw written refl in
        inr (ground arith, subst (λ x. Handed sent s x) (sym same) (publish_cur-Handed sent s t))
  ];
  formed = λ n used free q.
      rw e (Published-IsQueue s (exit_queue sent s) n used free (exit_queue-Published sent s) q);
}

exit_each :
    (sent : ℕ → Bool) (m m' : Shm) (qs : List ℕ)
    → All (λ x. Tables (m.at x)) qs
    → All (λ x. m'.at x ≡ exit_queue (sent x) (m.at x)) qs
    → All (λ x. Left (sent x) (m.at x) (m'.at x)) qs
exit_each sent m m' [] t h = tt
exit_each sent m m' (x ∷ qs) (t, ts) (e, h) =
    (exit_queue-Left (sent x) (m.at x) (m'.at x) t e, exit_each sent m m' qs ts h)

-- A process that ends, with the queues `qs` in shared memory, whose tables have an entry for each
-- reader, and more turns than these: its last publication ends. In each queue on the list the block
-- that was written to, if there is one, is handed to the readers registered then, with a notice where
-- zmq_send takes it; no other block and, but for the counts of notices, no other field changes. Each
-- queue that was well formed still is, and no other queue and no header changes.
pub exit_pub_dbk-Left :
    (fuel : ℕ) (sent : ℕ → Bool) (m : Shm) (qs : List ℕ)
    → length qs < fuel
    → m.head.shm_queue_num ≡ length qs
    → Queues m.at m.head.shm_queue_header qs
    → Distinct qs
    → All (λ x. Tables (m.at x)) qs
    → (m' : Shm) × (exit_pub_dbk fuel sent m ≡ some m')
      × All (λ x. Left (sent x) (m.at x) (m'.at x)) qs
      × ((a : ℕ) → Fresh a qs → m'.at a ≡ m.at a)
      × (m'.head ≡ m.head)
unfolding exit_pub_dbk list_for_ipc_shm_queue
exit_pub_dbk-Left fuel sent m [] lt num h d t =
    let none_there : (m.head.shm_queue_num == 0) ≡ true = ground arith in
    (m, rw none_there refl, tt, (λ a f. refl), refl)
exit_pub_dbk-Left fuel sent m (x ∷ qs) lt num (e, pos, h) d t =
    let there : (m.head.shm_queue_num == 0) ≡ false = ground arith in
    let headed : (m.head.shm_queue_header == 0) ≡ false = ground arith in
    let (m', e', r) =
      each_queue-Rounds fuel (λ p. exit_queue (sent p)) m _ (x ∷ qs) lt (e, pos, h) d in
    (m', rw (there, headed) e', exit_each sent m m' (x ∷ qs) t r.each, r.others, r.head)
