-- ===== src/Ipc/Dead.antt =====
-- The removal of readers of ce_util/ce_ipc_shm.c leaves the lists of blocks and the room in them.
use cloudeagle.Common.{
  ℕ, zero, suc, ◌+◌, ◌≤◌, ◌<◌, ◌≡◌, refl, ap, ◌∙◌, inl, inr, arith, some, List, [], ◌∷◌, Bool, ◌==◌,
  ◌%◌, length, get_elem?, modify, Bool-cases, Option-cases,
}
use cloudeagle.Ipc.{DataBlock, ReaderInfo, ShmQueue, Shared, put, ◌>>=◌, max_reader_num}
use cloudeagle.Ipc.Readers.{
  pid_index, strike, settle, clear_block, clear_blocks, ipc_clear_dbk_for_reader, move_down,
  remove_reader, ipc_shm_queue_reader_find, ipc_shm_queue_reader_info_clean,
}
use cloudeagle.Ipc.Write.{clean_dead, write_failed}
use cloudeagle.Ipc.Chain.{list_for_ipc_data_block-lem}
use cloudeagle.Ipc.Invariant.{IsQueue, SameLinks, put-SameLinks}
use cloudeagle.Ipc.Take.{SameRoom, put-SameRoom}
use cloudeagle.Ipc.Find.{kept_IsQueue}

-- Lists, room and the block that is written to are as they were, and so is the size of the table.
pub record Undisturbed (s s' : Shared) : Type 0 where
  pub links : SameLinks s s'
  pub room : SameRoom s.block s'.block
  pub cur : s'.queue.cur_w_dbk ≡ s.queue.cur_w_dbk
  pub readers : length s'.queue.readers ≡ length s.queue.readers

pub Undisturbed-trans : (s t u : Shared) → Undisturbed s t → Undisturbed t u → Undisturbed s u
Undisturbed-trans s t u a b = record {
  links = record {
    used = b.links.used ∙ a.links.used;
    free = b.links.free ∙ a.links.free;
    next = λ x. b.links.next x ∙ a.links.next x;
    at = λ x. b.links.at x ∙ a.links.at x;
  };
  room = λ x. let (p, z) = b.room x in let (p', z') = a.room x in (p ∙ p', z ∙ z');
  cur = b.cur ∙ a.cur;
  readers = b.readers ∙ a.readers;
}

pub Undisturbed-IsQueue :
    (s s' : Shared) (n : ℕ) (used free : List ℕ)
    → Undisturbed s s'
    → IsQueue s n used free
    → IsQueue s' n used free
Undisturbed-IsQueue s s' n used free u q =
    kept_IsQueue s s' n used free u.links u.room (rw u.cur q.current) u.readers q

pub settle-same :
    (dbk : DataBlock)
    → ((settle dbk).dbk_next_offset ≡ dbk.dbk_next_offset)
      × ((settle dbk).dbk_offset ≡ dbk.dbk_offset)
      × ((settle dbk).dbk_pos ≡ dbk.dbk_pos)
      × ((settle dbk).dbk_size ≡ dbk.dbk_size)
unfolding settle
settle-same dbk = ground arith

pub strike-Undisturbed :
    (s : Shared) (i m : ℕ) (q : ShmQueue)
    → q.dbk_header ≡ s.queue.dbk_header
    → q.free_dbk_header ≡ s.queue.free_dbk_header
    → q.cur_w_dbk ≡ s.queue.cur_w_dbk
    → length q.readers ≡ length s.queue.readers
    → Undisturbed s (record (put s m (settle (strike i (s.block m)))) { queue = q })
unfolding strike
strike-Undisturbed s i m q used free cur readers =
    let d = settle (strike i (s.block m)) in
    let (next, at, pos, size) = settle-same (strike i (s.block m)) in
    let links = put-SameLinks s m d next at in
    record {
      links = record { used = used; free = free; next = links.next; at = links.at };
      room = put-SameRoom s m d pos size;
      cur = cur;
      readers = readers;
    }

pub same_Undisturbed : (s : Shared) → Undisturbed s s
same_Undisturbed s = record {
  links = record { used = refl; free = refl; next = λ a. refl; at = λ a. refl };
  room = λ a. (refl, refl);
  cur = refl;
  readers = refl;
}

clear_block-Undisturbed :
    (count pid : ℕ) (s : Shared) (m : ℕ) → Undisturbed s (clear_block count pid s m)
unfolding clear_block
clear_block-Undisturbed count pid s m =
    elim (Option-cases (pid_index count pid (s.block m).reader_pid)) [
      | inl e ↦ rw (e, clear_block) (same_Undisturbed s)
      | inr (i, e) ↦
          rw (e, clear_block)
            (strike-Undisturbed s i m _ (ground arith) (ground arith) (ground arith) (ground arith))
    ]

clear_blocks-Undisturbed :
    (count pid : ℕ) (s : Shared) (xs : List ℕ) → Undisturbed s (clear_blocks count pid s xs)
unfolding clear_blocks
clear_blocks-Undisturbed count pid s [] = same_Undisturbed s
clear_blocks-Undisturbed count pid s (x ∷ xs) =
    Undisturbed-trans s (clear_block count pid s x) _ (clear_block-Undisturbed count pid s x)
      (clear_blocks-Undisturbed count pid (clear_block count pid s x) xs)

pub length-modify :
    (i : ℕ) (f : ReaderInfo → ReaderInfo) (rs : List ReaderInfo)
    → length (modify i f rs) ≡ length rs
length-modify i f [] = refl
length-modify zero f (r ∷ rs) = refl
length-modify (suc i) f (r ∷ rs) = ap suc (length-modify i f rs)

length-move_down : (i count : ℕ) (rs : List ReaderInfo) → length (move_down i count rs) ≡ length rs
unfolding move_down
length-move_down zero (suc (suc count)) (a ∷ b ∷ rs) =
    ap suc (length-move_down zero (suc count) (b ∷ rs))
length-move_down (suc i) (suc count) (a ∷ rs) = ap suc (length-move_down i count rs)
length-move_down zero zero rs = refl
length-move_down zero (suc zero) rs = refl
length-move_down zero (suc (suc count)) [] = refl
length-move_down zero (suc (suc count)) (a ∷ []) = refl
length-move_down (suc i) zero rs = refl
length-move_down (suc i) (suc count) [] = refl

remove_reader-Undisturbed :
    (s : Shared) (i : ℕ) → Undisturbed s (record s { queue = remove_reader i s.queue })
unfolding remove_reader
remove_reader-Undisturbed s i = record {
  links = record { used = refl; free = refl; next = λ a. refl; at = λ a. refl };
  room = λ a. (refl, refl);
  cur = refl;
  readers =
      length-modify _ _ (move_down i s.queue.ref_count s.queue.readers)
      ∙ length-move_down i s.queue.ref_count s.queue.readers;
}

module _ (fuel n : ℕ) (used free : List ℕ) (lt : n < fuel) where
  pub ipc_clear_dbk_for_reader-Undisturbed :
      (s : Shared) (pid : ℕ)
      → IsQueue s n used free
      → (s' : Shared) × (ipc_clear_dbk_for_reader fuel s pid ≡ some s') × Undisturbed s s'
  unfolding ipc_clear_dbk_for_reader
  ipc_clear_dbk_for_reader-Undisturbed s pid q = (
    clear_blocks s.queue.ref_count pid s used,
    rw (list_for_ipc_data_block-lem fuel s.block _ used (omega (arith, q.total)) q.parts.chain),
    clear_blocks-Undisturbed s.queue.ref_count pid s used,
  )

  pub info_clean-Undisturbed :
      (s : Shared) (pid : ℕ)
      → IsQueue s n used free
      → (s' : Shared) × (ipc_shm_queue_reader_info_clean fuel s pid ≡ some s') × Undisturbed s s'
  unfolding ipc_shm_queue_reader_info_clean remove_reader
  info_clean-Undisturbed s pid q = elim (Option-cases (ipc_shm_queue_reader_find s.queue pid)) [
    | inl e ↦ (s, rw (e, ipc_shm_queue_reader_info_clean) refl, same_Undisturbed s)
    | inr (i, e) ↦
        let (s1, e1, u) = ipc_clear_dbk_for_reader-Undisturbed s pid q in
        (
          record s1 { queue = remove_reader i s1.queue },
          rw (e, ipc_shm_queue_reader_info_clean) (rw (e1, ◌>>=◌) refl),
          Undisturbed-trans s s1 _ u (remove_reader-Undisturbed s1 i),
        )
  ]

get_elem?-some :
    (rs : List ReaderInfo) (i : ℕ) → i < length rs → (r : ReaderInfo) × (get_elem? rs i ≡ some r)
get_elem?-some [] i h = absurd (omega arith)
get_elem?-some (r ∷ rs) zero h = (r, refl)
get_elem?-some (r ∷ rs) (suc i) h = get_elem?-some rs i (omega arith)

module _ (fuel n : ℕ) (used free : List ℕ) (lt : n < fuel) (proc_exist : ℕ → Bool) where
  clean_dead-Undisturbed :
      (rounds : ℕ) (s : Shared) (i : ℕ)
      → rounds + i ≤ length s.queue.readers
      → IsQueue s n used free
      → (s' : Shared) × (clean_dead fuel proc_exist rounds s i ≡ some s') × Undisturbed s s'
  unfolding clean_dead
  clean_dead-Undisturbed zero s i le q = (s, refl, same_Undisturbed s)
  clean_dead-Undisturbed (suc rounds) s i le q =
      let (r, e) = get_elem?-some s.queue.readers i (omega arith) in
      elim (Bool-cases r.free) [
        | inl unused ↦ (s, rw (e, clean_dead) (rw unused refl), same_Undisturbed s)
        | inr in_use ↦ elim (Bool-cases (proc_exist r.reader_pid)) [
          | inl alive ↦
              let (s', e', u) = clean_dead-Undisturbed rounds s (i + 1) (omega arith) q in
              (s', rw (e, clean_dead) (rw (in_use, alive) e'), u)
          | inr dead ↦
              let (s1, e1, u1) = info_clean-Undisturbed fuel n used free lt s r.reader_pid q in
              let (s', e', u) =
                clean_dead-Undisturbed rounds s1 (i + 1) (omega (arith, u1.readers))
                  (Undisturbed-IsQueue s s1 n used free u1 q) in
              (
                s',
                rw (e, clean_dead) (rw (in_use, dead) (rw (e1, ◌>>=◌) e')),
                Undisturbed-trans s s1 s' u1 u,
              )
        ]
      ]

  -- A write that fails, with its look for dead readers.
  pub write_failed-Undisturbed :
      (s : Shared)
      → IsQueue s n used free
      → (s' : Shared) × (write_failed fuel proc_exist s ≡ some s') × Undisturbed s s'
  unfolding write_failed
  write_failed-Undisturbed s q =
      let k = s.queue.get_blk_failed_cnt + 1 in
      let s0 : Shared = record s { queue = record s.queue { get_blk_failed_cnt = k } } in
      let u0 : Undisturbed s s0 = record {
        links = record { used = refl; free = refl; next = λ a. refl; at = λ a. refl };
        room = λ a. (refl, refl);
        cur = refl;
        readers = refl;
      } in
      elim (Bool-cases (k % 200000 == 0)) [
        | inl look ↦
            let (s', e, u) =
              clean_dead-Undisturbed max_reader_num s0 0 (omega (arith, q.readers))
                (Undisturbed-IsQueue s s0 n used free u0 q) in
            (s', rw look e, Undisturbed-trans s s0 s' u0 u)
        | inr rare ↦ (s0, rw rare refl, u0)
      ]
