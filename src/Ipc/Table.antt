-- ===== src/Ipc/Table.antt =====
-- The table of readers of a queue of ce_util/ce_ipc_shm.c as the list of the readers, and the
-- removal of one.
use cloudeagle.Common.{
  ℕ, zero, suc, ◌+◌, ◌-◌, ◌<◌, ◌≡◌, refl, ap, ◌∙◌, ◌⊎◌, inl, inr, arith, none, some, List, [], ◌∷◌,
  ◌++◌, true, ◌==◌, if◌then◌else◌, length, modify, All, Bool-cases, Option-cases,
}
use cloudeagle.Ipc.{ReaderInfo, ShmQueue, Shared}
use cloudeagle.Ipc.Readers.{
  find_pid_from, ipc_shm_queue_reader_find, pid_index, clear_block, clear_blocks,
  ipc_clear_dbk_for_reader, move_down, freed, remove_reader, ipc_shm_queue_reader_info_clean,
}
use cloudeagle.Ipc.Invariant.{IsQueue}
use cloudeagle.Ipc.Chain.{list_for_ipc_data_block-lem}

-- The readers stand in front, and behind them free entries.
pub record Table (q : ShmQueue) (rs : List ReaderInfo) : Type 0 where
  pub rest : List ReaderInfo
  pub all : q.readers ≡ rs ++ rest
  pub count : q.ref_count ≡ length rs
  pub unused : All (λ (r : ReaderInfo). r.free ≡ true) rest

-- The readers but the one at a place.
abbrev dropped : ℕ → List ReaderInfo → List ReaderInfo
dropped i [] = []
dropped zero (r ∷ rs) = rs
dropped (suc i) (r ∷ rs) = r ∷ dropped i rs

length-dropped :
    (i : ℕ) (rs : List ReaderInfo) → i < length rs → suc (length (dropped i rs)) ≡ length rs
length-dropped i [] lt = absurd (omega arith)
length-dropped zero (r ∷ rs) lt = refl
length-dropped (suc i) (r ∷ rs) lt = ap suc (length-dropped i rs (omega arith))

-- The readers but the first with the pid.
abbrev pub without : ℕ → List ReaderInfo → List ReaderInfo
without pid [] = []
without pid (r ∷ rs) = if r.reader_pid == pid then rs else r ∷ without pid rs

move_down-lem :
    (i : ℕ) (rs rest : List ReaderInfo)
    → i < length rs
    → (r : ReaderInfo) × (move_down i (length rs) (rs ++ rest) ≡ dropped i rs ++ r ∷ rest)
unfolding move_down
move_down-lem i [] rest lt = absurd (omega arith)
move_down-lem zero (a ∷ []) rest lt = (a, refl)
move_down-lem zero (a ∷ b ∷ rs) rest lt =
    let (r, e) = move_down-lem zero (b ∷ rs) rest (omega arith) in
    (r, ap (λ (l : List ReaderInfo). b ∷ l) e)
move_down-lem (suc i) (a ∷ rs) rest lt =
    let (r, e) = move_down-lem i rs rest (omega arith) in (r, ap (λ (l : List ReaderInfo). a ∷ l) e)

pub modify-append :
    (f : ReaderInfo → ReaderInfo) (xs : List ReaderInfo) (r : ReaderInfo) (ys : List ReaderInfo)
    → modify (length xs) f (xs ++ r ∷ ys) ≡ xs ++ f r ∷ ys
modify-append f [] r ys = refl
modify-append f (x ∷ xs) r ys = ap (λ (l : List ReaderInfo). x ∷ l) (modify-append f xs r ys)

remove_reader-Table :
    (q : ShmQueue) (i : ℕ) (rs : List ReaderInfo)
    → Table q rs
    → i < length rs
    → Table (remove_reader i q) (dropped i rs)
unfolding remove_reader
remove_reader-Table q i rs t lt =
    let (r, e) = move_down-lem i rs t.rest lt in
    let n = length-dropped i rs lt in
    let at : q.ref_count - 1 ≡ length (dropped i rs) = omega (arith, n, t.count) in
    record {
      rest = freed r ∷ t.rest;
      all = rw (t.all, at, t.count, e) (modify-append freed (dropped i rs) r t.rest);
      count = at;
      unused = (refl, t.unused);
    }

-- Where a reader is found by its pid.
find_pid_from-lem :
    (k pid : ℕ) (rs rest : List ReaderInfo)
    → ((find_pid_from (length rs) k (rs ++ rest) pid ≡ none) × (without pid rs ≡ rs))
      ⊎ ((i : ℕ) × (find_pid_from (length rs) k (rs ++ rest) pid ≡ some (k + i))
          × (i < length rs)
          × (without pid rs ≡ dropped i rs))
unfolding find_pid_from
find_pid_from-lem k pid [] rest = inl (refl, refl)
find_pid_from-lem k pid (r ∷ rs) rest = elim (Bool-cases (r.reader_pid == pid)) [
  | inl hit ↦ inr (0, rw hit (ap some (omega arith)), omega arith, rw hit refl)
  | inr miss ↦ elim (find_pid_from-lem (k + 1) pid rs rest) [
    | inl (e, same) ↦ inl (rw (miss, e) refl, rw (miss, same) refl)
    | inr (i, e, lt, out) ↦
        inr (suc i, rw (miss, e) (ap some (omega arith)), omega arith, rw (miss, out) refl)
  ]
]

clear_block-Table :
    (count pid : ℕ) (s : Shared) (x : ℕ) (rs : List ReaderInfo)
    → Table s.queue rs
    → Table (clear_block count pid s x).queue rs
unfolding clear_block
clear_block-Table count pid s x rs t =
    elim (Option-cases (pid_index count pid (s.block x).reader_pid)) [
      | inl e ↦ rw (e, clear_block) t
      | inr (i, e) ↦
          rw (e, clear_block)
            (record {
              rest = t.rest;
              all = ground (arith, t.all);
              count = ground (arith, t.count);
              unused = t.unused;
            })
    ]

clear_blocks-Table :
    (count pid : ℕ) (s : Shared) (xs : List ℕ) (rs : List ReaderInfo)
    → Table s.queue rs
    → Table (clear_blocks count pid s xs).queue rs
unfolding clear_blocks
clear_blocks-Table count pid s [] rs t = t
clear_blocks-Table count pid s (x ∷ xs) rs t =
    clear_blocks-Table count pid (clear_block count pid s x) xs rs
      (clear_block-Table count pid s x rs t)

reader_find-Table :
    (q : ShmQueue) (pid : ℕ) (rs : List ReaderInfo)
    → Table q rs
    → ((ipc_shm_queue_reader_find q pid ≡ none) × (without pid rs ≡ rs))
      ⊎ ((i : ℕ) × (ipc_shm_queue_reader_find q pid ≡ some i)
          × (i < length rs)
          × (without pid rs ≡ dropped i rs))
unfolding ipc_shm_queue_reader_find
reader_find-Table q pid rs t = elim (find_pid_from-lem 0 pid rs t.rest) [
  | inl (e, same) ↦ inl (rw (t.count, t.all) e, same)
  | inr (i, e, lt, out) ↦ inr (i, rw (t.count, t.all) (e ∙ ap some (omega arith)), lt, out)
]

-- The removal of a reader from a well-formed queue of `n` blocks: it ends, and of the readers that
-- the table stands for the first with the pid is gone and the others keep their order.
pub ipc_shm_queue_reader_info_clean-Table :
    (fuel n : ℕ) (s : Shared) (pid : ℕ) (rs : List ReaderInfo) (used free : List ℕ)
    → n < fuel
    → IsQueue s n used free
    → Table s.queue rs
    → (s' : Shared) × (ipc_shm_queue_reader_info_clean fuel s pid ≡ some s')
      × Table s'.queue (without pid rs)
unfolding ipc_shm_queue_reader_info_clean ipc_clear_dbk_for_reader
ipc_shm_queue_reader_info_clean-Table fuel n s pid rs used free lt q t =
    let visit =
      list_for_ipc_data_block-lem fuel s.block _ used (omega (arith, q.total)) q.parts.chain in
    elim (reader_find-Table s.queue pid rs t) [
      | inl (e, same) ↦ (s, rw (e, ipc_shm_queue_reader_info_clean) refl, rw same t)
      | inr (i, e, inside, out) ↦
          let s1 = clear_blocks s.queue.ref_count pid s used in
          (
            record s1 { queue = remove_reader i s1.queue },
            rw (e, ipc_shm_queue_reader_info_clean) (rw visit refl),
            rw out (
                remove_reader-Table s1.queue i rs
                  (clear_blocks-Table s.queue.ref_count pid s used rs t) inside),
          )
    ]
