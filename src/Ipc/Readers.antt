-- ===== src/Ipc/Readers.antt =====
-- The readers of a queue of ce_util/ce_ipc_shm.c: the table in the queue's header, of which the first
-- `ref_count` entries are in use, and what each block has of them. A name is its bytes, no zero
-- byte among them.
use cloudeagle.Common.{
  ℕ, zero, suc, ◌+◌, ◌-◌, ◌%◌, ◌^◌, Option, none, some, List, [], ◌∷◌, ◌++◌, Bool, true, false, not,
  leb, ◌==◌, if◌then◌else◌, replicate, modify, take,
}
use mathlib.Core.Option
use cloudeagle.Ipc.{ReaderInfo, DataBlock, readed, ShmQueue, Shared, put, ◌>>=◌, max_reader_num}
use cloudeagle.Ipc.Blocks.{list_for_ipc_data_block}

-- READER_NAME_LEN
abbrev pub reader_name_len : ℕ
reader_name_len = 30

-- `0 == strncmp(a, b, n)`
unfoldable pub strncmp_eq : ℕ → List ℕ → List ℕ → Bool
strncmp_eq zero xs ys = true
strncmp_eq (suc n) (a ∷ xs) (b ∷ ys) =
    let rest = strncmp_eq n xs ys in if a == b then (if a == 0 then true else rest) else false
strncmp_eq (suc n) [] [] = true
strncmp_eq (suc n) [] (b ∷ ys) = false
strncmp_eq (suc n) (a ∷ xs) [] = false

-- `bytes` over the first bytes of `dst`
unfoldable pub overwrite : List ℕ → List ℕ → List ℕ
overwrite [] dst = dst
overwrite (b ∷ bs) [] = []
overwrite (b ∷ bs) (d ∷ dst) = b ∷ overwrite bs dst

-- The first of the entries `i`, `i + 1`, ... that has the name, among `count`.
unfoldable pub find_name_from : ℕ → ℕ → List ReaderInfo → List ℕ → Option ℕ
unfolding strncmp_eq
find_name_from zero i readers name = none
find_name_from (suc count) i [] name = none
find_name_from (suc count) i (r ∷ readers) name =
    if strncmp_eq reader_name_len r.reader_name (name ++ 0 ∷ [])
    then some i
    else find_name_from count (i + 1) readers name

unfoldable pub ipc_shm_queue_reader_find_by_name : ShmQueue → List ℕ → Option ℕ
unfolding find_name_from
ipc_shm_queue_reader_find_by_name q name = find_name_from q.ref_count 0 q.readers name

unfoldable pub find_pid_from : ℕ → ℕ → List ReaderInfo → ℕ → Option ℕ
find_pid_from zero i readers pid = none
find_pid_from (suc count) i [] pid = none
find_pid_from (suc count) i (r ∷ readers) pid =
    if r.reader_pid == pid then some i else find_pid_from count (i + 1) readers pid

unfoldable pub ipc_shm_queue_reader_find : ShmQueue → ℕ → Option ℕ
unfolding find_pid_from
ipc_shm_queue_reader_find q r_pid = find_pid_from q.ref_count 0 q.readers r_pid

-- strncpy copies READER_NAME_LEN bytes of a longer name, and never a zero byte.
unfoldable pub ipc_shm_queue_reader_info_init : ReaderInfo → ℕ → Bool → List ℕ → ReaderInfo
unfolding overwrite
ipc_shm_queue_reader_info_init r reader_pid is_free name = record {
  reader_pid = reader_pid;
  reader_name = overwrite (take reader_name_len name) r.reader_name;
  free = is_free;
  rcv_cnt = 0;
}

-- The place of a reader among the first `count` of a block, where the reader has still to read it.
unfoldable pub pid_index : ℕ → ℕ → List ℕ → Option ℕ
pid_index zero pid pids = none
pid_index (suc count) pid [] = none
pid_index (suc count) pid (p ∷ pids) =
    let rest = Option.map suc (pid_index count pid pids) in
    if p == 0 then rest else (if p == pid then some 0 else rest)

-- `reader_pid[i] = 0`, and one reader fewer has to read the block.
unfoldable pub strike : ℕ → DataBlock → DataBlock
strike i dbk = record dbk {
  reader_pid = modify i (λ p. 0) dbk.reader_pid;
  read_count = (dbk.read_count + 2 ^ 64 - 1) % 2 ^ 64;
}

-- A block that nobody has to read any more is DBK_READED.
unfoldable pub settle : DataBlock → DataBlock
settle dbk = if dbk.read_count == 0 then record dbk { dbk_state = readed } else dbk

abbrev count_cleared : DataBlock → ShmQueue → ShmQueue
count_cleared dbk q =
    if dbk.read_count == 0 then record q { re_reg_clear_cnt = q.re_reg_clear_cnt + 1 } else q

unfoldable pub clear_block : ℕ → ℕ → Shared → ℕ → Shared
unfolding pid_index strike settle
clear_block reader_count pid s dbk = elim (pid_index reader_count pid (s.block dbk).reader_pid) [
  | none ↦ s
  | some i ↦
      let struck = strike i (s.block dbk) in
      record (put s dbk (settle struck)) { queue = count_cleared struck s.queue }
]

unfoldable pub clear_blocks : ℕ → ℕ → Shared → List ℕ → Shared
unfolding clear_block
clear_blocks reader_count pid s [] = s
clear_blocks reader_count pid s (dbk ∷ xs) =
    clear_blocks reader_count pid (clear_block reader_count pid s dbk) xs

-- _ipc_clear_dbk_for_reader
unfoldable pub ipc_clear_dbk_for_reader : ℕ → Shared → ℕ → Option Shared
unfolding list_for_ipc_data_block clear_blocks
ipc_clear_dbk_for_reader fuel s pid =
    Option.map (clear_blocks s.queue.ref_count pid s)
      (list_for_ipc_data_block fuel s.block s.queue.dbk_header)

-- `memmove(&readers[i], &readers[i + 1], (count - i - 1) * sizeof(readers[0]))`
unfoldable pub move_down : ℕ → ℕ → List ReaderInfo → List ReaderInfo
move_down zero (suc (suc count)) (a ∷ b ∷ rs) = b ∷ move_down zero (suc count) (b ∷ rs)
move_down (suc i) (suc count) (a ∷ rs) = a ∷ move_down i count rs
move_down _ _ rs = rs

abbrev pub freed : ReaderInfo → ReaderInfo
freed r = record r { reader_pid = 0; reader_name = replicate reader_name_len 0; free = true }

-- The last entry is freed; where it is the reader's own, nothing is moved.
unfoldable pub remove_reader : ℕ → ShmQueue → ShmQueue
unfolding move_down
remove_reader indx q = record q {
  ref_count = q.ref_count - 1;
  readers = modify (q.ref_count - 1) freed (move_down indx q.ref_count q.readers);
}

unfoldable pub ipc_shm_queue_reader_info_clean : ℕ → Shared → ℕ → Option Shared
unfolding ipc_shm_queue_reader_find ipc_clear_dbk_for_reader remove_reader
ipc_shm_queue_reader_info_clean fuel s reader_pid =
    elim (ipc_shm_queue_reader_find s.queue reader_pid) [
      | none ↦ some s
      | some indx ↦ do
        s' ← ipc_clear_dbk_for_reader fuel s reader_pid
        some (record s' { queue = remove_reader indx s'.queue })
    ]

-- The first free entry from `i` on, of `count`.
unfoldable pub free_from : ℕ → List ReaderInfo → Option ℕ
free_from i [] = none
free_from i (r ∷ rs) =
    if i == 0
    then (if r.free then some 0 else Option.map suc (free_from 0 rs))
    else Option.map suc (free_from (i - 1) rs)

-- The table has max_reader_num entries.
unfoldable pub ipc_shm_queue_reader_free : ShmQueue → Option ℕ
unfolding free_from
ipc_shm_queue_reader_free q = free_from q.ref_count q.readers

-- `r_pid` is getpid().
unfoldable pub ipc_shm_queue_reader_add : ShmQueue → ℕ → List ℕ → Option ShmQueue
unfolding ipc_shm_queue_reader_find_by_name ipc_shm_queue_reader_free ipc_shm_queue_reader_info_init
ipc_shm_queue_reader_add q r_pid name = elim (ipc_shm_queue_reader_find_by_name q name) [
  | none ↦ elim (ipc_shm_queue_reader_free q) [
    | none ↦ none
    | some indx ↦ some (record q {
      ref_count = q.ref_count + 1;
      readers = modify indx (λ r. ipc_shm_queue_reader_info_init r r_pid false name) q.readers;
    })
  ]
  | some i ↦ some (record q {
    readers = modify i (λ r. record r { reader_pid = r_pid; free = false }) q.readers;
  })
]

-- The pid of the reader that has the name, if there is one.
abbrev pub pid_at : ℕ → List ReaderInfo → ℕ
pid_at i [] = 0
pid_at zero (r ∷ rs) = r.reader_pid
pid_at (suc i) (r ∷ rs) = pid_at i rs

-- ipc_shm_reader_register, once the queue is found. `connected` says whether the calls of zmq
-- succeed; the result, whether there is a reader.
unfoldable pub ipc_shm_reader_register : ℕ → Shared → ℕ → List ℕ → Bool → Option (Shared × Bool)
unfolding ipc_shm_queue_reader_add ipc_clear_dbk_for_reader
ipc_shm_reader_register fuel s pid name connected =
    if leb max_reader_num s.queue.ref_count then some (s, false) else do
      s' ← elim (ipc_shm_queue_reader_find_by_name s.queue name) [
        | none ↦ some s
        | some i ↦ ipc_clear_dbk_for_reader fuel s (pid_at i s.queue.readers)
      ]
      if not connected then some (s', false) else do
        q ← ipc_shm_queue_reader_add s'.queue pid name
        some (record s' { queue = q }, true)
