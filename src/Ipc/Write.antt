-- ===== src/Ipc/Write.antt =====
-- Writing to a queue of ce_util/ce_ipc_shm.c: the block that a record goes to, the publication of a
-- full block, and the bytes of a record. Each function runs as if no other process took a step
-- between its start and its end.
use cloudeagle.Common.{
  ℕ, ◌+◌, ◌%◌, ◌^◌, Option, none, some, List, [], ◌∷◌, ◌++◌, Bool, true, false, ◌==◌, if◌then◌else◌,
  zero, suc, get_elem?,
}
use cloudeagle.Common.Memory.{Memory, ptr_add}
use cloudeagle.Codec.{WrapBuf, Call}
use cloudeagle.Codec.Write.{ce_writer_encoding}
use cloudeagle.Codec.Items.{value, int8, uint32, write_items}
use cloudeagle.Ipc.{
  ReaderInfo, DataBlock, reading, write, ShmQueue, Notice, Shared, put, ◌>>=◌, max_reader_num,
  ipc_queue_dbk_full,
}
use cloudeagle.Ipc.Blocks.{
  list_for_ipc_data_block, ipc_queue_dbk_add, ipc_queue_dbk_mov, ipc_dbk_collect,
}
use cloudeagle.Ipc.Readers.{ipc_shm_queue_reader_info_clean}

-- `dbk->reader_pid[i] = shm_q->readers[i].reader_pid` for i below `n`; an index past the arrays
-- ends the loop here, and there is none as long as `n` is at most max_reader_num.
unfoldable pub copy_pids : ℕ → List ReaderInfo → List ℕ → List ℕ
copy_pids (suc n) (r ∷ readers) (p ∷ pids) = r.reader_pid ∷ copy_pids n readers pids
copy_pids _ readers pids = pids

-- What the readers of a published block are.
unfoldable pub publish_block : ShmQueue → DataBlock → DataBlock
unfolding copy_pids
publish_block q dbk = record dbk {
  dbk_state = reading;
  read_count = q.ref_count;
  reader_pid = copy_pids q.ref_count q.readers dbk.reader_pid;
}

-- `sent` says whether zmq_send succeeds.
unfoldable pub ipc_publisher_dbk : Shared → ℕ → Bool → Shared
unfolding publish_block
ipc_publisher_dbk s dbk sent =
    let q = s.queue in
    let notice : Notice = record {
      q_id = q.q_id;
      dbk_offset = (s.block dbk).dbk_offset % 2 ^ 32;
    } in
    let s' = put s dbk (publish_block q (s.block dbk)) in
    if sent
    then record s' {
      queue = record q { send_cnt = q.send_cnt + 1 };
      notices = s.notices ++ notice ∷ [];
    }
    else record s' { queue = record q { send_failed_cnt = q.send_failed_cnt + 1 } }

-- The first of the free blocks that has room for `size` more bytes.
unfoldable pub first_with_room : (ℕ → DataBlock) → ℕ → List ℕ → Option ℕ
unfolding ipc_queue_dbk_full
first_with_room block size [] = none
first_with_room block size (dbk ∷ xs) =
    if ipc_queue_dbk_full (block dbk) size then first_with_room block size xs else some dbk

-- `dbk->rcd_num += 1`
abbrev pub counted : Shared → ℕ → Shared
counted s dbk = put s dbk (record (s.block dbk) { rcd_num = (s.block dbk).rcd_num + 1 })

-- A free block becomes the one that is written to.
unfoldable pub take_free : ℕ → Shared → ℕ → Option Shared
unfolding ipc_queue_dbk_mov ipc_queue_dbk_add
take_free fuel s dbk = do
  s1 ← ipc_queue_dbk_mov fuel s dbk true
  let s2 = ipc_queue_dbk_add s1 dbk false
  let d = s2.block dbk
  some (record s2 {
    queue = record s2.queue { cur_w_dbk = d.dbk_offset };
    block = (put s2 dbk (record d { dbk_state = write; rcd_num = d.rcd_num + 1 })).block;
  })

-- The steps behind the publication: what is collected, and the block that is taken.
unfoldable pub find_block : ℕ → Shared → ℕ → Option (Shared × Option ℕ)
unfolding ipc_dbk_collect first_with_room take_free list_for_ipc_data_block
find_block fuel s rcd_size = do
  s1 ← if s.queue.free_dbk_header == 0 then ipc_dbk_collect fuel s else some s
  blocks ← list_for_ipc_data_block fuel s1.block s1.queue.free_dbk_header
  elim (first_with_room s1.block rcd_size blocks) [
    | none ↦ some (s1, none)
    | some dbk ↦ do s2 ← take_free fuel s1 dbk; some (s2, some dbk)
  ]

-- The block that the record goes to, or NULL. No other thread takes the block that is written to
-- between the read of its offset and the exchange.
unfoldable pub ipc_queue_dbk_get : ℕ → Shared → ℕ → Bool → Option (Shared × Option ℕ)
unfolding find_block ipc_publisher_dbk ipc_queue_dbk_full
ipc_queue_dbk_get fuel s rcd_size sent =
    let dbk = s.queue.cur_w_dbk in
    let full = ipc_queue_dbk_full (s.block dbk) rcd_size in
    let closed = record s { queue = record s.queue { cur_w_dbk = 0 } } in
    if dbk == 0
    then find_block fuel s rcd_size
    else (if full
        then find_block fuel (ipc_publisher_dbk closed dbk sent) rcd_size
        else some (counted s dbk, some dbk))

-- `struct ce_data_record_t`: the size that it says, and the function that writes it.
pub record DataRecord : Type 0 where
  pub rcd_size : ℕ
  pub ipc_record_write_fn : Call ℕ

-- The window of the writer's buffer, and the moved position. `base` is the queue's address; the
-- branch for a NULL address is taken by no block.
unfoldable pub decision_write_area : ℕ → Shared → ℕ → Memory → ℕ → ℕ → Shared × WrapBuf
decision_write_area base s dbk mem mapped rcd_size =
    let d = s.block dbk in
    let addr = ptr_add (base + dbk) d.dbk_pos in
    (
      put s dbk (record d { dbk_pos = (d.dbk_pos + rcd_size) % 2 ^ 64 }),
      record { mem = mem; mapped = mapped; start = addr; pos = addr; end = ptr_add addr rcd_size },
    )

-- RCD_START_MARK, the size and the record. The assertion is on what the record's function returns.
unfoldable pub write_record : DataRecord → WrapBuf → Option WrapBuf
write_record r w = do
  (n, w1) ← write_items ce_writer_encoding (value int8 0xfd ∷ value uint32 r.rcd_size ∷ []) w
  (write_size, w2) ← r.ipc_record_write_fn w1
  if write_size == r.rcd_size then some w2 else none

-- A process is looked for under /proc; the table's dead readers are removed, up to the first entry
-- that is free.
unfoldable pub clean_dead : ℕ → (ℕ → Bool) → ℕ → Shared → ℕ → Option Shared
unfolding ipc_shm_queue_reader_info_clean
clean_dead fuel proc_exist zero s i = some s
clean_dead fuel proc_exist (suc rounds) s i = elim (get_elem? s.queue.readers i) [
  | none ↦ none
  | some r ↦
      let rest = λ (s' : Shared). clean_dead fuel proc_exist rounds s' (i + 1) in
      if r.free
      then some s
      else (if proc_exist r.reader_pid
          then rest s
          else do s' ← ipc_shm_queue_reader_info_clean fuel s r.reader_pid; rest s')
]

-- A record that no block has room for. Every 200000th time dead readers are looked for.
unfoldable pub write_failed : ℕ → (ℕ → Bool) → Shared → Option Shared
unfolding clean_dead
write_failed fuel proc_exist s =
    let n = s.queue.get_blk_failed_cnt + 1 in
    let s' = record s { queue = record s.queue { get_blk_failed_cnt = n } } in
    if n % 200000 == 0 then clean_dead fuel proc_exist max_reader_num s' 0 else some s'

-- `time((time_t*)NULL)` is `now`, noted with the first record of a block.
abbrev pub timed : ℕ → Shared → ℕ → Shared
timed now s dbk =
    if (s.block dbk).rcd_num == 1
    then put s dbk (record (s.block dbk) { first_write_time = now })
    else s

-- What the environment gives: the time, whether zmq_send succeeds, and which processes exist.
pub record Env : Type 0 where
  pub now : ℕ
  pub sent : Bool
  pub proc_exist : ℕ → Bool

-- The address where the queue stands, and the memory that it stands in.
pub record Place : Type 0 where
  pub base : ℕ
  pub mapped : ℕ

-- The queue and the memory afterwards, and whether the result is CE_OK.
unfoldable pub ipc_shm_record_write :
    ℕ → Env → Place → Shared → Memory → DataRecord → Option (Shared × Memory × Bool)
unfolding ipc_queue_dbk_get write_failed decision_write_area write_record
ipc_shm_record_write fuel env place s mem r =
    let t_size = (r.rcd_size + 4 + 1) % 2 ^ 32 in
    do
      (s1, wr_dbk) ← ipc_queue_dbk_get fuel s t_size env.sent
      elim wr_dbk [
        | none ↦ do s2 ← write_failed fuel env.proc_exist s1; some (s2, mem, false)
        | some dbk ↦ do
          let (s2, w) = decision_write_area place.base s1 dbk mem place.mapped t_size
          w' ← write_record r w
          some (timed env.now s2 dbk, w'.mem, true)
      ]
