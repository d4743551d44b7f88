-- ===== src/Ipc/Create.antt =====
-- Creating a queue of ce_util/ce_ipc_shm.c: the header of the shared memory, the geometry of the
-- blocks, and the list of queues. The header of a queue is a record at its offset in the memory.
use cloudeagle.Common.{
  ℕ, zero, suc, ◌+◌, ◌-◌, ◌*◌, ◌/◌, ◌%◌, ◌^◌, Option, none, some, List, [], ◌∷◌, Bool, true, false,
  ltb, leb, ◌==◌, ◌&&◌, if◌then◌else◌, bit_and, map, not,
}
use cloudeagle.Ipc.{
  ReaderInfo, free, ShmQueue, Shared, put, ◌>>=◌, shm_header_size, queue_header_size,
  block_header_size,
}
use cloudeagle.Ipc.Blocks.{ipc_shm_queue_data_block_init, ipc_queue_dbk_add}
use cloudeagle.Ipc.Readers.{ipc_shm_queue_reader_info_init}

-- CE_DBK_PUBLISHER_RCD_NUM and CE_DBK_MIN_NUM
abbrev pub publisher_rcd_num : ℕ
publisher_rcd_num = 64

abbrev pub min_dbk_num : ℕ
min_dbk_num = 1

-- SHM_QUEUE_SIZE_DEFAULT
abbrev pub default_queue_size : ℕ
default_queue_size = 4 * 1024 * 1024

-- `ce_ipc_shm_header_t`, without its port
pub record ShmHeader : Type 0 where
  pub shm_magic : ℕ
  pub shm_size : ℕ
  pub shm_queue_num : ℕ
  pub shm_queue_header : ℕ
  pub shm_free_pos : ℕ

-- The memory: its header, and the queues by their offsets.
pub record Shm : Type 0 where
  pub head : ShmHeader
  pub at : ℕ → Shared

unfoldable pub ipc_shm_header_init : ℕ → ShmHeader
ipc_shm_header_init shm_size = record {
  shm_magic = 0xfff;
  shm_size = shm_size;
  shm_queue_num = 0;
  shm_queue_header = 0;
  shm_free_pos = shm_header_size;
}

-- ce_align, on 64 bits: `~(a - 1)` is 2 ^ 64 - a.
unfoldable pub ce_align : ℕ → ℕ → ℕ
ce_align d a = bit_and ((d + a + 2 ^ 64 - 1) % 2 ^ 64) ((2 ^ 64 - a) % 2 ^ 64)

pub record QueueArgs : Type 0 where
  pub dbk_size : ℕ
  pub f_dbk_size : ℕ
  pub dbk_num : ℕ

-- A product of two `size_t`.
abbrev pub block_size_for : ℕ → ℕ → ℕ
block_size_for rcd_size rcd_num = rcd_num * (rcd_size + block_header_size) % 2 ^ 64

-- `dbk_rcd_num`, which the loop takes down to publisher_rcd_num at most, given the payload's size;
-- the recursion is on how far it is above that. `none` is a division by 0.
unfoldable pub shrink : ℕ → ℕ → ℕ → Option ℕ
shrink payload rcd_size zero = some publisher_rcd_num
shrink payload rcd_size (suc k) =
    let size = block_size_for rcd_size (publisher_rcd_num + suc k) in
    let rest = shrink payload rcd_size k in
    if size == 0
    then none
    else (if ltb (payload / size) min_dbk_num then rest else some (publisher_rcd_num + suc k))

-- A difference of two `size_t`.
abbrev pub payload_size : ℕ → ℕ
payload_size r_queue_size =
    if leb queue_header_size r_queue_size
    then r_queue_size - queue_header_size
    else r_queue_size + 2 ^ 64 - queue_header_size

-- `none` is a division by 0 or the assertion that there is more than one block.
unfoldable pub calculate_queue_args : ℕ → ℕ → Option QueueArgs
unfolding shrink
calculate_queue_args r_queue_size rcd_size =
    let payload = payload_size r_queue_size in
    do
      dbk_rcd_num ← shrink payload rcd_size publisher_rcd_num
      let s_dbk_size = block_size_for rcd_size dbk_rcd_num
      let s_dbk_num = payload / s_dbk_size
      if s_dbk_size == 0
          then none
          else (if ltb min_dbk_num s_dbk_num && leb publisher_rcd_num dbk_rcd_num
              then (if payload % s_dbk_size == 0
                  then some (record {
                    dbk_size = s_dbk_size;
                    f_dbk_size = s_dbk_size;
                    dbk_num = s_dbk_num;
                  })
                  else some (record {
                    dbk_size = s_dbk_size;
                    f_dbk_size = payload - s_dbk_size * s_dbk_num;
                    dbk_num = s_dbk_num + 1;
                  }))
              else none)

-- One round of the loop: the block at `offset` is put on the list of free blocks.
unfoldable pub create_block : Shared → ℕ → ℕ → Shared
unfolding ipc_shm_queue_data_block_init ipc_queue_dbk_add
create_block s offset size =
    ipc_queue_dbk_add
      (put s offset
        (ipc_shm_queue_data_block_init (s.block offset) offset size block_header_size free 0))
      offset true

-- The first `n` blocks, of equal size.
unfoldable pub create_blocks : ℕ → Shared → ℕ → ℕ → Shared
unfolding create_block
create_blocks zero s offset size = s
create_blocks (suc n) s offset size =
    create_blocks n (create_block s offset size) (offset + size) size

-- The last block may have another size.
unfoldable pub ipc_shm_queue_data_block_create : Shared → QueueArgs → Shared
unfolding create_blocks
ipc_shm_queue_data_block_create s args =
    create_block (create_blocks (args.dbk_num - 1) s queue_header_size args.dbk_size)
      (queue_header_size + (args.dbk_num - 1) * args.dbk_size) args.f_dbk_size

-- The first max_reader_num entries of the table.
unfoldable pub init_readers : List ReaderInfo → List ReaderInfo
unfolding ipc_shm_queue_reader_info_init
init_readers [] = []
init_readers (r ∷ rs) = ipc_shm_queue_reader_info_init r 0 true [] ∷ init_readers rs

-- `s` is what stands at `offset` before.
unfoldable pub ipc_shm_queue_init : Shared → ℕ → ℕ → ℕ → QueueArgs → ℕ → Shared
unfolding ipc_shm_queue_data_block_create init_readers
ipc_shm_queue_init s offset queue_id r_queue_size args rcd_size =
    let q : ShmQueue = record s.queue {
      q_id = queue_id;
      q_offset = offset;
      q_len = r_queue_size;
      q_next_offset = 0;
      rcd_max_size = rcd_size;
      cur_w_dbk = 0;
      dbk_header = 0;
      free_dbk_header = 0;
      collect_count = 0;
      ref_count = 0;
      readers = init_readers s.queue.readers;
    } in
    ipc_shm_queue_data_block_create (record s { queue = q }) args

unfoldable pub ipc_shm_stat_init : ShmQueue → ShmQueue
ipc_shm_stat_init q = record q {
  send_cnt = 0;
  send_failed_cnt = 0;
  get_blk_failed_cnt = 0;
  re_reg_clear_cnt = 0;
  readers = map (λ (r : ReaderInfo). record r { rcv_cnt = 0 }) q.readers;
}

-- The offset of the queue with the number, or NULL, over the list of queues; `none` is no fuel.
unfoldable pub queue_get_from : ℕ → Shm → ℕ → ℕ → Option ℕ
queue_get_from zero m p q_id = none
queue_get_from (suc fuel) m p q_id =
    let rest = queue_get_from fuel m (m.at p).queue.q_next_offset q_id in
    if p == 0 then some 0 else (if (m.at p).queue.q_id == q_id then some p else rest)

-- The assertion is that the first queue has an offset.
unfoldable pub ipc_shm_queue_get : ℕ → Shm → ℕ → Option ℕ
unfolding queue_get_from
ipc_shm_queue_get fuel m q_id =
    if m.head.shm_queue_num == 0
    then some 0
    else (if m.head.shm_queue_header == 0
        then none
        else queue_get_from fuel m m.head.shm_queue_header q_id)

unfoldable pub ipc_shm_remain_size : Shm → ℕ
ipc_shm_remain_size m = (m.head.shm_size + 2 ^ 64 - m.head.shm_free_pos) % 2 ^ 64

abbrev pub set_queue : Shm → ℕ → Shared → Shm
set_queue m p s = record m { at = λ a. if a == p then s else m.at a }

-- The queue at `offset` is put in front of the others.
unfoldable pub ipc_shm_queue_add : Shm → ℕ → Shm
ipc_shm_queue_add m offset =
    let s = m.at offset in
    let s' : Shared = record s {
      queue = record s.queue { q_next_offset = m.head.shm_queue_header };
    } in
    record (set_queue m offset s') {
      head = record m.head {
        shm_queue_header = s.queue.q_offset;
        shm_queue_num = m.head.shm_queue_num + 1;
      };
    }

-- The size that is asked for, or one that a record fits into, aligned.
unfoldable pub real_queue_size : ℕ → ℕ → ℕ
unfolding ce_align
real_queue_size queue_size rcd_size =
    let least = (queue_header_size + rcd_size) % 2 ^ 64 in
    let size =
      if leb queue_size least
      then (if ltb default_queue_size least then least else default_queue_size)
      else queue_size in
    ce_align size ((block_header_size + rcd_size) * publisher_rcd_num % 2 ^ 64)

-- The new queue, in the space from `shm_free_pos` on.
unfoldable pub add_new_queue : Shm → ℕ → ℕ → QueueArgs → ℕ → Shm
unfolding ipc_shm_queue_init ipc_shm_queue_add ipc_shm_stat_init
add_new_queue m queue_id r_queue_size args rcd_size =
    let offset = m.head.shm_free_pos in
    let m1 = record m { head = record m.head { shm_free_pos = offset + r_queue_size } } in
    let s = ipc_shm_queue_init (m1.at offset) offset queue_id r_queue_size args rcd_size in
    let m2 = ipc_shm_queue_add (set_queue m1 offset s) offset in
    let s' = m2.at offset in set_queue m2 offset (record s' { queue = ipc_shm_stat_init s'.queue })

-- The memory afterwards, and whether the result is CE_OK. The process is the creator's.
unfoldable pub ipc_shm_queue_create : ℕ → Shm → ℕ → ℕ → ℕ → Option (Shm × Bool)
unfolding real_queue_size ipc_shm_queue_get calculate_queue_args add_new_queue ipc_shm_remain_size
ipc_shm_queue_create fuel m queue_id queue_size rcd_size =
    let size = real_queue_size queue_size rcd_size in
    do
      here ← if rcd_size == 0 then none else ipc_shm_queue_get fuel m queue_id
      if not (here == 0)
          then (let s = m.at here in
              some (set_queue m here (record s { queue = ipc_shm_stat_init s.queue }), true))
          else (if ltb (ipc_shm_remain_size m) size then some (m, false) else do
            args ← calculate_queue_args size rcd_size
            some (add_new_queue m queue_id size args rcd_size, true))
