-- ===== src/Ipc.antt =====
-- ce_util/ce_ipc_shm.c: message queues in shared memory. Here is the data of one queue; the headers
-- of its blocks are records at their offsets in the queue, and what blocks hold is bytes in memory.
use cloudeagle.Common.{
  ℕ, ◌+◌, ◌%◌, ◌^◌, Option, none, some, List, Bool, true, false, ltb, ◌==◌, if◌then◌else◌,
}
use cloudeagle.Common.Memory.{Memory}
pub mod Blocks
pub mod Readers
pub mod Write
pub mod Read
pub mod Create
pub mod Chain
pub mod Removal
pub mod Parts
pub mod Collect
pub mod Sweep
pub mod Invariant
pub mod Room
pub mod Take
pub mod Find
pub mod Dead
pub mod Writing
pub mod Record
pub mod Reading
pub mod Accounting
pub mod Collectable
pub mod Published
pub mod Tiles
pub mod Sizes
pub mod Timeout
pub mod Joining
pub mod System
pub mod Steps
pub mod Interleaved
pub mod Unwritten
pub mod Race
pub mod Leaving
pub mod Table
pub mod Adding
pub mod Lost
mod Tests
mod Runs

-- sizeof(ce_ipc_shm_header_t), sizeof(ce_ipc_shm_queue_t) and sizeof(ce_ipc_data_block_t), packed.
abbrev pub shm_header_size : ℕ
shm_header_size = 40

abbrev pub queue_header_size : ℕ
queue_header_size = 358

abbrev pub block_header_size : ℕ
block_header_size = 96

-- CE_QUEUE_MAX_READER_NUM
abbrev pub max_reader_num : ℕ
max_reader_num = 5

-- `ce_ipc_shm_reader_info_t`; the name is its READER_NAME_LEN bytes.
pub record ReaderInfo : Type 0 where
  pub reader_pid : ℕ
  pub reader_name : List ℕ
  pub free : Bool
  pub rcv_cnt : ℕ

-- DBK_WRITE, DBK_READING, DBK_READED, DBK_FREE and DBK_BUSY
pub data BlockState : Type 0 where
  write reading readed free busy : BlockState

-- `ce_ipc_data_block_t`, without its lock
pub record DataBlock : Type 0 where
  pub dbk_offset : ℕ
  pub dbk_size : ℕ
  pub dbk_next_offset : ℕ
  pub rcd_num : ℕ
  pub dbk_pos : ℕ
  pub last_read_time : ℕ
  pub first_write_time : ℕ
  pub dbk_state : BlockState
  pub read_count : ℕ
  pub reader_pid : List ℕ

-- `ce_ipc_shm_queue_t`, without its locks
pub record ShmQueue : Type 0 where
  pub q_offset : ℕ
  pub q_len : ℕ
  pub q_next_offset : ℕ
  pub cur_w_dbk : ℕ
  pub dbk_header : ℕ
  pub free_dbk_header : ℕ
  pub rcd_max_size : ℕ
  pub q_id : ℕ
  pub collect_count : ℕ
  pub send_cnt : ℕ
  pub send_failed_cnt : ℕ
  pub get_blk_failed_cnt : ℕ
  pub re_reg_clear_cnt : ℕ
  pub ref_count : ℕ
  pub readers : List ReaderInfo

-- PUB_DBK and what follows it: the queue and the block's offset as a `uint32_t`
pub record Notice : Type 0 where
  pub q_id : ℕ
  pub dbk_offset : ℕ

-- A queue, the headers of its blocks by their offsets, and the notices that zmq_send took.
pub record Shared : Type 0 where
  pub queue : ShmQueue
  pub block : ℕ → DataBlock
  pub notices : List Notice

-- What a run gives: `none` is a failed assertion, an access that is not allowed, or no more fuel.
infixl 5 ◌>>=◌
abbrev pub ◌>>=◌ {ℓ κ} : {A : Type ℓ} {B : Type κ} → Option A → (A → Option B) → Option B
none >>= f = none
some a >>= f = f a

unfoldable pub set_block : (ℕ → DataBlock) → ℕ → DataBlock → ℕ → DataBlock
set_block b p d a = if a == p then d else b a

-- `dbk->...` is assigned to
abbrev pub put : Shared → ℕ → DataBlock → Shared
put s p d = record s { block = set_block s.block p d }

-- The two lists that a block can be on, `&shm_q->free_dbk_header` and `&shm_q->dbk_header`.
abbrev pub header : Bool → ShmQueue → ℕ
header is_free q = if is_free then q.free_dbk_header else q.dbk_header

abbrev pub set_header : Bool → ℕ → ShmQueue → ShmQueue
set_header is_free p q =
    if is_free then record q { free_dbk_header = p } else record q { dbk_header = p }

-- ipc_queue_dbk_full, on a `size_t`
unfoldable pub ipc_queue_dbk_full : DataBlock → ℕ → Bool
ipc_queue_dbk_full dbk size = ltb dbk.dbk_size ((dbk.dbk_pos + size) % 2 ^ 64)

-- ipc_dbk_is_collectalbe: the test of the state behind it gives 0 on every branch
unfoldable pub ipc_dbk_is_collectalbe : DataBlock → Bool
ipc_dbk_is_collectalbe dbk =
    if dbk.read_count == 0 then true else elim dbk.dbk_state [ readed ↦ true | _ ↦ false ]
