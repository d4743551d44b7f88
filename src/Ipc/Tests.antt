-- ===== src/Ipc/Tests.antt =====
-- The queues of ce_util/ce_ipc_shm.c at concrete blocks and records.
use cloudeagle.Common.{
  ℕ, ◌+◌, ◌<◌, ◌≡◌, refl, ◌⊎◌, inl, arith, none, some, List, [], ◌∷◌, Bool, true, false, not, ◌==◌,
  if◌then◌else◌, length, replicate,
}
use cloudeagle.Common.Memory.{Memory, Holds-store, store}
use cloudeagle.Value.{value_append}
use cloudeagle.Codec.Write.{write_bytes2_buf}
use cloudeagle.Codec.Writing.{write_bytes2_buf-Writes}
use cloudeagle.Ipc.{
  BlockState, readed, reading, DataBlock, ReaderInfo, Shared, ipc_dbk_is_collectalbe,
  block_header_size,
}
use cloudeagle.Ipc.Blocks.{ipc_dbk_collect, logged}
use cloudeagle.Ipc.Write.{DataRecord, Env, Place, ipc_publisher_dbk}
use cloudeagle.Ipc.Read.{read_records}
use cloudeagle.Ipc.Create.{
  QueueArgs, calculate_queue_args, ipc_shm_queue_init, real_queue_size, shrink,
}
use cloudeagle.Ipc.Parts.{Parts}
use cloudeagle.Ipc.Collect.{kept, collected, onto, is_nil, Collected}
use cloudeagle.Ipc.Sweep.{ipc_dbk_collect-Parts}
use cloudeagle.Ipc.Invariant.{IsQueue}
use cloudeagle.Ipc.Writing.{IsRecord}
use cloudeagle.Ipc.Reading.{stream, read_records-stream}
use cloudeagle.Ipc.Accounting.{all_read}
use cloudeagle.Ipc.Collectable.{note_all}
use cloudeagle.Ipc.Published.{pids_of, note_all-ipc_publisher_dbk}
use cloudeagle.Ipc.Sizes.{ipc_shm_queue_init-overrun}

abbrev pub test_block : ℕ → ℕ → BlockState → ℕ → DataBlock
test_block at next state left = record {
  dbk_offset = at;
  dbk_size = 300;
  dbk_next_offset = next;
  rcd_num = 1;
  dbk_pos = 130;
  last_read_time = 0;
  first_write_time = 7;
  dbk_state = state;
  read_count = left;
  reader_pid = 11 ∷ 12 ∷ 0 ∷ 0 ∷ 0 ∷ [];
}

abbrev pub test_reader : ℕ → Bool → ReaderInfo
test_reader pid is_free = record {
  reader_pid = pid;
  reader_name = replicate 30 0;
  free = is_free;
  rcv_cnt = 0;
}

-- Two used blocks: one that is read, and behind it one that has still to be read.
abbrev pub test_queue : Shared
test_queue = record {
  queue = record {
    q_offset = 40;
    q_len = 958;
    q_next_offset = 0;
    cur_w_dbk = 0;
    dbk_header = 358;
    free_dbk_header = 0;
    rcd_max_size = 20;
    q_id = 3;
    collect_count = 0;
    send_cnt = 0;
    send_failed_cnt = 0;
    get_blk_failed_cnt = 0;
    re_reg_clear_cnt = 0;
    ref_count = 2;
    readers =
        test_reader 11 false
        ∷ test_reader 12 false
        ∷ test_reader 0 true
        ∷ test_reader 0 true
        ∷ test_reader 0 true
        ∷ [];
  };
  block = λ a. if a == 358 then test_block 358 658 readed 0 else test_block 658 0 reading 2;
  notices = [];
}

abbrev pub test_used : List ℕ
test_used = 358 ∷ 658 ∷ []

pub test-Parts : Parts test_queue false test_used []
test-Parts = record {
  chain = (refl, omega arith, (refl, omega arith, refl));
  chain' = refl;
  distinct = (((λ e. absurd (omega arith)), tt), (tt, tt));
  distinct' = tt;
  own = (refl, (refl, tt));
  own' = tt;
  apart = (tt, (tt, tt));
}

pub test_IsQueue : IsQueue test_queue 2 test_used []
test_IsQueue = record {
  parts = test-Parts;
  total = refl;
  fits = ((omega arith, omega arith, omega arith), ((omega arith, omega arith, omega arith), tt));
  fits' = tt;
  current = inl refl;
  readers = refl;
}

ipc_dbk_collect-Parts_example :
    ((test_used ≡ []) × (ipc_dbk_collect 3 test_queue ≡ none))
    ⊎ ((s' : Shared) × (ipc_dbk_collect 3 test_queue
          ≡ some (logged s' (not (is_nil (collected test_queue.block test_used)))))
        × Parts s' false
            (kept test_queue.block test_used)
            (onto (collected test_queue.block test_used) [])
        × Collected test_queue s' (collected test_queue.block test_used))
ipc_dbk_collect-Parts_example =
    ipc_dbk_collect-Parts 3 test_queue test_used [] (omega arith) test-Parts

collected_first : collected test_queue.block test_used ≡ 358 ∷ []
unfolding ipc_dbk_is_collectalbe
collected_first = refl

abbrev pub test_env : Env
test_env = record { now = 100; sent = true; proc_exist = λ p. true }

abbrev pub test_place : Place
test_place = record { base = 4096; mapped = 8192 }

abbrev pub test_bytes : List ℕ
test_bytes = 1 ∷ 2 ∷ 3 ∷ []

abbrev pub test_record : DataRecord
test_record = record { rcd_size = 3; ipc_record_write_fn = write_bytes2_buf test_bytes }

abbrev pub zeros : Memory
zeros a = 0

pub test_IsRecord : IsRecord test_record test_bytes
test_IsRecord = record {
  size = refl;
  writes = λ w pos wrap. write_bytes2_buf-Writes test_bytes w pos wrap;
}

abbrev pub wide_zero : ℕ → ℕ → ℕ
wide_zero b k = 0

abbrev pub test_memory : Memory
test_memory = store zeros (4096 + block_header_size) (stream (test_bytes ∷ (9 ∷ []) ∷ []))

test_stream-length : length (stream (test_bytes ∷ (9 ∷ []) ∷ [])) ≡ 14
unfolding value_append
test_stream-length = refl

read_records-stream_example :
    read_records wide_zero test_memory 8192 4 4096 2 ≡ some (test_bytes ∷ (9 ∷ []) ∷ [])
read_records-stream_example =
    read_records-stream wide_zero test_memory 8192 4 4096 2 test_bytes ((9 ∷ []) ∷ []) (omega arith)
      refl (omega arith) (omega arith, (omega arith, tt)) (omega (arith, test_stream-length))
      (omega (arith, test_stream-length))
      (Holds-store zeros (4096 + block_header_size) (stream (test_bytes ∷ (9 ∷ []) ∷ [])))

note_all-ipc_publisher_dbk_example :
    ipc_dbk_is_collectalbe
      ((note_all (ipc_publisher_dbk test_queue 658 true) 658 (12 ∷ 11 ∷ [])).block 658)
    ≡ all_read (12 ∷ 11 ∷ []) 2 (pids_of test_queue.queue.readers)
note_all-ipc_publisher_dbk_example =
    note_all-ipc_publisher_dbk test_queue 658 true (12 ∷ 11 ∷ []) (omega arith) refl
      (omega arith, (omega arith, tt))
      ((λ pos. ((λ e. absurd (omega arith)), tt)), ((λ pos. tt), tt))
      (omega arith, (omega arith, tt))

abbrev pub test_args : QueueArgs
test_args = record { dbk_size = 12416; f_dbk_size = 200; dbk_num = 3 }

abbrev new_queue : Shared
new_queue = ipc_shm_queue_init test_queue 40 3 25390 test_args 1

-- The size that a queue of 19019 bytes for records of one byte gets.
aligned : real_queue_size 19019 1 ≡ 25216
unfolding real_queue_size
aligned = refl

abbrev pub short_args : QueueArgs
short_args = record { dbk_size = 12416; f_dbk_size = 26; dbk_num = 3 }

short_calculated : calculate_queue_args 25216 1 ≡ some short_args
unfolding calculate_queue_args shrink
short_calculated = refl

ipc_shm_queue_init-overrun_example :
    (m : ℕ) × (((ipc_shm_queue_init test_queue 40 3 25216 short_args 1).block m).dbk_offset ≡ m)
    × (((ipc_shm_queue_init test_queue 40 3 25216 short_args 1).block m).dbk_pos
        ≡ block_header_size)
    × (m + 26 ≡ 25216)
    × (25216 < m + block_header_size)
ipc_shm_queue_init-overrun_example =
    ipc_shm_queue_init-overrun test_queue 40 3 25216 1 short_args short_calculated (omega arith)
      (omega arith)
