-- ===== src/Ipc/Runs.antt =====
-- Runs of several processes on a queue of ce_util/ce_ipc_shm.c, at concrete blocks and records.
use cloudeagle.Common.{
  ℕ, ◌+◌, ◌≡◌, refl, inr, arith, none, some, List, [], ◌∷◌, ◌++◌, true, false, ◌==◌, if◌then◌else◌,
  length, All, get_elem?, ◌⊎◌, ◌%◌, ◌^◌,
}
use cloudeagle.Common.Memory.{Memory, Holds-store, store}
use cloudeagle.Value.{value_append}
use cloudeagle.Ipc.{
  reading, Shared, ShmQueue, ReaderInfo, ipc_dbk_is_collectalbe, ipc_queue_dbk_full,
  block_header_size,
}
use cloudeagle.Ipc.Readers.{ipc_shm_queue_reader_add, ipc_shm_queue_reader_info_clean}
use cloudeagle.Ipc.Write.{counted}
use cloudeagle.Ipc.Read.{read_records}
use cloudeagle.Ipc.Create.{Shm}
use cloudeagle.Ipc.Invariant.{IsQueue}
use cloudeagle.Ipc.Collectable.{note_all}
use cloudeagle.Ipc.Reading.{stream}
use cloudeagle.Ipc.Timeout.{check_queue, exit_pub_dbk}
use cloudeagle.Ipc.Steps.{Safe}
use cloudeagle.Ipc.System.{holding, get, timeout, Reach, start, write, other, total_size}
use cloudeagle.Ipc.Interleaved.{Reach-Safe}
use cloudeagle.Ipc.Unwritten.{front}
use cloudeagle.Ipc.Race.{get_here, Reach-unwritten}
use cloudeagle.Ipc.Leaving.{Left, exit_pub_dbk-Left}
use cloudeagle.Ipc.Chain.{Fresh}
use cloudeagle.Ipc.Table.{Table, without, ipc_shm_queue_reader_info_clean-Table}
use cloudeagle.Ipc.Adding.{renewed, entered, ipc_shm_queue_reader_add-Table}
use cloudeagle.Ipc.Lost.{note_all-lost}
use cloudeagle.Ipc.Tests.{
  test_block, test_reader, test_queue, test_used, test-Parts, test_IsQueue, test_place, test_bytes,
  zeros, test_record, test_IsRecord, wide_zero,
}

-- The queue, while the first block is written to.
abbrev written_queue : Shared
written_queue = record test_queue { queue = record test_queue.queue { cur_w_dbk = 358 } }

written_IsQueue : IsQueue written_queue 2 test_used []
written_IsQueue = record {
  parts = record {
    chain = test-Parts.chain;
    chain' = test-Parts.chain';
    distinct = test-Parts.distinct;
    distinct' = test-Parts.distinct';
    own = test-Parts.own;
    own' = test-Parts.own';
    apart = test-Parts.apart;
  };
  total = refl;
  fits = test_IsQueue.fits;
  fits' = tt;
  current = inr refl;
  readers = refl;
}

room_there : ipc_queue_dbk_full (written_queue.block 358) (total_size test_record) ≡ false
unfolding ipc_queue_dbk_full
room_there = refl

-- A writer takes the block, the other thread publishes it, a reader has read it, a process ends.
abbrev run_queue : Shared
run_queue = check_queue 100 true (counted written_queue 358)

run : Reach 3 test_place written_queue zeros run_queue zeros (holding 358 test_record)
run =
    other
      (write start
        (get test_record true (get_here 3 100 written_queue test_record (omega arith) room_there))
        (test_bytes, test_IsRecord, omega arith))
      (timeout 100 true)

Reach-Safe_example : Safe 2 test_place zeros run_queue zeros (holding 358 test_record)
Reach-Safe_example =
    Reach-Safe 3 2 test_place written_queue zeros test_used [] run_queue zeros
      (holding 358 test_record) (omega arith) (omega arith) (omega arith) (omega arith)
      written_IsQueue run

-- A block with one record, and zero bytes behind it.
abbrev one_memory : Memory
one_memory = store zeros (4096 + 358 + block_header_size) (stream (test_bytes ∷ []) ++ front 0 0)

one_length : length (stream (test_bytes ∷ [])) ≡ 8
unfolding value_append
one_length = refl

room_for_more : ipc_queue_dbk_full (written_queue.block 358) 20 ≡ false
unfolding ipc_queue_dbk_full
room_for_more = refl

Reach-unwritten_example :
    (s' : Shared) × Reach 3 test_place written_queue one_memory s' one_memory
      (holding 358 test_record)
    × (s'.notices ≡ record { q_id = 3; dbk_offset = 358 % 2 ^ 32 } ∷ [])
    × (read_records wide_zero one_memory 8192 9 (4096 + 358) (s'.block 358).rcd_num ≡ none)
Reach-unwritten_example =
    Reach-unwritten 3 test_place 100 written_queue one_memory test_record test_bytes wide_zero 9
      test_bytes [] 0 0 (omega arith) room_there room_for_more (omega arith) test_IsRecord
      (omega arith) refl (omega arith) (omega arith, tt) (omega (arith, one_length))
      (omega (arith, one_length)) (λ e. absurd (omega arith)) (omega arith) (omega arith)
      (Holds-store zeros (4096 + 358 + block_header_size) (stream (test_bytes ∷ []) ++ front 0 0))

abbrev two_queues : Shm
two_queues = record {
  head = record {
    shm_magic = 0xfff;
    shm_size = 9000;
    shm_queue_num = 2;
    shm_queue_header = 1000;
    shm_free_pos = 1958;
  };
  at = λ a.
      if a == 1000
      then record written_queue { queue = record written_queue.queue { q_next_offset = 40 } }
      else written_queue;
}

exit_pub_dbk-Left_example :
    (m' : Shm) × (exit_pub_dbk 3 (λ x. x == 40) two_queues ≡ some m')
    × All (λ x. Left (x == 40) (two_queues.at x) (m'.at x)) (1000 ∷ 40 ∷ [])
    × ((a : ℕ) → Fresh a (1000 ∷ 40 ∷ []) → m'.at a ≡ two_queues.at a)
    × (m'.head ≡ two_queues.head)
exit_pub_dbk-Left_example =
    exit_pub_dbk-Left 3 (λ x. x == 40) two_queues (1000 ∷ 40 ∷ []) (omega arith) refl
      (refl, omega arith, (refl, omega arith, refl)) (((λ e. absurd (omega arith)), tt), (tt, tt))
      ((omega arith, omega arith), ((omega arith, omega arith), tt))

abbrev test_readers : List ReaderInfo
test_readers = test_reader 11 false ∷ test_reader 12 false ∷ []

test_Table : Table test_queue.queue test_readers
test_Table = record {
  rest = test_reader 0 true ∷ test_reader 0 true ∷ test_reader 0 true ∷ [];
  all = refl;
  count = refl;
  unused = (refl, (refl, (refl, tt)));
}

ipc_shm_queue_reader_info_clean-Table_example :
    (s' : Shared) × (ipc_shm_queue_reader_info_clean 3 test_queue 11 ≡ some s')
    × Table s'.queue (without 11 test_readers)
ipc_shm_queue_reader_info_clean-Table_example =
    ipc_shm_queue_reader_info_clean-Table 3 2 test_queue 11 test_readers test_used [] (omega arith)
      test_IsQueue test_Table

without_first : without 11 test_readers ≡ test_reader 12 false ∷ []
without_first = refl

ipc_shm_queue_reader_add-Table_example :
    (q' : ShmQueue) × (ipc_shm_queue_reader_add test_queue.queue 13 (65 ∷ []) ≡ some q')
    × (((rs' : List ReaderInfo) × (renewed 13 (65 ∷ []) test_readers ≡ some rs') × Table q' rs')
        ⊎ ((renewed 13 (65 ∷ []) test_readers ≡ none)
            × (r : ReaderInfo) × (get_elem? test_queue.queue.readers 2 ≡ some r)
            × (r.free ≡ true)
            × Table q' (test_readers ++ entered 13 (65 ∷ []) r ∷ [])))
ipc_shm_queue_reader_add-Table_example =
    ipc_shm_queue_reader_add-Table test_queue.queue 13 (65 ∷ []) test_readers test_Table refl
      (omega arith) (refl, (refl, (refl, (refl, (refl, tt)))))

-- Of two readers that a block names, the first was removed.
abbrev removed_queue : Shared
removed_queue = record {
  queue = record test_queue.queue { ref_count = 1 };
  block = λ a. record (test_block 658 0 reading 1) { reader_pid = 0 ∷ 12 ∷ 0 ∷ 0 ∷ 0 ∷ [] };
  notices = [];
}

note_all-lost_example :
    ipc_dbk_is_collectalbe ((note_all removed_queue 658 (12 ∷ 12 ∷ [])).block 658) ≡ false
note_all-lost_example =
    note_all-lost removed_queue 658 (12 ∷ 12 ∷ []) (omega arith) refl refl
      (omega arith, (omega arith, tt))
