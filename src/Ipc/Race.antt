-- ===== src/Ipc/Race.antt =====
-- A block of ce_util/ce_ipc_shm.c that is published for its age while a writer holds it.
use cloudeagle.Common.{
  ℕ, suc, ◌+◌, ◌%◌, ◌^◌, ◌≤◌, ◌<◌, ◌≡◌, ◌≢◌, refl, subst, arith, none, some, List, [], ◌∷◌, ◌++◌,
  true, false, ◌==◌, leb, length, All,
}
use cloudeagle.Common.Memory.{Memory, Holds}
use cloudeagle.Ipc.{Shared, set_block, ipc_queue_dbk_full, block_header_size}
use cloudeagle.Ipc.Write.{DataRecord, Place, counted, publish_block, ipc_queue_dbk_get}
use cloudeagle.Ipc.Read.{read_records}
use cloudeagle.Ipc.Writing.{IsRecord}
use cloudeagle.Ipc.Reading.{stream, Small}
use cloudeagle.Ipc.Timeout.{dbk_write_time_out, publish_cur, check_queue}
use cloudeagle.Ipc.System.{holding, total_size, get, timeout, Reach, start, write, other}
use cloudeagle.Ipc.Unwritten.{front, read_records-front}

-- The block that is written to, with room for a record.
module _ (fuel now : ℕ) (s : Shared) (r : DataRecord) (written : 0 < s.queue.cur_w_dbk)
    (room : ipc_queue_dbk_full (s.block s.queue.cur_w_dbk) (total_size r) ≡ false) where
  pub get_here :
      ipc_queue_dbk_get fuel s (total_size r) true
      ≡ some (counted s s.queue.cur_w_dbk, some s.queue.cur_w_dbk)
  unfolding ipc_queue_dbk_get
  get_here = let here : (s.queue.cur_w_dbk == 0) ≡ false = ground arith in rw (here, room) refl

  counted_here :
      (counted s s.queue.cur_w_dbk).block s.queue.cur_w_dbk
      ≡ record (s.block s.queue.cur_w_dbk) { rcd_num = (s.block s.queue.cur_w_dbk).rcd_num + 1 }
  unfolding set_block
  counted_here = ground arith

  check_here :
      ipc_queue_dbk_full (s.block s.queue.cur_w_dbk) s.queue.rcd_max_size ≡ false
      → (s.block s.queue.cur_w_dbk).first_write_time + dbk_write_time_out ≤ now
      → check_queue now true (counted s s.queue.cur_w_dbk)
        ≡ publish_cur (counted s s.queue.cur_w_dbk) true
  unfolding check_queue ipc_queue_dbk_full
  check_here more late =
      let here : (s.queue.cur_w_dbk == 0) ≡ false = ground arith in
      let age = (s.block s.queue.cur_w_dbk).first_write_time + dbk_write_time_out in
      let old : leb age now ≡ true = ground arith in rw (here, counted_here, more, old) refl

  published_here :
      ((publish_cur (counted s s.queue.cur_w_dbk) true).block s.queue.cur_w_dbk).rcd_num
      ≡ (s.block s.queue.cur_w_dbk).rcd_num + 1
  unfolding publish_cur set_block publish_block
  published_here = ground arith

-- The block of a queue that is written to holds one or more records, has room for another, and its
-- first one was written DBK_WRITE_TIME_OUT seconds ago or earlier, which is 5 in the code. A writer
-- takes the block for a record, and before the record's bytes are written the other thread publishes
-- it: the readers get a notice of it while the writer holds it, and one of them that reads it then
-- fails, however many turns its loop gets, where the five bytes behind the last record are not a mark
-- and a size.
pub Reach-unwritten :
    (fuel : ℕ) (place : Place) (now : ℕ) (s : Shared) (mem : Memory) (r : DataRecord)
    (content : List ℕ) (wide_shl : ℕ → ℕ → ℕ) (turns : ℕ) (c : List ℕ) (cs : List (List ℕ))
    (mark n : ℕ)
    → 0 < s.queue.cur_w_dbk
    → ipc_queue_dbk_full (s.block s.queue.cur_w_dbk) (total_size r) ≡ false
    → ipc_queue_dbk_full (s.block s.queue.cur_w_dbk) s.queue.rcd_max_size ≡ false
    → (s.block s.queue.cur_w_dbk).first_write_time + dbk_write_time_out ≤ now
    → IsRecord r content
    → length content + 5 < 2 ^ 32
    → (s.block s.queue.cur_w_dbk).rcd_num ≡ suc (length cs)
    → suc (suc (length cs)) < 2 ^ 63
    → All Small (c ∷ cs)
    → place.base + s.queue.cur_w_dbk + block_header_size + length (stream (c ∷ cs)) + 5 < 2 ^ 64
    → place.base + s.queue.cur_w_dbk + block_header_size + length (stream (c ∷ cs)) + 5
      ≤ place.mapped
    → mark ≢ 0xfd
    → mark < 2 ^ 8
    → n < 2 ^ 32
    → Holds mem
        (place.base + s.queue.cur_w_dbk + block_header_size)
        (stream (c ∷ cs) ++ front mark n)
    → (s' : Shared) × Reach fuel place s mem s' mem (holding s.queue.cur_w_dbk r)
      × (s'.notices
          ≡ s.notices
            ++ record { q_id = s.queue.q_id; dbk_offset = s.queue.cur_w_dbk % 2 ^ 32 } ∷ [])
      × (read_records wide_shl mem place.mapped turns
            (place.base + s.queue.cur_w_dbk)
            (s'.block s.queue.cur_w_dbk).rcd_num
          ≡ none)
unfolding publish_cur
Reach-unwritten fuel place now s mem r content wide_shl turns c cs mark n written room more late is
      small one few smalls wrap reach wrong byte word h =
    let s1 = counted s s.queue.cur_w_dbk in
    let here = check_here fuel now s r written room more late in
    let num = published_here fuel now s r written room in
    let taken =
      write start (get r true (get_here fuel now s r written room)) (content, is, small) in
    (
      publish_cur s1 true,
      subst (λ x. Reach fuel place s mem x mem (holding s.queue.cur_w_dbk r)) here
          (other taken (timeout now true)),
      refl,
      read_records-front wide_shl mem place.mapped mark n wrong byte word turns _ _ c cs
          (omega (arith, num, one)) (omega (arith, num, one)) smalls wrap reach h,
    )
