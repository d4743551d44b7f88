-- ===== src/Ipc/Read.antt =====
-- Reading from a queue of ce_util/ce_ipc_shm.c: the records of a block, one after the other, and what
-- a reader notes in the block afterwards.
use cloudeagle.Common.{
  ℕ, zero, suc, ◌+◌, ◌-◌, ◌%◌, ◌^◌, Option, none, some, List, [], ◌∷◌, ltb, leb, ◌==◌, ◌&&◌,
  if◌then◌else◌, modify,
}
use mathlib.Core.Option
use cloudeagle.Common.Memory.{Memory, load, ptr_add}
use cloudeagle.Codec.{WrapBuf}
use cloudeagle.Codec.Read.{ce_reader_encoding}
use cloudeagle.Codec.Items.{Shape, int8, uint32, Reading, number, read_items}
use cloudeagle.Ipc.{Notice, Shared, put, ◌>>=◌, block_header_size}
use cloudeagle.Ipc.Readers.{strike, settle}

-- `struct ce_ipc_dbk_iter_t`, of which the block and the reader stay the same; a NULL address is 0.
pub record Iter : Type 0 where
  pub cur_addr : ℕ
  pub cur_size : ℕ
  pub cur_rcd_num : ℕ

-- The assertion on the mark; the size behind it.
abbrev pub marked : List Reading → Option ℕ
marked (number mark ∷ number size ∷ []) = if mark == 0xfd then some size else none
marked _ = none

-- The buffer of the reader over `size` bytes of memory.
abbrev pub window : Memory → ℕ → ℕ → ℕ → WrapBuf
window mem mapped addr size = record {
  mem = mem;
  mapped = mapped;
  start = addr;
  pos = addr;
  end = ptr_add addr size;
}

module _ (wide_shl : ℕ → ℕ → ℕ) (mem : Memory) (mapped : ℕ) where
  -- The mark of a record and its size.
  unfoldable pub read_mark : ℕ → Option ℕ
  read_mark addr = do
    (rs, _) ←
        read_items (ce_reader_encoding wide_shl) (Shape.value int8 ∷ Shape.value uint32 ∷ [])
          (window mem mapped addr 5)
    marked rs

  unfoldable pub ipc_dbk_iter_init : ℕ → Option Iter
  unfolding read_mark
  ipc_dbk_iter_init dbk_addr = do
    let cur_addr = ptr_add dbk_addr block_header_size
    rcd_size ← read_mark cur_addr
    some (record { cur_addr = cur_addr; cur_size = rcd_size; cur_rcd_num = 0 })

  -- The iterator behind the record, and the record's bytes, which the reader's buffer is set to.
  unfoldable pub dbk_next : ℕ → Iter → Option (Iter × List ℕ)
  unfolding read_mark
  dbk_next rcd_num it =
      let content = load mem (ptr_add it.cur_addr 5) it.cur_size in
      let next_addr = ptr_add it.cur_addr (5 + it.cur_size) in
      let last : Iter = record { cur_addr = 0; cur_size = 0; cur_rcd_num = it.cur_rcd_num + 1 } in
      if leb ((rcd_num + 2 ^ 64 - 1) % 2 ^ 64) it.cur_rcd_num then some (last, content) else do
        next_size ← read_mark next_addr
        let next : Iter = record {
          cur_addr = next_addr;
          cur_size = next_size;
          cur_rcd_num = it.cur_rcd_num + 1;
        }
        some (next, content)

  -- `while (iter.has_next(&iter))`: the bytes that the reader's callback gets, record by record.
  unfoldable pub read_from : ℕ → ℕ → Iter → Option (List (List ℕ))
  unfolding dbk_next
  read_from zero rcd_num it = none
  read_from (suc fuel) rcd_num it =
      let rest = (do
        (it', content) ← dbk_next rcd_num it
        contents ← read_from fuel rcd_num it'
        some (content ∷ contents)) in
      if it.cur_addr == 0 then some [] else rest

  unfoldable pub read_records : ℕ → ℕ → ℕ → Option (List (List ℕ))
  unfolding ipc_dbk_iter_init read_from
  read_records fuel dbk_addr rcd_num = do it ← ipc_dbk_iter_init dbk_addr; read_from fuel rcd_num it

-- The place of `getpid()` among the first `count` readers of a block.
unfoldable pub getpid_index : ℕ → ℕ → List ℕ → Option ℕ
getpid_index zero pid pids = none
getpid_index (suc count) pid [] = none
getpid_index (suc count) pid (p ∷ pids) =
    if p == pid then some 0 else Option.map suc (getpid_index count pid pids)

-- The end of do_dkb_data_record_read; `read_count` is read as a `long`.
unfoldable pub note_read : Shared → ℕ → ℕ → Shared
unfolding getpid_index strike settle
note_read s pid dbk =
    let d = s.block dbk in
    if ltb 0 d.read_count && ltb d.read_count (2 ^ 63)
    then elim (getpid_index s.queue.ref_count pid d.reader_pid) [
      | none ↦ put s dbk (settle d)
      | some i ↦ record (put s dbk (settle (strike i d))) {
        queue = record s.queue {
          readers = modify i (λ r. record r { rcv_cnt = r.rcv_cnt + 1 }) s.queue.readers;
        };
      }
    ]
    else put s dbk (settle d)

unfoldable pub do_dkb_data_record_read :
    (ℕ → ℕ → ℕ) → ℕ → ℕ → ℕ → Shared → Memory → ℕ → ℕ → Option (Shared × List (List ℕ))
unfolding read_records note_read
do_dkb_data_record_read wide_shl fuel base mapped s mem pid dbk = do
  contents ← read_records wide_shl mem mapped fuel (base + dbk) (s.block dbk).rcd_num
  some (note_read s pid dbk, contents)

-- read_thread_fn, on one notice with the command PUB_DBK; `q_id` is the reader's.
unfoldable pub read_notice :
    (ℕ → ℕ → ℕ) → ℕ → ℕ → ℕ → Shared → Memory → ℕ → ℕ → Notice → Option (Shared × List (List ℕ))
unfolding do_dkb_data_record_read
read_notice wide_shl fuel base mapped s mem pid q_id notice =
    let dbk = notice.dbk_offset in
    if notice.q_id == q_id
    then (if (s.block dbk).dbk_offset == dbk
        then do_dkb_data_record_read wide_shl fuel base mapped s mem pid dbk
        else none)
    else some (s, [])
