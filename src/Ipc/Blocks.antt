-- ===== src/Ipc/Blocks.antt =====
-- The two lists of blocks of a queue of ce_util/ce_ipc_shm.c: putting a block on one and taking it
-- off, and the collection of the blocks that every reader has read.
use cloudeagle.Common.{
  ℕ, zero, suc, Option, none, some, List, [], ◌∷◌, Bool, true, false, ◌==◌, if◌then◌else◌, not,
  ◌&&◌,
}
use mathlib.Core.Option
use cloudeagle.Ipc.{
  DataBlock, BlockState, free, Shared, put, header, set_header, ◌>>=◌, ipc_dbk_is_collectalbe,
  block_header_size,
}

-- `list_for_ipc_data_block`: the offsets of the blocks that the loop visits, where its body leaves
-- the list as it is.
unfoldable pub list_for_ipc_data_block : ℕ → (ℕ → DataBlock) → ℕ → Option (List ℕ)
list_for_ipc_data_block zero block p = none
list_for_ipc_data_block (suc fuel) block p =
    let rest =
      Option.map (λ xs. p ∷ xs) (list_for_ipc_data_block fuel block (block p).dbk_next_offset) in
    if p == 0 then some [] else rest

unfoldable pub ipc_shm_queue_data_block_init : DataBlock → ℕ → ℕ → ℕ → BlockState → ℕ → DataBlock
ipc_shm_queue_data_block_init dbk dbk_offset dbk_size dbk_pos dbk_state read_count = record dbk {
  dbk_offset = dbk_offset;
  dbk_size = dbk_size;
  dbk_next_offset = 0;
  read_count = read_count;
  rcd_num = 0;
  dbk_pos = dbk_pos;
  dbk_state = dbk_state;
}

unfoldable pub ipc_queue_dbk_add : Shared → ℕ → Bool → Shared
ipc_queue_dbk_add s dbk is_free =
    let d : DataBlock = record (s.block dbk) { dbk_next_offset = header is_free s.queue } in
    record (put s dbk d) { queue = set_header is_free d.dbk_offset s.queue }

-- The block in front of `c_dbk` among `xs`, or NULL; the last one if `c_dbk` is not there.
unfoldable pub pre_from : (ℕ → DataBlock) → ℕ → ℕ → List ℕ → ℕ
pre_from block c_offset pre_dbk [] = pre_dbk
pre_from block c_offset pre_dbk (dbk ∷ xs) =
    if (block dbk).dbk_offset == c_offset then pre_dbk else pre_from block c_offset dbk xs

unfoldable pub ipc_queue_dbk_pre_get : ℕ → Shared → ℕ → ℕ → Option ℕ
unfolding pre_from list_for_ipc_data_block
ipc_queue_dbk_pre_get fuel s c_dbk head =
    Option.map (pre_from s.block (s.block c_dbk).dbk_offset 0)
      (list_for_ipc_data_block fuel s.block head)

unfoldable pub unlink : Shared → ℕ → Bool → ℕ → Shared
unlink s m_dbk is_free pre_dbk =
    let next = (s.block m_dbk).dbk_next_offset in
    let s' =
      if pre_dbk == 0
      then record s { queue = set_header is_free next s.queue }
      else put s pre_dbk (record (s.block pre_dbk) { dbk_next_offset = next }) in
    put s' m_dbk (record (s'.block m_dbk) { dbk_next_offset = 0 })

unfoldable pub ipc_queue_dbk_mov : ℕ → Shared → ℕ → Bool → Option Shared
unfolding ipc_queue_dbk_pre_get unlink
ipc_queue_dbk_mov fuel s m_dbk is_free =
    Option.map (unlink s m_dbk is_free)
      (ipc_queue_dbk_pre_get fuel s m_dbk (header is_free s.queue))

-- The three calls of a round that collects a block.
unfoldable pub collect_block : ℕ → Shared → ℕ → Option Shared
unfolding ipc_queue_dbk_mov ipc_shm_queue_data_block_init ipc_queue_dbk_add
collect_block fuel s dbk = do
  s1 ← ipc_queue_dbk_mov fuel s dbk false
  let d = s1.block dbk
  let d' = ipc_shm_queue_data_block_init d d.dbk_offset d.dbk_size block_header_size free 0
  some (ipc_queue_dbk_add (put s1 dbk d') dbk true)

-- The rounds from `dbk` on, and whether one of them collected a block.
unfoldable pub collect_from : ℕ → ℕ → Shared → ℕ → Bool → Option (Shared × Bool)
unfolding collect_block ipc_dbk_is_collectalbe
collect_from fuel zero s dbk collected = none
collect_from fuel (suc rounds) s dbk collected =
    let next_offset = (s.block dbk).dbk_next_offset in
    let hit = ipc_dbk_is_collectalbe (s.block dbk) in
    do
      s' ← if hit then collect_block fuel s dbk else some s
      let collected' = if hit then true else collected
      let rest = collect_from fuel rounds s' next_offset collected'
      if next_offset == 0 then some (s', collected') else rest

-- A collection that finds nothing says so in the log the first time.
abbrev pub logged : Shared → Bool → Shared
logged s collected =
    if not collected && s.queue.collect_count == 0
    then record s { queue = record s.queue { collect_count = 1 } }
    else s

-- The first round reads the first block also where there is none.
unfoldable pub ipc_dbk_collect : ℕ → Shared → Option Shared
unfolding collect_from
ipc_dbk_collect fuel s = do
  (s', collected) ←
      if s.queue.dbk_header == 0 then none else collect_from fuel fuel s s.queue.dbk_header false
  some (logged s' collected)
