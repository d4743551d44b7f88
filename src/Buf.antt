-- ===== src/Buf.antt =====
-- ce_util/ce_buf.h and ce_util/ce_buf.c: a buffer that hands out blocks of a memory one behind the
-- other. The buffer's own header stands at the start of that memory.
use cloudeagle.Common.{
  ℕ, ◌+◌, ◌-◌, ◌%◌, ◌^◌, Option, none, some, List, [], ◌∷◌, Bool, true, false, ◌==◌, ◌||◌, ltb,
  if◌then◌else◌, replicate,
}
use cloudeagle.Common.Memory.{Memory, store, ptr_add}
pub mod Pushes
mod Tests

pub record CeBuf : Type 0 where
  pub start : ℕ
  pub pos : ℕ
  pub last : ℕ
  pub end : ℕ

-- sizeof(ce_buf_t), packed
abbrev pub buf_header_size : ℕ
buf_header_size = 32

unfoldable pub ce_init_buf : ℕ → ℕ → Option CeBuf
ce_init_buf mem mem_size =
    let start = ptr_add mem buf_header_size in
    if mem == 0
    then none
    else (if ltb mem_size buf_header_size
        then none
        else some (record { start = start; pos = start; last = start; end = ptr_add mem mem_size }))

-- `mem` is what malloc gives for the size that is asked for.
unfoldable pub ce_create_buf : (ℕ → ℕ) → ℕ → Option CeBuf
unfolding ce_init_buf
ce_create_buf malloc buf_size =
    let size = if ltb buf_size buf_header_size then buf_header_size else buf_size in
    if malloc size == 0 then none else ce_init_buf (malloc size) size

unfoldable pub ce_buf_full : CeBuf → ℕ → Bool
ce_buf_full buf size = ltb buf.end (ptr_add buf.pos size)

-- The buffer and the memory afterwards, and the block or NULL. The buffer is not NULL here.
unfoldable pub ce_push_buf : CeBuf → Memory → ℕ → CeBuf × Memory × ℕ
unfolding ce_buf_full
ce_push_buf buf mem size =
    if size == 0 || ce_buf_full buf size
    then (buf, mem, 0)
    else (record buf { pos = ptr_add buf.pos size }, store mem buf.pos (replicate size 0), buf.pos)

unfoldable pub ce_buf_size : CeBuf → ℕ
ce_buf_size buf = (buf.end + 2 ^ 64 - buf.start) % 2 ^ 64

unfoldable pub ce_buf_content_size : CeBuf → ℕ
ce_buf_content_size buf = (buf.pos + 2 ^ 64 - buf.start) % 2 ^ 64

unfoldable pub ce_buf_content : CeBuf → ℕ
ce_buf_content buf = buf.start

unfoldable pub ce_reset_buf : CeBuf → CeBuf
ce_reset_buf buf = record buf { pos = buf.start; last = buf.start }

-- CE_INCR_BUF_POS
unfoldable pub ce_incr_buf_pos : CeBuf → ℕ → CeBuf
ce_incr_buf_pos buf kv_size = record buf { pos = ptr_add buf.pos kv_size }
