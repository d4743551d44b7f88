-- ===== src/Buf/Tests.antt =====
-- A buffer of ce_util/ce_buf.c in 64 bytes of memory.
use cloudeagle.Common.{ℕ, ◌+◌, ◌≡◌, refl, arith, some, List, [], ◌∷◌}
use cloudeagle.Common.Memory.{Memory}
use cloudeagle.Buf.{
  CeBuf, buf_header_size, ce_init_buf, ce_create_buf, ce_push_buf, ce_buf_size, ce_buf_content_size,
  ce_reset_buf, ce_incr_buf_pos,
}
use cloudeagle.Buf.Pushes.{push_all, Pushed, push_all-ce_init_buf}

abbrev ones : Memory
ones a = 1

abbrev test_sizes : List ℕ
test_sizes = 10 ∷ 0 ∷ 30 ∷ 22 ∷ []

push_all-ce_init_buf_example :
    (buf : CeBuf) × (ce_init_buf 4096 64 ≡ some buf)
    × (buf.pos ≡ 4096 + buf_header_size)
    × (buf.end ≡ 4096 + 64)
    × Pushed test_sizes buf ones (push_all test_sizes buf ones)
    × (4096 + buf_header_size + ce_buf_content_size (push_all test_sizes buf ones).0
        ≡ (push_all test_sizes buf ones).0.pos)
push_all-ce_init_buf_example =
    push_all-ce_init_buf 4096 64 test_sizes ones (omega arith) (omega arith) (omega arith)
      (omega arith, (omega arith, (omega arith, (omega arith, tt))))

abbrev test_buf : CeBuf
test_buf = record { start = 4128; pos = 4128; last = 4128; end = 4160 }

created : ce_create_buf (λ n. 4096) 64 ≡ some test_buf
unfolding ce_create_buf
created = refl

pushed : (push_all test_sizes test_buf ones).2 ≡ 4128 ∷ 0 ∷ 0 ∷ 4138 ∷ []
unfolding push_all
pushed = refl

-- The whole size, and an empty buffer after a reset.
sizes : ce_buf_size test_buf ≡ 32
unfolding ce_buf_size
sizes = refl

reset : ce_buf_content_size (ce_reset_buf (push_all test_sizes test_buf ones).0) ≡ 0
unfolding push_all ce_reset_buf ce_buf_content_size
reset = refl

-- A size that takes the end around the address space is not refused, and the block runs over the end.
overrun : (ce_push_buf test_buf ones 0xffffffffffffff00).2 ≡ 4128
unfolding ce_push_buf
overrun = refl

moved : ce_buf_content_size (ce_incr_buf_pos test_buf 5) ≡ 5
unfolding ce_incr_buf_pos ce_buf_content_size
moved = refl
