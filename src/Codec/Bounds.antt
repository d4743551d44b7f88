-- ===== src/Codec/Bounds.antt =====
-- How far the reader goes in a buffer that is too short.
use cloudeagle.Common.{
  ℕ, ◌+◌, ◌-◌, ◌^◌, ◌≤◌, ◌<◌, ◌≡◌, ◌∙◌, ◌⊎◌, inl, inr, arith, some, min, ltb, Bool-cases,
}
use cloudeagle.Common.Memory.{Holds}
use cloudeagle.Value.{value_append, value_get}
use cloudeagle.Value.RoundTrip.{value_get_int}
use cloudeagle.Codec.{WrapBuf}
use cloudeagle.Codec.Read.{reader_read_skip_bytes, reader_read_string}
use cloudeagle.Codec.RoundTrip.{read_value-lem, moved}

reader_read_skip_bytes-near :
    (len : ℕ) (r : WrapBuf)
    → r.pos ≤ r.end
    → r.end < 2 ^ 64
    → r.pos + len < 2 ^ 64
    → let (n, r') = reader_read_skip_bytes len r in
      (n ≡ min len (r.end - r.pos)) × (r'.pos ≡ r.pos + n) × (r'.pos ≤ r.end)
unfolding reader_read_skip_bytes
reader_read_skip_bytes-near len r inside wrap small = ground arith

reader_read_skip_bytes-far :
    (len : ℕ) (r : WrapBuf)
    → r.pos ≤ r.end
    → r.end < 2 ^ 64
    → len < 2 ^ 64
    → 2 ^ 64 ≤ r.pos + len
    → let (n, r') = reader_read_skip_bytes len r in (n ≡ len) × (r'.pos + 2 ^ 64 ≡ r.pos + len)
unfolding reader_read_skip_bytes
reader_read_skip_bytes-far len r inside wrap small over = ground arith

-- A step of a reader whose position is not behind its end, by any `size_t`. Where the position plus
-- the length stays below 2 ^ 64, it goes as far as was asked for or to the end, whichever is nearer,
-- and returns how far. Where that sum reaches 2 ^ 64, the step is not cut: it returns the length, and
-- the position wraps around to one in front of where it was.
pub reader_read_skip_bytes_bounds :
    (len : ℕ) (r : WrapBuf)
    → r.pos ≤ r.end
    → r.end < 2 ^ 64
    → len < 2 ^ 64
    → let (n, r') = reader_read_skip_bytes len r in
      ((r.pos + len < 2 ^ 64)
        × (n ≡ min len (r.end - r.pos))
        × (r'.pos ≡ r.pos + n)
        × (r'.pos ≤ r.end))
      ⊎ ((2 ^ 64 ≤ r.pos + len) × (n ≡ len) × (r'.pos + 2 ^ 64 ≡ r.pos + len))
reader_read_skip_bytes_bounds len r inside wrap small =
    elim (Bool-cases (ltb (r.pos + len) (2 ^ 64))) [
      | inl near ↦
          let lt : r.pos + len < 2 ^ 64 = ground arith in
          let (n, moves, stays) = reader_read_skip_bytes-near len r inside wrap lt in
          inl (lt, n, moves, stays)
      | inr far ↦
          let over : 2 ^ 64 ≤ r.pos + len = ground arith in
          let (all, back) = reader_read_skip_bytes-far len r inside wrap small over in
          inr (over, all, back)
    ]

-- A string's length is returned as it stands in the buffer, whether or not so many bytes follow; the
-- position stops at the end of the buffer.
pub reader_read_string_truncated :
    (wide_shl : ℕ → ℕ → ℕ) (n : ℕ) (r : WrapBuf)
    → n < 2 ^ 32
    → r.pos + 4 ≤ r.end
    → r.end + 2 ^ 33 ≤ 2 ^ 64
    → Holds r.mem r.pos (value_append 4 n)
    → (r' : WrapBuf) × (reader_read_string wide_shl r ≡ some ((r.pos + 4, n), r'))
      × (r'.pos ≡ min (r.pos + 4 + n) r.end)
unfolding reader_read_string
reader_read_string_truncated wide_shl n r small room wrap size =
    let len : value_get wide_shl 32 4 r.mem r.pos 0 ≡ n =
      value_get_int wide_shl r.mem r.pos n size ∙ omega arith in
    (
      (reader_read_skip_bytes n (moved r 4)).1,
      rw (read_value-lem wide_shl 32 4 r room (omega arith), reader_read_string) (rw len),
      omega (arith, reader_read_skip_bytes-near n (moved r 4) room (omega arith) (omega arith)),
    )
