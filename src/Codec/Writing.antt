-- ===== src/Codec/Writing.antt =====
-- What a sequence of writes leaves in the buffer.
use native.Mathlib.Nat.{add-zero, add_assoc}
use cloudeagle.Common.{
  ℕ, ◌+◌, ◌%◌, ◌^◌, ◌≤◌, ◌<◌, ◌≡◌, refl, ◌∙◌, arith, inl, ◌⊎◌, some, List, [], ◌∷◌, ◌++◌, length,
  length-append, ◌==◌, false,
}
use cloudeagle.Common.Memory.{
  Memory, Holds, Holds-frame, Holds-store, Holds-append, store, store_outside, ptr_add,
}
use cloudeagle.Value.{value_append}
use cloudeagle.Value.Bytes.{length-value_append}
use cloudeagle.Codec.{WrapBuf, Call, ◌>>=◌}
use cloudeagle.Codec.Dispatch.{
  ce_write, ce_write_boolean, ce_write_short, ce_write_int, ce_write_long, ce_write_ushort,
  ce_write_uint, ce_write_ulong, ce_write_float, ce_write_double, ce_write_int8, ce_write_int16,
  ce_write_int32, ce_write_int64, ce_write_uint8, ce_write_uint16, ce_write_uint32, ce_write_uint64,
  ce_write_string, ce_write_chars,
}
use cloudeagle.Codec.Write.{
  write_bytes2_buf, writer_write, writer_write_boolean, writer_write_short, writer_write_int,
  writer_write_long, writer_write_ushort, writer_write_uint, writer_write_ulong, writer_write_float,
  writer_write_double, writer_write_int8, writer_write_int16, writer_write_int32,
  writer_write_int64, writer_write_uint8, writer_write_uint16, writer_write_uint32,
  writer_write_uint64, writer_write_chars, writer_write_string, ce_writer_encoding,
}
use cloudeagle.Codec.Items.{
  Kind, float, Item, value, string, chars, write_value, write_item, write_items, size_of, raw_bits,
  encode_item, encode,
}

write_value_lem :
    (k : Kind) (v : ℕ)
    → write_value ce_writer_encoding k v
      ≡ write_bytes2_buf (value_append (size_of k) (raw_bits k v))
unfolding write_value ce_write ce_write_boolean ce_write_short ce_write_int ce_write_long
    ce_write_ushort ce_write_uint ce_write_ulong ce_write_float ce_write_double ce_write_int8
    ce_write_int16 ce_write_int32 ce_write_int64 ce_write_uint8 ce_write_uint16 ce_write_uint32
    ce_write_uint64 writer_write writer_write_boolean writer_write_short writer_write_int
    writer_write_long writer_write_ushort writer_write_uint writer_write_ulong writer_write_float
    writer_write_double writer_write_int8 writer_write_int16 writer_write_int32 writer_write_int64
    writer_write_uint8 writer_write_uint16 writer_write_uint32 writer_write_uint64
write_value_lem float v = refl
write_value_lem _ v = refl

abbrev pub advanced : WrapBuf → Memory → ℕ → WrapBuf
advanced w m n = record w { mem = m; pos = w.pos + n }

write_bytes2_buf-lem :
    (bytes : List ℕ) (w : WrapBuf)
    → 0 < w.pos
    → w.pos + length bytes < 2 ^ 64
    → write_bytes2_buf bytes w
      ≡ some (length bytes, advanced w (store w.mem w.pos bytes) (length bytes))
unfolding write_bytes2_buf
write_bytes2_buf-lem bytes w nonnull wrap =
    let at : ptr_add w.pos (length bytes) ≡ w.pos + length bytes = omega arith in
    let here : (w.pos == 0) ≡ false = ground arith in rw (here, at)

-- `bytes` stand at the position, and nothing else has changed.
pub record Wrote (bytes : List ℕ) (w : WrapBuf) (m : Memory) : Type 0 where
  pub there : Holds m w.pos bytes
  pub elsewhere : (a : ℕ) → (a < w.pos) ⊎ (w.pos + length bytes ≤ a) → m a ≡ w.mem a

-- Two writes, one behind the other.
pub Wrote-append :
    (bs cs : List ℕ) (w : WrapBuf) (m1 m2 : Memory)
    → Wrote bs w m1
    → Wrote cs (advanced w m1 (length bs)) m2
    → Wrote (bs ++ cs) w m2
Wrote-append bs cs w m1 m2 a b =
    let all : length (bs ++ cs) ≡ length bs + length cs = length-append bs cs in
    record {
      there =
          Holds-append m2 w.pos (w.pos + length bs) bs cs refl
            (Holds-frame m1 m2 w.pos bs (λ x lo hi. b.elsewhere x (inl hi)) a.there) b.there;
      elsewhere = λ x far. b.elsewhere x (omega (arith, all)) ∙ a.elsewhere x (omega (arith, all));
    }

abbrev pub Writes : Call ℕ → List ℕ → WrapBuf → Type 0
Writes call bytes w =
    (m : Memory) × (call w ≡ some (length bytes, advanced w m (length bytes))) × Wrote bytes w m

pub write_bytes2_buf-Writes :
    (bytes : List ℕ) (w : WrapBuf)
    → 0 < w.pos
    → w.pos + length bytes < 2 ^ 64
    → Writes (write_bytes2_buf bytes) bytes w
write_bytes2_buf-Writes bytes w nonnull wrap = (
  store w.mem w.pos bytes,
  write_bytes2_buf-lem bytes w nonnull wrap,
  record {
    there = Holds-store w.mem w.pos bytes;
    elsewhere = λ a far. store_outside w.mem w.pos bytes a far;
  },
)

writer_write_string-Writes :
    (v : List ℕ) (w : WrapBuf)
    → 0 < w.pos
    → w.pos + (4 + length v) < 2 ^ 64
    → Writes (writer_write_string v) (encode_item (string v)) w
unfolding writer_write_string writer_write_uint32
writer_write_string-Writes v w nonnull wrap =
    let prefix : List ℕ = value_append 4 (length v % 2 ^ 32) in
    let n4 : length prefix ≡ 4 = length-value_append 4 _ in
    let all : length (prefix ++ v) ≡ length prefix + length v = length-append prefix v in
    let (m1, first, wrote1) = write_bytes2_buf-Writes prefix w nonnull (omega (arith, n4)) in
    let w' : WrapBuf = advanced w m1 (length prefix) in
    let (m2, second, wrote2) = write_bytes2_buf-Writes v w' (omega arith) (omega (arith, n4)) in
    (
      m2,
      rw (first, writer_write_string)
          (rw (second, writer_write_string) (simp (all, n4, add_assoc))),
      Wrote-append prefix v w m1 m2 wrote1 wrote2,
    )

write_item-Writes :
    (x : Item) (w : WrapBuf)
    → 0 < w.pos
    → w.pos + length (encode_item x) < 2 ^ 64
    → Writes (write_item ce_writer_encoding x) (encode_item x) w
unfolding write_item ce_write_string ce_write_chars writer_write_chars
write_item-Writes (value k v) w nonnull wrap =
    rw write_value_lem (write_bytes2_buf-Writes _ w nonnull wrap)
write_item-Writes (string v) w nonnull wrap =
    let prefix : List ℕ = value_append 4 (length v % 2 ^ 32) in
    writer_write_string-Writes v w nonnull
      (omega (arith, length-append prefix v, length-value_append 4 (length v % 2 ^ 32)))
write_item-Writes (chars buf_size v) w nonnull wrap =
    write_bytes2_buf-Writes (v ++ (0 ∷ [])) w nonnull wrap

pub write_items-Writes :
    (xs : List Item) (w : WrapBuf)
    → 0 < w.pos
    → w.pos + length (encode xs) < 2 ^ 64
    → Writes (write_items ce_writer_encoding xs) (encode xs) w
unfolding write_items
write_items-Writes [] w nonnull wrap =
    (w.mem, simp add-zero, record { there = tt; elsewhere = λ a far. refl })
write_items-Writes (x ∷ xs) w nonnull wrap =
    let bytes : List ℕ = encode_item x in
    let all : length (bytes ++ encode xs) ≡ length bytes + length (encode xs) =
      length-append bytes (encode xs) in
    let (m1, first, wrote1) = write_item-Writes x w nonnull (omega (arith, all)) in
    let w' : WrapBuf = advanced w m1 (length bytes) in
    let (m2, second, wrote2) = write_items-Writes xs w' (omega arith) (omega (arith, all)) in
    (
      m2,
      rw (first, ◌>>=◌) (rw (second, ◌>>=◌) (simp (all, add_assoc))),
      Wrote-append bytes (encode xs) w m1 m2 wrote1 wrote2,
    )
