-- ===== src/Codec/RoundTrip.antt =====
-- Reading gives back what was written.
use native.Mathlib.Nat.{add-zero, add_assoc}
use cloudeagle.Common.{
  ◌==◌, ℕ, ◌+◌, ◌-◌, ◌%◌, ◌^◌, ◌≤◌, ◌<◌, ◌≡◌, refl, ◌∙◌, ap, arith, some, List, [], ◌∷◌, ◌++◌, map,
  length, length-append, false, ◌⊎◌, All, ltb,
}
use cloudeagle.Common.Memory.{Memory, Holds, Holds-split, load, load-Holds, strlen-Holds, ptr_add}
use cloudeagle.Value.{value_append, value_get}
use cloudeagle.Value.Bytes.{length-value_append}
use cloudeagle.Value.Float.{float2_raw_int_bits-lt}
use cloudeagle.Value.RoundTrip.{value_get_bool, value_get_byte, value_get_short, value_get_int}
use cloudeagle.Codec.{WrapBuf, Call, ◌>>=◌, is_full}
use cloudeagle.Codec.Dispatch.{
  ce_read, ce_read_boolean, ce_read_short, ce_read_int, ce_read_long, ce_read_ushort, ce_read_uint,
  ce_read_ulong, ce_read_float, ce_read_double, ce_read_int8, ce_read_int16, ce_read_int32,
  ce_read_int64, ce_read_uint8, ce_read_uint16, ce_read_uint32, ce_read_uint64, ce_read_string,
  ce_read_chars,
}
use cloudeagle.Codec.Write.{ce_writer_encoding}
use cloudeagle.Codec.Read.{
  reader_read_skip_bytes, reader_read_chars, read_value, reader_read, reader_read_boolean,
  reader_read_short, reader_read_int, reader_read_long, reader_read_ushort, reader_read_uint,
  reader_read_ulong, reader_read_float, reader_read_double, reader_read_int8, reader_read_int16,
  reader_read_int32, reader_read_int64, reader_read_uint8, reader_read_uint16, reader_read_uint32,
  reader_read_uint64, reader_read_string, ce_reader_encoding,
}
use cloudeagle.Codec.Items.{
  Kind, byte, boolean, short, int, long, ushort, uint, ulong, float, double, int8, int16, int32,
  int64, uint8, uint16, uint32, uint64, Item, Reading, number, text, write_items, read_value_of,
  read_text, read_item, read_items, size_of, read_bits, raw_bits, encode_item, encode, shape_of,
  IsReadable, read_back,
}
use cloudeagle.Codec.Writing.{write_items-Writes, advanced}

read_value_of_lem :
    (wide_shl : ℕ → ℕ → ℕ) (k : Kind)
    → read_value_of (ce_reader_encoding wide_shl) k ≡ read_value wide_shl (read_bits k) (size_of k)
unfolding read_value_of ce_read ce_read_boolean ce_read_short ce_read_int ce_read_long
    ce_read_ushort ce_read_uint ce_read_ulong ce_read_float ce_read_double ce_read_int8
    ce_read_int16 ce_read_int32 ce_read_int64 ce_read_uint8 ce_read_uint16 ce_read_uint32
    ce_read_uint64 reader_read reader_read_boolean reader_read_short reader_read_int
    reader_read_long reader_read_ushort reader_read_uint reader_read_ulong reader_read_float
    reader_read_double reader_read_int8 reader_read_int16 reader_read_int32 reader_read_int64
    reader_read_uint8 reader_read_uint16 reader_read_uint32 reader_read_uint64
read_value_of_lem wide_shl byte = refl
read_value_of_lem wide_shl _ = refl

abbrev pub moved : WrapBuf → ℕ → WrapBuf
moved r n = record r { pos = r.pos + n }

-- Inside the buffer a step is as long as was asked for.
reader_read_skip_bytes-room :
    (len : ℕ) (r : WrapBuf)
    → r.pos + len ≤ r.end
    → r.end < 2 ^ 64
    → reader_read_skip_bytes len r ≡ (len, moved r len)
unfolding reader_read_skip_bytes
reader_read_skip_bytes-room len r room wrap =
    let at : ptr_add r.pos len ≡ r.pos + len = omega arith in
    let inside : is_full r len ≡ false = ground arith in rw (inside, at)

abbrev read_number : Kind → ℕ → Reading
read_number k v = read_back (Item.value k v)

-- The bytes of a number are read as what it comes back as.
read_number_lem :
    (w : ℕ → ℕ → ℕ) (k : Kind) (v : ℕ) (m : Memory) (p : ℕ)
    → IsReadable (Item.value k v)
    → Holds m p (value_append (size_of k) (raw_bits k v))
    → number (value_get w (read_bits k) (size_of k) m p 0) ≡ read_number k v
read_number_lem w byte v m p n h = ap number (value_get_bool w m p v h)
read_number_lem w boolean v m p n h = ap number (value_get_bool w m p _ h ∙ ground arith)
read_number_lem w short v m p n h = ap number (value_get_short w m p _ h ∙ ground arith)
read_number_lem w int v m p n h = ap number (value_get_int w m p v h ∙ omega arith)
read_number_lem w ushort v m p n h = ap number (value_get_short w m p v h ∙ omega arith)
read_number_lem w uint v m p n h = ap number (value_get_int w m p v h ∙ omega arith)
read_number_lem w float v m p n h =
    ap number (value_get_int w m p _ h ∙ omega (arith, float2_raw_int_bits-lt v n.1))
read_number_lem w int8 v m p n h = ap number (value_get_byte w m p v h ∙ omega arith)
read_number_lem w int16 v m p n h = ap number (value_get_short w m p v h ∙ omega arith)
read_number_lem w int32 v m p n h = ap number (value_get_int w m p v h ∙ omega arith)
read_number_lem w uint8 v m p n h = ap number (value_get_byte w m p v h ∙ omega arith)
read_number_lem w uint16 v m p n h = ap number (value_get_short w m p v h ∙ omega arith)
read_number_lem w uint32 v m p n h = ap number (value_get_int w m p v h ∙ omega arith)
read_number_lem w long v m p n h = absurd (omega arith)
read_number_lem w ulong v m p n h = absurd (omega arith)
read_number_lem w double v m p n h = absurd (omega arith)
read_number_lem w int64 v m p n h = absurd (omega arith)
read_number_lem w uint64 v m p n h = absurd (omega arith)

abbrev Reads : Call Reading → Item → WrapBuf → Type 0
Reads call x r = call r ≡ some (read_back x, moved r (length (encode_item x)))

pub read_value-lem :
    (wide_shl : ℕ → ℕ → ℕ) (w n : ℕ) (r : WrapBuf)
    → r.pos + n ≤ r.end
    → r.end < 2 ^ 64
    → read_value wide_shl w n r ≡ some (value_get wide_shl w n r.mem r.pos 0, moved r n)
unfolding read_value
read_value-lem wide_shl w n r room wrap = rw (reader_read_skip_bytes-room n r room wrap)

reader_read_string-lem :
    (wide_shl : ℕ → ℕ → ℕ) (n : ℕ) (r : WrapBuf)
    → n < 2 ^ 32
    → r.pos + (4 + n) ≤ r.end
    → r.end < 2 ^ 64
    → Holds r.mem r.pos (value_append 4 (n % 2 ^ 32))
    → reader_read_string wide_shl r ≡ some ((r.pos + 4, n), moved r (4 + n))
unfolding reader_read_string
reader_read_string-lem wide_shl n r small room wrap size =
    let len : value_get wide_shl 32 4 r.mem r.pos 0 ≡ n =
      value_get_int wide_shl r.mem r.pos _ size ∙ omega arith in
    rw (read_value-lem wide_shl 32 4 r (omega arith) wrap, reader_read_string)
      (rw (len, reader_read_skip_bytes-room n (moved r 4) (omega arith) wrap, add_assoc))

read_text-Reads :
    (wide_shl : ℕ → ℕ → ℕ) (v : List ℕ) (r : WrapBuf)
    → length v < 2 ^ 32
    → r.pos + (4 + length v) ≤ r.end
    → r.end < 2 ^ 64
    → Holds r.mem r.pos (value_append 4 (length v % 2 ^ 32) ++ v)
    → read_text (ce_reader_encoding wide_shl) r ≡ some (text v, moved r (4 + length v))
unfolding read_text ce_read_string
read_text-Reads wide_shl v r small room wrap h =
    let (size, content) =
      Holds-split r.mem r.pos (r.pos + 4) (value_append 4 (length v % 2 ^ 32)) v
        (omega (arith, length-value_append 4 (length v % 2 ^ 32))) h in
    rw (reader_read_string-lem wide_shl (length v) r small room wrap size, ◌>>=◌)
      (rw (load-Holds r.mem (r.pos + 4) v content))

read_chars-Reads :
    (wide_shl : ℕ → ℕ → ℕ) (buf_size : ℕ) (v : List ℕ) (r : WrapBuf)
    → length v < buf_size
    → All (λ b. 0 < b) v
    → r.pos + (length v + 1) ≤ r.end
    → r.end < 2 ^ 64
    → r.end ≤ r.mapped
    → Holds r.mem r.pos (v ++ (0 ∷ []))
    → reader_read_chars buf_size r ≡ some (v ++ (0 ∷ []), moved r (length v + 1))
unfolding reader_read_chars
read_chars-Reads wide_shl buf_size v r fits nonzero room wrap reach h =
    let n : length (v ++ (0 ∷ [])) ≡ length v + 1 = omega (arith, length-append v (0 ∷ [])) in
    let whole : ltb buf_size (length v + 1) ≡ false = ground arith in
    let some_room : (buf_size == 0) ≡ false = ground arith in
    let copied : load r.mem r.pos (length v + 1) ≡ v ++ (0 ∷ []) =
      rw n at (load-Holds r.mem r.pos (v ++ (0 ∷ [])) h) in
    rw (strlen-Holds (r.mapped - r.pos) r.mem r.pos v (omega arith) nonzero h, reader_read_chars)
      (rw (some_room, whole, copied, reader_read_skip_bytes-room (length v + 1) r room wrap))

read_item-Reads :
    (wide_shl : ℕ → ℕ → ℕ) (x : Item) (r : WrapBuf)
    → IsReadable x
    → r.pos + length (encode_item x) ≤ r.end
    → r.end < 2 ^ 64
    → r.end ≤ r.mapped
    → Holds r.mem r.pos (encode_item x)
    → Reads (read_item (ce_reader_encoding wide_shl) (shape_of x)) x r
unfolding read_item ce_read_chars
read_item-Reads wide_shl (Item.value k v) r ok room wrap reach h =
    let n : length (encode_item (Item.value k v)) ≡ size_of k = length-value_append _ _ in
    rw (read_value_of_lem, ◌>>=◌)
      (rw (read_value-lem wide_shl (read_bits k) (size_of k) r (omega (arith, n)) wrap, ◌>>=◌)
        (rw (read_number_lem wide_shl k v r.mem r.pos ok h, n)))
read_item-Reads wide_shl (Item.string v) r ok room wrap reach h =
    let n : length (encode_item (Item.string v)) ≡ 4 + length v = omega (
      arith,
      length-append (value_append 4 (length v % 2 ^ 32)) v,
      length-value_append 4 (length v % 2 ^ 32),
    ) in
    rw n (read_text-Reads wide_shl v r ok (omega (arith, n)) wrap h)
read_item-Reads wide_shl (Item.chars buf_size v) r (fits, nonzero) room wrap reach h =
    let n : length (v ++ (0 ∷ [])) ≡ length v + 1 = omega (arith, length-append v (0 ∷ [])) in
    rw (read_chars-Reads wide_shl buf_size v r fits nonzero (omega (arith, n)) wrap reach h, ◌>>=◌)
      (rw n)

pub read_items-Reads :
    (wide_shl : ℕ → ℕ → ℕ) (xs : List Item) (r : WrapBuf)
    → All IsReadable xs
    → r.pos + length (encode xs) ≤ r.end
    → r.end < 2 ^ 64
    → r.end ≤ r.mapped
    → Holds r.mem r.pos (encode xs)
    → read_items (ce_reader_encoding wide_shl) (map shape_of xs) r
      ≡ some (map read_back xs, moved r (length (encode xs)))
unfolding read_items
read_items-Reads wide_shl [] r ok room wrap reach h = simp add-zero
read_items-Reads wide_shl (x ∷ xs) r (one, ok) room wrap reach h =
    let bytes : List ℕ = encode_item x in
    let all : length (bytes ++ encode xs) ≡ length bytes + length (encode xs) =
      length-append bytes (encode xs) in
    let (here, there) = Holds-split r.mem r.pos (r.pos + length bytes) bytes (encode xs) refl h in
    rw (read_item-Reads wide_shl x r one (omega (arith, all)) wrap reach here, ◌>>=◌)
      (rw
        (
          read_items-Reads wide_shl xs (moved r (length bytes)) ok (omega (arith, all)) wrap reach
              there,
          ◌>>=◌,
        )
        (simp (all, add_assoc)))

-- Any sequence of numbers of at most four bytes, strings and C strings, written through the encoding
-- table: the calls return the number of bytes that the position moved by, no byte outside of these
-- changes, and a reader over them gets every value back in order and ends where the writer ended.
pub read_items-write_items :
    (wide_shl : ℕ → ℕ → ℕ) (xs : List Item) (w : WrapBuf)
    → All IsReadable xs
    → 0 < w.pos
    → w.pos + length (encode xs) ≤ w.end
    → w.end < 2 ^ 64
    → w.end ≤ w.mapped
    → (n : ℕ) × (w' : WrapBuf) × (write_items ce_writer_encoding xs w ≡ some (n, w'))
      × (w'.pos ≡ w.pos + n)
      × ((a : ℕ) → (a < w.pos) ⊎ (w'.pos ≤ a) → w'.mem a ≡ w.mem a)
      × (read_items (ce_reader_encoding wide_shl) (map shape_of xs) (record w' { pos = w.pos })
          ≡ some (map read_back xs, w'))
read_items-write_items wide_shl xs w ok nonnull room wrap reach =
    let n = length (encode xs) in
    let (m, wrote, facts) = write_items-Writes xs w nonnull (omega arith) in
    (
      n,
      advanced w m n,
      wrote,
      refl,
      facts.elsewhere,
      read_items-Reads wide_shl xs (record w { mem = m }) ok room wrap reach facts.there,
    )
