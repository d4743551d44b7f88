-- ===== src/Codec/Tests.antt =====
-- Runs of the codec, and the theorems at concrete inputs.
use cloudeagle.Common.{
  ℕ, ◌+◌, ◌-◌, ◌*◌, ◌%◌, ◌^◌, ◌≤◌, ◌<◌, ◌≡◌, refl, ◌⊎◌, arith, some, List, [], ◌∷◌, map, min,
}
use cloudeagle.Common.Memory.{store, Holds-store}
use cloudeagle.Value.{value_append}
use cloudeagle.Codec.{WrapBuf}
use cloudeagle.Codec.Write.{ce_writer_encoding, write_bytes2_buf}
use cloudeagle.Codec.Read.{ce_reader_encoding, reader_read_skip_bytes, reader_read_string}
use cloudeagle.Codec.Items.{
  Item, float, boolean, short, write_items, read_items, shape_of, read_back,
}
use cloudeagle.Codec.RoundTrip.{read_items-write_items}
use cloudeagle.Codec.Bounds.{reader_read_skip_bytes_bounds, reader_read_string_truncated}

abbrev masked : ℕ → ℕ → ℕ
masked b s = b * 2 ^ (s % 32) % 2 ^ 32

abbrev empty : WrapBuf
empty = record { mem = λ a. 0; mapped = 500; start = 100; pos = 100; end = 200 }

-- The writer does not stop at the end of its buffer.
write_past_end :
    write_bytes2_buf (7 ∷ []) (record empty { pos = 200 })
    ≡ some (1, record empty { mem = store (λ a. 0) 200 (7 ∷ []); pos = 201 })
unfolding write_bytes2_buf
write_past_end = refl

abbrev items : List Item
items =
    Item.value short 65535
    ∷ Item.string (b'a' ∷ 0 ∷ b'b' ∷ [])
    ∷ Item.value boolean 7
    ∷ Item.chars 64 (b'c' ∷ b'e' ∷ [])
    ∷ Item.value float 0x3f800000
    ∷ []

read_items-write_items_example :
    (n : ℕ) × (w' : WrapBuf) × (write_items ce_writer_encoding items empty ≡ some (n, w'))
    × (w'.pos ≡ 100 + n)
    × ((a : ℕ) → (a < 100) ⊎ (w'.pos ≤ a) → w'.mem a ≡ 0)
    × (read_items (ce_reader_encoding masked) (map shape_of items) (record w' { pos = 100 })
        ≡ some (map read_back items, w'))
unfolding value_append
read_items-write_items_example =
    read_items-write_items masked items empty (omega arith) (omega arith) (omega arith)
      (omega arith) (omega arith)

reader_read_skip_bytes_bounds_example :
    let (n, r') = reader_read_skip_bytes 150 empty in
    ((100 + 150 < 2 ^ 64) × (n ≡ min 150 (200 - 100)) × (r'.pos ≡ 100 + n) × (r'.pos ≤ 200))
    ⊎ ((2 ^ 64 ≤ 100 + 150) × (n ≡ 150) × (r'.pos + 2 ^ 64 ≡ 100 + 150))
reader_read_skip_bytes_bounds_example =
    reader_read_skip_bytes_bounds 150 empty (omega arith) (omega arith) (omega arith)

-- A step by the largest `size_t` goes one byte back.
step_back : (reader_read_skip_bytes 0xffffffffffffffff empty).1.pos ≡ 99
unfolding reader_read_skip_bytes
step_back = refl

abbrev long_text : WrapBuf
long_text = record empty { mem = store (λ a. 0) 100 (value_append 4 4000000000) }

reader_read_string_truncated_example :
    (r' : WrapBuf) × (reader_read_string masked long_text ≡ some ((100 + 4, 4000000000), r'))
    × (r'.pos ≡ min (100 + 4 + 4000000000) 200)
reader_read_string_truncated_example =
    reader_read_string_truncated masked 4000000000 long_text (omega arith) (omega arith)
      (omega arith) (Holds-store (λ a. 0) 100 (value_append 4 4000000000))
