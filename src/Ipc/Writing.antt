-- ===== src/Ipc/Writing.antt =====
-- ipc_shm_record_write of ce_util/ce_ipc_shm.c, whole: the bytes that it writes, and the queue.
use cloudeagle.Common.{
  ℕ, ◌+◌, ◌^◌, ◌≤◌, ◌<◌, ◌≡◌, refl, ◌⊎◌, arith, some, List, [], ◌∷◌, ◌++◌, true, ◌==◌, length,
  length-append,
}
use cloudeagle.Common.Memory.{Memory, Holds}
use cloudeagle.Value.{value_append}
use cloudeagle.Value.Bytes.{length-value_append}
use cloudeagle.Codec.{WrapBuf}
use cloudeagle.Codec.Items.{Item, int8, uint32, encode}
use cloudeagle.Codec.Writing.{advanced, Wrote, Writes, Wrote-append, write_items-Writes}
use cloudeagle.Ipc.{Shared, ◌>>=◌, block_header_size}
use cloudeagle.Ipc.Write.{DataRecord, write_record}
use cloudeagle.Ipc.Collect.{has}

-- RCD_START_MARK and the size, in front of each record.
abbrev pub mark_items : ℕ → List Item
mark_items n = Item.value int8 0xfd ∷ Item.value uint32 n ∷ []

abbrev pub framed : List ℕ → List ℕ
framed content = encode (mark_items (length content)) ++ content

pub length-framed : (content : List ℕ) → length (framed content) ≡ 5 + length content
length-framed content = omega (
  arith,
  length-append (encode (mark_items (length content))) content,
  length-append (value_append 1 0xfd) (value_append 4 (length content) ++ []),
  length-append (value_append 4 (length content)) [],
  length-value_append 1 0xfd,
  length-value_append 4 (length content),
)

-- The record's function writes `content`, wherever the writer stands, and says so.
pub record IsRecord (r : DataRecord) (content : List ℕ) : Type 0 where
  pub size : r.rcd_size ≡ length content
  pub writes :
      (w : WrapBuf)
      → 0 < w.pos
      → w.pos + length content < 2 ^ 64
      → Writes r.ipc_record_write_fn content w

pub write_record-lem :
    (r : DataRecord) (content : List ℕ) (w : WrapBuf)
    → IsRecord r content
    → 0 < w.pos
    → w.pos + length (framed content) < 2 ^ 64
    → (w' : WrapBuf) × (write_record r w ≡ some w') × Wrote (framed content) w w'.mem
unfolding write_record
write_record-lem r content w is pos wrap =
    let items = mark_items (length content) in
    let front = encode items in
    let all : length (front ++ content) ≡ length front + length content =
      length-append front content in
    let (m1, e1, wrote1) = write_items-Writes items w pos (omega (arith, all)) in
    let w1 : WrapBuf = advanced w m1 (length front) in
    let (m2, e2, wrote2) = is.writes w1 (omega arith) (omega (arith, all)) in
    let said : (length content == length content) ≡ true = ground arith in
    (
      advanced w1 m2 (length content),
      rw is.size (rw (e1, ◌>>=◌) (rw (e2, ◌>>=◌) (rw said refl))),
      Wrote-append front content w m1 m2 wrote1 wrote2,
    )

-- What becomes of a queue and its memory when a record is written.
pub record Written (s' : Shared) (mem mem' : Memory) (base : ℕ) (content : List ℕ) (used : List ℕ)
    (m p : ℕ) : Type 0 where
  pub used_block : has m used ≡ true
  pub behind_header : block_header_size ≤ p
  pub end : (s'.block m).dbk_pos ≡ p + length (framed content)
  pub inside : p + length (framed content) ≤ (s'.block m).dbk_size
  pub there : Holds mem' (base + m + p) (framed content)
  pub elsewhere :
      (a : ℕ) → (a < base + m + p) ⊎ (base + m + p + length (framed content) ≤ a) → mem' a ≡ mem a
