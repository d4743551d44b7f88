-- ===== src/Ipc/Unwritten.antt =====
-- Reading a block of ce_util/ce_ipc_shm.c whose header counts a record that is not written.
use cloudeagle.Common.{
  ℕ, zero, suc, ◌+◌, ◌-◌, ◌%◌, ◌^◌, ◌≤◌, ◌<◌, ◌≡◌, ◌≢◌, refl, arith, none, List, [], ◌∷◌, ◌++◌,
  false, ◌==◌, leb, length, length-append, All,
}
use cloudeagle.Common.Memory.{Memory, Holds, Holds-append, Holds-split, ptr_add}
use cloudeagle.Value.{value_append}
use cloudeagle.Value.Bytes.{length-value_append}
use cloudeagle.Codec.Items.{Item, int8, uint32, encode}
use cloudeagle.Codec.RoundTrip.{read_items-Reads}
use cloudeagle.Ipc.{◌>>=◌, block_header_size}
use cloudeagle.Ipc.Read.{window, read_mark, ipc_dbk_iter_init, dbk_next, read_from, read_records}
use cloudeagle.Ipc.Writing.{framed, length-framed}
use cloudeagle.Ipc.Reading.{stream, Small, read_mark-lem, record_there, at_record, dbk_next-more}

-- Five bytes where a mark and a size are expected.
abbrev pub front : ℕ → ℕ → List ℕ
front mark n = encode (Item.value int8 mark ∷ Item.value uint32 n ∷ [])

length-front : (mark n : ℕ) → length (front mark n) ≡ 5
length-front mark n = omega (
  arith,
  length-append (value_append 1 mark) (value_append 4 n ++ []),
  length-append (value_append 4 n) [],
  length-value_append 1 mark,
  length-value_append 4 n,
)

module _ (wide_shl : ℕ → ℕ → ℕ) (mem : Memory) (mapped mark n : ℕ) (wrong : mark ≢ 0xfd)
    (byte : mark < 2 ^ 8) (word : n < 2 ^ 32) where
  read_mark-front :
      (addr : ℕ)
      → addr + 5 < 2 ^ 64
      → addr + 5 ≤ mapped
      → Holds mem addr (front mark n)
      → read_mark wide_shl mem mapped addr ≡ none
  unfolding read_mark
  read_mark-front addr wrap reach h =
      let five = length-front mark n in
      let end : ptr_add addr 5 ≡ addr + 5 = omega arith in
      let other : (mark == 0xfd) ≡ false = ground arith in
      rw
        (
          read_items-Reads wide_shl (Item.value int8 mark ∷ Item.value uint32 n ∷ [])
              (window mem mapped addr 5) ((omega arith, omega arith), ((omega arith, word), tt))
              (omega (arith, five, end)) (omega (arith, end)) (omega (arith, end)) h,
          ◌>>=◌,
        )
        (rw other refl)

  dbk_next-front :
      (addr : ℕ) (c : List ℕ) (k rcd_num : ℕ)
      → k + 1 < rcd_num
      → rcd_num < 2 ^ 63
      → addr + 5 + length c + 5 < 2 ^ 64
      → addr + 5 + length c + 5 ≤ mapped
      → Holds mem (addr + 5 + length c) (front mark n)
      → dbk_next wide_shl mem mapped rcd_num (at_record wide_shl mem mapped addr c k) ≡ none
  unfolding dbk_next
  dbk_next-front addr c k rcd_num more few wrap reach h =
      let on : leb ((rcd_num + 2 ^ 64 - 1) % 2 ^ 64) k ≡ false = ground arith in
      let at : ptr_add addr (5 + length c) ≡ addr + 5 + length c = omega arith in
      rw (on, at) (rw (read_mark-front (addr + 5 + length c) wrap reach h, ◌>>=◌) refl)

  read_from-front :
      (fuel rcd_num addr : ℕ) (c : List ℕ) (cs : List (List ℕ)) (k : ℕ)
      → rcd_num ≡ k + suc (suc (length cs))
      → rcd_num < 2 ^ 63
      → All Small cs
      → 0 < addr
      → addr + length (stream (c ∷ cs)) + 5 < 2 ^ 64
      → addr + length (stream (c ∷ cs)) + 5 ≤ mapped
      → Holds mem addr (stream (c ∷ cs) ++ front mark n)
      → read_from wide_shl mem mapped fuel rcd_num (at_record wide_shl mem mapped addr c k) ≡ none
  unfolding read_from
  read_from-front zero rcd_num addr c cs k e few small pos wrap reach h = refl
  read_from-front (suc fuel) rcd_num addr c [] k e few small pos wrap reach h =
      let here : (addr == 0) ≡ false = ground arith in
      let all : length (stream (c ∷ [])) ≡ 5 + length c =
        omega (arith, length-append (framed c) [], length-framed c) in
      let (written, behind) =
        Holds-split mem addr (addr + 5 + length c) (stream (c ∷ [])) (front mark n)
          (omega (arith, all)) h in
      rw here (
        rw
          (
            dbk_next-front addr c k rcd_num (omega arith) few (omega (arith, all))
                (omega (arith, all)) behind,
            ◌>>=◌,
          )
          refl)
  read_from-front (suc fuel) rcd_num addr c (d ∷ cs) k e few (sd, small) pos wrap reach h =
      let here : (addr == 0) ≡ false = ground arith in
      let all : length (stream (c ∷ d ∷ cs)) ≡ 5 + length c + length (stream (d ∷ cs)) =
        omega (arith, length-append (framed c) (stream (d ∷ cs)), length-framed c) in
      let all' : length (stream (d ∷ cs)) ≡ 5 + length d + length (stream cs) =
        omega (arith, length-append (framed d) (stream cs), length-framed d) in
      let end = addr + length (stream (c ∷ d ∷ cs)) in
      let next = addr + 5 + length c in
      let (written, behind) =
        Holds-split mem addr end (stream (c ∷ d ∷ cs)) (front mark n) refl h in
      let (mark', content, rest) = record_there wide_shl mem mapped addr c (d ∷ cs) written in
      let (mark2, content2, rest2) = record_there wide_shl mem mapped next d cs rest in
      let step =
        dbk_next-more wide_shl mem mapped addr c d k rcd_num (omega arith) few sd
          (omega (arith, all, all')) (omega (arith, all, all')) content mark2 in
      let ih =
        read_from-front fuel rcd_num next d cs (k + 1) (omega arith) few small (omega arith)
          (omega (arith, all)) (omega (arith, all))
          (Holds-append mem next end (stream (d ∷ cs)) (front mark n) (omega (arith, all)) rest
            behind) in
      rw here (rw (step, ◌>>=◌) (rw (ih, ◌>>=◌) refl))

  -- Behind the records stand five bytes that are no mark, and the header counts one record more.
  pub read_records-front :
      (fuel dbk_addr rcd_num : ℕ) (c : List ℕ) (cs : List (List ℕ))
      → rcd_num ≡ suc (suc (length cs))
      → rcd_num < 2 ^ 63
      → All Small (c ∷ cs)
      → dbk_addr + block_header_size + length (stream (c ∷ cs)) + 5 < 2 ^ 64
      → dbk_addr + block_header_size + length (stream (c ∷ cs)) + 5 ≤ mapped
      → Holds mem (dbk_addr + block_header_size) (stream (c ∷ cs) ++ front mark n)
      → read_records wide_shl mem mapped fuel dbk_addr rcd_num ≡ none
  unfolding read_records ipc_dbk_iter_init
  read_records-front fuel dbk_addr rcd_num c cs e few (sc, small) wrap reach h =
      let addr = dbk_addr + block_header_size in
      let at : ptr_add dbk_addr block_header_size ≡ addr = omega arith in
      let end = addr + length (stream (c ∷ cs)) in
      let (written, behind) = Holds-split mem addr end (stream (c ∷ cs)) (front mark n) refl h in
      let (first, content, rest) = record_there wide_shl mem mapped addr c cs written in
      let all : length (stream (c ∷ cs)) ≡ 5 + length c + length (stream cs) =
        omega (arith, length-append (framed c) (stream cs), length-framed c) in
      rw at (
        rw
          (
            read_mark-lem wide_shl mem mapped addr (length c) sc (omega (arith, all))
                (omega (arith, all)) first,
            ◌>>=◌,
          )
          (read_from-front fuel rcd_num addr c cs 0 (omega arith) few small (omega arith) wrap reach
            h))
