-- ===== src/Ipc/Reading.antt =====
-- Reading the records of a block of ce_util/ce_ipc_shm.c: a reader gets what was written, in order.
use cloudeagle.Common.{
  ℕ, zero, suc, ◌+◌, ◌-◌, ◌%◌, ◌^◌, ◌≤◌, ◌<◌, ◌≡◌, refl, subst, arith, some, List, [], ◌∷◌, ◌++◌,
  true, false, ◌==◌, leb, length, length-append, All,
}
use cloudeagle.Common.Memory.{Memory, Holds, Holds-split, load, load-Holds, ptr_add}
use cloudeagle.Value.{value_append}
use cloudeagle.Value.Bytes.{length-value_append}
use cloudeagle.Codec.Items.{encode}
use cloudeagle.Codec.RoundTrip.{read_items-Reads}
use cloudeagle.Ipc.{◌>>=◌, block_header_size}
use cloudeagle.Ipc.Read.{
  Iter, window, read_mark, ipc_dbk_iter_init, dbk_next, read_from, read_records,
}
use cloudeagle.Ipc.Writing.{mark_items, framed, length-framed}

-- The bytes of a sequence of records.
abbrev pub stream : List (List ℕ) → List ℕ
stream [] = []
stream (c ∷ cs) = framed c ++ stream cs

abbrev pub Small : List ℕ → Type 0
Small c = length c < 2 ^ 32

pub length-mark : (n : ℕ) → length (encode (mark_items n)) ≡ 5
length-mark n = omega (
  arith,
  length-append (value_append 1 0xfd) (value_append 4 n ++ []),
  length-append (value_append 4 n) [],
  length-value_append 1 0xfd,
  length-value_append 4 n,
)

module _ (wide_shl : ℕ → ℕ → ℕ) (mem : Memory) (mapped : ℕ) where
  pub read_mark-lem :
      (addr n : ℕ)
      → n < 2 ^ 32
      → addr + 5 < 2 ^ 64
      → addr + 5 ≤ mapped
      → Holds mem addr (encode (mark_items n))
      → read_mark wide_shl mem mapped addr ≡ some n
  unfolding read_mark
  read_mark-lem addr n small wrap reach h =
      let five = length-mark n in
      let end : ptr_add addr 5 ≡ addr + 5 = omega arith in
      rw
        (
          read_items-Reads wide_shl (mark_items n) (window mem mapped addr 5)
              ((omega arith, omega arith), ((omega arith, small), tt)) (omega (arith, five, end))
              (omega (arith, end)) (omega (arith, end)) h,
          ◌>>=◌,
        )
        refl

  -- What stands from a record on.
  pub record_there :
      (addr : ℕ) (c : List ℕ) (cs : List (List ℕ))
      → Holds mem addr (stream (c ∷ cs))
      → Holds mem addr (encode (mark_items (length c)))
        × Holds mem (addr + 5) c
        × Holds mem (addr + 5 + length c) (stream cs)
  record_there addr c cs h =
      let front = encode (mark_items (length c)) in
      let (whole, rest) =
        Holds-split mem addr (addr + 5 + length c) (framed c) (stream cs)
          (omega (arith, length-framed c)) h in
      let (mark, content) =
        Holds-split mem addr (addr + 5) front c (omega (arith, length-mark (length c))) whole in
      (mark, content, rest)

  abbrev pub at_record : ℕ → List ℕ → ℕ → Iter
  at_record addr c k = record { cur_addr = addr; cur_size = length c; cur_rcd_num = k }

  pub content_there :
      (addr : ℕ) (c : List ℕ)
      → addr + 5 < 2 ^ 64
      → Holds mem (addr + 5) c
      → load mem (ptr_add addr 5) (length c) ≡ c
  content_there addr c wrap h =
      let at : addr + 5 ≡ ptr_add addr 5 = omega arith in
      subst (λ (a : ℕ). load mem a (length c) ≡ c) at (load-Holds mem (addr + 5) c h)

  dbk_next-last :
      (addr : ℕ) (c : List ℕ) (k rcd_num : ℕ)
      → rcd_num ≡ k + 1
      → rcd_num < 2 ^ 63
      → addr + 5 < 2 ^ 64
      → Holds mem (addr + 5) c
      → dbk_next wide_shl mem mapped rcd_num (at_record addr c k)
        ≡ some (record { cur_addr = 0; cur_size = 0; cur_rcd_num = k + 1 }, c)
  unfolding dbk_next
  dbk_next-last addr c k rcd_num n few wrap h =
      let last : leb ((rcd_num + 2 ^ 64 - 1) % 2 ^ 64) k ≡ true = ground arith in
      rw (last, content_there addr c wrap h)

  pub dbk_next-more :
      (addr : ℕ) (c d : List ℕ) (k rcd_num : ℕ)
      → k + 1 < rcd_num
      → rcd_num < 2 ^ 63
      → Small d
      → addr + 5 + length c + 5 < 2 ^ 64
      → addr + 5 + length c + 5 ≤ mapped
      → Holds mem (addr + 5) c
      → Holds mem (addr + 5 + length c) (encode (mark_items (length d)))
      → dbk_next wide_shl mem mapped rcd_num (at_record addr c k)
        ≡ some (at_record (addr + 5 + length c) d (k + 1), c)
  unfolding dbk_next
  dbk_next-more addr c d k rcd_num n few small wrap reach h mark =
      let more : leb ((rcd_num + 2 ^ 64 - 1) % 2 ^ 64) k ≡ false = ground arith in
      let at : ptr_add addr (5 + length c) ≡ addr + 5 + length c = omega arith in
      rw (more, content_there addr c (omega arith) h, at)
        (rw (read_mark-lem (addr + 5 + length c) (length d) small wrap reach mark, ◌>>=◌) refl)

  read_from-stream :
      (fuel rcd_num addr : ℕ) (c : List ℕ) (cs : List (List ℕ)) (k : ℕ)
      → suc (length cs) < fuel
      → rcd_num ≡ k + suc (length cs)
      → rcd_num < 2 ^ 63
      → All Small cs
      → 0 < addr
      → addr + length (stream (c ∷ cs)) < 2 ^ 64
      → addr + length (stream (c ∷ cs)) ≤ mapped
      → Holds mem addr (stream (c ∷ cs))
      → read_from wide_shl mem mapped fuel rcd_num (at_record addr c k) ≡ some (c ∷ cs)
  unfolding read_from
  read_from-stream zero rcd_num addr c cs k lt n few small pos wrap reach h = absurd (omega arith)
  read_from-stream (suc zero) rcd_num addr c cs k lt n few small pos wrap reach h =
      absurd (omega arith)
  read_from-stream (suc (suc fuel)) rcd_num addr c [] k lt n few small pos wrap reach h =
      let (mark, content, rest) = record_there addr c [] h in
      let here : (addr == 0) ≡ false = ground arith in
      let all = length-append (framed c) (stream []) in
      rw here (
        rw
          (
            dbk_next-last addr c k rcd_num (omega arith) few (omega (arith, all, length-framed c))
                content,
            ◌>>=◌,
          )
          refl)
  read_from-stream (suc (suc fuel)) rcd_num addr c (d ∷ cs) k lt n few (sd, small) pos wrap reach
        h =
      let (mark, content, rest) = record_there addr c (d ∷ cs) h in
      let (mark', content', rest') = record_there (addr + 5 + length c) d cs rest in
      let here : (addr == 0) ≡ false = ground arith in
      let all : length (stream (c ∷ d ∷ cs)) ≡ 5 + length c + length (stream (d ∷ cs)) =
        omega (arith, length-append (framed c) (stream (d ∷ cs)), length-framed c) in
      let all' : length (stream (d ∷ cs)) ≡ 5 + length d + length (stream cs) =
        omega (arith, length-append (framed d) (stream cs), length-framed d) in
      let next =
        dbk_next-more addr c d k rcd_num (omega arith) few sd (omega (arith, all, all'))
          (omega (arith, all, all')) content mark' in
      let ih =
        read_from-stream (suc fuel) rcd_num (addr + 5 + length c) d cs (k + 1) (omega arith)
          (omega arith) few small (omega arith) (omega (arith, all)) (omega (arith, all)) rest in
      rw here (rw (next, ◌>>=◌) (rw (ih, ◌>>=◌) refl))

  -- A block whose memory behind the header holds one or more records, as many as its header says,
  -- is read to its end: the callback gets exactly these records, in order.
  pub read_records-stream :
      (fuel dbk_addr rcd_num : ℕ) (c : List ℕ) (cs : List (List ℕ))
      → suc (length cs) < fuel
      → rcd_num ≡ suc (length cs)
      → rcd_num < 2 ^ 63
      → All Small (c ∷ cs)
      → dbk_addr + block_header_size + length (stream (c ∷ cs)) < 2 ^ 64
      → dbk_addr + block_header_size + length (stream (c ∷ cs)) ≤ mapped
      → Holds mem (dbk_addr + block_header_size) (stream (c ∷ cs))
      → read_records wide_shl mem mapped fuel dbk_addr rcd_num ≡ some (c ∷ cs)
  unfolding read_records ipc_dbk_iter_init
  read_records-stream fuel dbk_addr rcd_num c cs lt n few (sc, small) wrap reach h =
      let addr = dbk_addr + block_header_size in
      let at : ptr_add dbk_addr block_header_size ≡ addr = omega arith in
      let (mark, content, rest) = record_there addr c cs h in
      let all : length (stream (c ∷ cs)) ≡ 5 + length c + length (stream cs) =
        omega (arith, length-append (framed c) (stream cs), length-framed c) in
      rw at (
        rw (read_mark-lem addr (length c) sc (omega (arith, all)) (omega (arith, all)) mark, ◌>>=◌)
          (read_from-stream fuel rcd_num addr c cs 0 lt (omega arith) few small (omega arith) wrap
            reach h))
