-- ===== src/Buf/Pushes.antt =====
-- Blocks pushed one after the other on a buffer of ce_util/ce_buf.c: where they stand and what they
-- hold.
use cloudeagle.Common.{
  ℕ, zero, suc, ◌+◌, ◌^◌, ◌≤◌, ◌<◌, ◌≡◌, refl, ◌∙◌, ◌⊎◌, inl, inr, arith, some, List, [], ◌∷◌,
  false, ◌==◌, ◌||◌, ltb, replicate, All, length-replicate, Bool-cases,
}
use cloudeagle.Common.Memory.{Memory, store, store_outside, ptr_add}
use cloudeagle.Buf.{
  CeBuf, buf_header_size, ce_init_buf, ce_buf_full, ce_push_buf, ce_buf_content_size,
}

-- Blocks of the sizes are asked for, whether or not the earlier ones were given.
unfoldable pub push_all : List ℕ → CeBuf → Memory → CeBuf × Memory × List ℕ
unfolding ce_push_buf
push_all [] buf mem = (buf, mem, [])
push_all (n ∷ ns) buf mem =
    let (buf1, mem1, a) = ce_push_buf buf mem n in
    let (buf2, mem2, blocks) = push_all ns buf1 mem1 in (buf2, mem2, a ∷ blocks)

-- From `p` on to `q` at most `e`: a block is NULL where its size is 0 or too large for what is left,
-- and otherwise stands where the last one ended.
abbrev pub Laid : ℕ → ℕ → ℕ → List ℕ → List ℕ → Type 0
Laid p q e [] [] = (p ≡ q) × (q ≤ e)
Laid p q e (n ∷ ns) (a ∷ blocks) =
    ((a ≡ 0) × ((n ≡ 0) ⊎ (e < p + n)) × Laid p q e ns blocks)
    ⊎ ((a ≡ p) × (0 < n) × (p + n ≤ e) × Laid (p + n) q e ns blocks)
Laid p q e [] (a ∷ blocks) = ⊥
Laid p q e (n ∷ ns) [] = ⊥

Laid-end : (p q e : ℕ) (ns blocks : List ℕ) → Laid p q e ns blocks → q ≤ e
Laid-end p q e [] [] (same, le) = le
Laid-end p q e [] (a ∷ blocks) h = absurd h
Laid-end p q e (n ∷ ns) [] h = absurd h
Laid-end p q e (n ∷ ns) (a ∷ blocks) (inl (z, why, h)) = Laid-end p q e ns blocks h
Laid-end p q e (n ∷ ns) (a ∷ blocks) (inr (z, pos, le, h)) = Laid-end (p + n) q e ns blocks h

store_zeros : (mem : Memory) (p n a : ℕ) → p ≤ a → a < p + n → store mem p (replicate n 0) a ≡ 0
unfolding store
store_zeros mem p zero a lo hi = absurd (omega arith)
store_zeros mem p (suc n) a lo hi = elim (Bool-cases (a == p)) [
  | inl here ↦ rw here refl
  | inr there ↦ rw there (store_zeros mem (p + 1) n a (ground arith) (omega arith))
]

-- What pushes do from `buf` on: where the blocks are, that they are zeroed, and that no other byte
-- changes.
abbrev pub Pushed : List ℕ → CeBuf → Memory → CeBuf × Memory × List ℕ → Type 0
Pushed ns buf mem (buf', mem', blocks) =
    Laid buf.pos buf'.pos buf.end ns blocks
    × (buf.pos ≤ buf'.pos)
    × (buf'.start ≡ buf.start)
    × (buf'.end ≡ buf.end)
    × ((x : ℕ) → buf.pos ≤ x → x < buf'.pos → mem' x ≡ 0)
    × ((x : ℕ) → (x < buf.pos) ⊎ (buf'.pos ≤ x) → mem' x ≡ mem x)

-- A single push.
ce_push_buf-cases :
    (buf : CeBuf) (mem : Memory) (n : ℕ)
    → buf.pos ≤ buf.end
    → buf.end < 2 ^ 63
    → n < 2 ^ 63
    → ((ce_push_buf buf mem n ≡ (buf, mem, 0)) × ((n ≡ 0) ⊎ (buf.end < buf.pos + n)))
      ⊎ ((ce_push_buf buf mem n
            ≡ (record buf { pos = buf.pos + n }, store mem buf.pos (replicate n 0), buf.pos))
          × (0 < n)
          × (buf.pos + n ≤ buf.end))
unfolding ce_push_buf ce_buf_full
ce_push_buf-cases buf mem n le hi s =
    let at : ptr_add buf.pos n ≡ buf.pos + n = omega arith in
    elim (Bool-cases (n == 0 || ltb buf.end (buf.pos + n))) [
      | inl refused ↦ inl (rw (at, refused) refl, ground arith)
      | inr room ↦ inr (rw (at, room) refl, ground arith, ground arith)
    ]

push_all-Pushed :
    (ns : List ℕ) (buf : CeBuf) (mem : Memory)
    → buf.pos ≤ buf.end
    → buf.end < 2 ^ 63
    → All (λ n. n < 2 ^ 63) ns
    → Pushed ns buf mem (push_all ns buf mem)
unfolding push_all
push_all-Pushed [] buf mem le hi small =
    ((refl, le), omega arith, refl, refl, (λ x lo up. absurd (omega arith)), (λ x out. refl))
push_all-Pushed (n ∷ ns) buf mem le hi (s, small) = elim (ce_push_buf-cases buf mem n le hi s) [
  | inl (e, why) ↦
      let (laid, grows, start, end, zeroed, other) = push_all-Pushed ns buf mem le hi small in
      rw e (inl (refl, why, laid), grows, start, end, zeroed, other)
  | inr (e, pos, room) ↦
      let mem1 = store mem buf.pos (replicate n 0) in
      let (laid, grows, start, end, zeroed, other) =
        push_all-Pushed ns (record buf { pos = buf.pos + n }) mem1 room hi small in
      rw e (
        inr (refl, pos, room, laid),
        omega (arith, grows),
        start,
        end,
        λ x lo up. elim (Bool-cases (ltb x (buf.pos + n))) [
          | inl here ↦ other x (inl (ground arith)) ∙ store_zeros mem buf.pos n x lo (ground arith)
          | inr behind ↦ zeroed x (ground arith) up
        ],
        λ x out.
            other x (omega (arith, out, grows))
            ∙ store_outside mem buf.pos (replicate n 0) x
                (omega (arith, out, grows, length-replicate {A = ℕ} n 0)),
      )
]

-- A buffer in `mem_size` bytes of memory from `addr` on, at least as many as its header has, that ends
-- below 2 ^ 63, and any blocks of less than 2 ^ 63 bytes that are asked for: the buffer is there; a
-- block is refused exactly where its size is 0 or more than what is left; the others stand one behind
-- the other, from the end of the header to the end of the memory, without overlap; all their bytes
-- are 0 at the end, no other byte has changed, and the content's size is how far they reach.
pub push_all-ce_init_buf :
    (addr mem_size : ℕ) (ns : List ℕ) (mem : Memory)
    → 0 < addr
    → buf_header_size ≤ mem_size
    → addr + mem_size < 2 ^ 63
    → All (λ n. n < 2 ^ 63) ns
    → (buf : CeBuf) × (ce_init_buf addr mem_size ≡ some buf)
      × (buf.pos ≡ addr + buf_header_size)
      × (buf.end ≡ addr + mem_size)
      × Pushed ns buf mem (push_all ns buf mem)
      × (addr + buf_header_size + ce_buf_content_size (push_all ns buf mem).0
          ≡ (push_all ns buf mem).0.pos)
unfolding ce_init_buf ce_buf_content_size
push_all-ce_init_buf addr mem_size ns mem nonnull room hi small =
    let start = addr + buf_header_size in
    let buf : CeBuf = record { start = start; pos = start; last = start; end = addr + mem_size } in
    let there : (addr == 0) ≡ false = ground arith in
    let enough : ltb mem_size buf_header_size ≡ false = ground arith in
    let from : ptr_add addr buf_header_size ≡ start = omega arith in
    let to : ptr_add addr mem_size ≡ addr + mem_size = omega arith in
    let pushed = push_all-Pushed ns buf mem (omega arith) hi small in
    let (laid, grows, same, end, zeroed, other) = pushed in
    let last : (push_all ns buf mem).0.pos ≤ addr + mem_size =
      Laid-end _ _ _ ns (push_all ns buf mem).2 laid in
    (buf, rw (there, enough, from, to) refl, refl, refl, pushed, omega (arith, grows, same, last))
