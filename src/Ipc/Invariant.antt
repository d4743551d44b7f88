-- ===== src/Ipc/Invariant.antt =====
-- What holds of a queue of ce_util/ce_ipc_shm.c between two calls: its `n` blocks are on its two
-- lists, each with its position inside it, and the block that is written to is a used one.
use cloudeagle.Common.{
  ℕ, ◌+◌, ◌^◌, ◌≤◌, ◌<◌, ◌≡◌, refl, ap, ◌∙◌, ◌⊎◌, arith, List, [], ◌∷◌, true, false, length, All,
}
use cloudeagle.Ipc.{DataBlock, Shared, put, set_block, block_header_size, max_reader_num}
use cloudeagle.Ipc.Chain.{Chain, All-map}
use cloudeagle.Ipc.Parts.{Parts}
use cloudeagle.Ipc.Collect.{has}

-- Inside the block, behind its header.
abbrev pub Fits : (ℕ → DataBlock) → ℕ → Type 0
Fits block x =
    (block_header_size ≤ (block x).dbk_pos)
    × ((block x).dbk_pos ≤ (block x).dbk_size)
    × (x + (block x).dbk_size < 2 ^ 31)

pub record IsQueue (s : Shared) (n : ℕ) (used free : List ℕ) : Type 0 where
  pub parts : Parts s false used free
  pub total : length used + length free ≡ n
  pub fits : All (Fits s.block) used
  pub fits' : All (Fits s.block) free
  pub current : (s.queue.cur_w_dbk ≡ 0) ⊎ (has s.queue.cur_w_dbk used ≡ true)
  pub readers : length s.queue.readers ≡ max_reader_num

-- No link changes.
pub record SameLinks (s s' : Shared) : Type 0 where
  pub used : s'.queue.dbk_header ≡ s.queue.dbk_header
  pub free : s'.queue.free_dbk_header ≡ s.queue.free_dbk_header
  pub next : (a : ℕ) → (s'.block a).dbk_next_offset ≡ (s.block a).dbk_next_offset
  pub at : (a : ℕ) → (s'.block a).dbk_offset ≡ (s.block a).dbk_offset

Chain-congr :
    (b b' : ℕ → DataBlock) (p : ℕ) (xs : List ℕ)
    → ((a : ℕ) → (b' a).dbk_next_offset ≡ (b a).dbk_next_offset)
    → Chain b p xs
    → Chain b' p xs
Chain-congr b b' p [] same h = h
Chain-congr b b' p (x ∷ xs) same (e, pos, h) = (e, pos, rw (same x) (Chain-congr b b' _ xs same h))

pub SameLinks-Parts :
    (s s' : Shared) (xs ys : List ℕ) → SameLinks s s' → Parts s false xs ys → Parts s' false xs ys
SameLinks-Parts s s' xs ys l p = record {
  chain = rw l.used (Chain-congr s.block s'.block _ xs l.next p.chain);
  chain' = rw l.free (Chain-congr s.block s'.block _ ys l.next p.chain');
  distinct = p.distinct;
  distinct' = p.distinct';
  own =
      All-map (λ x. (s.block x).dbk_offset ≡ x) (λ x. (s'.block x).dbk_offset ≡ x) xs
        (λ x e. l.at x ∙ e) p.own;
  own' =
      All-map (λ x. (s.block x).dbk_offset ≡ x) (λ x. (s'.block x).dbk_offset ≡ x) ys
        (λ x e. l.at x ∙ e) p.own';
  apart = p.apart;
}

-- A change of one block's header that keeps its links.
pub put-SameLinks :
    (s : Shared) (m : ℕ) (d : DataBlock)
    → d.dbk_next_offset ≡ (s.block m).dbk_next_offset
    → d.dbk_offset ≡ (s.block m).dbk_offset
    → SameLinks s (put s m d)
unfolding set_block
put-SameLinks s m d e f = record {
  used = refl;
  free = refl;
  next = λ a. ground (arith, ap (λ (x : ℕ). (s.block x).dbk_next_offset) {x = a} {y = m});
  at = λ a. ground (arith, ap (λ (x : ℕ). (s.block x).dbk_offset) {x = a} {y = m});
}
