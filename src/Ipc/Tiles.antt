-- ===== src/Ipc/Tiles.antt =====
-- The blocks that ce_util/ce_ipc_shm.c creates in a new queue: they lie one behind the other, from
-- the queue's header to its end.
use native.Mathlib.Nat.{suc-mul}
use cloudeagle.Common.{
  ℕ, zero, suc, ◌+◌, ◌-◌, ◌*◌, ◌^◌, ◌≤◌, ◌<◌, ◌≡◌, ◌≢◌, refl, ap, ◌∙◌, subst, inl, arith, List, [],
  ◌∷◌, true, false, length, All,
}
use cloudeagle.Ipc.{
  DataBlock, free, ShmQueue, Shared, put, set_block, block_header_size, queue_header_size,
  max_reader_num,
}
use cloudeagle.Ipc.Blocks.{ipc_shm_queue_data_block_init, ipc_queue_dbk_add}
use cloudeagle.Ipc.Create.{QueueArgs, create_block, create_blocks, ipc_shm_queue_data_block_create}
use cloudeagle.Ipc.Chain.{Fresh, All-map}
use cloudeagle.Ipc.Removal.{bare, plain, SameBut}
use cloudeagle.Ipc.Parts.{
  Parts, Loose, put-Parts, ipc_queue_dbk_add-Parts, ipc_queue_dbk_add-SameBut,
}
use cloudeagle.Ipc.Invariant.{Fits, IsQueue}

-- From the last block to the first, each ends where the one before it in the list starts; the first
-- stands behind the queue's header.
abbrev pub Tiled : (ℕ → DataBlock) → List ℕ → ℕ → Type 0
Tiled block [] end = end ≡ queue_header_size
Tiled block (x ∷ xs) end = (x + (block x).dbk_size ≡ end) × Tiled block xs x

-- Free, with no record and no reader to wait for.
abbrev pub Empty : (ℕ → DataBlock) → ℕ → Type 0
Empty block x =
    ((block x).dbk_pos ≡ block_header_size)
    × ((block x).rcd_num ≡ 0)
    × ((block x).read_count ≡ 0)
    × ((block x).dbk_state ≡ free)

abbrev pub Sized : ℕ → (ℕ → DataBlock) → ℕ → Type 0
Sized size block x = (block x).dbk_size ≡ size

-- The free blocks after some rounds of the loop; the next one stands at `end`.
record Laid (s s' : Shared) (xs : List ℕ) (end : ℕ) : Type 0 where
  parts : Parts s' false [] xs
  tiled : Tiled s'.block xs end
  below : All (λ x. x < end) xs
  fits : All (Fits s'.block) xs
  empty : All (Empty s'.block) xs
  queue : bare s'.queue ≡ bare s.queue

abbrev Same : (ℕ → DataBlock) → (ℕ → DataBlock) → ℕ → Type 0
Same b b' a = plain (b' a) ≡ plain (b a)

Tiled-Same :
    (b b' : ℕ → DataBlock) (xs : List ℕ) (end : ℕ)
    → All (Same b b') xs
    → Tiled b xs end
    → Tiled b' xs end
Tiled-Same b b' [] end h t = t
Tiled-Same b b' (x ∷ xs) end (e, h) (at, t) =
    let size = ap (λ (d : DataBlock). d.dbk_size) e in
    (omega (arith, size), Tiled-Same b b' xs x h t)

Fits-Same :
    (b b' : ℕ → DataBlock) (xs : List ℕ) → All (Same b b') xs → All (Fits b) xs → All (Fits b') xs
Fits-Same b b' [] h f = tt
Fits-Same b b' (x ∷ xs) (e, h) ((lo, hi, far), f) =
    let pos = ap (λ (d : DataBlock). d.dbk_pos) e in
    let size = ap (λ (d : DataBlock). d.dbk_size) e in
    ((omega (arith, pos), omega (arith, pos, size), omega (arith, size)), Fits-Same b b' xs h f)

pub put_other :
    (s : Shared) (m : ℕ) (d : DataBlock) (a : ℕ) → a ≢ m → (put s m d).block a ≡ s.block a
unfolding set_block
put_other s m d a ne = ground arith

pub put_self : (s : Shared) (m : ℕ) (d : DataBlock) → (put s m d).block m ≡ d
unfolding set_block
put_self s m d = ground arith

abbrev pub fresh_block : Shared → ℕ → ℕ → DataBlock
fresh_block s m size = record (s.block m) {
  dbk_offset = m;
  dbk_size = size;
  dbk_next_offset = 0;
  read_count = 0;
  rcd_num = 0;
  dbk_pos = block_header_size;
  dbk_state = free;
}

pub create_block-lem :
    (s : Shared) (m size : ℕ)
    → create_block s m size ≡ ipc_queue_dbk_add (put s m (fresh_block s m size)) m true
unfolding create_block ipc_shm_queue_data_block_init
create_block-lem s m size = refl

-- What a round leaves of the blocks in front of `end`, and the new one.
create_block-Same :
    (s : Shared) (xs : List ℕ) (end size : ℕ)
    → All (λ x. x < end) xs
    → All (Same s.block (create_block s end size).block) xs
      × (plain ((create_block s end size).block end) ≡ plain (fresh_block s end size))
create_block-Same s xs end size below =
    let d = fresh_block s end size in
    let s1 = put s end d in
    let added : SameBut s1 (ipc_queue_dbk_add s1 end true) =
      ipc_queue_dbk_add-SameBut s1 end true in
    rw create_block-lem (
      All-map (λ x. x < end) (Same s.block (ipc_queue_dbk_add s1 end true).block) xs
          (λ x lt. added.block x ∙ ap plain (put_other s end d x (λ e. absurd (omega arith))))
          below,
      added.block end ∙ ap plain (put_self s end d),
    )

Empty-Same :
    (b b' : ℕ → DataBlock) (xs : List ℕ) → All (Same b b') xs → All (Empty b) xs → All (Empty b') xs
Empty-Same b b' [] h e = tt
Empty-Same b b' (x ∷ xs) (same, h) ((pos, num, count, state), e) = (
  (
    ap (λ (d : DataBlock). d.dbk_pos) same ∙ pos,
    ap (λ (d : DataBlock). d.rcd_num) same ∙ num,
    ap (λ (d : DataBlock). d.read_count) same ∙ count,
    ap (λ (d : DataBlock). d.dbk_state) same ∙ state,
  ),
  Empty-Same b b' xs h e,
)

pub Sized-Same :
    (size : ℕ) (b b' : ℕ → DataBlock) (xs : List ℕ)
    → All (Same b b') xs
    → All (Sized size b) xs
    → All (Sized size b') xs
Sized-Same size b b' [] h e = tt
Sized-Same size b b' (x ∷ xs) (same, h) (one, e) =
    (ap (λ (d : DataBlock). d.dbk_size) same ∙ one, Sized-Same size b b' xs h e)

-- One more block.
create_block-Laid :
    (s0 s : Shared) (xs : List ℕ) (end size : ℕ)
    → block_header_size ≤ size
    → end + size < 2 ^ 31
    → 0 < end
    → Laid s0 s xs end
    → Laid s0 (create_block s end size) (end ∷ xs) (end + size)
create_block-Laid s0 s xs end size room small pos l =
    let d = fresh_block s end size in
    let s1 = put s end d in
    let s2 = ipc_queue_dbk_add s1 end true in
    let here : s1.block end ≡ d = put_self s end d in
    let away : Fresh end xs =
      All-map (λ x. x < end) (λ x. x ≢ end) xs (λ x h e. absurd (omega arith)) l.below in
    let p1 : Parts s1 false [] xs = put-Parts s false end d [] xs tt away l.parts in
    let loose : Loose s1 end [] xs = record {
      pos = pos;
      at = ap (λ (b : DataBlock). b.dbk_offset) here;
      fresh = tt;
      fresh' = away;
    } in
    let added : SameBut s1 s2 = ipc_queue_dbk_add-SameBut s1 end true in
    let (same, self) = rw create_block-lem at (create_block-Same s xs end size l.below) in
    let its_size = ap (λ (b : DataBlock). b.dbk_size) self in
    let its_pos = ap (λ (b : DataBlock). b.dbk_pos) self in
    rw create_block-lem (record {
      parts = ipc_queue_dbk_add-Parts s1 false end [] xs loose p1;
      tiled = (omega (arith, its_size), Tiled-Same s.block s2.block xs end same l.tiled);
      below = (
        omega arith,
        All-map (λ x. x < end) (λ x. x < end + size) xs (λ x h. omega arith) l.below,
      );
      fits = (
        (omega (arith, its_pos), omega (arith, its_pos, its_size), omega (arith, its_size)),
        Fits-Same s.block s2.block xs same l.fits,
      );
      empty = (
        (
          its_pos,
          ap (λ (b : DataBlock). b.rcd_num) self,
          ap (λ (b : DataBlock). b.read_count) self,
          ap (λ (b : DataBlock). b.dbk_state) self,
        ),
        Empty-Same s.block s2.block xs same l.empty,
      );
      queue = added.queue ∙ l.queue;
    })

create_blocks-Laid :
    (n : ℕ) (s0 s : Shared) (xs : List ℕ) (end size : ℕ)
    → block_header_size ≤ size
    → end + n * size < 2 ^ 31
    → 0 < end
    → Laid s0 s xs end
    → All (Sized size s.block) xs
    → (ys : List ℕ) × (length ys ≡ n + length xs)
      × Laid s0 (create_blocks n s end size) ys (end + n * size)
      × All (Sized size (create_blocks n s end size).block) ys
unfolding create_blocks
create_blocks-Laid zero s0 s xs end size room small pos l z =
    let here : end ≡ end + 0 * size = omega arith in
    (xs, omega arith, subst (λ (e : ℕ). Laid s0 s xs e) here l, z)
create_blocks-Laid (suc n) s0 s xs end size room small pos l z =
    let step : suc n * size ≡ n * size + size = suc-mul n size in
    let there : end + size + n * size ≡ end + suc n * size = omega (arith, step) in
    let next = create_block-Laid s0 s xs end size room (omega (arith, step)) pos l in
    let (same, self) = create_block-Same s xs end size l.below in
    let s1 = create_block s end size in
    let (ys, count, laid, sized) =
      create_blocks-Laid n s0 s1 (end ∷ xs) (end + size) size room (omega (arith, there))
        (omega arith) next
        (ap (λ (d : DataBlock). d.dbk_size) self, Sized-Same size s.block s1.block xs same z) in
    (
      ys,
      omega (arith, count),
      subst (λ (e : ℕ). Laid s0 (create_blocks n s1 (end + size) size) ys e) there laid,
      sized,
    )

-- What the blocks of a queue add up to.
abbrev pub blocks_end : QueueArgs → ℕ
blocks_end args = queue_header_size + (args.dbk_num - 1) * args.dbk_size + args.f_dbk_size

pub record IsNew (s : Shared) : Type 0 where
  pub used : s.queue.dbk_header ≡ 0
  pub free : s.queue.free_dbk_header ≡ 0
  pub idle : s.queue.cur_w_dbk ≡ 0
  pub readers : length s.queue.readers ≡ max_reader_num

-- In a queue with no block, blocks that have room for their headers are created: they are all free
-- and empty, and they fill the queue from its header on without a gap or an overlap.
pub data_block_create-Tiled :
    (s : Shared) (args : QueueArgs)
    → IsNew s
    → 0 < args.dbk_num
    → block_header_size ≤ args.dbk_size
    → block_header_size ≤ args.f_dbk_size
    → blocks_end args < 2 ^ 31
    → (x : ℕ) × (xs : List ℕ) × IsQueue
        (ipc_shm_queue_data_block_create s args)
        args.dbk_num
        []
        (x ∷ xs)
      × Tiled (ipc_shm_queue_data_block_create s args).block (x ∷ xs) (blocks_end args)
      × All (Empty (ipc_shm_queue_data_block_create s args).block) (x ∷ xs)
      × Sized args.f_dbk_size (ipc_shm_queue_data_block_create s args).block x
      × All (Sized args.dbk_size (ipc_shm_queue_data_block_create s args).block) xs
unfolding ipc_shm_queue_data_block_create
data_block_create-Tiled s args new pos room room' small =
    let nothing : Laid s s [] queue_header_size = record {
      parts = record {
        chain = new.used;
        chain' = new.free;
        distinct = tt;
        distinct' = tt;
        own = tt;
        own' = tt;
        apart = tt;
      };
      tiled = refl;
      below = tt;
      fits = tt;
      empty = tt;
      queue = refl;
    } in
    let (ys, count, laid, sized) =
      create_blocks-Laid (args.dbk_num - 1) s s [] queue_header_size args.dbk_size room
        (omega arith) (omega arith) nothing tt in
    let m = queue_header_size + (args.dbk_num - 1) * args.dbk_size in
    let before = create_blocks (args.dbk_num - 1) s queue_header_size args.dbk_size in
    let last = create_block-Laid s before ys m args.f_dbk_size room' small (omega arith) laid in
    let (same, self) = create_block-Same before ys m args.f_dbk_size laid.below in
    (
      m,
      ys,
      record {
        parts = last.parts;
        total = omega (arith, count);
        fits = tt;
        fits' = last.fits;
        current = inl (ap (λ (q : ShmQueue). q.cur_w_dbk) last.queue ∙ new.idle);
        readers = ap (λ (q : ShmQueue). length q.readers) last.queue ∙ new.readers;
      },
      last.tiled,
      last.empty,
      ap (λ (d : DataBlock). d.dbk_size) self,
      Sized-Same args.dbk_size before.block (create_block before m args.f_dbk_size).block ys same
          sized,
    )
