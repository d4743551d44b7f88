-- ===== src/Ipc/Room.antt =====
-- The room in the blocks of a queue of ce_util/ce_ipc_shm.c: what the collection and the choice of a
-- free block do to it.
use cloudeagle.Common.{
  ℕ, ◌+◌, ◌<◌, ◌≡◌, refl, ap, ◌∙◌, inl, inr, arith, some, List, [], ◌∷◌, Bool, true, false, not,
  ◌==◌, if◌then◌else◌, length, All, Bool-cases,
}
use cloudeagle.Ipc.{DataBlock, ShmQueue, Shared, ipc_dbk_is_collectalbe}
use cloudeagle.Ipc.Blocks.{ipc_dbk_collect, logged}
use cloudeagle.Ipc.Chain.{All-map}
use cloudeagle.Ipc.Removal.{plain}
use cloudeagle.Ipc.Collect.{kept, collected, onto, has, is_nil, reset}
use cloudeagle.Ipc.Sweep.{ipc_dbk_collect-Parts}
use cloudeagle.Ipc.Invariant.{Fits, IsQueue, SameLinks-Parts}

module _ {κ} (P : ℕ → Type κ) (block : ℕ → DataBlock) where
  All-kept : (xs : List ℕ) → All P xs → All P (kept block xs)
  All-kept [] h = tt
  All-kept (x ∷ xs) (p, h) = elim (Bool-cases (ipc_dbk_is_collectalbe (block x))) [
    | inl hit ↦ rw hit (All-kept xs h)
    | inr miss ↦ rw miss (p, All-kept xs h)
  ]

  All-collected : (xs : List ℕ) → All P xs → All P (collected block xs)
  All-collected [] h = tt
  All-collected (x ∷ xs) (p, h) = elim (Bool-cases (ipc_dbk_is_collectalbe (block x))) [
    | inl hit ↦ rw hit (p, All-collected xs h)
    | inr miss ↦ rw miss (All-collected xs h)
  ]

All-onto {κ} : (P : ℕ → Type κ) (xs ws : List ℕ) → All P xs → All P ws → All P (onto xs ws)
All-onto P [] ws h k = k
All-onto P (x ∷ xs) ws (p, h) k = All-onto P xs (x ∷ ws) h (p, k)

length-onto : (xs ws : List ℕ) → length (onto xs ws) ≡ length xs + length ws
length-onto [] ws = omega arith
length-onto (x ∷ xs) ws = omega (arith, length-onto xs (x ∷ ws))

length-kept-collected :
    (block : ℕ → DataBlock) (xs : List ℕ)
    → length (kept block xs) + length (collected block xs) ≡ length xs
length-kept-collected block [] = refl
length-kept-collected block (x ∷ xs) = elim (Bool-cases (ipc_dbk_is_collectalbe (block x))) [
  | inl hit ↦ rw hit (omega (arith, length-kept-collected block xs))
  | inr miss ↦ rw miss (omega (arith, length-kept-collected block xs))
]

-- A block keeps its size, and its position or is empty.
Fits-reset :
    (b : Bool) (block block' : ℕ → DataBlock) (a : ℕ)
    → plain (block' a) ≡ plain (if b then reset (block a) else block a)
    → Fits block a
    → Fits block' a
Fits-reset true block block' a e f =
    let pos = ap (λ (d : DataBlock). d.dbk_pos) e in
    let size = ap (λ (d : DataBlock). d.dbk_size) e in
    (omega (arith, pos), omega (arith, pos, size), omega (arith, size))
Fits-reset false block block' a e f =
    let pos = ap (λ (d : DataBlock). d.dbk_pos) e in
    let size = ap (λ (d : DataBlock). d.dbk_size) e in
    (omega (arith, pos), omega (arith, pos, size), omega (arith, size))

-- The note that nothing was collected changes no link and no block.
logged-IsQueue :
    (s : Shared) (c : Bool) (n : ℕ) (used free : List ℕ)
    → IsQueue s n used free
    → IsQueue (logged s c) n used free
logged-IsQueue s true n used free q = q
logged-IsQueue s false n used free q = elim (Bool-cases (s.queue.collect_count == 0)) [
  | inl first ↦ rw first (record {
    parts =
        SameLinks-Parts s _ used free
          (record { used = refl; free = refl; next = λ a. refl; at = λ a. refl }) q.parts;
    total = q.total;
    fits = q.fits;
    fits' = q.fits';
    current = q.current;
    readers = q.readers;
  })
  | inr later ↦ rw later q
]

logged_cur : (s : Shared) (c : Bool) → s.queue.cur_w_dbk ≡ 0 → (logged s c).queue.cur_w_dbk ≡ 0
logged_cur s c h = ground arith

-- While no block is written to, collecting keeps the queue well formed.
pub ipc_dbk_collect-IsQueue :
    (fuel : ℕ) (s : Shared) (n : ℕ) (used free : List ℕ)
    → n < fuel
    → 0 < length used
    → s.queue.cur_w_dbk ≡ 0
    → IsQueue s n used free
    → (s' : Shared) × (ipc_dbk_collect fuel s ≡ some s')
      × (s'.queue.cur_w_dbk ≡ 0)
      × IsQueue s' n (kept s.block used) (onto (collected s.block used) free)
ipc_dbk_collect-IsQueue fuel s n used free lt some_used idle q =
    elim (ipc_dbk_collect-Parts fuel s used free (omega (arith, q.total)) q.parts) [
      | inl (empty, _) ↦ absurd (omega (arith, ap (λ (l : List ℕ). length l) empty))
      | inr (s1, e, p, c) ↦
          let done = not (is_nil (collected s.block used)) in
          let cur : s1.queue.cur_w_dbk ≡ 0 = ap (λ (x : ShmQueue). x.cur_w_dbk) c.queue ∙ idle in
          let fit =
            λ (a : ℕ). Fits-reset (has a (collected s.block used)) s.block s1.block a (c.block a) in
          let used_fit : All (Fits s1.block) used =
            All-map (Fits s.block) (Fits s1.block) used fit q.fits in
          let free_fit : All (Fits s1.block) free =
            All-map (Fits s.block) (Fits s1.block) free fit q.fits' in
          let q1 : IsQueue s1 n (kept s.block used) (onto (collected s.block used) free) = record {
            parts = p;
            total = omega (
              arith,
              q.total,
              length-onto (collected s.block used) free,
              length-kept-collected s.block used,
            );
            fits = All-kept (Fits s1.block) s.block used used_fit;
            fits' =
                All-onto (Fits s1.block) _ free
                  (All-collected (Fits s1.block) s.block used used_fit) free_fit;
            current = inl cur;
            readers = ap (λ (x : ShmQueue). length x.readers) c.queue ∙ q.readers;
          } in
          (logged s1 done, e, logged_cur s1 done cur, logged-IsQueue s1 done n _ _ q1)
    ]
