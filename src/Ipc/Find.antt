-- ===== src/Ipc/Find.antt =====
-- ipc_queue_dbk_get of ce_util/ce_ipc_shm.c: it ends, keeps the queue well formed, and gives a block
-- with room, or NULL where no free block has room.
use cloudeagle.Common.{
  ℕ, ◌+◌, ◌<◌, ◌≡◌, refl, ◌∙◌, subst, ◌⊎◌, inl, inr, arith, Option, none, some, List, [], ◌∷◌, ◌++◌,
  Bool, true, false, ◌==◌, length, All, Bool-cases,
}
use cloudeagle.Ipc.{DataBlock, Shared, put, ipc_queue_dbk_full, ◌>>=◌}
use cloudeagle.Ipc.Blocks.{list_for_ipc_data_block}
use cloudeagle.Ipc.Write.{
  publish_block, ipc_publisher_dbk, counted, first_with_room, take_free, find_block,
  ipc_queue_dbk_get,
}
use cloudeagle.Ipc.Chain.{Chain-pos, list_for_ipc_data_block-lem}
use cloudeagle.Ipc.Collect.{has}
use cloudeagle.Ipc.Invariant.{IsQueue, SameLinks, SameLinks-Parts, put-SameLinks}
use cloudeagle.Ipc.Room.{ipc_dbk_collect-IsQueue}
use cloudeagle.Ipc.Take.{
  Full, first_with_room-Picked, SameRoom, Fits-SameRoom, full-SameRoom, put-SameRoom,
  take_free-IsQueue,
}

-- The queue is well formed afterwards, and either there is a block with room that is written to, or
-- every free block is full and no block is written to.
abbrev pub Got : ℕ → ℕ → Option (Shared × Option ℕ) → Type 0
Got n size r =
    (s' : Shared) × (used : List ℕ) × (free : List ℕ) × IsQueue s' n used free
    × (((r ≡ some (s', none)) × (s'.queue.cur_w_dbk ≡ 0) × All (Full s'.block size) free)
        ⊎ ((m : ℕ) × (r ≡ some (s', some m))
            × (s'.queue.cur_w_dbk ≡ m)
            × (has m used ≡ true)
            × (ipc_queue_dbk_full (s'.block m) size ≡ false)))

-- The end of find_block, once free blocks are collected.
abbrev pick : ℕ → Shared → ℕ → Option (Shared × Option ℕ)
pick fuel s size = do
  blocks ← list_for_ipc_data_block fuel s.block s.queue.free_dbk_header
  elim (first_with_room s.block size blocks) [
    | none ↦ some (s, none)
    | some dbk ↦ do s2 ← take_free fuel s dbk; some (s2, some dbk)
  ]

has_here : (m : ℕ) (xs : List ℕ) → has m (m ∷ xs) ≡ true
has_here m xs = ground arith

pick-Got :
    (fuel : ℕ) (s : Shared) (size n : ℕ) (used free : List ℕ)
    → n < fuel
    → s.queue.cur_w_dbk ≡ 0
    → IsQueue s n used free
    → Got n size (pick fuel s size)
pick-Got fuel s size n used free lt idle q =
    let visit : list_for_ipc_data_block fuel s.block s.queue.free_dbk_header ≡ some free =
      list_for_ipc_data_block-lem fuel s.block _ free (omega (arith, q.total)) q.parts.chain' in
    elim (first_with_room-Picked s.block size free) [
      | inl (e, full) ↦ (s, used, free, q, inl (rw (visit, ◌>>=◌) (rw e refl), idle, full))
      | inr (ys, m, zs, e, split, room) ↦
          let (s', e', cur, same, q') =
            take_free-IsQueue fuel s n used ys m zs lt (rw split at q) in
          let (p, z) = same m in
          (
            s',
            m ∷ used,
            ys ++ zs,
            q',
            inr (
              m,
              rw (visit, ◌>>=◌) (rw e (rw (e', ◌>>=◌) refl)),
              cur,
              has_here m used,
              full-SameRoom (s.block m) (s'.block m) size p z ∙ room,
            ),
          )
    ]

find_block-Got :
    (fuel : ℕ) (s : Shared) (size n : ℕ) (used free : List ℕ)
    → n < fuel
    → 0 < n
    → s.queue.cur_w_dbk ≡ 0
    → IsQueue s n used free
    → Got n size (find_block fuel s size)
unfolding find_block
find_block-Got fuel s size n used [] lt pos idle q =
    let all_used : (s.queue.free_dbk_header == 0) ≡ true = ground (arith, q.parts.chain') in
    let (s1, e, idle1, q1) =
      ipc_dbk_collect-IsQueue fuel s n used [] lt (omega (arith, q.total)) idle q in
    rw (all_used, e) (pick-Got fuel s1 size n _ _ lt idle1 q1)
find_block-Got fuel s size n used (x ∷ free) lt pos idle q =
    let (at, nonzero, _) = q.parts.chain' in
    let some_free : (s.queue.free_dbk_header == 0) ≡ false = ground arith in
    rw some_free (pick-Got fuel s size n used (x ∷ free) lt idle q)

pub has-All {κ} : (P : ℕ → Type κ) (m : ℕ) (xs : List ℕ) → has m xs ≡ true → All P xs → P m
has-All P m [] h k = cc
has-All P m (x ∷ xs) h (p, k) = elim (Bool-cases (m == x)) [
  | inl hit ↦ let e : x ≡ m = ground arith in subst P e p
  | inr miss ↦ has-All P m xs (rw miss at h) k
]

-- The publication of the block that is written to, which is then written to no more.
abbrev closed : Shared → Shared
closed s = record s { queue = record s.queue { cur_w_dbk = 0 } }

pub kept_IsQueue :
    (s s' : Shared) (n : ℕ) (used free : List ℕ)
    → SameLinks s s'
    → SameRoom s.block s'.block
    → (s'.queue.cur_w_dbk ≡ 0) ⊎ (has s'.queue.cur_w_dbk used ≡ true)
    → length s'.queue.readers ≡ length s.queue.readers
    → IsQueue s n used free
    → IsQueue s' n used free
kept_IsQueue s s' n used free links room cur readers q = record {
  parts = SameLinks-Parts s s' used free links q.parts;
  total = q.total;
  fits = Fits-SameRoom s.block s'.block used room q.fits;
  fits' = Fits-SameRoom s.block s'.block free room q.fits';
  current = cur;
  readers = readers ∙ q.readers;
}

publisher-IsQueue :
    (s : Shared) (m : ℕ) (sent : Bool) (n : ℕ) (used free : List ℕ)
    → IsQueue s n used free
    → IsQueue (ipc_publisher_dbk (closed s) m sent) n used free
      × ((ipc_publisher_dbk (closed s) m sent).queue.cur_w_dbk ≡ 0)
unfolding ipc_publisher_dbk publish_block
publisher-IsQueue s m sent n used free q =
    let d = publish_block (closed s).queue (s.block m) in
    let links = put-SameLinks s m d refl refl in
    let room = put-SameRoom s m d refl refl in
    elim sent
      as (λ b.
        IsQueue (ipc_publisher_dbk (closed s) m b) n used free
        × ((ipc_publisher_dbk (closed s) m b).queue.cur_w_dbk ≡ 0)) [
          | true ↦ (
            kept_IsQueue s _ n used free
                (record { used = refl; free = refl; next = links.next; at = links.at }) room
                (inl refl) refl q,
            refl,
          )
          | false ↦ (
            kept_IsQueue s _ n used free
                (record { used = refl; free = refl; next = links.next; at = links.at }) room
                (inl refl) refl q,
            refl,
          )
        ]

-- Another record in the block that is written to.
counted-Got :
    (s : Shared) (size n : ℕ) (used free : List ℕ)
    → has s.queue.cur_w_dbk used ≡ true
    → IsQueue s n used free
    → ipc_queue_dbk_full (s.block s.queue.cur_w_dbk) size ≡ false
    → Got n size (some (counted s s.queue.cur_w_dbk, some s.queue.cur_w_dbk))
counted-Got s size n used free there q room =
    let m = s.queue.cur_w_dbk in
    let d : DataBlock = record (s.block m) { rcd_num = (s.block m).rcd_num + 1 } in
    let links = put-SameLinks s m d refl refl in
    let same = put-SameRoom s m d refl refl in
    let (p, z) = same m in
    let q' =
      kept_IsQueue s (put s m d) n used free
        (record { used = refl; free = refl; next = links.next; at = links.at }) same (inr there)
        refl q in
    (
      put s m d,
      used,
      free,
      q',
      inr (m, refl, refl, there, full-SameRoom (s.block m) ((put s m d).block m) size p z ∙ room),
    )

-- The block that a record of `size` bytes goes to is looked for, in a queue of `n` blocks: the search
-- ends without a fault, the queue is well formed afterwards, and the result is the block that is
-- now written to, used and with room for `size` bytes, or NULL where after the collection every
-- free block is too full.
pub ipc_queue_dbk_get-Got :
    (fuel : ℕ) (s : Shared) (size n : ℕ) (sent : Bool) (used free : List ℕ)
    → n < fuel
    → 0 < n
    → IsQueue s n used free
    → Got n size (ipc_queue_dbk_get fuel s size sent)
unfolding ipc_queue_dbk_get
ipc_queue_dbk_get-Got fuel s size n sent used free lt pos q = elim q.current [
  | inl idle ↦
      let none_written : (s.queue.cur_w_dbk == 0) ≡ true = ground arith in
      rw none_written (find_block-Got fuel s size n used free lt pos idle q)
  | inr there ↦
      let m = s.queue.cur_w_dbk in
      let nonzero : 0 < m =
        has-All (λ x. 0 < x) m used there (Chain-pos s.block _ used q.parts.chain) in
      let written : (m == 0) ≡ false = ground arith in
      elim (Bool-cases (ipc_queue_dbk_full (s.block m) size)) [
        | inl full ↦
            let (q1, idle) = publisher-IsQueue s m sent n used free q in
            rw (written, full)
              (find_block-Got fuel (ipc_publisher_dbk (closed s) m sent) size n used free lt pos
                idle q1)
        | inr room ↦ rw (written, room) (counted-Got s size n used free there q room)
      ]
]
