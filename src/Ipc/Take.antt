-- ===== src/Ipc/Take.antt =====
-- The block that a record goes to, of ce_util/ce_ipc_shm.c: a free block with room becomes the one
-- that is written to.
use cloudeagle.Common.{
  ℕ, suc, ◌+◌, ◌<◌, ◌≡◌, refl, ap, ◌∙◌, ◌⊎◌, inl, inr, arith, none, some, List, [], ◌∷◌, ◌++◌, true,
  false, length, length-append, All, Bool-cases,
}
use cloudeagle.Ipc.{DataBlock, ShmQueue, Shared, write, put, set_block, ipc_queue_dbk_full, ◌>>=◌}
use cloudeagle.Ipc.Blocks.{ipc_queue_dbk_add}
use cloudeagle.Ipc.Write.{first_with_room, take_free}
use cloudeagle.Ipc.Chain.{All-drop, All-map}
use cloudeagle.Ipc.Removal.{SameBut}
use cloudeagle.Ipc.Parts.{
  Parts, Parts-swap, ipc_queue_dbk_mov-Parts, ipc_queue_dbk_add-Parts, ipc_queue_dbk_add-SameBut,
}
use cloudeagle.Ipc.Invariant.{Fits, IsQueue, SameLinks-Parts, put-SameLinks}

abbrev pub Full : (ℕ → DataBlock) → ℕ → ℕ → Type 0
Full block size x = ipc_queue_dbk_full (block x) size ≡ true

-- Either every block is full, or the first that is not is found.
abbrev pub Picked : (ℕ → DataBlock) → ℕ → List ℕ → Type 0
Picked block size xs =
    ((first_with_room block size xs ≡ none) × All (Full block size) xs)
    ⊎ ((ys : List ℕ) × (m : ℕ) × (zs : List ℕ) × (first_with_room block size xs ≡ some m)
        × (xs ≡ ys ++ m ∷ zs)
        × (ipc_queue_dbk_full (block m) size ≡ false))

pub first_with_room-Picked : (block : ℕ → DataBlock) (size : ℕ) (xs : List ℕ) → Picked block size xs
unfolding first_with_room
first_with_room-Picked block size [] = inl (refl, tt)
first_with_room-Picked block size (x ∷ xs) = elim (Bool-cases (ipc_queue_dbk_full (block x) size)) [
  | inl full ↦ rw full (elim (first_with_room-Picked block size xs) [
    | inl (e, h) ↦ inl (e, (refl, h))
    | inr (ys, m, zs, e, split, room) ↦
        inr (x ∷ ys, m, zs, e, ap (λ (l : List ℕ). x ∷ l) split, room)
  ])
  | inr room ↦ rw room (inr ([], x, xs, refl, refl, room))
]

-- Position and size are as they were.
abbrev pub SameRoom : (ℕ → DataBlock) → (ℕ → DataBlock) → Type 0
SameRoom b b' = (a : ℕ) → ((b' a).dbk_pos ≡ (b a).dbk_pos) × ((b' a).dbk_size ≡ (b a).dbk_size)

pub Fits-SameRoom :
    (b b' : ℕ → DataBlock) (xs : List ℕ) → SameRoom b b' → All (Fits b) xs → All (Fits b') xs
Fits-SameRoom b b' xs same h =
    All-map (Fits b) (Fits b') xs
      (λ a f. let (p, z) = same a in (omega (arith, p), omega (arith, p, z), omega (arith, z))) h

pub full-SameRoom :
    (d e : DataBlock) (size : ℕ)
    → e.dbk_pos ≡ d.dbk_pos
    → e.dbk_size ≡ d.dbk_size
    → ipc_queue_dbk_full e size ≡ ipc_queue_dbk_full d size
unfolding ipc_queue_dbk_full
full-SameRoom d e size p z = rw (p, z)

SameBut-SameRoom : (s s' : Shared) → SameBut s s' → SameRoom s.block s'.block
SameBut-SameRoom s s' same a = (
  ap (λ (d : DataBlock). d.dbk_pos) (same.block a),
  ap (λ (d : DataBlock). d.dbk_size) (same.block a),
)

pub put-SameRoom :
    (s : Shared) (m : ℕ) (d : DataBlock)
    → d.dbk_pos ≡ (s.block m).dbk_pos
    → d.dbk_size ≡ (s.block m).dbk_size
    → SameRoom s.block (put s m d).block
unfolding set_block
put-SameRoom s m d p z a = (
  ground (arith, ap (λ (x : ℕ). (s.block x).dbk_pos) {x = a} {y = m}),
  ground (arith, ap (λ (x : ℕ). (s.block x).dbk_size) {x = a} {y = m}),
)

-- A block that is free with room becomes the one that is written to.
pub take_free-IsQueue :
    (fuel : ℕ) (s : Shared) (n : ℕ) (used ys : List ℕ) (m : ℕ) (zs : List ℕ)
    → n < fuel
    → IsQueue s n used (ys ++ m ∷ zs)
    → (s' : Shared) × (take_free fuel s m ≡ some s')
      × (s'.queue.cur_w_dbk ≡ m)
      × SameRoom s.block s'.block
      × IsQueue s' n (m ∷ used) (ys ++ zs)
unfolding take_free
take_free-IsQueue fuel s n used ys m zs lt q =
    let all : length (ys ++ m ∷ zs) ≡ length ys + suc (length zs) = length-append ys (m ∷ zs) in
    let rest : length (ys ++ zs) ≡ length ys + length zs = length-append ys zs in
    let swapped : Parts s true (ys ++ m ∷ zs) used =
      Parts-swap s false used (ys ++ m ∷ zs) q.parts in
    let (s1, e, p1, l, same) =
      ipc_queue_dbk_mov-Parts fuel s true ys m zs used (omega (arith, q.total)) swapped in
    let s2 : Shared = ipc_queue_dbk_add s1 m false in
    let same2 : SameBut s1 s2 = ipc_queue_dbk_add-SameBut s1 m false in
    let p2 : Parts s2 false (m ∷ used) (ys ++ zs) =
      Parts-swap s2 true (ys ++ zs) (m ∷ used)
        (ipc_queue_dbk_add-Parts s1 true m (ys ++ zs) used l p1) in
    let d = s2.block m in
    let s3 : Shared = record s2 {
      queue = record s2.queue { cur_w_dbk = d.dbk_offset };
      block = (put s2 m (record d { dbk_state = write; rcd_num = d.rcd_num + 1 })).block;
    } in
    let links =
      put-SameLinks s2 m (record d { dbk_state = write; rcd_num = d.rcd_num + 1 }) refl refl in
    let room : SameRoom s.block s3.block = λ a.
      let (pa, za) =
        put-SameRoom s2 m (record d { dbk_state = write; rcd_num = d.rcd_num + 1 }) refl refl a in
      let (pb, zb) = SameBut-SameRoom s1 s2 same2 a in
      let (pc, zc) = SameBut-SameRoom s s1 same a in (pa ∙ pb ∙ pc, za ∙ zb ∙ zc) in
    let (fm, fits') = All-drop (Fits s.block) ys m zs q.fits' in
    let at : d.dbk_offset ≡ m = p2.own.0 in
    (
      s3,
      rw (e, ◌>>=◌) refl,
      at,
      room,
      record {
        parts =
            SameLinks-Parts s2 s3 (m ∷ used) (ys ++ zs)
              (record { used = links.used; free = links.free; next = links.next; at = links.at })
              p2;
        total = omega (arith, q.total);
        fits = Fits-SameRoom s.block s3.block (m ∷ used) room (fm, q.fits);
        fits' = Fits-SameRoom s.block s3.block (ys ++ zs) room fits';
        current = inr (ground (arith, at));
        readers = ap (λ (x : ShmQueue). length x.readers) same.queue ∙ q.readers;
      },
    )
