-- ===== src/Ipc/Lost.antt =====
-- A block of ce_util/ce_ipc_shm.c that a reader behind the end of the table has to read.
use cloudeagle.Common.{
  ℕ, zero, suc, ◌^◌, ◌<◌, ◌≡◌, refl, arith, none, List, [], ◌∷◌, false, ◌==◌, ◌&&◌, ltb, All,
  Bool-cases, inl, inr,
}
use cloudeagle.Ipc.{reading, Shared, ipc_dbk_is_collectalbe}
use cloudeagle.Ipc.Readers.{settle}
use cloudeagle.Ipc.Read.{getpid_index, note_read}
use cloudeagle.Ipc.Accounting.{outstanding}
use cloudeagle.Ipc.Collectable.{put_here, note_all}

none-outstanding :
    (n x : ℕ) (pids : List ℕ) → 0 < x → outstanding n pids ≡ 0 → getpid_index n x pids ≡ none
unfolding getpid_index
none-outstanding zero x pids pos h = refl
none-outstanding (suc n) x [] pos h = refl
none-outstanding (suc n) x (p ∷ pids) pos h = elim (Bool-cases (p == 0)) [
  | inl gone ↦
      let other : (p == x) ≡ false = ground arith in
      let k = rw gone at h in rw (other, none-outstanding n x pids pos (omega (arith, k))) refl
  | inr there ↦ absurd (let k = rw there at h in omega (arith, k))
]

-- The block and the number of readers stay as they are.
note_read-lost :
    (s : Shared) (x m : ℕ)
    → 0 < x
    → 0 < (s.block m).read_count
    → outstanding s.queue.ref_count (s.block m).reader_pid ≡ 0
    → ((note_read s x m).block m ≡ s.block m)
      × ((note_read s x m).queue.ref_count ≡ s.queue.ref_count)
unfolding note_read settle
note_read-lost s x m pos left h =
    let d = s.block m in
    let nobody = none-outstanding s.queue.ref_count x d.reader_pid pos h in
    let more : (d.read_count == 0) ≡ false = ground arith in
    elim (Bool-cases (ltb 0 d.read_count && ltb d.read_count (2 ^ 63))) [
      | inl some_left ↦ rw (some_left, nobody, more) (put_here s m d, refl)
      | inr over ↦ rw (over, more) (put_here s m d, refl)
    ]

-- A block still counts a reader, but the entries of its table as far as the queue has readers are
-- all struck out, as they are once an earlier reader of two was removed: whoever notes then that it
-- has read the block, in any order and however often, the block can not be collected.
pub note_all-lost :
    (s : Shared) (m : ℕ) (order : List ℕ)
    → 0 < (s.block m).read_count
    → (s.block m).dbk_state ≡ reading
    → outstanding s.queue.ref_count (s.block m).reader_pid ≡ 0
    → All (λ x. 0 < x) order
    → ipc_dbk_is_collectalbe ((note_all s m order).block m) ≡ false
unfolding note_all ipc_dbk_is_collectalbe
note_all-lost s m [] left state h pos =
    let more : ((s.block m).read_count == 0) ≡ false = ground arith in rw (more, state) refl
note_all-lost s m (x ∷ order) left state h (px, pos) =
    let (same, n) = note_read-lost s x m px left h in
    note_all-lost (note_read s x m) m order (rw same left) (rw same state) (rw (n, same) h) pos
