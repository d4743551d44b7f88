-- ===== src/Ipc/Published.antt =====
-- A block of ce_util/ce_ipc_shm.c from its publication to its collection.
use cloudeagle.Common.{
  ℕ, zero, suc, ◌≤◌, ◌<◌, ◌≡◌, refl, ap, ◌∙◌, sym, arith, List, [], ◌∷◌, Bool, true, false, length,
  All,
}
use cloudeagle.Ipc.{DataBlock, ReaderInfo, ShmQueue, Shared, ipc_dbk_is_collectalbe, max_reader_num}
use cloudeagle.Ipc.Write.{copy_pids, publish_block, ipc_publisher_dbk}
use cloudeagle.Ipc.Accounting.{outstanding, all_read, OnceEach, Missing}
use cloudeagle.Ipc.Collectable.{Counts, note_all, note_all-collectalbe, put_here}

abbrev pub pids_of : List ReaderInfo → List ℕ
pids_of [] = []
pids_of (r ∷ rs) = r.reader_pid ∷ pids_of rs

-- The first `n` entries are readers.
abbrev pub Readers : ℕ → List ReaderInfo → Type 0
Readers zero rs = Unit
Readers (suc n) [] = ⊥
Readers (suc n) (r ∷ rs) = (0 < r.reader_pid) × Readers n rs

-- The block's entries and the table's are the same, as far as they count.
abbrev Agree : ℕ → List ℕ → List ℕ → Type 0
Agree zero ps qs = Unit
Agree (suc n) (p ∷ ps) (q ∷ qs) = (p ≡ q) × Agree n ps qs
Agree (suc n) [] qs = ⊥
Agree (suc n) (p ∷ ps) [] = ⊥

copy_pids-Agree :
    (n : ℕ) (rs : List ReaderInfo) (pids : List ℕ)
    → n ≤ length pids
    → Readers n rs
    → Agree n (copy_pids n rs pids) (pids_of rs)
unfolding copy_pids
copy_pids-Agree zero rs pids le h = tt
copy_pids-Agree (suc n) [] pids le h = absurd h
copy_pids-Agree (suc n) (r ∷ rs) [] le h = absurd (omega arith)
copy_pids-Agree (suc n) (r ∷ rs) (p ∷ pids) le (pos, h) =
    (refl, copy_pids-Agree n rs pids (omega arith) h)

Agree-all_read :
    (order : List ℕ) (n : ℕ) (ps qs : List ℕ)
    → Agree n ps qs
    → all_read order n ps ≡ all_read order n qs
Agree-all_read order zero ps qs h = refl
Agree-all_read order (suc n) (p ∷ ps) (q ∷ qs) (e, h) = rw (e, Agree-all_read order n ps qs h)
Agree-all_read order (suc n) [] qs h = absurd h
Agree-all_read order (suc n) (p ∷ ps) [] h = absurd h

Agree-Missing : (n x : ℕ) (ps qs : List ℕ) → Agree n ps qs → Missing n x qs → Missing n x ps
Agree-Missing zero x ps qs h m = tt
Agree-Missing (suc n) x (p ∷ ps) (q ∷ qs) (e, h) (ne, m) = (rw e ne, Agree-Missing n x ps qs h m)
Agree-Missing (suc n) x [] qs h m = absurd h
Agree-Missing (suc n) x (p ∷ ps) [] h m = absurd h

Agree-OnceEach : (n : ℕ) (ps qs : List ℕ) → Agree n ps qs → OnceEach n qs → OnceEach n ps
Agree-OnceEach zero ps qs h o = tt
Agree-OnceEach (suc n) (p ∷ ps) (q ∷ qs) (e, h) (far, o) =
    ((λ pos. rw e (Agree-Missing n q ps qs h (far (rw e at pos)))), Agree-OnceEach n ps qs h o)
Agree-OnceEach (suc n) [] qs h o = absurd h
Agree-OnceEach (suc n) (p ∷ ps) [] h o = absurd h

Agree-outstanding :
    (n : ℕ) (ps : List ℕ) (rs : List ReaderInfo)
    → Agree n ps (pids_of rs)
    → Readers n rs
    → outstanding n ps ≡ n
Agree-outstanding zero ps rs h r = refl
Agree-outstanding (suc n) (p ∷ ps) (r ∷ rs) (e, h) (pos, k) =
    ground (arith, Agree-outstanding n ps rs h k)
Agree-outstanding (suc n) [] rs h k = absurd h
Agree-outstanding (suc n) (p ∷ ps) [] h k = absurd h

publish_block-Counts :
    (q : ShmQueue) (d : DataBlock)
    → q.ref_count ≤ max_reader_num
    → length d.reader_pid ≡ max_reader_num
    → Readers q.ref_count q.readers
    → OnceEach q.ref_count (pids_of q.readers)
    → Counts q.ref_count (publish_block q d)
unfolding publish_block
publish_block-Counts q d few five rs once =
    let agree = copy_pids-Agree q.ref_count q.readers d.reader_pid (omega (arith, five)) rs in
    record {
      count = sym (Agree-outstanding q.ref_count _ q.readers agree rs);
      small = omega arith;
      once = Agree-OnceEach q.ref_count _ (pids_of q.readers) agree once;
      done = λ e. cc;
    }

ipc_publisher_dbk-block :
    (s : Shared) (m : ℕ) (sent : Bool)
    → ((ipc_publisher_dbk s m sent).block m ≡ publish_block s.queue (s.block m))
      × ((ipc_publisher_dbk s m sent).queue.ref_count ≡ s.queue.ref_count)
unfolding ipc_publisher_dbk
ipc_publisher_dbk-block s m true = (put_here s m _, refl)
ipc_publisher_dbk-block s m false = (put_here s m _, refl)

-- A block is published while the queue's readers are distinct processes, and then any processes
-- note in any order that they have read it, while no reader comes or goes: the block can be
-- collected exactly when each of the readers is among them.
pub note_all-ipc_publisher_dbk :
    (s : Shared) (m : ℕ) (sent : Bool) (order : List ℕ)
    → s.queue.ref_count ≤ max_reader_num
    → length (s.block m).reader_pid ≡ max_reader_num
    → Readers s.queue.ref_count s.queue.readers
    → OnceEach s.queue.ref_count (pids_of s.queue.readers)
    → All (λ x. 0 < x) order
    → ipc_dbk_is_collectalbe ((note_all (ipc_publisher_dbk s m sent) m order).block m)
      ≡ all_read order s.queue.ref_count (pids_of s.queue.readers)
note_all-ipc_publisher_dbk s m sent order few five rs once pos =
    let s' = ipc_publisher_dbk s m sent in
    let (here, n) = ipc_publisher_dbk-block s m sent in
    let c = publish_block-Counts s.queue (s.block m) few five rs once in
    let agree =
      copy_pids-Agree s.queue.ref_count s.queue.readers (s.block m).reader_pid (omega (arith, five))
        rs in
    note_all-collectalbe s' m order pos (rw (n, here) c)
    ∙ ap (λ (k : ℕ). all_read order k (s'.block m).reader_pid) n
    ∙ ap (λ (d : DataBlock). all_read order s.queue.ref_count d.reader_pid) here
    ∙ unfold publish_block in
      Agree-all_read order s.queue.ref_count _ (pids_of s.queue.readers) agree
