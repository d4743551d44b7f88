-- ===== src/Ipc/Interleaved.antt =====
-- What holds of a queue of ce_util/ce_ipc_shm.c in whatever order the processes take their steps.
use cloudeagle.Common.{
  ℕ, ◌+◌, ◌^◌, ◌≤◌, ◌<◌, ◌≡◌, refl, sym, ap, ◌∙◌, subst, ◌⊎◌, arith, some, none, List, Bool, true,
  false, length, All,
}
use cloudeagle.Common.Memory.{Memory}
use cloudeagle.Ipc.{Shared, ipc_queue_dbk_full}
use cloudeagle.Ipc.Write.{DataRecord, Env, Place, ipc_queue_dbk_get, write_failed}
use cloudeagle.Ipc.Collect.{has}
use cloudeagle.Ipc.Take.{Full}
use cloudeagle.Ipc.Invariant.{IsQueue, Fits}
use cloudeagle.Ipc.Find.{has-All, ipc_queue_dbk_get-Got}
use cloudeagle.Ipc.Dead.{Undisturbed-IsQueue, write_failed-Undisturbed}
use cloudeagle.Ipc.Writing.{framed, length-framed, IsRecord, Written}
use cloudeagle.Ipc.Record.{finish, finish-Stored}
use cloudeagle.Ipc.System.{
  Writer, idle, holding, Allowed, total_size, WriterStep, get, refuse, fill, Reach, start, write,
  other,
}
use cloudeagle.Ipc.Steps.{Safe, results, got, refused, OtherStep-Safe}

-- The next half of a write: the choice of a block for `r`, or the bytes of the record held.
abbrev pub Next : ℕ → Place → ℕ → Env → DataRecord → Shared → Memory → Writer → Type 0
Next n place fuel env r s mem idle =
    (s1 : Shared) × (used : List ℕ) × (free : List ℕ) × IsQueue s1 n used free
    × (((dbk : ℕ) × (ipc_queue_dbk_get fuel s (total_size r) env.sent ≡ some (s1, some dbk))
          × (has dbk used ≡ true)
          × (ipc_queue_dbk_full (s1.block dbk) (total_size r) ≡ false))
        ⊎ ((s2 : Shared) × (ipc_queue_dbk_get fuel s (total_size r) env.sent ≡ some (s1, none))
            × All (Full s1.block (total_size r)) free
            × (write_failed fuel env.proc_exist s1 ≡ some s2)))
Next n place fuel env r s mem (holding dbk r') =
    (s2 : Shared) × (mem2 : Memory) × (used : List ℕ) × (p : ℕ) × (content : List ℕ) × IsRecord r'
      content
    × (finish env place r' mem s dbk (total_size r') ≡ some (s2, mem2, true))
    × Written s2 mem mem2 place.base content used dbk p

module _ (n : ℕ) (place : Place) (mem0 : Memory) where
  WriterStep-Safe :
      {fuel : ℕ} {s s' : Shared} {mem mem' : Memory} {w w' : Writer}
      → n < fuel
      → 0 < n
      → 0 < place.base
      → place.base < 2 ^ 63
      → Safe n place mem0 s mem w
      → WriterStep fuel place s mem w s' mem' w'
      → Allowed w'
      → Safe n place mem0 s' mem' w'
  WriterStep-Safe {fuel} {s} {s'} lt pos lo hi z (get {dbk = dbk} r sent e) (content, is, small) =
      let (used, free, q, here, room) =
        got s s' n (total_size r) dbk _
          (ipc_queue_dbk_get-Got fuel s (total_size r) n sent z.used z.free lt pos z.queue) e in
      record {
        used = used;
        free = free;
        queue = q;
        held = (here, room, content, is, small);
        outside = z.outside;
      }
  WriterStep-Safe {fuel} {s} {s'} lt pos lo hi z (refuse {s1 = s1} r env e e') _ =
      let (used, free, q) =
        refused s s1 n (total_size r) _
          (ipc_queue_dbk_get-Got fuel s (total_size r) n env.sent z.used z.free lt pos z.queue) e in
      let (s2, e2, u) = write_failed-Undisturbed fuel n used free lt env.proc_exist s1 q in
      let same : s2 ≡ s' = results (sym e2 ∙ e') in
      record {
        used = used;
        free = free;
        queue = subst (λ x. IsQueue x n used free) same (Undisturbed-IsQueue s1 s2 n used free u q);
        held = tt;
        outside = z.outside;
      }
  WriterStep-Safe {s} {s'} {mem} {mem'} lt pos lo hi z (fill {dbk = dbk} {r = r} env e) _ =
      let (here, room, content, is, small) = z.held in
      let size : total_size r ≡ length (framed content) =
        omega (arith, is.size, length-framed content) in
      let (s1, mem1, used, free, p, e1, q, w) =
        finish-Stored env place r content mem s dbk n (total_size r) z.used z.free z.queue here room
          is size (omega arith) lo hi in
      let same : s1 ≡ s' = ap (λ (x : Shared × Memory × Bool). x.0) (results (sym e1 ∙ e)) in
      let same' : mem1 ≡ mem' = ap (λ (x : Shared × Memory × Bool). x.1) (results (sym e1 ∙ e)) in
      let (after, inside, far) = has-All (Fits s1.block) dbk used w.used_block q.fits in
      record {
        used = used;
        free = free;
        queue = subst (λ x. IsQueue x n used free) same q;
        held = tt;
        outside =
            subst (λ m. (a : ℕ) → (a < place.base) ⊎ (place.base + 2 ^ 31 ≤ a) → m a ≡ mem0 a) same'
              (λ a out. w.elsewhere a (omega (arith, out, far, w.inside)) ∙ z.outside a out);
      }

-- A queue of `n` blocks at an address below 2 ^ 63, in any order of the steps of the writers, the
-- thread that looks for blocks that wait too long, processes that end, and readers that come, go and
-- read: the queue stays well formed, the block that a writer holds stays a used one with room for its
-- record, and outside of the 2 ^ 31 bytes from the queue's address on memory stays as it was.
pub Reach-Safe :
    (fuel n : ℕ) (place : Place) (s : Shared) (mem : Memory) (used free : List ℕ) (s' : Shared)
    (mem' : Memory) (w : Writer)
    → n < fuel
    → 0 < n
    → 0 < place.base
    → place.base < 2 ^ 63
    → IsQueue s n used free
    → Reach fuel place s mem s' mem' w
    → Safe n place mem s' mem' w
Reach-Safe fuel n place s mem used free s' mem' w lt pos lo hi q start = record {
  used = used;
  free = free;
  queue = q;
  held = tt;
  outside = λ a out. refl;
}
Reach-Safe fuel n place s mem used free s' mem' w lt pos lo hi q (write before step allowed) =
    WriterStep-Safe n place mem lt pos lo hi
      (Reach-Safe fuel n place s mem used free _ _ _ lt pos lo hi q before) step allowed
Reach-Safe fuel n place s mem used free s' mem' w lt pos lo hi q (other before step) =
    OtherStep-Safe n place mem lt
      (Reach-Safe fuel n place s mem used free _ _ w lt pos lo hi q before) step
