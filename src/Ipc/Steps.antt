-- ===== src/Ipc/Steps.antt =====
-- The steps of the other processes, and results of the writer's calls, of ce_util/ce_ipc_shm.c: what
-- they leave of a well-formed queue.
use cloudeagle.Common.{
  ℕ, ◌+◌, ◌^◌, ◌≤◌, ◌<◌, ◌≡◌, sym, ap, ◌∙◌, subst, ◌⊎◌, inl, inr, Option, none, some, List, Bool,
  true, false, length,
}
use mathlib.Core.Option
use cloudeagle.Common.Memory.{Memory}
use cloudeagle.Ipc.{Shared, ipc_queue_dbk_full}
use cloudeagle.Ipc.Write.{Place}
use cloudeagle.Ipc.Collect.{has}
use cloudeagle.Ipc.Invariant.{IsQueue}
use cloudeagle.Ipc.Take.{SameRoom, full-SameRoom}
use cloudeagle.Ipc.Find.{Got}
use cloudeagle.Ipc.Dead.{Undisturbed, Undisturbed-IsQueue, info_clean-Undisturbed}
use cloudeagle.Ipc.Writing.{IsRecord}
use cloudeagle.Ipc.Timeout.{
  Published, Published-IsQueue, check_queue-Published, exit_queue-Published,
}
use cloudeagle.Ipc.Joining.{Joined, note_read-Undisturbed, ipc_shm_reader_register-Joined}
use cloudeagle.Ipc.System.{
  Writer, idle, holding, total_size, OtherStep, timeout, leave, note, register, clean,
}

-- The block that the writer holds is a used one with room for its record.
abbrev pub Held : Shared → List ℕ → Writer → Type 0
Held s used idle = Unit
Held s used (holding dbk r) =
    (has dbk used ≡ true)
    × (ipc_queue_dbk_full (s.block dbk) (total_size r) ≡ false)
    × (content : List ℕ) × IsRecord r content
    × (length content + 5 < 2 ^ 32)

Held-SameRoom :
    (s s' : Shared) (used : List ℕ) (w : Writer)
    → SameRoom s.block s'.block
    → Held s used w
    → Held s' used w
Held-SameRoom s s' used idle room h = tt
Held-SameRoom s s' used (holding dbk r) room (here, fits, content, is, small) =
    let (p, z) = room dbk in
    (here, full-SameRoom (s.block dbk) (s'.block dbk) (total_size r) p z ∙ fits, content, is, small)

-- The queue is well formed, the writer's block is right, and outside of the 2 ^ 31 bytes from the
-- queue's address on memory is as it was.
pub record Safe (n : ℕ) (place : Place) (mem0 : Memory) (s : Shared) (mem : Memory) (w : Writer)
    : Type 0 where
  pub used : List ℕ
  pub free : List ℕ
  pub queue : IsQueue s n used free
  pub held : Held s used w
  pub outside : (a : ℕ) → (a < place.base) ⊎ (place.base + 2 ^ 31 ≤ a) → mem a ≡ mem0 a

pub results {ℓ} : {A : Type ℓ} {a b : A} → some a ≡ some b → a ≡ b
results {a = a} {b = b} e = Option.some-injective a b e

pub no_result {ℓ} : {A : Type ℓ} {a : A} → ◌≡◌ {A = Option A} none (some a) → ⊥
no_result e = cc

pub joined :
    (s s' : Shared) (ok : Bool) (r : Option (Shared × Bool))
    → Joined s r
    → r ≡ some (s', ok)
    → Undisturbed s s'
joined s s' ok r (inl fault) e = absurd (no_result (sym fault ∙ e))
joined s s' ok r (inr (s1, ok1, e1, u)) e =
    let same : s1 ≡ s' = ap (λ (x : Shared × Bool). x.0) (results (sym e1 ∙ e)) in
    subst (λ x. Undisturbed s x) same u

pub got :
    (s s' : Shared) (n size dbk : ℕ) (r : Option (Shared × Option ℕ))
    → Got n size r
    → r ≡ some (s', some dbk)
    → (used : List ℕ) × (free : List ℕ) × IsQueue s' n used free
      × (has dbk used ≡ true)
      × (ipc_queue_dbk_full (s'.block dbk) size ≡ false)
got s s' n size dbk r (s1, used, free, q, inl (e1, none_held, full)) e =
    absurd (no_result (ap (λ (x : Shared × Option ℕ). x.1) (results (sym e1 ∙ e))))
got s s' n size dbk r (s1, used, free, q, inr (m, e1, cur, here, room)) e =
    let both = results (sym e1 ∙ e) in
    let same : s1 ≡ s' = ap (λ (x : Shared × Option ℕ). x.0) both in
    let it : m ≡ dbk = results (ap (λ (x : Shared × Option ℕ). x.1) both) in
    (
      used,
      free,
      subst (λ x. IsQueue x n used free) same q,
      subst (λ x. has x used ≡ true) it here,
      ap (λ (x : Shared). ipc_queue_dbk_full (x.block dbk) size) (sym same)
          ∙ ap (λ x. ipc_queue_dbk_full (s1.block x) size) (sym it)
          ∙ room,
    )

pub refused :
    (s s' : Shared) (n size : ℕ) (r : Option (Shared × Option ℕ))
    → Got n size r
    → r ≡ some (s', none)
    → (used : List ℕ) × (free : List ℕ) × IsQueue s' n used free
refused s s' n size r (s1, used, free, q, found) e = elim found [
  | inl (e1, none_held, full) ↦
      let same : s1 ≡ s' = ap (λ (x : Shared × Option ℕ). x.0) (results (sym e1 ∙ e)) in
      (used, free, subst (λ x. IsQueue x n used free) same q)
  | inr (m, e1, cur, here, room) ↦
      absurd (no_result (sym (ap (λ (x : Shared × Option ℕ). x.1) (results (sym e1 ∙ e)))))
]

module _ (n : ℕ) (place : Place) (mem0 : Memory) where
  Undisturbed-Safe :
      (s s' : Shared) (mem : Memory) (w : Writer)
      → (z : Safe n place mem0 s mem w) → Undisturbed s s'
      → Safe n place mem0 s' mem w
  Undisturbed-Safe s s' mem w z u = record {
    used = z.used;
    free = z.free;
    queue = Undisturbed-IsQueue s s' n z.used z.free u z.queue;
    held = Held-SameRoom s s' z.used w u.room z.held;
    outside = z.outside;
  }

  Published-Safe :
      (s s' : Shared) (mem : Memory) (w : Writer)
      → (z : Safe n place mem0 s mem w) → Published s s'
      → Safe n place mem0 s' mem w
  Published-Safe s s' mem w z p = record {
    used = z.used;
    free = z.free;
    queue = Published-IsQueue s s' n z.used z.free p z.queue;
    held = Held-SameRoom s s' z.used w p.room z.held;
    outside = z.outside;
  }

  pub OtherStep-Safe :
      {fuel : ℕ} {s s' : Shared} {mem : Memory} {w : Writer}
      → n < fuel
      → Safe n place mem0 s mem w
      → OtherStep fuel s s'
      → Safe n place mem0 s' mem w
  OtherStep-Safe {s} {mem} {w} lt z (timeout now sent) =
      Published-Safe s _ mem w z (check_queue-Published now sent s)
  OtherStep-Safe {s} {mem} {w} lt z (leave sent) =
      Published-Safe s _ mem w z (exit_queue-Published sent s)
  OtherStep-Safe {s} {mem} {w} lt z (note pid dbk) =
      Undisturbed-Safe s _ mem w z (note_read-Undisturbed s pid dbk)
  OtherStep-Safe {fuel} {s} {s'} {mem} {w} lt z (register {ok = ok} pid name connected e) =
      Undisturbed-Safe s s' mem w z (
        joined s s' ok _
          (ipc_shm_reader_register-Joined fuel n z.used z.free lt s pid name connected z.queue) e)
  OtherStep-Safe {fuel} {s} {s'} {mem} {w} lt z (clean pid e) =
      let (s1, e1, u) = info_clean-Undisturbed fuel n z.used z.free lt s pid z.queue in
      let same : s1 ≡ s' = results (sym e1 ∙ e) in
      Undisturbed-Safe s s' mem w z (subst (λ x. Undisturbed s x) same u)
