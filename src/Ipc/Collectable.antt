-- ===== src/Ipc/Collectable.antt =====
-- When a published block of ce_util/ce_ipc_shm.c can be collected.
use cloudeagle.Common.{
  ℕ, ◌+◌, ◌^◌, ◌<◌, ◌≡◌, refl, ap, ◌∙◌, sym, inl, inr, arith, Option, none, some, List, [], ◌∷◌,
  true, false, ◌==◌, ◌&&◌, ltb, modify, All, Bool-cases, Option-cases,
}
use cloudeagle.Ipc.{
  DataBlock, ReaderInfo, write, reading, readed, free, busy, BlockState, ShmQueue, Shared, put,
  set_block, ipc_dbk_is_collectalbe,
}
use cloudeagle.Ipc.Readers.{strike, settle}
use cloudeagle.Ipc.Read.{getpid_index, note_read}
use cloudeagle.Ipc.Accounting.{
  outstanding, all_read, OnceEach, cross, Crossed, getpid_index-Crossed, OnceEach-cross,
  all_read-cross, all_read-outstanding,
}

-- The block counts the readers that it names, `n` at most, and is DBK_READED only where there are
-- none.
pub record Counts (n : ℕ) (d : DataBlock) : Type 0 where
  pub count : d.read_count ≡ outstanding n d.reader_pid
  pub small : d.read_count < 2 ^ 63
  pub once : OnceEach n d.reader_pid
  pub done : d.dbk_state ≡ readed → d.read_count ≡ 0

collectalbe-Counts :
    (n : ℕ) (d : DataBlock)
    → Counts n d
    → ipc_dbk_is_collectalbe d ≡ (outstanding n d.reader_pid == 0)
unfolding ipc_dbk_is_collectalbe
collectalbe-Counts n d c = elim (Bool-cases (d.read_count == 0)) [
  | inl none_left ↦ rw none_left (ground (arith, c.count))
  | inr some_left ↦
      let left : (outstanding n d.reader_pid == 0) ≡ false = ground (arith, c.count) in
      rw (some_left, left) (by_state d.dbk_state (λ e. let z = c.done e in ground arith))
]
  where
    by_state : (t : BlockState) → (t ≡ readed → ⊥) → (elim t [ readed ↦ true | _ ↦ false ]) ≡ false
    by_state readed h = absurd (h refl)
    by_state write h = refl
    by_state reading h = refl
    by_state free h = refl
    by_state busy h = refl

Counts-settle : (n : ℕ) (d : DataBlock) → Counts n d → Counts n (settle d)
unfolding settle
Counts-settle n d c = elim (Bool-cases (d.read_count == 0)) [
  | inl none_left ↦
      rw none_left
        (record { count = c.count; small = c.small; once = c.once; done = λ e. ground arith })
  | inr some_left ↦ rw some_left c
]

settle-reader_pid : (d : DataBlock) → (settle d).reader_pid ≡ d.reader_pid
unfolding settle
settle-reader_pid d = ground arith

Counts-strike :
    (n x i : ℕ) (d : DataBlock)
    → 0 < d.read_count
    → Counts n d
    → Crossed n x d.reader_pid (some i)
    → Counts n (strike i d)
unfolding strike
Counts-strike n x i d pos c (e, less) = record {
  count = omega (arith, c.count, less, c.small);
  small = omega (arith, c.small);
  once = rw e (OnceEach-cross n x d.reader_pid c.once);
  done = λ r. absurd (let z = c.done r in omega arith);
}

-- What a reader's note does to the block: it counts on, and of the readers named `x` is gone.
abbrev Noted : Shared → ℕ → ℕ → Shared → Type 0
Noted s x m s' =
    (s'.queue.ref_count ≡ s.queue.ref_count)
    × Counts s.queue.ref_count (s'.block m)
    × ((order : List ℕ)
        → all_read order s.queue.ref_count (s'.block m).reader_pid
          ≡ all_read (x ∷ order) s.queue.ref_count (s.block m).reader_pid)

pub put_here : (s : Shared) (m : ℕ) (d : DataBlock) → (put s m d).block m ≡ d
unfolding set_block
put_here s m d = ground arith

abbrev received : ℕ → ShmQueue → ShmQueue
received i q = record q {
  readers = modify i (λ (r : ReaderInfo). record r { rcv_cnt = r.rcv_cnt + 1 }) q.readers;
}

none_named :
    (n x : ℕ) (d : DataBlock) (o : Option ℕ)
    → Counts n d
    → d.read_count ≡ 0
    → Crossed n x d.reader_pid o
    → cross n x d.reader_pid ≡ d.reader_pid
none_named n x d none c zero_left h = h
none_named n x d (some i) c zero_left (e, less) = absurd (omega (arith, c.count, less))

module _ (s : Shared) (x m : ℕ) where
  Noted-as :
      (d : DataBlock) (q : ShmQueue)
      → q.ref_count ≡ s.queue.ref_count
      → Counts s.queue.ref_count d
      → d.reader_pid ≡ cross s.queue.ref_count x (s.block m).reader_pid
      → Noted s x m (record (put s m (settle d)) { queue = q })
  Noted-as d q n c pids =
      let here = put_here s m (settle d) in
      let gone : (settle d).reader_pid ≡ cross s.queue.ref_count x (s.block m).reader_pid =
        settle-reader_pid d ∙ pids in
      (
        n,
        rw here (Counts-settle s.queue.ref_count d c),
        λ order.
            ap (λ (b : DataBlock). all_read order s.queue.ref_count b.reader_pid) here
            ∙ ap (λ (l : List ℕ). all_read order s.queue.ref_count l) gone
            ∙ all_read-cross order s.queue.ref_count x (s.block m).reader_pid,
      )

  note_read-Noted : 0 < x → Counts s.queue.ref_count (s.block m) → Noted s x m (note_read s x m)
  unfolding note_read
  note_read-Noted pos c =
      let d = s.block m in
      let n = s.queue.ref_count in
      let split = getpid_index-Crossed n x d.reader_pid pos c.once in
      elim (Bool-cases (ltb 0 d.read_count && ltb d.read_count (2 ^ 63))) [
        | inl more ↦ elim (Option-cases (getpid_index n x d.reader_pid)) [
          | inl e ↦ rw (more, e, note_read) (Noted-as d s.queue refl c (sym (rw e at split)))
          | inr (i, e) ↦
              let struck : Crossed n x d.reader_pid (some i) = rw e at split in
              rw (more, e, note_read)
                (Noted-as (strike i d) (received i s.queue) refl
                  (Counts-strike n x i d (ground arith) c struck) (unfold strike in struck.0))
        ]
        | inr over ↦
            rw (over, note_read)
              (Noted-as d s.queue refl c
                (sym (none_named n x d (getpid_index n x d.reader_pid) c (ground arith) split)))
      ]

-- The readers that have read a block, in the order in which they are done.
unfoldable pub note_all : Shared → ℕ → List ℕ → Shared
unfolding note_read
note_all s m [] = s
note_all s m (x ∷ order) = note_all (note_read s x m) m order

pub note_all-collectalbe :
    (s : Shared) (m : ℕ) (order : List ℕ)
    → All (λ x. 0 < x) order
    → Counts s.queue.ref_count (s.block m)
    → ipc_dbk_is_collectalbe ((note_all s m order).block m)
      ≡ all_read order s.queue.ref_count (s.block m).reader_pid
unfolding note_all
note_all-collectalbe s m [] pos c =
    collectalbe-Counts s.queue.ref_count (s.block m) c
    ∙ sym (all_read-outstanding s.queue.ref_count (s.block m).reader_pid)
note_all-collectalbe s m (x ∷ order) (px, pos) c =
    let (same, c', read) = note_read-Noted s x m px c in
    let s' = note_read s x m in
    note_all-collectalbe s' m order pos (rw same c')
    ∙ ap (λ (n : ℕ). all_read order n (s'.block m).reader_pid) same
    ∙ read order
