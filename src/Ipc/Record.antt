-- ===== src/Ipc/Record.antt =====
-- A record written to a queue of ce_util/ce_ipc_shm.c, from the choice of its block to its last byte.
use cloudeagle.Common.{
  ℕ, ◌+◌, ◌%◌, ◌^◌, ◌≤◌, ◌<◌, ◌≡◌, refl, ap, subst, inl, inr, arith, Option, some, List, Bool, true,
  false, ◌==◌, length, Bool-cases,
}
use cloudeagle.Common.Memory.{Memory, Holds, ptr_add}
use cloudeagle.Codec.{WrapBuf}
use cloudeagle.Ipc.{DataBlock, Shared, put, set_block, ◌>>=◌, ipc_queue_dbk_full}
use cloudeagle.Ipc.Write.{DataRecord, write_record, decision_write_area, timed, Env, Place}
use cloudeagle.Ipc.Chain.{All-map}
use cloudeagle.Ipc.Collect.{has}
use cloudeagle.Ipc.Invariant.{Fits, IsQueue, SameLinks-Parts, put-SameLinks}
use cloudeagle.Ipc.Take.{SameRoom, put-SameRoom}
use cloudeagle.Ipc.Find.{has-All, kept_IsQueue}
use cloudeagle.Ipc.Writing.{framed, IsRecord, write_record-lem, Written}

-- What a block with room for `n` bytes has.
room_for :
    (d : DataBlock) (m n : ℕ)
    → d.dbk_pos ≤ d.dbk_size
    → m + d.dbk_size < 2 ^ 31
    → n < 2 ^ 32
    → ipc_queue_dbk_full d n ≡ false
    → d.dbk_pos + n ≤ d.dbk_size
unfolding ipc_queue_dbk_full
room_for d m n le lt small room = ground arith

abbrev grown : Shared → ℕ → ℕ → Shared
grown s m n = put s m (record (s.block m) { dbk_pos = ((s.block m).dbk_pos + n) % 2 ^ 64 })

grown-Fits :
    (s : Shared) (m n : ℕ)
    → (s.block m).dbk_pos + n ≤ (s.block m).dbk_size
    → n < 2 ^ 32
    → (a : ℕ) → Fits s.block a
    → Fits (grown s m n).block a
unfolding set_block
grown-Fits s m n le small a f = elim (Bool-cases (a == m)) [
  | inl hit ↦
      let e : a ≡ m = ground arith in
      let (lo, hi, far) = f in
      let pos = ap (λ (x : ℕ). (s.block x).dbk_pos) e in
      let size = ap (λ (x : ℕ). (s.block x).dbk_size) e in
      rw (hit, set_block) (omega (arith, pos, size), omega (arith, pos, size), omega (arith, size))
  | inr miss ↦ rw (miss, set_block) f
]

grown-IsQueue :
    (s : Shared) (m k n : ℕ) (used free : List ℕ)
    → (s.block m).dbk_pos + k ≤ (s.block m).dbk_size
    → k < 2 ^ 32
    → IsQueue s n used free
    → IsQueue (grown s m k) n used free
grown-IsQueue s m k n used free le small q =
    let links =
      put-SameLinks s m (record (s.block m) { dbk_pos = ((s.block m).dbk_pos + k) % 2 ^ 64 }) refl
        refl in
    let fit = grown-Fits s m k le small in
    record {
      parts =
          SameLinks-Parts s (grown s m k) used free
            (record { used = refl; free = refl; next = links.next; at = links.at }) q.parts;
      total = q.total;
      fits = All-map (Fits s.block) (Fits (grown s m k).block) used fit q.fits;
      fits' = All-map (Fits s.block) (Fits (grown s m k).block) free fit q.fits';
      current = q.current;
      readers = q.readers;
    }

timed-IsQueue :
    (now : ℕ) (s : Shared) (m n : ℕ) (used free : List ℕ)
    → IsQueue s n used free
    → IsQueue (timed now s m) n used free × SameRoom s.block (timed now s m).block
timed-IsQueue now s m n used free q =
    let d : DataBlock = record (s.block m) { first_write_time = now } in
    let links = put-SameLinks s m d refl refl in
    let room = put-SameRoom s m d refl refl in
    elim (Bool-cases ((s.block m).rcd_num == 1)) [
      | inl first ↦ rw first (
        kept_IsQueue s (put s m d) n used free
            (record { used = refl; free = refl; next = links.next; at = links.at }) room q.current
            refl q,
        room,
      )
      | inr later ↦ rw later (q, λ a. (refl, refl))
    ]

grown_here :
    (s : Shared) (m n : ℕ)
    → (s.block m).dbk_pos + n ≤ (s.block m).dbk_size
    → m + (s.block m).dbk_size < 2 ^ 31
    → (((grown s m n).block m).dbk_pos ≡ (s.block m).dbk_pos + n)
      × (((grown s m n).block m).dbk_size ≡ (s.block m).dbk_size)
unfolding set_block
grown_here s m n le far = ground arith

-- The record in the block that was found.
abbrev pub Stored : ℕ → Memory → ℕ → List ℕ → ℕ → Option (Shared × Memory × Bool) → Type 0
Stored n mem base content m r =
    (s' : Shared) × (mem' : Memory) × (used : List ℕ) × (free : List ℕ) × (p : ℕ) × (r
      ≡ some (s', mem', true))
    × IsQueue s' n used free
    × Written s' mem mem' base content used m p

-- The end of ipc_shm_record_write, from decision_write_area on, once the block is found.
abbrev pub finish :
    Env → Place → DataRecord → Memory → Shared → ℕ → ℕ → Option (Shared × Memory × Bool)
finish env place r mem s dbk t_size = do
  let (s2, w) = decision_write_area place.base s dbk mem place.mapped t_size
  w' ← write_record r w
  some (timed env.now s2 dbk, w'.mem, true)

pub finish-Stored :
    (env : Env) (place : Place) (r : DataRecord) (content : List ℕ) (mem : Memory) (s : Shared)
    (m n t : ℕ) (used free : List ℕ)
    → IsQueue s n used free
    → has m used ≡ true
    → ipc_queue_dbk_full (s.block m) t ≡ false
    → IsRecord r content
    → t ≡ length (framed content)
    → t < 2 ^ 32
    → 0 < place.base
    → place.base < 2 ^ 63
    → Stored n mem place.base content m (finish env place r mem s m t)
unfolding decision_write_area
finish-Stored env place r content mem s m n t used free q here room is size small lo hi =
    let (after, inside, far) = has-All (Fits s.block) m used here q.fits in
    let p = (s.block m).dbk_pos in
    let fits : p + t ≤ (s.block m).dbk_size = room_for (s.block m) m t inside far small room in
    let addr = ptr_add (place.base + m) p in
    let w : WrapBuf = record {
      mem = mem;
      mapped = place.mapped;
      start = addr;
      pos = addr;
      end = ptr_add addr t;
    } in
    let at : addr ≡ place.base + m + p = omega arith in
    let (w', e, wrote) =
      write_record-lem r content w is (omega (arith, at)) (omega (arith, at, size)) in
    let s2 = grown s m t in
    let q2 = grown-IsQueue s m t n used free fits small q in
    let (q3, same) = timed-IsQueue env.now s2 m n used free q2 in
    let (pos3, size3) = same m in
    let (pos2, size2) = grown_here s m t fits far in
    (
      timed env.now s2 m,
      w'.mem,
      used,
      free,
      p,
      rw (e, ◌>>=◌) refl,
      q3,
      record {
        used_block = here;
        behind_header = after;
        end = omega (arith, pos3, pos2, size);
        inside = omega (arith, size3, size2, size, fits);
        there = subst (λ (x : ℕ). Holds w'.mem x (framed content)) at wrote.there;
        elsewhere = λ a out. wrote.elsewhere a (omega (arith, at, out));
      },
    )
