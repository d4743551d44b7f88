-- ===== src/Ipc/Sizes.antt =====
-- calculate_queue_args of ce_util/ce_ipc_shm.c, and a new queue with what it gives.
use native.Mathlib.Nat.{suc-mul, div-add-mod', mul_comm, mod-lt}
use cloudeagle.Common.{
  ℕ, zero, suc, ◌+◌, ◌-◌, ◌*◌, ◌/◌, ◌%◌, ◌≤◌, ◌<◌, ◌≡◌, refl, ap, ◌∙◌, subst, sym, inl, inr, arith,
  Option, none, some, Bool, true, ◌==◌, ◌&&◌, ltb, leb, Bool-cases, Option-cases, if◌then◌else◌,
  ltb→lt, ==_iff,
}
use cloudeagle.Ipc.{DataBlock, Shared, put, ◌>>=◌, block_header_size, queue_header_size}
use cloudeagle.Ipc.Create.{
  QueueArgs, create_block, create_blocks, ipc_shm_queue_data_block_create, calculate_queue_args,
  shrink, block_size_for, publisher_rcd_num, min_dbk_num, init_readers, ipc_shm_queue_init,
}
use cloudeagle.Ipc.Removal.{plain}
use cloudeagle.Ipc.Parts.{ipc_queue_dbk_add-SameBut}
use cloudeagle.Ipc.Tiles.{blocks_end, fresh_block, create_block-lem, put_self}

both_true : (a b : Bool) → (a && b) ≡ true → (a ≡ true) × (b ≡ true)
both_true a b h = ground arith

leb→le : (a b : ℕ) → leb a b ≡ true → a ≤ b
leb→le a b h = ground arith

le→leb : (a b : ℕ) → a ≤ b → leb a b ≡ true
le→leb a b h = ground arith

some_inj : {a b : QueueArgs} → some a ≡ some b → a ≡ b
some_inj h = cc

none-some : {b : QueueArgs} → ◌≡◌ {A = Option QueueArgs} none (some b) → ⊥
none-some h = cc

number : {a b : ℕ} → some a ≡ some b → a ≡ b
number h = cc

no_number : {b : ℕ} → ◌≡◌ {A = Option ℕ} none (some b) → ⊥
no_number h = cc

abbrev pub Sizes : ℕ → QueueArgs → Type 0
Sizes r_queue_size args =
    (blocks_end args ≡ r_queue_size) × (1 < args.dbk_num) × (args.f_dbk_size ≤ args.dbk_size)

pred_mul : (n m : ℕ) → 0 < n → (n - 1) * m + m ≡ n * m
pred_mul zero m pos = absurd (omega arith)
pred_mul (suc n) m pos = let e : suc n - 1 ≡ n = omega arith in rw e (sym (suc-mul n m))

-- How many records the size of a block is for.
shrink-bounds :
    (payload rcd_size j k : ℕ)
    → shrink payload rcd_size j ≡ some k
    → (publisher_rcd_num ≤ k) × (k ≤ publisher_rcd_num + j)
unfolding shrink
shrink-bounds payload rcd zero k h = let e : publisher_rcd_num ≡ k = number h in omega (arith, e)
shrink-bounds payload rcd (suc j) k h =
    let size = block_size_for rcd (publisher_rcd_num + suc j) in
    elim (Bool-cases (size == 0)) [
      | inl nothing ↦ absurd (no_number (rw nothing at h))
      | inr some_size ↦ elim (Bool-cases (ltb (payload / size) min_dbk_num)) [
        | inl few ↦
            let (lo, hi) = shrink-bounds payload rcd j k (rw (some_size, few) at h) in
            (lo, omega (arith, hi))
        | inr enough ↦
            let e : publisher_rcd_num + suc j ≡ k = number (rw (some_size, enough) at h) in
            (omega (arith, e), omega (arith, e))
      ]
    ]

-- The end of calculate_queue_args, with `k` records in a block.
abbrev sized_for : ℕ → ℕ → ℕ → Option QueueArgs
sized_for payload rcd_size k =
    let size = block_size_for rcd_size k in
    let n = payload / size in
    if size == 0
    then none
    else (if ltb min_dbk_num n && leb publisher_rcd_num k
        then (if payload % size == 0
            then some (record { dbk_size = size; f_dbk_size = size; dbk_num = n })
            else some
                (record { dbk_size = size; f_dbk_size = payload - size * n; dbk_num = n + 1 }))
        else none)

abbrev pub Accepted : ℕ → ℕ → QueueArgs → Type 0
Accepted r rcd args =
    Sizes r args
    × (k : ℕ) × (publisher_rcd_num ≤ k)
    × (k ≤ publisher_rcd_num + publisher_rcd_num)
    × (args.dbk_size ≡ block_size_for rcd k)

accepted :
    (r rcd : ℕ) (args : QueueArgs) (k : ℕ)
    → queue_header_size ≤ r
    → publisher_rcd_num ≤ k
    → k ≤ publisher_rcd_num + publisher_rcd_num
    → sized_for (r - queue_header_size) rcd k ≡ some args
    → Accepted r rcd args
accepted r rcd args k le lo hi h =
    let payload = r - queue_header_size in
    let size = block_size_for rcd k in
    let n = payload / size in
    let whole = div-add-mod' payload size in
    elim (Bool-cases (size == 0)) [
      | inl nothing ↦ absurd (none-some (rw nothing at h))
      | inr some_size ↦ elim (Bool-cases (ltb min_dbk_num n && leb publisher_rcd_num k)) [
        | inl enough ↦
            let many : 1 < n =
              ltb→lt 1 n (both_true (ltb min_dbk_num n) (leb publisher_rcd_num k) enough).0 in
            let sum = pred_mul n size (omega arith) in
            let pos : 0 < size = ground arith in
            elim (Bool-cases (payload % size == 0)) [
              | inl even ↦
                  let rest : payload % size ≡ 0 = (==_iff _ 0).0 even in
                  subst (Accepted r rcd) (some_inj (rw (some_size, enough, even) at h))
                    ((omega (arith, sum, whole, rest), many, omega arith), k, lo, hi, refl)
              | inr odd ↦
                  let turn : size * n ≡ n * size = mul_comm size n in
                  let less : payload % size < size = mod-lt payload pos in
                  let back : n + 1 - 1 ≡ n = omega arith in
                  subst (Accepted r rcd) (some_inj (rw (some_size, enough, odd) at h)) (
                    (
                      rw back (omega (arith, whole, turn)),
                      omega arith,
                      omega (arith, whole, turn, less),
                    ),
                    k,
                    lo,
                    hi,
                    refl,
                  )
            ]
        | inr few ↦ absurd (none-some (rw (some_size, few) at h))
      ]
    ]

-- What calculate_queue_args gives: the sizes add up to the queue's, there is more than one block,
-- and all but the last have the size for some number of records from 64 to 128.
pub calculate_queue_args-Sizes :
    (r_queue_size rcd_size : ℕ) (args : QueueArgs)
    → queue_header_size ≤ r_queue_size
    → calculate_queue_args r_queue_size rcd_size ≡ some args
    → Accepted r_queue_size rcd_size args
unfolding calculate_queue_args
calculate_queue_args-Sizes r rcd args le h =
    let whole_size = le→leb queue_header_size r le in
    let payload = r - queue_header_size in
    elim (Option-cases (shrink payload rcd publisher_rcd_num)) [
      | inl nothing ↦ absurd (none-some (rw (whole_size, nothing, ◌>>=◌) at h))
      | inr (k, e) ↦
          let (lo, hi) = shrink-bounds payload rcd publisher_rcd_num k e in
          accepted r rcd args k le lo hi (rw (whole_size, e, ◌>>=◌) at h)
    ]

-- The queue's header, before its blocks are created.
abbrev headed : Shared → ℕ → ℕ → ℕ → ℕ → Shared
headed s offset queue_id r_queue_size rcd_size = record s {
  queue = record s.queue {
    q_id = queue_id;
    q_offset = offset;
    q_len = r_queue_size;
    q_next_offset = 0;
    rcd_max_size = rcd_size;
    cur_w_dbk = 0;
    dbk_header = 0;
    free_dbk_header = 0;
    collect_count = 0;
    ref_count = 0;
    readers = init_readers s.queue.readers;
  };
}

-- Behind its header a block has room for 64 records of the size, with their marks and lengths.
abbrev pub Roomy : ℕ → (ℕ → DataBlock) → ℕ → Type 0
Roomy rcd_size block x = block_header_size + publisher_rcd_num * (rcd_size + 5) ≤ (block x).dbk_size

created :
    (s : Shared) (m size : ℕ)
    → plain ((create_block s m size).block m) ≡ plain (fresh_block s m size)
created s m size =
    let s1 = put s m (fresh_block s m size) in
    rw create_block-lem (
      (ipc_queue_dbk_add-SameBut s1 m true).block m
      ∙ ap plain (put_self s m (fresh_block s m size)))

-- The assertions accept a last block that is smaller than its header: then the header that is
-- written for it ends behind the queue.
pub ipc_shm_queue_init-overrun :
    (s : Shared) (offset queue_id r_queue_size rcd_size : ℕ) (args : QueueArgs)
    → calculate_queue_args r_queue_size rcd_size ≡ some args
    → queue_header_size ≤ r_queue_size
    → args.f_dbk_size < block_header_size
    → (m : ℕ) × (((ipc_shm_queue_init s offset queue_id r_queue_size args rcd_size).block
          m).dbk_offset
        ≡ m)
      × (((ipc_shm_queue_init s offset queue_id r_queue_size args rcd_size).block m).dbk_pos
          ≡ block_header_size)
      × (m + args.f_dbk_size ≡ r_queue_size)
      × (r_queue_size < m + block_header_size)
unfolding ipc_shm_queue_init ipc_shm_queue_data_block_create
ipc_shm_queue_init-overrun s offset queue_id r rcd args h le short =
    let (sizes, k, lo, hi, size) = calculate_queue_args-Sizes r rcd args le h in
    let (sum, many, last) = sizes in
    let m = queue_header_size + (args.dbk_num - 1) * args.dbk_size in
    let before =
      create_blocks (args.dbk_num - 1) (headed s offset queue_id r rcd) queue_header_size
        args.dbk_size in
    (
      m,
      ap (λ (d : DataBlock). d.dbk_offset) (created before m args.f_dbk_size),
      ap (λ (d : DataBlock). d.dbk_pos) (created before m args.f_dbk_size),
      sum,
      omega (arith, sum),
    )
