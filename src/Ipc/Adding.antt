-- ===== src/Ipc/Adding.antt =====
-- The registration of a reader of ce_util/ce_ipc_shm.c, on the list of readers that the table is.
use cloudeagle.Common.{
  ℕ, zero, suc, ◌≤◌, take, drop, get_elem?, ◌+◌, ◌-◌, ◌<◌, ◌≡◌, refl, sym, ap, ◌∙◌, ◌⊎◌, inl, inr,
  arith, Option, none, some, List, [], ◌∷◌, ◌++◌, true, false, ◌==◌, if◌then◌else◌, length,
  length-append, modify, All, Bool-cases,
}
use mathlib.Core.Option
use cloudeagle.Ipc.{ReaderInfo, ShmQueue, max_reader_num}
use cloudeagle.Ipc.Readers.{
  reader_name_len, strncmp_eq, overwrite, find_name_from, ipc_shm_queue_reader_find_by_name,
  ipc_shm_queue_reader_info_init, free_from, ipc_shm_queue_reader_free, ipc_shm_queue_reader_add,
}
use cloudeagle.Ipc.Chain.{All-split}
use cloudeagle.Ipc.Table.{Table, modify-append}

-- With the new pid of the first reader that has the name, if there is one.
abbrev pub renewed : ℕ → List ℕ → List ReaderInfo → Option (List ReaderInfo)
renewed pid name [] = none
renewed pid name (r ∷ rs) =
    if strncmp_eq reader_name_len r.reader_name (name ++ 0 ∷ [])
    then some (record r { reader_pid = pid; free = false } ∷ rs)
    else Option.map (λ l. r ∷ l) (renewed pid name rs)

-- Where a reader is found by its name.
find_name_from-lem :
    (k pid : ℕ) (name : List ℕ) (rs rest : List ReaderInfo)
    → ((find_name_from (length rs) k (rs ++ rest) name ≡ none) × (renewed pid name rs ≡ none))
      ⊎ ((i : ℕ) × (find_name_from (length rs) k (rs ++ rest) name ≡ some (k + i))
          × (rs' : List ReaderInfo) × (renewed pid name rs ≡ some rs')
          × (length rs' ≡ length rs)
          × (modify i (λ (r : ReaderInfo). record r { reader_pid = pid; free = false }) (rs ++ rest)
              ≡ rs' ++ rest))
unfolding find_name_from
find_name_from-lem k pid name [] rest = inl (refl, refl)
find_name_from-lem k pid name (r ∷ rs) rest =
    elim (Bool-cases (strncmp_eq reader_name_len r.reader_name (name ++ 0 ∷ []))) [
      | inl hit ↦ inr (
        0,
        rw hit (ap some (omega arith)),
        record r { reader_pid = pid; free = false } ∷ rs,
        rw hit refl,
        refl,
        refl,
      )
      | inr miss ↦ elim (find_name_from-lem (k + 1) pid name rs rest) [
        | inl (e, same) ↦ inl (rw (miss, e) refl, rw (miss, same) refl)
        | inr (i, e, rs', new, n, there) ↦ inr (
          suc i,
          rw (miss, e) (ap some (omega arith)),
          r ∷ rs',
          rw (miss, new) refl,
          ap suc n,
          ap (λ (l : List ReaderInfo). r ∷ l) there,
        )
      ]
    ]

reader_find_by_name-Table :
    (q : ShmQueue) (pid : ℕ) (name : List ℕ) (rs : List ReaderInfo)
    → (t : Table q rs)
    → ((ipc_shm_queue_reader_find_by_name q name ≡ none) × (renewed pid name rs ≡ none))
      ⊎ ((i : ℕ) × (ipc_shm_queue_reader_find_by_name q name ≡ some i)
          × (rs' : List ReaderInfo) × (renewed pid name rs ≡ some rs')
          × (length rs' ≡ length rs)
          × (modify i (λ (r : ReaderInfo). record r { reader_pid = pid; free = false }) q.readers
              ≡ rs' ++ t.rest))
unfolding ipc_shm_queue_reader_find_by_name
reader_find_by_name-Table q pid name rs t = elim (find_name_from-lem 0 pid name rs t.rest) [
  | inl (e, new) ↦ inl (rw (t.count, t.all) e, new)
  | inr (i, e, rs', old, n, there) ↦
      inr (i, rw (t.count, t.all) (e ∙ ap some (omega arith)), rs', old, n, rw t.all there)
]

-- The first entry behind the readers is free.
free_from-lem :
    (rs : List ReaderInfo) (r : ReaderInfo) (rest : List ReaderInfo)
    → r.free ≡ true
    → free_from (length rs) (rs ++ r ∷ rest) ≡ some (length rs)
unfolding free_from
free_from-lem [] r rest e = rw e refl
free_from-lem (x ∷ rs) r rest e =
    let later : (suc (length rs) == 0) ≡ false = ground arith in
    let one : suc (length rs) - 1 ≡ length rs = omega arith in
    rw (later, one, free_from-lem rs r rest e) refl

-- The entry of a new reader, in place of a free one: no more than READER_NAME_LEN bytes of the name,
-- over the first bytes of the name that stood there.
abbrev pub entered : ℕ → List ℕ → ReaderInfo → ReaderInfo
entered pid name r = record {
  reader_pid = pid;
  reader_name =
      take reader_name_len name ++ drop (length (take reader_name_len name)) r.reader_name;
  free = false;
  rcv_cnt = 0;
}

abbrev pub Named : ReaderInfo → Type 0
Named r = length r.reader_name ≡ reader_name_len

length-take-le : (n : ℕ) (xs : List ℕ) → length (take n xs) ≤ n
length-take-le zero xs = omega arith
length-take-le (suc n) [] = omega arith
length-take-le (suc n) (x ∷ xs) = omega (arith, length-take-le n xs)

overwrite-lem :
    (bs dst : List ℕ) → length bs ≤ length dst → overwrite bs dst ≡ bs ++ drop (length bs) dst
unfolding overwrite
overwrite-lem [] dst le = refl
overwrite-lem (b ∷ bs) [] le = absurd (omega arith)
overwrite-lem (b ∷ bs) (d ∷ dst) le =
    ap (λ (l : List ℕ). b ∷ l) (overwrite-lem bs dst (omega arith))

info_init-entered :
    (r : ReaderInfo) (pid : ℕ) (name : List ℕ)
    → Named r
    → ipc_shm_queue_reader_info_init r pid false name ≡ entered pid name r
unfolding ipc_shm_queue_reader_info_init
info_init-entered r pid name n =
    let short = length-take-le reader_name_len name in
    rw (overwrite-lem (take reader_name_len name) r.reader_name (omega (arith, n, short))) refl

get_elem?-append :
    (rs : List ReaderInfo) (r : ReaderInfo) (rest : List ReaderInfo)
    → get_elem? (rs ++ r ∷ rest) (length rs) ≡ some r
get_elem?-append [] r rest = refl
get_elem?-append (x ∷ rs) r rest = get_elem?-append rs r rest

-- A new reader in the first free entry.
abbrev New : ShmQueue → ℕ → List ℕ → List ReaderInfo → Type 0
New q pid name rs =
    (q' : ShmQueue) × (ipc_shm_queue_reader_add q pid name ≡ some q')
    × (r : ReaderInfo) × (get_elem? q.readers (length rs) ≡ some r)
    × (r.free ≡ true)
    × Table q' (rs ++ entered pid name r ∷ [])

append_one :
    (rs : List ReaderInfo) (r : ReaderInfo) (rest : List ReaderInfo)
    → (rs ++ r ∷ []) ++ rest ≡ rs ++ r ∷ rest
append_one [] r rest = refl
append_one (x ∷ rs) r rest = ap (λ (l : List ReaderInfo). x ∷ l) (append_one rs r rest)

add-New :
    (q : ShmQueue) (pid : ℕ) (name : List ℕ) (rs rest : List ReaderInfo)
    → ipc_shm_queue_reader_find_by_name q name ≡ none
    → length q.readers ≡ max_reader_num
    → length rs < max_reader_num
    → q.readers ≡ rs ++ rest
    → q.ref_count ≡ length rs
    → All (λ (r : ReaderInfo). r.free ≡ true) rest
    → All Named q.readers
    → New q pid name rs
unfolding ipc_shm_queue_reader_add ipc_shm_queue_reader_free
add-New q pid name rs [] e five few all count unused named =
    absurd (omega (arith, ap (λ (l : List ReaderInfo). length l) all, length-append rs [], five))
add-New q pid name rs (r ∷ rest) e five few all count (u, unused) named =
    let entry = entered pid name r in
    let (first, others) = All-split Named rs (r ∷ rest) (rw all at named) in
    let init = info_init-entered r pid name others.0 in
    let place : ipc_shm_queue_reader_free q ≡ some (length rs) =
      rw (count, all) (free_from-lem rs r rest u) in
    (
      record q {
        ref_count = q.ref_count + 1;
        readers =
            modify (length rs) (λ x. ipc_shm_queue_reader_info_init x pid false name) q.readers;
      },
      rw (e, ipc_shm_queue_reader_add) (rw (place, ipc_shm_queue_reader_add) refl),
      r,
      rw all (get_elem?-append rs r rest),
      u,
      record {
        rest = rest;
        all =
            ap
              (λ (l : List ReaderInfo).
                modify (length rs) (λ x. ipc_shm_queue_reader_info_init x pid false name) l)
              all
            ∙ modify-append (λ x. ipc_shm_queue_reader_info_init x pid false name) rs r rest
            ∙ ap (λ x. rs ++ x ∷ rest) init
            ∙ sym (append_one rs entry rest);
        count = omega (arith, count, length-append rs (entry ∷ []));
        unused = unused;
      },
    )

-- The registration of a reader in a table with room: a reader that has the name gets the new pid, in
-- its place; if there is none, the new reader stands behind the others, where there was a free entry,
-- with the pid, no record read, and at most READER_NAME_LEN bytes of the name over the first bytes of
-- the name that the entry had.
pub ipc_shm_queue_reader_add-Table :
    (q : ShmQueue) (pid : ℕ) (name : List ℕ) (rs : List ReaderInfo)
    → Table q rs
    → length q.readers ≡ max_reader_num
    → length rs < max_reader_num
    → All Named q.readers
    → (q' : ShmQueue) × (ipc_shm_queue_reader_add q pid name ≡ some q')
      × (((rs' : List ReaderInfo) × (renewed pid name rs ≡ some rs') × Table q' rs')
          ⊎ ((renewed pid name rs ≡ none)
              × (r : ReaderInfo) × (get_elem? q.readers (length rs) ≡ some r)
              × (r.free ≡ true)
              × Table q' (rs ++ entered pid name r ∷ [])))
unfolding ipc_shm_queue_reader_add
ipc_shm_queue_reader_add-Table q pid name rs t five few named =
    elim (reader_find_by_name-Table q pid name rs t) [
      | inl (e, new) ↦
          let (q', e', r, here, u, t') =
            add-New q pid name rs t.rest e five few t.all t.count t.unused named in
          (q', e', inr (new, r, here, u, t'))
      | inr (i, e, rs', old, n, there) ↦ (
        record q {
          readers =
              modify i (λ (r : ReaderInfo). record r { reader_pid = pid; free = false }) q.readers;
        },
        rw (e, ipc_shm_queue_reader_add) refl,
        inl (
          rs',
          old,
          record { rest = t.rest; all = there; count = t.count ∙ sym n; unused = t.unused },
        ),
      )
    ]
