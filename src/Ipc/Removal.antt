-- ===== src/Ipc/Removal.antt =====
-- Taking a block of ce_util/ce_ipc_shm.c off the list that it is on.
use cloudeagle.Common.{
  ℕ, ◌<◌, ◌≡◌, ◌≢◌, refl, ap, ◌∙◌, arith, inl, inr, some, List, [], ◌∷◌, ◌++◌, Bool, true, false,
  not, ◌==◌, length, Bool-cases,
}
use cloudeagle.Ipc.{DataBlock, ShmQueue, Shared, header, set_header, set_block}
use cloudeagle.Ipc.Blocks.{pre_from, ipc_queue_dbk_pre_get, unlink, ipc_queue_dbk_mov}
use cloudeagle.Ipc.Chain.{
  Chain, Fresh, Distinct, Apart, Own, All-split, All-drop, Distinct-drop, Chain-set_block,
  list_for_ipc_data_block-lem, last_or, pre_from-lem, Chain-splice, Chain-pos, last_or-All,
}

-- The two headers of a queue and its blocks, but for the links between these.
abbrev pub bare : ShmQueue → ShmQueue
bare q = record q { dbk_header = 0; free_dbk_header = 0 }

abbrev pub plain : DataBlock → DataBlock
plain d = record d { dbk_next_offset = 0 }

-- Only the links and the headers differ.
pub record SameBut (s s' : Shared) : Type 0 where
  pub queue : bare s'.queue ≡ bare s.queue
  pub block : (a : ℕ) → plain (s'.block a) ≡ plain (s.block a)
  pub notices : s'.notices ≡ s.notices

-- What a list that `m` was on becomes, and that a list apart from it stays.
pub record Removed (s s' : Shared) (is_free : Bool) (ys : List ℕ) (m : ℕ) (zs : List ℕ)
    : Type 0 where
  pub chain : Chain s'.block (header is_free s'.queue) (ys ++ zs)
  pub other :
      (p : ℕ) (xs : List ℕ) → Fresh m xs → Apart ys xs → Chain s.block p xs → Chain s'.block p xs
  pub header_kept : header (not is_free) s'.queue ≡ header (not is_free) s.queue
  pub same : SameBut s s'

pub header-set_header :
    (is_free : Bool) (p : ℕ) (q : ShmQueue)
    → (header is_free (set_header is_free p q) ≡ p)
      × (header (not is_free) (set_header is_free p q) ≡ header (not is_free) q)
      × (bare (set_header is_free p q) ≡ bare q)
header-set_header true p q = (refl, refl, refl)
header-set_header false p q = (refl, refl, refl)

pub set_block-plain :
    (block : ℕ → DataBlock) (m : ℕ) (n : ℕ) (a : ℕ)
    → plain (set_block block m (record (block m) { dbk_next_offset = n }) a) ≡ plain (block a)
unfolding set_block
set_block-plain block m n a = elim (Bool-cases (a == m)) [
  | inl hit ↦ let e : a ≡ m = ground arith in rw (e, set_block) (ground arith)
  | inr miss ↦ rw miss
]

module _ (s : Shared) (is_free : Bool) (m : ℕ) where
  -- The first block is taken off by the header.
  unlink-first :
      (zs : List ℕ)
      → Distinct (m ∷ zs)
      → Chain s.block (header is_free s.queue) (m ∷ zs)
      → Removed s (unlink s m is_free 0) is_free [] m zs
  unfolding unlink
  unlink-first zs (f, dist) (e, pos, h) =
      let next = (s.block m).dbk_next_offset in
      let (new, kept, same) = header-set_header is_free next s.queue in
      record {
        chain = rw new (Chain-set_block s.block m _ next zs f h);
        other = λ p xs fx apart hx. Chain-set_block s.block m _ p xs fx hx;
        header_kept = kept;
        same = record { queue = same; block = λ a. set_block-plain s.block m 0 a; notices = refl };
      }

  -- Another one, by the link of the block in front of it.
  unlink-next :
      (y : ℕ) (ys zs : List ℕ)
      → Distinct (y ∷ ys ++ m ∷ zs)
      → Chain s.block (header is_free s.queue) (y ∷ ys ++ m ∷ zs)
      → Removed s (unlink s m is_free (last_or y ys)) is_free (y ∷ ys) m zs
  unfolding unlink
  unlink-next y ys zs dist h =
      let pre = last_or y ys in
      let pos : 0 < pre =
        last_or-All (λ x. 0 < x) y ys
          (All-split (λ x. 0 < x) (y ∷ ys) (m ∷ zs) (Chain-pos s.block _ (y ∷ ys ++ m ∷ zs) h)).0 in
      let some_pre : (pre == 0) ≡ false = ground arith in
      let (fm, d) = Distinct-drop (y ∷ ys) m zs dist in
      let b1 =
        set_block s.block pre
          (record (s.block pre) { dbk_next_offset = (s.block m).dbk_next_offset }) in
      let spliced : Chain b1 (header is_free s.queue) (y ∷ ys ++ zs) =
        Chain-splice s.block (header is_free s.queue) y ys m zs _ refl dist h in
      rw some_pre (record {
        chain = Chain-set_block b1 m _ _ (y ∷ ys ++ zs) fm spliced;
        other = λ p xs fx apart hx.
            Chain-set_block b1 m _ p xs fx
              (Chain-set_block s.block pre _ p xs (last_or-All (λ z. Fresh z xs) y ys apart) hx);
        header_kept = refl;
        same = record {
          queue = refl;
          block = λ a. set_block-plain b1 m 0 a ∙ set_block-plain s.block pre _ a;
          notices = refl;
        };
      })

  pre_get-lem :
      (fuel head : ℕ) (ys zs : List ℕ)
      → length (ys ++ m ∷ zs) < fuel
      → Distinct (ys ++ m ∷ zs)
      → Own s.block (ys ++ m ∷ zs)
      → Chain s.block head (ys ++ m ∷ zs)
      → ipc_queue_dbk_pre_get fuel s m head ≡ some (last_or 0 ys)
  unfolding ipc_queue_dbk_pre_get
  pre_get-lem fuel head ys zs lt dist own h =
      let fm : Fresh m ys = (All-split (λ x. x ≢ m) ys zs (Distinct-drop ys m zs dist).0).0 in
      let at : (s.block m).dbk_offset ≡ m =
        (All-drop (λ x. (s.block x).dbk_offset ≡ x) ys m zs own).0 in
      rw (list_for_ipc_data_block-lem fuel s.block head (ys ++ m ∷ zs) lt h) (
        ap some (
          ap (λ (o : ℕ). pre_from s.block o 0 (ys ++ m ∷ zs)) at
          ∙ pre_from-lem s.block 0 ys m zs own fm))

  unlink-Removed :
      (ys zs : List ℕ)
      → Distinct (ys ++ m ∷ zs)
      → Chain s.block (header is_free s.queue) (ys ++ m ∷ zs)
      → Removed s (unlink s m is_free (last_or 0 ys)) is_free ys m zs
  unlink-Removed [] zs dist h = unlink-first zs dist h
  unlink-Removed (y ∷ ys) zs dist h = unlink-next y ys zs dist h

  -- The block is found on its list and taken off it, and nothing but the links changes.
  pub ipc_queue_dbk_mov-Removed :
      (fuel : ℕ) (ys zs : List ℕ)
      → length (ys ++ m ∷ zs) < fuel
      → Distinct (ys ++ m ∷ zs)
      → Own s.block (ys ++ m ∷ zs)
      → Chain s.block (header is_free s.queue) (ys ++ m ∷ zs)
      → (s' : Shared) × (ipc_queue_dbk_mov fuel s m is_free ≡ some s')
        × Removed s s' is_free ys m zs
  unfolding ipc_queue_dbk_mov
  ipc_queue_dbk_mov-Removed fuel ys zs lt dist own h = (
    unlink s m is_free (last_or 0 ys),
    rw (pre_get-lem fuel (header is_free s.queue) ys zs lt dist own h),
    unlink-Removed ys zs dist h,
  )
