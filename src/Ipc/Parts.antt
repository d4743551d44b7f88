-- ===== src/Ipc/Parts.antt =====
-- The two lists of a queue of ce_util/ce_ipc_shm.c as two lists of offsets with no block on both,
-- and a block that goes from one to the other.
use cloudeagle.Common.{
  ℕ, ◌<◌, ◌≡◌, refl, sym, ap, ◌∙◌, arith, some, List, [], ◌∷◌, ◌++◌, Bool, true, false, not, length,
}
use cloudeagle.Ipc.{DataBlock, Shared, put, header, set_block}
use cloudeagle.Ipc.Blocks.{ipc_queue_dbk_add, ipc_queue_dbk_mov}
use cloudeagle.Ipc.Chain.{
  Chain, Fresh, Distinct, Apart, Own, All-split, All-drop, All-map, Distinct-drop, Chain-set_block,
  Chain-pos,
}
use cloudeagle.Ipc.Removal.{
  plain, SameBut, header-set_header, set_block-plain, ipc_queue_dbk_mov-Removed,
}

-- `xs` are the blocks of the list that `is_free` names, `ys` those of the other.
pub record Parts (s : Shared) (is_free : Bool) (xs ys : List ℕ) : Type 0 where
  pub chain : Chain s.block (header is_free s.queue) xs
  pub chain' : Chain s.block (header (not is_free) s.queue) ys
  pub distinct : Distinct xs
  pub distinct' : Distinct ys
  pub own : Own s.block xs
  pub own' : Own s.block ys
  pub apart : Apart xs ys

Apart-cons : (y : ℕ) (xs ys : List ℕ) → Fresh y xs → Apart xs ys → Apart xs (y ∷ ys)
Apart-cons y [] ys f a = tt
Apart-cons y (x ∷ xs) ys (ne, f) (fx, a) = (((λ e. ne (sym e)), fx), Apart-cons y xs ys f a)

Apart-uncons : (y : ℕ) (xs ys : List ℕ) → Apart xs (y ∷ ys) → Fresh y xs × Apart xs ys
Apart-uncons y [] ys a = (tt, tt)
Apart-uncons y (x ∷ xs) ys ((ne, fx), a) =
    let (f, a') = Apart-uncons y xs ys a in (((λ e. ne (sym e)), f), (fx, a'))

Apart-swap : (xs ys : List ℕ) → Apart xs ys → Apart ys xs
Apart-swap xs [] a = tt
Apart-swap xs (y ∷ ys) a = let (f, a') = Apart-uncons y xs ys a in (f, Apart-swap xs ys a')

pub Parts-swap :
    (s : Shared) (is_free : Bool) (xs ys : List ℕ)
    → Parts s is_free xs ys
    → Parts s (not is_free) ys xs
Parts-swap s true xs ys p = record {
  chain = p.chain';
  chain' = p.chain;
  distinct = p.distinct';
  distinct' = p.distinct;
  own = p.own';
  own' = p.own;
  apart = Apart-swap xs ys p.apart;
}
Parts-swap s false xs ys p = record {
  chain = p.chain';
  chain' = p.chain;
  distinct = p.distinct';
  distinct' = p.distinct;
  own = p.own';
  own' = p.own;
  apart = Apart-swap xs ys p.apart;
}

-- A block that is on no list.
pub record Loose (s : Shared) (m : ℕ) (xs ys : List ℕ) : Type 0 where
  pub pos : 0 < m
  pub at : (s.block m).dbk_offset ≡ m
  pub fresh : Fresh m xs
  pub fresh' : Fresh m ys

Own-plain :
    (block block' : ℕ → DataBlock) (xs : List ℕ)
    → ((a : ℕ) → plain (block' a) ≡ plain (block a))
    → Own block xs
    → Own block' xs
Own-plain block block' xs same h =
    All-map (λ x. (block x).dbk_offset ≡ x) (λ x. (block' x).dbk_offset ≡ x) xs
      (λ x e. ap (λ (d : DataBlock). d.dbk_offset) (same x) ∙ e) h

-- Taking a block off its list.
pub ipc_queue_dbk_mov-Parts :
    (fuel : ℕ) (s : Shared) (is_free : Bool) (ys : List ℕ) (m : ℕ) (zs ws : List ℕ)
    → length (ys ++ m ∷ zs) < fuel
    → Parts s is_free (ys ++ m ∷ zs) ws
    → (s' : Shared) × (ipc_queue_dbk_mov fuel s m is_free ≡ some s')
      × Parts s' is_free (ys ++ zs) ws
      × Loose s' m (ys ++ zs) ws
      × SameBut s s'
ipc_queue_dbk_mov-Parts fuel s is_free ys m zs ws lt p =
    let (s', e, r) = ipc_queue_dbk_mov-Removed s is_free m fuel ys zs lt p.distinct p.own p.chain in
    let (fm, dist) = Distinct-drop ys m zs p.distinct in
    let (far, apart) = All-drop (λ x. Fresh x ws) ys m zs p.apart in
    let (at, own) = All-drop (λ x. (s.block x).dbk_offset ≡ x) ys m zs p.own in
    let pos : 0 < m =
      (All-drop (λ x. 0 < x) ys m zs (Chain-pos s.block _ (ys ++ m ∷ zs) p.chain)).0 in
    (
      s',
      e,
      record {
        chain = r.chain;
        chain' =
            rw r.header_kept
              (r.other _ ws far (All-split (λ x. Fresh x ws) ys zs apart).0 p.chain');
        distinct = dist;
        distinct' = p.distinct';
        own = Own-plain s.block s'.block (ys ++ zs) r.same.block own;
        own' = Own-plain s.block s'.block ws r.same.block p.own';
        apart = apart;
      },
      record {
        pos = pos;
        at = ap (λ (d : DataBlock). d.dbk_offset) (r.same.block m) ∙ at;
        fresh = fm;
        fresh' = far;
      },
      r.same,
    )

pub Own-set_block :
    (block : ℕ → DataBlock) (m : ℕ) (d : DataBlock) (xs : List ℕ)
    → Fresh m xs
    → Own block xs
    → Own (set_block block m d) xs
unfolding set_block
Own-set_block block m d [] f h = tt
Own-set_block block m d (x ∷ xs) (ne, f) (e, h) = (ground arith, Own-set_block block m d xs f h)

-- The header of a block on no list changes.
pub put-Parts :
    (s : Shared) (is_free : Bool) (m : ℕ) (d : DataBlock) (xs ys : List ℕ)
    → Fresh m xs
    → Fresh m ys
    → Parts s is_free xs ys
    → Parts (put s m d) is_free xs ys
put-Parts s is_free m d xs ys f g p = record {
  chain = Chain-set_block s.block m d _ xs f p.chain;
  chain' = Chain-set_block s.block m d _ ys g p.chain';
  distinct = p.distinct;
  distinct' = p.distinct';
  own = Own-set_block s.block m d xs f p.own;
  own' = Own-set_block s.block m d ys g p.own';
  apart = p.apart;
}

-- Putting a block on the other list.
pub ipc_queue_dbk_add-Parts :
    (s : Shared) (is_free : Bool) (m : ℕ) (xs ys : List ℕ)
    → Loose s m xs ys
    → Parts s is_free xs ys
    → Parts (ipc_queue_dbk_add s m (not is_free)) is_free xs (m ∷ ys)
unfolding ipc_queue_dbk_add set_block
ipc_queue_dbk_add-Parts s true m xs ys l p =
    let d : DataBlock = record (s.block m) { dbk_next_offset = s.queue.dbk_header } in
    let hit : set_block s.block m d m ≡ d = ground arith in
    let q = put-Parts s true m d xs ys l.fresh l.fresh' p in
    record {
      chain = q.chain;
      chain' = (l.at, l.pos, rw hit q.chain');
      distinct = q.distinct;
      distinct' = (l.fresh', q.distinct');
      own = q.own;
      own' = (rw hit l.at, q.own');
      apart = Apart-cons m xs ys l.fresh q.apart;
    }
ipc_queue_dbk_add-Parts s false m xs ys l p =
    let d : DataBlock = record (s.block m) { dbk_next_offset = s.queue.free_dbk_header } in
    let hit : set_block s.block m d m ≡ d = ground arith in
    let q = put-Parts s false m d xs ys l.fresh l.fresh' p in
    record {
      chain = q.chain;
      chain' = (l.at, l.pos, rw hit q.chain');
      distinct = q.distinct;
      distinct' = (l.fresh', q.distinct');
      own = q.own;
      own' = (rw hit l.at, q.own');
      apart = Apart-cons m xs ys l.fresh q.apart;
    }

pub ipc_queue_dbk_add-SameBut :
    (s : Shared) (m : ℕ) (is_free : Bool) → SameBut s (ipc_queue_dbk_add s m is_free)
unfolding ipc_queue_dbk_add
ipc_queue_dbk_add-SameBut s m is_free = record {
  queue = (header-set_header is_free _ s.queue).2;
  block = λ a. set_block-plain s.block m _ a;
  notices = refl;
}
