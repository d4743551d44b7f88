-- ===== src/Ipc/Collect.antt =====
-- The collection of blocks of ce_util/ce_ipc_shm.c: which blocks become free, and in which order.
use cloudeagle.Common.{
  ℕ, ◌<◌, ◌≡◌, ◌≢◌, refl, ap, ◌∙◌, arith, inl, inr, some, List, [], ◌∷◌, ◌++◌, Bool, true, false,
  ◌==◌, ◌||◌, if◌then◌else◌, length, All, Bool-cases,
}
use cloudeagle.Ipc.{
  DataBlock, free, Shared, put, set_block, ipc_dbk_is_collectalbe, block_header_size, ◌>>=◌,
}
use cloudeagle.Ipc.Blocks.{ipc_shm_queue_data_block_init, ipc_queue_dbk_add, collect_block}
use cloudeagle.Ipc.Chain.{Chain, Fresh, All-map}
use cloudeagle.Ipc.Removal.{bare, plain, SameBut}
use cloudeagle.Ipc.Parts.{
  Parts, Loose, ipc_queue_dbk_mov-Parts, put-Parts, ipc_queue_dbk_add-Parts,
  ipc_queue_dbk_add-SameBut,
}

-- A block that is made free.
abbrev pub reset : DataBlock → DataBlock
reset d = record d {
  dbk_next_offset = 0;
  read_count = 0;
  rcd_num = 0;
  dbk_pos = block_header_size;
  dbk_state = free;
}

-- The blocks that stay, and those that are collected, in the order of the list.
abbrev pub kept : (ℕ → DataBlock) → List ℕ → List ℕ
kept block [] = []
kept block (x ∷ xs) = if ipc_dbk_is_collectalbe (block x) then kept block xs else x ∷ kept block xs

abbrev pub collected : (ℕ → DataBlock) → List ℕ → List ℕ
collected block [] = []
collected block (x ∷ xs) =
    if ipc_dbk_is_collectalbe (block x) then x ∷ collected block xs else collected block xs

-- One after the other in front of `ws`.
abbrev pub onto : List ℕ → List ℕ → List ℕ
onto [] ws = ws
onto (x ∷ xs) ws = onto xs (x ∷ ws)

abbrev pub has : ℕ → List ℕ → Bool
has a [] = false
has a (x ∷ xs) = a == x || has a xs

abbrev pub is_nil : List ℕ → Bool
is_nil [] = true
is_nil (x ∷ xs) = false

-- The blocks `cs` are reset, and nothing else but links and headers changes.
pub record Collected (s s' : Shared) (cs : List ℕ) : Type 0 where
  pub queue : bare s'.queue ≡ bare s.queue
  pub notices : s'.notices ≡ s.notices
  pub block :
      (a : ℕ) → plain (s'.block a) ≡ plain (if has a cs then reset (s.block a) else s.block a)

collectalbe-plain :
    (d e : DataBlock) → plain d ≡ plain e → ipc_dbk_is_collectalbe d ≡ ipc_dbk_is_collectalbe e
unfolding ipc_dbk_is_collectalbe
collectalbe-plain d e same = ap ipc_dbk_is_collectalbe same

reset-plain : (d e : DataBlock) → plain d ≡ plain e → reset d ≡ reset e
reset-plain d e same = ap reset same

module _ (b b' : ℕ → DataBlock) where
  pub kept-congr : (xs : List ℕ) → All (λ a. plain (b' a) ≡ plain (b a)) xs → kept b' xs ≡ kept b xs
  kept-congr [] h = refl
  kept-congr (x ∷ xs) (e, h) = rw (collectalbe-plain (b' x) (b x) e, kept-congr xs h)

  pub collected-congr :
      (xs : List ℕ) → All (λ a. plain (b' a) ≡ plain (b a)) xs → collected b' xs ≡ collected b xs
  collected-congr [] h = refl
  collected-congr (x ∷ xs) (e, h) = rw (collectalbe-plain (b' x) (b x) e, collected-congr xs h)

has-Fresh : (a : ℕ) (xs : List ℕ) → Fresh a xs → has a xs ≡ false
has-Fresh a [] f = refl
has-Fresh a (x ∷ xs) (ne, f) = ground (arith, has-Fresh a xs f)

pub collected-Fresh :
    (block : ℕ → DataBlock) (a : ℕ) (xs : List ℕ) → Fresh a xs → Fresh a (collected block xs)
collected-Fresh block a [] f = tt
collected-Fresh block a (x ∷ xs) (ne, f) = elim (Bool-cases (ipc_dbk_is_collectalbe (block x))) [
  | inl hit ↦ rw hit (ne, collected-Fresh block a xs f)
  | inr miss ↦ rw miss (collected-Fresh block a xs f)
]

abbrev reset_if : Bool → DataBlock → DataBlock
reset_if b d = if b then reset d else d

reset_if-plain :
    (b : Bool) (d e : DataBlock) → plain d ≡ plain e → plain (reset_if b d) ≡ plain (reset_if b e)
reset_if-plain true d e same = ap plain (reset-plain d e same)
reset_if-plain false d e same = same

reset_here :
    (b : Bool) (s s1 : Shared) (m a : ℕ)
    → ((x : ℕ) → plain (s1.block x) ≡ plain (s.block x))
    → (b ≡ true → a ≡ m)
    → plain (if b then reset (s1.block m) else s1.block a)
      ≡ plain (reset_if (b || false) (s.block a))
reset_here true s s1 m a same at =
    rw (at refl) (ap plain (reset-plain (s1.block m) (s.block m) (same m)))
reset_here false s s1 m a same at = same a

-- What resetting one block between two changes of the links amounts to.
reset-Collected :
    (s s1 s' : Shared) (m : ℕ)
    → SameBut s s1
    → SameBut (put s1 m (reset (s1.block m))) s'
    → Collected s s' (m ∷ [])
unfolding set_block
reset-Collected s s1 s' m before after = record {
  queue = after.queue ∙ before.queue;
  notices = after.notices ∙ before.notices;
  block = λ a. after.block a ∙ reset_here (a == m) s s1 m a before.block (λ h. ground arith);
}

-- One round that collects.
pub collect_block-Parts :
    (fuel : ℕ) (s : Shared) (ys : List ℕ) (m : ℕ) (zs ws : List ℕ)
    → length (ys ++ m ∷ zs) < fuel
    → Parts s false (ys ++ m ∷ zs) ws
    → (s' : Shared) × (collect_block fuel s m ≡ some s')
      × Parts s' false (ys ++ zs) (m ∷ ws)
      × Collected s s' (m ∷ [])
unfolding collect_block ipc_shm_queue_data_block_init
collect_block-Parts fuel s ys m zs ws lt p =
    let (s1, e, p1, l, same) = ipc_queue_dbk_mov-Parts fuel s false ys m zs ws lt p in
    let d : DataBlock = reset (s1.block m) in
    let s2 : Shared = put s1 m d in
    let hit : s2.block m ≡ d = unfold set_block in ground arith in
    let l2 : Loose s2 m (ys ++ zs) ws = record {
      pos = l.pos;
      at = ap (λ (x : DataBlock). x.dbk_offset) hit ∙ l.at;
      fresh = l.fresh;
      fresh' = l.fresh';
    } in
    (
      ipc_queue_dbk_add s2 m true,
      rw (e, ◌>>=◌) refl,
      ipc_queue_dbk_add-Parts s2 false m (ys ++ zs) ws l2
          (put-Parts s1 false m d (ys ++ zs) ws l.fresh l.fresh' p1),
      reset-Collected s s1 (ipc_queue_dbk_add s2 m true) m same
          (ipc_queue_dbk_add-SameBut s2 m true),
    )

reset_twice :
    (b h : Bool) (d1 d : DataBlock)
    → (b ≡ true → h ≡ false)
    → plain d1 ≡ plain (reset_if (b || false) d)
    → plain (reset_if h d1) ≡ plain (reset_if (b || h) d)
reset_twice true true d1 d once e = cc (once refl)
reset_twice true false d1 d once e = e
reset_twice false h d1 d once e = reset_if-plain h d1 d e

-- A collected block in front of those collected later.
pub Collected-cons :
    (s s1 s' : Shared) (m : ℕ) (cs : List ℕ)
    → Fresh m cs
    → Collected s s1 (m ∷ [])
    → Collected s1 s' cs
    → Collected s s' (m ∷ cs)
Collected-cons s s1 s' m cs f one rest = record {
  queue = rest.queue ∙ one.queue;
  notices = rest.notices ∙ one.notices;
  block = λ a.
      rest.block a
      ∙ reset_twice (a == m) (has a cs) (s1.block a) (s.block a)
          (λ hit. let e : a ≡ m = ground arith in rw e (has-Fresh m cs f)) (one.block a);
}

pub Chain-tail :
    (block : ℕ → DataBlock) (p : ℕ) (ys : List ℕ) (m : ℕ) (zs : List ℕ)
    → Chain block p (ys ++ m ∷ zs)
    → Chain block (block m).dbk_next_offset zs
Chain-tail block p [] m zs (e, pos, h) = h
Chain-tail block p (y ∷ ys) m zs (e, pos, h) = Chain-tail block _ ys m zs h

-- The blocks behind the one that a round looks at are as they were.
pub behind :
    (s s1 : Shared) (m : ℕ) (zs : List ℕ)
    → Fresh m zs
    → Collected s s1 (m ∷ [])
    → All (λ a. plain (s1.block a) ≡ plain (s.block a)) zs
behind s s1 m zs f one =
    All-map (λ a. a ≢ m) (λ a. plain (s1.block a) ≡ plain (s.block a)) zs
      (λ a ne. let miss : (a == m) ≡ false = ground arith in rw miss at (one.block a)) f

pub kept_first : (ys : List ℕ) (m : ℕ) (xs : List ℕ) → (ys ++ m ∷ []) ++ xs ≡ ys ++ m ∷ xs
kept_first [] m xs = refl
kept_first (y ∷ ys) m xs = ap (λ (l : List ℕ). y ∷ l) (kept_first ys m xs)
