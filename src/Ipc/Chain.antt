-- ===== src/Ipc/Chain.antt =====
-- The list of blocks that starts at an offset, as a list of offsets, and what the loops over it and
-- the removal of a block do to it.
use cloudeagle.Common.{
  ℕ, zero, suc, ◌<◌, ◌≡◌, ◌≢◌, sym, arith, some, List, [], ◌∷◌, ◌++◌, length, All,
}
use cloudeagle.Ipc.{DataBlock, set_block}
use cloudeagle.Ipc.Blocks.{list_for_ipc_data_block, pre_from}

-- From `p` the offsets of the next blocks lead through `xs` to 0.
abbrev pub Chain : (ℕ → DataBlock) → ℕ → List ℕ → Type 0
Chain block p [] = p ≡ 0
Chain block p (x ∷ xs) = (p ≡ x) × (0 < x) × Chain block (block x).dbk_next_offset xs

abbrev pub Fresh : ℕ → List ℕ → Type 0
Fresh m xs = All (λ x. x ≢ m) xs

abbrev pub Distinct : List ℕ → Type 0
Distinct [] = Unit
Distinct (x ∷ xs) = Fresh x xs × Distinct xs

abbrev pub Apart : List ℕ → List ℕ → Type 0
Apart xs ys = All (λ x. Fresh x ys) xs

-- The block says its own offset.
abbrev pub Own : (ℕ → DataBlock) → List ℕ → Type 0
Own block xs = All (λ x. (block x).dbk_offset ≡ x) xs

module _ {ℓ κ} {A : Type ℓ} (P : A → Type κ) where
  pub All-append : (xs ys : List A) → All P xs → All P ys → All P (xs ++ ys)
  All-append [] ys h k = k
  All-append (x ∷ xs) ys (p, h) k = (p, All-append xs ys h k)

  pub All-split : (xs ys : List A) → All P (xs ++ ys) → All P xs × All P ys
  All-split [] ys h = (tt, h)
  All-split (x ∷ xs) ys (p, h) = let (a, b) = All-split xs ys h in ((p, a), b)

  -- Without the one in the middle.
  pub All-drop : (ys : List A) (m : A) (zs : List A) → All P (ys ++ m ∷ zs) → P m × All P (ys ++ zs)
  All-drop [] m zs h = h
  All-drop (y ∷ ys) m zs (p, h) = let (q, k) = All-drop ys m zs h in (q, (p, k))

pub All-map {ℓ κ μ} :
    {A : Type ℓ} (P : A → Type κ) (Q : A → Type μ) (xs : List A)
    → ((x : A) → P x → Q x)
    → All P xs
    → All Q xs
All-map P Q [] f h = tt
All-map P Q (x ∷ xs) f (p, h) = (f x p, All-map P Q xs f h)

pub Distinct-drop :
    (ys : List ℕ) (m : ℕ) (zs : List ℕ)
    → Distinct (ys ++ m ∷ zs)
    → Fresh m (ys ++ zs) × Distinct (ys ++ zs)
Distinct-drop [] m zs h = h
Distinct-drop (y ∷ ys) m zs (f, h) =
    let (fm, d) = Distinct-drop ys m zs h in
    let (ne, fy) = All-drop (λ x. x ≢ y) ys m zs f in (((λ e. ne (sym e)), fm), (fy, d))

pub Chain-set_block :
    (block : ℕ → DataBlock) (m : ℕ) (d : DataBlock) (p : ℕ) (xs : List ℕ)
    → Fresh m xs
    → Chain block p xs
    → Chain (set_block block m d) p xs
unfolding set_block
Chain-set_block block m d p [] f h = h
Chain-set_block block m d p (x ∷ xs) (ne, f) (e, pos, h) =
    let same : set_block block m d x ≡ block x = ground arith in
    (e, pos, rw same (Chain-set_block block m d (block x).dbk_next_offset xs f h))

pub list_for_ipc_data_block-lem :
    (fuel : ℕ) (block : ℕ → DataBlock) (p : ℕ) (xs : List ℕ)
    → length xs < fuel
    → Chain block p xs
    → list_for_ipc_data_block fuel block p ≡ some xs
unfolding list_for_ipc_data_block
list_for_ipc_data_block-lem zero block p xs lt h = absurd (omega arith)
list_for_ipc_data_block-lem (suc fuel) block p [] lt h = ground arith
list_for_ipc_data_block-lem (suc fuel) block p (x ∷ xs) lt (e, pos, h) =
    let next = (block x).dbk_next_offset in
    ground (arith, list_for_ipc_data_block-lem fuel block next xs (omega arith) h)

-- The last of `ys`, or `pre` if there is none.
abbrev pub last_or : ℕ → List ℕ → ℕ
last_or pre [] = pre
last_or pre (y ∷ ys) = last_or y ys

pub pre_from-lem :
    (block : ℕ → DataBlock) (pre : ℕ) (ys : List ℕ) (m : ℕ) (zs : List ℕ)
    → Own block (ys ++ m ∷ zs)
    → Fresh m ys
    → pre_from block m pre (ys ++ m ∷ zs) ≡ last_or pre ys
unfolding pre_from
pre_from-lem block pre [] m zs (o, own) f = ground arith
pre_from-lem block pre (y ∷ ys) m zs (o, own) (ne, f) =
    ground (arith, pre_from-lem block y ys m zs own f)

last_or-ne : (y : ℕ) (ys : List ℕ) (x : ℕ) → Fresh x (y ∷ ys) → last_or y ys ≢ x
last_or-ne y [] x (ne, f) = ne
last_or-ne y (z ∷ ys) x (ne, f) = last_or-ne z ys x f

-- The block in front of `m` points behind it.
pub Chain-splice :
    (block : ℕ → DataBlock) (p y : ℕ) (ys : List ℕ) (m : ℕ) (zs : List ℕ) (d : DataBlock)
    → d.dbk_next_offset ≡ (block m).dbk_next_offset
    → Distinct (y ∷ ys ++ m ∷ zs)
    → Chain block p (y ∷ ys ++ m ∷ zs)
    → Chain (set_block block (last_or y ys) d) p (y ∷ ys ++ zs)
unfolding set_block
Chain-splice block p y [] m zs d next ((ne, f), dist) (e, pos, (e', pos', h)) =
    let hit : set_block block y d y ≡ d = ground arith in
    (e, pos, rw (hit, next) (Chain-set_block block y d _ zs f h))
Chain-splice block p y (y2 ∷ ys) m zs d next ((ne, f), dist) (e, pos, h) =
    let apart : last_or y2 ys ≢ y =
      last_or-ne y2 ys y (ne, (All-split (λ x. x ≢ y) ys (m ∷ zs) f).0) in
    let miss : set_block block (last_or y2 ys) d y ≡ block y = ground arith in
    (e, pos, rw miss (Chain-splice block _ y2 ys m zs d next dist h))

pub Chain-pos :
    (block : ℕ → DataBlock) (p : ℕ) (xs : List ℕ) → Chain block p xs → All (λ x. 0 < x) xs
Chain-pos block p [] h = tt
Chain-pos block p (x ∷ xs) (e, pos, h) = (pos, Chain-pos block _ xs h)

pub last_or-All {κ} : (P : ℕ → Type κ) (y : ℕ) (ys : List ℕ) → All P (y ∷ ys) → P (last_or y ys)
last_or-All P y [] (p, h) = p
last_or-All P y (z ∷ ys) (p, h) = last_or-All P z ys h
