-- ===== src/Ipc/Sweep.antt =====
-- The loop that collects blocks of ce_util/ce_ipc_shm.c, from its first round to its last.
use cloudeagle.Common.{
  ℕ, zero, suc, ◌≤◌, ◌<◌, ◌≡◌, ◌≢◌, refl, ap, ◌∙◌, ◌⊎◌, arith, inl, inr, Option, none, some, List,
  [], ◌∷◌, ◌++◌, Bool, true, false, not, ◌==◌, if◌then◌else◌, length, Bool-cases,
}
use cloudeagle.Ipc.{DataBlock, Shared, ipc_dbk_is_collectalbe, ◌>>=◌}
use cloudeagle.Ipc.Blocks.{collect_from, logged, ipc_dbk_collect}
use cloudeagle.Ipc.Chain.{Chain, Fresh, All-split, Distinct-drop}
use cloudeagle.Ipc.Parts.{Parts}
use cloudeagle.Ipc.Collect.{
  kept, collected, onto, is_nil, Collected, collect_block-Parts, Collected-cons, Chain-tail, behind,
  kept_first, kept-congr, collected-congr, collected-Fresh,
}

-- The rounds from the block that `xs` starts with on.
abbrev Swept : Shared → List ℕ → List ℕ → List ℕ → Bool → Option (Shared × Bool) → Type 0
Swept s ys xs ws c r =
    (s' : Shared) × (r ≡ some (s', if is_nil (collected s.block xs) then c else true))
    × Parts s' false (ys ++ kept s.block xs) (onto (collected s.block xs) ws)
    × Collected s s' (collected s.block xs)

same_flag : (b : Bool) → (if b then true else true) ≡ true
same_flag true = refl
same_flag false = refl

-- What follows a round, at the next block.
go_on :
    (fuel rounds : ℕ) (s : Shared) (ys zs ws : List ℕ) (c : Bool) (block : ℕ → DataBlock) (next : ℕ)
    → Chain block next zs
    → Parts s false (ys ++ zs) ws
    → ((z : ℕ) (zs' : List ℕ)
        → zs ≡ z ∷ zs'
        → Swept s ys (z ∷ zs') ws c (collect_from fuel rounds s z c))
    → Swept s ys zs ws c (if next == 0 then some (s, c) else collect_from fuel rounds s next c)
go_on fuel rounds s ys [] ws c block next h p ih =
    let end : (next == 0) ≡ true = ground arith in
    (s, rw end refl, p, record { queue = refl; notices = refl; block = λ a. refl })
go_on fuel rounds s ys (z ∷ zs) ws c block next (e, pos, h) p ih =
    let more : (z == 0) ≡ false = ground arith in rw (e, more) (ih z zs refl)

module _ (s : Shared) (ys : List ℕ) (x : ℕ) (zs ws : List ℕ) where
  -- The block `x` was collected first.
  Swept-hit :
      (s1 : Shared) (c : Bool) (r : Option (Shared × Bool))
      → ipc_dbk_is_collectalbe (s.block x) ≡ true
      → Fresh x zs
      → Collected s s1 (x ∷ [])
      → Swept s1 ys zs (x ∷ ws) true r
      → Swept s ys (x ∷ zs) ws c r
  Swept-hit s1 c r hit f one (s', e, p, rest) =
      let same = behind s s1 x zs f one in
      let k : kept s1.block zs ≡ kept s.block zs = kept-congr s.block s1.block zs same in
      let cs : collected s1.block zs ≡ collected s.block zs =
        collected-congr s.block s1.block zs same in
      rw hit (
        s',
        rw (← same_flag (is_nil (collected s1.block zs))) e,
        rw (← k, ← cs) p,
        Collected-cons s s1 s' x _ (collected-Fresh s.block x zs f) one (rw cs at rest),
      )

  Swept-miss :
      (c : Bool) (r : Option (Shared × Bool))
      → ipc_dbk_is_collectalbe (s.block x) ≡ false
      → Swept s (ys ++ x ∷ []) zs ws c r
      → Swept s ys (x ∷ zs) ws c r
  Swept-miss c r miss (s', e, p, rest) =
      rw miss (s', e, rw (kept_first ys x (kept s.block zs)) at p, rest)

flag_not : (b : Bool) → (if b then false else true) ≡ not b
flag_not true = refl
flag_not false = refl

length-insert :
    (ys : List ℕ) (x : ℕ) (zs : List ℕ) → length (ys ++ x ∷ zs) ≡ suc (length (ys ++ zs))
length-insert [] x zs = refl
length-insert (y ∷ ys) x zs = ap suc (length-insert ys x zs)

collect_from-Swept :
    (fuel rounds : ℕ) (s : Shared) (ys : List ℕ) (x : ℕ) (zs ws : List ℕ) (c : Bool)
    → length (ys ++ x ∷ zs) < fuel
    → length (x ∷ zs) ≤ rounds
    → Parts s false (ys ++ x ∷ zs) ws
    → Swept s ys (x ∷ zs) ws c (collect_from fuel rounds s x c)
unfolding collect_from
collect_from-Swept fuel zero s ys x zs ws c lt le p = absurd (omega arith)
collect_from-Swept fuel (suc rounds) s ys x zs ws c lt le p =
    let n = length-insert ys x zs in
    let room : length (ys ++ zs) < fuel = omega (arith, n) in
    let turns : length zs ≤ rounds = omega arith in
    let next = (s.block x).dbk_next_offset in
    let h : Chain s.block next zs = Chain-tail s.block _ ys x zs p.chain in
    elim (Bool-cases (ipc_dbk_is_collectalbe (s.block x))) [
      | inl hit ↦
          let (s1, e, p1, one) = collect_block-Parts fuel s ys x zs ws lt p in
          let f : Fresh x zs =
            (All-split (λ a. a ≢ x) ys zs (Distinct-drop ys x zs p.distinct).0).1 in
          Swept-hit s ys x zs ws s1 c _ hit f one (
            rw (hit, e)
              (go_on fuel rounds s1 ys zs (x ∷ ws) true s.block next h p1 (λ z zs' eq.
                collect_from-Swept fuel rounds s1 ys z zs' (x ∷ ws) true (rw eq at room)
                  (rw eq at turns) (rw eq at p1))))
      | inr miss ↦
          let split = kept_first ys x zs in
          let p1 : Parts s false ((ys ++ x ∷ []) ++ zs) ws = rw split p in
          let room1 : length ((ys ++ x ∷ []) ++ zs) < fuel = rw split lt in
          Swept-miss s ys x zs ws c _ miss (
            rw miss (
              go_on fuel rounds s (ys ++ x ∷ []) zs ws c s.block next h p1 (λ z zs' eq.
                collect_from-Swept fuel rounds s (ys ++ x ∷ []) z zs' ws c (rw eq at room1)
                  (rw eq at turns) (rw eq at p1))))
    ]

abbrev start : ℕ → Shared → ℕ → Option Shared
start fuel s head = do
  (s', c) ← if head == 0 then none else collect_from fuel fuel s head false
  some (logged s' c)

started :
    (fuel : ℕ) (s : Shared) {x : ℕ}
    → s.queue.dbk_header ≡ x
    → ipc_dbk_collect fuel s ≡ start fuel s x
unfolding ipc_dbk_collect
started fuel s at = ap (start fuel s) at

-- The collection of a queue whose used blocks are `used`, in that order, and whose free ones `free`:
-- it ends; the blocks that every reader has read or that no reader has to read are taken off the
-- first list and put in front of the second, the last of them first, and their headers are reset;
-- the others stay in order and keep their headers, and of the queue only the links and the note that
-- nothing was collected change. With no used block it reads the block at offset 0, and fails.
pub ipc_dbk_collect-Parts :
    (fuel : ℕ) (s : Shared) (used free : List ℕ)
    → length used < fuel
    → Parts s false used free
    → ((used ≡ []) × (ipc_dbk_collect fuel s ≡ none))
      ⊎ ((s' : Shared) × (ipc_dbk_collect fuel s
            ≡ some (logged s' (not (is_nil (collected s.block used)))))
          × Parts s' false (kept s.block used) (onto (collected s.block used) free)
          × Collected s s' (collected s.block used))
unfolding ipc_dbk_collect
ipc_dbk_collect-Parts fuel s [] free lt p =
    let none_used : (s.queue.dbk_header == 0) ≡ true = ground (arith, p.chain) in
    inl (refl, rw none_used refl)
ipc_dbk_collect-Parts fuel s (x ∷ zs) free lt p =
    let (at, pos, h) = p.chain in
    let more : (x == 0) ≡ false = ground arith in
    let (s', e, p', c) = collect_from-Swept fuel fuel s [] x zs free false lt (omega arith) p in
    inr (
      s',
      started fuel s at
          ∙ rw more (
              rw e (
                ap (λ (b : Bool). some (logged s' b))
                  (flag_not (is_nil (collected s.block (x ∷ zs)))))),
      p',
      c,
    )
