-- ===== src/Manager/Commands.antt =====
-- The search of a command in the array of a family, find_kman_cmd of cwaf/csp_kernel_manager.c.
use cloudeagle.Common.{
  ℕ, zero, suc, ◌+◌, ◌%◌, ◌^◌, ◌<◌, ◌≡◌, refl, sym, ap, ◌∙◌, arith, Bool-cases, true, false, Option,
  none, some, List, [], ◌∷◌, length, inl, inr, ◌==◌,
}
use cloudeagle.Manager.{KmanCmd, Family, is_last_cmd, find_kman_cmd, find_kman_cmd_from}

-- The commands stand in the array from `i` on, and an entry of two NULL functions behind them.
abbrev pub Lists : (ℕ → KmanCmd) → ℕ → List KmanCmd → Type 0
Lists arr i [] = is_last_cmd (arr i) ≡ true
Lists arr i (c ∷ cs) = (arr i ≡ c) × (is_last_cmd c ≡ false) × Lists arr (suc i) cs

-- The first command of a number.
abbrev pub first_of : ℕ → List KmanCmd → Option KmanCmd
first_of cmd [] = none
first_of cmd (c ∷ cs) = elim (c.cmd == cmd) [ true ↦ some c | false ↦ first_of cmd cs ]

find_kman_cmd_from-lem :
    (fuel : ℕ) (arr : ℕ → KmanCmd) (cmd i : ℕ) (cs : List KmanCmd)
    → Lists arr i cs
    → length cs < fuel
    → i + length cs < 2 ^ 16
    → find_kman_cmd_from fuel arr cmd i ≡ some (first_of cmd cs)
unfolding find_kman_cmd_from
find_kman_cmd_from-lem zero arr cmd i cs l f b = absurd (omega arith)
find_kman_cmd_from-lem (suc fuel) arr cmd i [] l f b = rw (l, find_kman_cmd_from) refl
find_kman_cmd_from-lem (suc fuel) arr cmd i (c ∷ cs) (e, more, l) f b =
    let next : (i + 1) % 2 ^ 16 ≡ suc i = omega arith in
    let goes_on : is_last_cmd (arr i) ≡ false = ap is_last_cmd e ∙ more in
    let number : ((arr i).cmd == cmd) ≡ (c.cmd == cmd) = ap (λ d. d.cmd == cmd) e in
    elim (Bool-cases (c.cmd == cmd)) [
      | inl h ↦
          let here : first_of cmd (c ∷ cs) ≡ some c = rw (h, first_of) refl in
          rw (goes_on, number, h, find_kman_cmd_from)
            (ap (λ d. some (some d)) e ∙ ap some (sym here))
      | inr h ↦
          let later : first_of cmd (c ∷ cs) ≡ first_of cmd cs = rw (h, first_of) refl in
          rw (goes_on, number, h, next, find_kman_cmd_from)
            (find_kman_cmd_from-lem fuel arr cmd (suc i) cs l (omega arith) (omega arith)
              ∙ ap some (sym later))
    ]

-- In an array of fewer than 2 ^ 16 commands the search ends, and gives the first of the number.
pub find_kman_cmd-lem :
    (fa : Family) (cmd : ℕ) (cs : List KmanCmd)
    → Lists fa.cmd_arr 0 cs
    → length cs < 2 ^ 16
    → find_kman_cmd fa cmd ≡ some (first_of cmd cs)
unfolding find_kman_cmd
find_kman_cmd-lem fa cmd cs l few =
    find_kman_cmd_from-lem (2 ^ 16) fa.cmd_arr cmd 0 cs l few (omega arith)

-- If none of the first 2 ^ 16 entries ends the array or has the number, the loop never ends.
pub find_kman_cmd_from-endless :
    (arr : ℕ → KmanCmd) (cmd : ℕ)
    → ((i : ℕ) → i < 2 ^ 16 → is_last_cmd (arr i) ≡ false)
    → ((i : ℕ) → i < 2 ^ 16 → ((arr i).cmd == cmd) ≡ false)
    → (fuel i : ℕ) → i < 2 ^ 16
    → find_kman_cmd_from fuel arr cmd i ≡ none
unfolding find_kman_cmd_from
find_kman_cmd_from-endless arr cmd more other zero i b = refl
find_kman_cmd_from-endless arr cmd more other (suc fuel) i b =
    rw (more i b, other i b, find_kman_cmd_from)
      (find_kman_cmd_from-endless arr cmd more other fuel ((i + 1) % 2 ^ 16) (omega arith))
