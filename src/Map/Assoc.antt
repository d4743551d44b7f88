-- ===== src/Map/Assoc.antt =====
-- Maps from strings to values, in which a string without a value has 0: what ce_util/ce_map.c is
-- compared with.
use cloudeagle.Common.{
  ℕ, ◌≡◌, ◌≢◌, refl, subst, arith, Bool, true, false, not, inl, inr, ◌⊎◌, ◌==◌, if◌then◌else◌, ◌&&◌,
  List, [], ◌∷◌, Bool-cases,
}

abbrev pub str_eq : List ℕ → List ℕ → Bool
str_eq [] [] = true
str_eq [] (b ∷ t) = false
str_eq (a ∷ s) [] = false
str_eq (a ∷ s) (b ∷ t) = (a == b) && str_eq s t

str_eq-true : (s t : List ℕ) → str_eq s t ≡ true → s ≡ t
str_eq-true [] [] e = refl
str_eq-true [] (b ∷ t) e = cc
str_eq-true (a ∷ s) [] e = cc
str_eq-true (a ∷ s) (b ∷ t) e = ground (arith, str_eq-true s t)

str_eq_self : (s : List ℕ) → str_eq s s ≡ true
str_eq_self [] = refl
str_eq_self (a ∷ s) = ground (arith, str_eq_self s)

str_eq-false : (s t : List ℕ) → str_eq s t ≡ false → s ≢ t
str_eq-false s t e h =
    let same : str_eq t t ≡ true = str_eq_self t in
    let differ : str_eq t t ≡ false = subst (λ z. str_eq z t ≡ false) h e in cc

pub nonzero : (n : ℕ) → n ≢ 0 → not (n == 0) ≡ true
nonzero n h = ground arith

pub zero-cases : (n : ℕ) → (n ≡ 0) ⊎ (n ≢ 0)
zero-cases n = ground arith

-- The abstract map.
abbrev pub Assoc : Type 0
Assoc = List ℕ → ℕ

abbrev pub update : Assoc → List ℕ → ℕ → Assoc
update f u v w = if str_eq w u then v else f w

pub update-cases :
    (f : Assoc) (u w : List ℕ) (v : ℕ)
    → ((w ≡ u) × (update f u v w ≡ v)) ⊎ ((w ≢ u) × (update f u v w ≡ f w))
update-cases f u w v = elim (Bool-cases (str_eq w u)) [
  | inl e ↦ inl (str_eq-true w u e, rw e refl)
  | inr e ↦ inr (λ h. str_eq-false w u e h, rw e refl)
]
