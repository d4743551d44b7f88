-- ===== src/Manager/Registry.antt =====
-- The families of cwaf/csp_kernel_manager.c against a map from numbers to families.
use cloudeagle.Common.{
  ℕ, ◌≡◌, ◌≢◌, refl, sym, ap, ◌∙◌, arith, Bool-cases, true, false, Option, Option-cases, none, some,
  List, [], ◌∷◌, ◌++◌, inl, inr, ◌⊎◌, ◌==◌, if◌then◌else◌, subst,
}
use cloudeagle.Manager.{
  Family, KmanCmd, find_kan_family, register_kernel_manager_cmds, unregister_kernel_manager_cmds,
  del_family,
}

abbrev pub Registered : Type 0
Registered = ℕ → Option Family

abbrev pub put : ℕ → Option Family → Registered → Registered
put family fa f g = if g == family then fa else f g

-- No two families have one number, and each number has the family that the map gives.
pub record Represents (fas : List Family) (f : Registered) : Type 0 where
  pub once : (family : ℕ) → find_kan_family family (del_family family fas) ≡ none
  pub found : (family : ℕ) → find_kan_family family fas ≡ f family

find-append :
    (g : ℕ) (fas : List Family) (fa : Family)
    → find_kan_family fa.family fas ≡ none
    → find_kan_family g (fas ++ (fa ∷ [])) ≡ put fa.family (some fa) (λ h. find_kan_family h fas) g
unfolding find_kan_family
find-append g [] fa h = ground arith
find-append g (f ∷ fas) fa h = ground (arith, find-append g fas fa)

find-del_other :
    (g h : ℕ) (fas : List Family)
    → h ≢ g
    → find_kan_family h (del_family g fas) ≡ find_kan_family h fas
unfolding find_kan_family del_family
find-del_other g h [] ne = refl
find-del_other g h (fa ∷ fas) ne = ground (arith, find-del_other g h fas ne)

del_absent : (g : ℕ) (fas : List Family) → find_kan_family g fas ≡ none → del_family g fas ≡ fas
unfolding find_kan_family del_family
del_absent g [] h = refl
del_absent g (fa ∷ fas) h = ground (arith, del_absent g fas)

del-append_self :
    (fas : List Family) (fa : Family)
    → find_kan_family fa.family fas ≡ none
    → del_family fa.family (fas ++ (fa ∷ [])) ≡ fas
unfolding find_kan_family del_family
del-append_self [] fa h = ground arith
del-append_self (f ∷ fas) fa h = ground (arith, del-append_self fas fa)

find-append_other :
    (g : ℕ) (fas : List Family) (fa : Family)
    → g ≢ fa.family
    → find_kan_family g (fas ++ (fa ∷ [])) ≡ find_kan_family g fas
unfolding find_kan_family
find-append_other g [] fa ne = ground arith
find-append_other g (f ∷ fas) fa ne = ground (arith, find-append_other g fas fa ne)

find-del_append :
    (g : ℕ) (fas : List Family) (fa : Family)
    → g ≢ fa.family
    → find_kan_family g (del_family g (fas ++ (fa ∷ []))) ≡ find_kan_family g (del_family g fas)
unfolding find_kan_family del_family
find-del_append g [] fa ne = ground arith
find-del_append g (f ∷ fas) fa ne = elim (Bool-cases (f.family == g)) [
  | inl e ↦ rw (e, del_family) (find-append_other g fas fa ne)
  | inr e ↦ rw (e, del_family) (rw (e, find_kan_family) (find-del_append g fas fa ne))
]

find-del_del :
    (g h : ℕ) (fas : List Family)
    → h ≢ g
    → find_kan_family h (del_family h (del_family g fas)) ≡ find_kan_family h (del_family h fas)
unfolding find_kan_family del_family
find-del_del g h [] ne = refl
find-del_del g h (f ∷ fas) ne = elim (Bool-cases (f.family == g)) [
  | inl e ↦
      let other : (f.family == h) ≡ false = ground arith in
      rw (e, del_family) (rw (other, del_family) (rw (other, find_kan_family) refl))
  | inr e ↦ elim (Bool-cases (f.family == h)) [
    | inl e' ↦ rw (e, del_family) (rw (e', del_family) (find-del_other g h fas ne))
    | inr e' ↦
        rw (e, del_family)
          (rw (e', del_family) (rw (e', find_kan_family) (find-del_del g h fas ne)))
  ]
]

same-cases : (g h : ℕ) → (g ≡ h) ⊎ (g ≢ h)
same-cases g h = ground arith

put_self : (g : ℕ) (fa : Option Family) (f : Registered) → put g fa f g ≡ fa
put_self g fa f = ground arith

put_other : (g h : ℕ) (fa : Option Family) (f : Registered) → h ≢ g → put g fa f h ≡ f h
put_other g h fa f ne = ground arith

module _ (fas : List Family) (f : Registered) (r : Represents fas f) where
  -- With memory for it: a number that has no family gets the one registered, and the other numbers
  -- keep theirs; a number that has a family stops the kernel.
  pub register_kernel_manager_cmds-Represents :
      (family private_data : ℕ) (arr : ℕ → KmanCmd)
      → let fa : Family = record { family = family; private_data = private_data; cmd_arr = arr } in
        ((f family ≡ none)
          × ((fas' : List Family) × (register_kernel_manager_cmds true family
                  (some arr)
                  private_data
                  fas
                ≡ some fas')
              × Represents fas' (put family (some fa) f)))
        ⊎ ((f family ≢ none)
            × (register_kernel_manager_cmds true family (some arr) private_data fas ≡ none))
  unfolding register_kernel_manager_cmds
  register_kernel_manager_cmds-Represents family private_data arr =
      let fa : Family = record { family = family; private_data = private_data; cmd_arr = arr } in
      elim (Option-cases (find_kan_family family fas)) [
        | inl e ↦ inl (
          sym (r.found family) ∙ e,
          (
            fas ++ (fa ∷ []),
            rw (e, register_kernel_manager_cmds) refl,
            record {
              once = λ g. elim (same-cases g family) [
                | inl same ↦
                    subst (λ h. find_kan_family h (del_family h (fas ++ (fa ∷ []))) ≡ none)
                      (sym same) (rw (del-append_self fas fa e) e)
                | inr ne ↦ find-del_append g fas fa ne ∙ r.once g
              ];
              found = λ g. elim (same-cases g family) [
                | inl same ↦
                    find-append g fas fa e
                    ∙ ap (λ x. if g == family then some fa else x) (r.found g)
                | inr ne ↦
                    find-append_other g fas fa ne
                    ∙ r.found g
                    ∙ sym (put_other family g (some fa) f ne)
              ];
            },
          ),
        )
        | inr (fa', e) ↦ inr (
          λ z. let x : f family ≡ some fa' = sym (r.found family) ∙ e in cc,
          rw (e, register_kernel_manager_cmds) refl,
        )
      ]

  -- A number that has a family loses it, and the other numbers keep theirs; a number that has none
  -- stops the kernel.
  pub unregister_kernel_manager_cmds-Represents :
      (family : ℕ)
      → ((f family ≢ none)
          × ((fas' : List Family) × (unregister_kernel_manager_cmds family fas ≡ some fas')
              × Represents fas' (put family none f)))
        ⊎ ((f family ≡ none) × (unregister_kernel_manager_cmds family fas ≡ none))
  unfolding unregister_kernel_manager_cmds
  unregister_kernel_manager_cmds-Represents family =
      elim (Option-cases (find_kan_family family fas)) [
        | inl e ↦ inr (sym (r.found family) ∙ e, rw (e, unregister_kernel_manager_cmds) refl)
        | inr (fa, e) ↦ inl (
          λ z. let x : f family ≡ some fa = sym (r.found family) ∙ e in cc,
          (
            del_family family fas,
            rw (e, unregister_kernel_manager_cmds) refl,
            record {
              once = λ g. elim (same-cases g family) [
                | inl same ↦
                    subst (λ h. find_kan_family h (del_family h (del_family family fas)) ≡ none)
                      (sym same)
                      (rw (del_absent family (del_family family fas) (r.once family))
                        (r.once family))
                | inr ne ↦ find-del_del family g fas ne ∙ r.once g
              ];
              found = λ g. elim (same-cases g family) [
                | inl same ↦
                    subst (λ h. find_kan_family h (del_family family fas) ≡ put family none f h)
                      (sym same) (r.once family ∙ sym (put_self family none f))
                | inr ne ↦
                    find-del_other family g fas ne ∙ r.found g ∙ sym (put_other family g none f ne)
              ];
            },
          ),
        )
      ]

-- The list is empty at first.
pub nil-Represents : Represents [] (λ family. none)
unfolding find_kan_family del_family
nil-Represents = record { once = λ family. refl; found = λ family. refl }

pub one-Represents : (fa : Family) → Represents (fa ∷ []) (put fa.family (some fa) (λ family. none))
unfolding find_kan_family del_family
one-Represents fa = record { once = λ family. ground arith; found = λ family. ground arith }
