-- ===== src/Map/Put.antt =====
-- A table of ce_util/ce_map.c in which one entry is another.
use cloudeagle.Common.{ℕ, ◌≡◌, ◌≢◌, refl, ap, sym, ◌∙◌, subst, arith, inl, inr, ◌⊎◌, List, ◌↔◌}
use cloudeagle.Common.Memory.{Memory, c_string}
use cloudeagle.Map.{null, dummy, string, Entry, Keys, slot}
use cloudeagle.Map.Search.{key_at, Reaches}
use cloudeagle.Map.Texts.{text_hash}
use cloudeagle.Map.Table.{IsTable, Binds, Grows, Reaches-Grows_start}

pub string_inj : (a b : ℕ) → string a ≡ string b → a ≡ b
string_inj a b e = cc

same-cases : (t s : ℕ) → (t ≡ s) ⊎ (t ≢ s)
same-cases t s = ground arith

-- The second table is the first with the entry `e` at `s`.
pub record Puts (keys keys' : Keys) (s : ℕ) (e : Entry) : Type 0 where
  pub size : keys'.m_key_num ≡ keys.m_key_num
  pub here : keys'.m_key_entries s ≡ e
  pub else_where : (t : ℕ) → t ≢ s → keys'.m_key_entries t ≡ keys.m_key_entries t

module _ (keys keys' : Keys) (s : ℕ) (e : Entry) (p : Puts keys keys' s e) where
  place-cases :
      (t : ℕ)
      → ((t ≡ s) × (keys'.m_key_entries t ≡ e))
        ⊎ ((t ≢ s) × (keys'.m_key_entries t ≡ keys.m_key_entries t))
  place-cases t = elim (same-cases t s) [
    | inl h ↦ inl (h, ap keys'.m_key_entries h ∙ p.here)
    | inr h ↦ inr (h, p.else_where t h)
  ]

  no_string :
      (t a : ℕ) → key_at keys' t ≡ string a → ¬ ((key_at keys' t ≡ null) ⊎ (key_at keys' t ≡ dummy))
  no_string t a k (inl h) = cc
  no_string t a k (inr h) = cc

  pub string-cases :
      (t b : ℕ)
      → key_at keys' t ≡ string b
      → ((t ≡ s) × (e.m_key ≡ string b) × (keys'.m_key_entries t ≡ e))
        ⊎ ((t ≢ s) × (key_at keys t ≡ string b) × (keys'.m_key_entries t ≡ keys.m_key_entries t))
  string-cases t b k = elim (place-cases t) [
    | inl (h, x) ↦ inl (h, sym (ap (λ y. y.m_key) x) ∙ k, x)
    | inr (h, x) ↦ inr (h, sym (ap (λ y. y.m_key) x) ∙ k, x)
  ]

  pub Puts-Grows : e.m_key ≢ null → Grows keys keys'
  Puts-Grows h = (
    p.size,
    λ t k. elim (place-cases t) [
      | inl (_, x) ↦ absurd (h (sym (ap (λ y. y.m_key) x) ∙ k))
      | inr (_, x) ↦ sym (ap (λ y. y.m_key) x) ∙ k
    ],
  )

  module _ (mem : Memory) (table : IsTable mem keys) where
    -- A string is put in where the search for it comes by, and no other entry has it.
    module _ (a : ℕ) (k : e.m_key ≡ string a) (hash : e.m_hash ≡ text_hash (c_string mem a))
        (value : e.m_value ≢ 0)
        (reach : let h = text_hash (c_string mem a) in Reaches keys (slot keys h) h s)
        (alone : (t b : ℕ)
          → t ≢ s
          → key_at keys t ≡ string b
          → c_string mem b ≢ c_string mem a) where
      string-Grows : Grows keys keys'
      string-Grows = Puts-Grows (λ z. cc)

      string-reached :
          (t b : ℕ)
          → key_at keys' t ≡ string b
          → let h = text_hash (c_string mem b) in Reaches keys' (slot keys' h) h t
      string-reached t b kb = elim (string-cases t b kb) [
        | inl (h, k', x) ↦
            subst (λ c. let h = text_hash (c_string mem c) in Reaches keys' (slot keys' h) h t)
              (string_inj a b (sym k ∙ k'))
              (subst
                (Reaches keys' (slot keys' (text_hash (c_string mem a)))
                  (text_hash (c_string mem a)))
                (sym h)
                (Reaches-Grows_start keys keys' string-Grows (text_hash (c_string mem a)) s reach))
        | inr (h, k', x) ↦
            Reaches-Grows_start keys keys' string-Grows (text_hash (c_string mem b)) t
              (table.reached t b k')
      ]

      string_unique :
          (t u b c : ℕ)
          → key_at keys' t ≡ string b
          → key_at keys' u ≡ string c
          → c_string mem b ≡ c_string mem c
          → t ≡ u
      string_unique t u b c kb kc same = elim (string-cases t b kb) [
        | inl (h, k', x) ↦ elim (string-cases u c kc) [
          | inl (h', k'', x') ↦ h ∙ sym h'
          | inr (h', k'', x') ↦
              absurd (alone u c h' k'' (sym same ∙ ap (c_string mem) (string_inj b a (sym k' ∙ k))))
        ]
        | inr (h, k', x) ↦ elim (string-cases u c kc) [
          | inl (h', k'', x') ↦
              absurd (alone t b h k' (same ∙ ap (c_string mem) (string_inj c a (sym k'' ∙ k))))
          | inr (h', k'', x') ↦ table.unique t u b c k' k'' same
        ]
      ]

      pub IsTable-string : IsTable mem keys'
      IsTable-string = record {
        hashed = λ t b kb. elim (string-cases t b kb) [
          | inl (h, k', x) ↦
              ap (λ y. y.m_hash) x
              ∙ hash
              ∙ ap (λ c. text_hash (c_string mem c)) (string_inj a b (sym k ∙ k'))
          | inr (h, k', x) ↦ ap (λ y. y.m_hash) x ∙ table.hashed t b k'
        ];
        reached = string-reached;
        unique = string_unique;
        valued = λ t b kb z. elim (string-cases t b kb) [
          | inl (h, k', x) ↦ value (sym (ap (λ y. y.m_value) x) ∙ z)
          | inr (h, k', x) ↦ table.valued t b k' (sym (ap (λ y. y.m_value) x) ∙ z)
        ];
        unvalued = λ t kb. elim (place-cases t) [
          | inl (h, x) ↦ absurd (no_string t a (ap (λ y. y.m_key) x ∙ k) kb)
          | inr (h, x) ↦
              ap (λ y. y.m_value) x
              ∙ table.unvalued t (subst (λ y. (y.m_key ≡ null) ⊎ (y.m_key ≡ dummy)) x kb)
        ];
      }

    -- A deleted entry in the place of any.
    module _ (k : e.m_key ≡ dummy) (value : e.m_value ≡ 0) where
      still :
          (t b : ℕ)
          → key_at keys' t ≡ string b
          → (key_at keys t ≡ string b) × (keys'.m_key_entries t ≡ keys.m_key_entries t)
      still t b kb = elim (string-cases t b kb) [ inl (h, k', x) ↦ cc | inr (h, k', x) ↦ (k', x) ]

      pub IsTable-dummy : IsTable mem keys'
      IsTable-dummy = record {
        hashed = λ t b kb. let (k', x) = still t b kb in ap (λ y. y.m_hash) x ∙ table.hashed t b k';
        reached = λ t b kb.
            Reaches-Grows_start keys keys' (Puts-Grows (λ z. cc)) (text_hash (c_string mem b)) t
              (table.reached t b (still t b kb).0);
        unique = λ t u b c kb kc same. table.unique t u b c (still t b kb).0 (still u c kc).0 same;
        valued = λ t b kb z.
            let (k', x) = still t b kb in table.valued t b k' (sym (ap (λ y. y.m_value) x) ∙ z);
        unvalued = λ t kb. elim (place-cases t) [
          | inl (h, x) ↦ ap (λ y. y.m_value) x ∙ value
          | inr (h, x) ↦
              ap (λ y. y.m_value) x
              ∙ table.unvalued t (subst (λ y. (y.m_key ≡ null) ⊎ (y.m_key ≡ dummy)) x kb)
        ];
      }

    pub Binds-here :
        (a v : ℕ) → e.m_key ≡ string a → e.m_value ≡ v → Binds mem keys' (c_string mem a) v
    unfolding Binds
    Binds-here a v k x = (s, a, ap (λ y. y.m_key) p.here ∙ k, refl, ap (λ y. y.m_value) p.here ∙ x)

    -- What strings other than the old one and the new one are bound to is the same.
    pub Binds-else_where :
        (u : List ℕ) (v : ℕ)
        → ((b : ℕ) → key_at keys s ≡ string b → c_string mem b ≢ u)
        → ((b : ℕ) → e.m_key ≡ string b → c_string mem b ≢ u)
        → Binds mem keys u v ↔ Binds mem keys' u v
    unfolding Binds
    Binds-else_where u v old new = (
      λ (t, b, k, text, x). elim (place-cases t) [
        | inl (h, y) ↦ absurd (old b (subst (λ z. key_at keys z ≡ string b) h k) text)
        | inr (h, y) ↦ (t, b, ap (λ z. z.m_key) y ∙ k, text, ap (λ z. z.m_value) y ∙ x)
      ],
      λ (t, b, k, text, x). elim (string-cases t b k) [
        | inl (h, k', y) ↦ absurd (new b k' text)
        | inr (h, k', y) ↦ (t, b, k', text, sym (ap (λ z. z.m_value) y) ∙ x)
      ],
    )
