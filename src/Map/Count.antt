-- ===== src/Map/Count.antt =====
-- How many entries of a table of ce_util/ce_map.c are in use, and that one stays free.
use native.Mathlib.Nat.{pow-le-pow_right}
use cloudeagle.Common.{
  ℕ, zero, suc, ◌+◌, ◌^◌, ◌<◌, ◌≤◌, ◌≡◌, ◌≢◌, refl, ap, ◌∙◌, arith, false, inl, inr, ◌⊎◌,
}
use cloudeagle.Common.Memory.{Memory}
use cloudeagle.Map.{Key, null, dummy, string, Entry, Keys, CeMap, usable_fraction}
use cloudeagle.Map.Search.{key_at}
use cloudeagle.Map.Table.{IsTable}
use cloudeagle.Map.Put.{Puts}
use cloudeagle.Map.Lookup.{HasRoom}

abbrev pub sum : (ℕ → ℕ) → ℕ → ℕ
sum w zero = 0
sum w (suc n) = sum w n + w n

zero-cases : (n : ℕ) → (n ≡ 0) ⊎ (0 < n)
zero-cases n = ground arith

pub last-cases : (n s : ℕ) → s < suc n → (s ≡ n) ⊎ (s < n)
last-cases n s lt = ground arith

sum_same : (w w' : ℕ → ℕ) (n : ℕ) → ((t : ℕ) → t < n → w t ≡ w' t) → sum w n ≡ sum w' n
sum_same w w' zero h = refl
sum_same w w' (suc n) h =
    omega (arith, sum_same w w' n (λ t lt. h t (omega arith)), h n (omega arith))

pub sum_le : (w w' : ℕ → ℕ) (n : ℕ) → ((t : ℕ) → t < n → w t ≤ w' t) → sum w n ≤ sum w' n
sum_le w w' zero h = omega arith
sum_le w w' (suc n) h = omega (arith, sum_le w w' n (λ t lt. h t (omega arith)), h n (omega arith))

-- A change at one place.
pub sum_change :
    (w w' : ℕ → ℕ) (n s : ℕ)
    → s < n
    → ((t : ℕ) → t ≢ s → w' t ≡ w t)
    → sum w' n + w s ≡ sum w n + w' s
sum_change w w' zero s lt h = absurd (omega arith)
sum_change w w' (suc n) s lt h = elim (last-cases n s lt) [
  | inl e ↦ omega (arith, sum_same w' w n (λ t lt'. h t (λ e'. omega arith)), ap w e, ap w' e)
  | inr lt' ↦ omega (arith, sum_change w w' n s lt' h, h n (λ e. omega arith))
]

-- Among as many places as the sum is short of, one has nothing.
pub sum_lt : (w : ℕ → ℕ) (n : ℕ) → sum w n < n → (t : ℕ) × (t < n) × (w t ≡ 0)
sum_lt w zero h = absurd (omega arith)
sum_lt w (suc n) h = elim (zero-cases (w n)) [
  | inl e ↦ (n, omega arith, e)
  | inr pos ↦ let (t, lt, e) = sum_lt w n (omega arith) in (t, omega arith, e)
]

-- One for a key that is not NULL, and one for a string.
abbrev pub filled : Key → ℕ
filled k = elim k [ null ↦ 0 | dummy ↦ 1 | string a ↦ 1 ]

abbrev pub living : Key → ℕ
living k = elim k [ null ↦ 0 | dummy ↦ 0 | string a ↦ 1 ]

pub filled_zero : (k : Key) → filled k ≡ 0 → k ≡ null
filled_zero null e = refl
filled_zero dummy e = absurd (omega arith)
filled_zero (string a) e = absurd (omega arith)

abbrev pub filled_in : Keys → ℕ → ℕ
filled_in keys n = sum (λ t. filled (key_at keys t)) n

abbrev pub living_in : Keys → ℕ → ℕ
living_in keys n = sum (λ t. living (key_at keys t)) n

-- A map that grew to at most 2 ^ 25 values: its table is well-formed, the entries in use and those
-- still to be used are no more than two in three, and it counts all its strings. To that limit the
-- size of a table in bytes is an `int`.
pub record IsMap (mem : Memory) (mp : CeMap) : Type 0 where
  pub table : IsTable mem mp.ma_keys
  pub width : ℕ
  pub at_least : 3 ≤ width
  pub at_most : width ≤ 26
  pub size : mp.ma_keys.m_key_num ≡ 2 ^ width
  pub not_static : mp.ma_keys.is_static ≡ false
  pub usable :
      filled_in mp.ma_keys mp.ma_keys.m_key_num + mp.ma_keys.m_key_usable
      ≤ usable_fraction mp.ma_keys.m_key_num
  pub used : living_in mp.ma_keys mp.ma_keys.m_key_num ≤ mp.ma_used
  pub limit : mp.ma_used ≤ 2 ^ 25

pub power_bounds : (k : ℕ) → 3 ≤ k → k ≤ 26 → (8 ≤ 2 ^ k) × (2 ^ k ≤ 2 ^ 26)
power_bounds k lo hi = (pow-le-pow_right (omega arith) lo, pow-le-pow_right (omega arith) hi)

pub IsMap-HasRoom : (mem : Memory) (mp : CeMap) → IsMap mem mp → HasRoom mp.ma_keys
IsMap-HasRoom mem mp m =
    let (lo, hi) = power_bounds m.width m.at_least m.at_most in
    let (t, lt, e) =
      sum_lt (λ t. filled (key_at mp.ma_keys t)) mp.ma_keys.m_key_num
        (omega (arith, m.usable, m.size)) in
    record {
      width = m.width;
      width_le = m.at_most;
      size = m.size;
      free = t;
      free_lt = lt;
      is_null = filled_zero (key_at mp.ma_keys t) e;
    }

-- A map in which one entry is another, with its counters set to suit.
pub IsMap-Puts :
    (mem : Memory) (mp mp' : CeMap) (s : ℕ) (e : Entry)
    → IsMap mem mp
    → s < mp.ma_keys.m_key_num
    → Puts mp.ma_keys mp'.ma_keys s e
    → IsTable mem mp'.ma_keys
    → mp'.ma_keys.is_static ≡ mp.ma_keys.is_static
    → filled e.m_key + mp'.ma_keys.m_key_usable
      ≤ filled (key_at mp.ma_keys s) + mp.ma_keys.m_key_usable
    → living e.m_key + mp.ma_used ≤ living (key_at mp.ma_keys s) + mp'.ma_used
    → mp'.ma_used ≤ 2 ^ 25
    → IsMap mem mp'
IsMap-Puts mem mp mp' s e m s< p table static f l limit =
    let n : ℕ = mp.ma_keys.m_key_num in
    let at_s : key_at mp'.ma_keys s ≡ e.m_key = ap (λ y. y.m_key) p.here in
    let moved : (w : Key → ℕ)
        → sum (λ t. w (key_at mp'.ma_keys t)) n + w (key_at mp.ma_keys s)
          ≡ sum (λ t. w (key_at mp.ma_keys t)) n + w (key_at mp'.ma_keys s) =
      λ w.
        sum_change (λ t. w (key_at mp.ma_keys t)) (λ t. w (key_at mp'.ma_keys t)) n s s<
          (λ t ne. ap (λ y. w y.m_key) (p.else_where t ne)) in
    record {
      table = table;
      width = m.width;
      at_least = m.at_least;
      at_most = m.at_most;
      size = p.size ∙ m.size;
      not_static = static ∙ m.not_static;
      usable = rw p.size (omega (arith, moved filled, ap filled at_s, m.usable));
      used = rw p.size (omega (arith, moved living, ap living at_s, m.used));
      limit = limit;
    }

last_cases_le : (i n : ℕ) → i ≤ suc n → (i ≡ suc n) ⊎ (i ≤ n)
last_cases_le i n le = ground arith

pub sum_mono : (w : ℕ → ℕ) (i n : ℕ) → i ≤ n → sum w i ≤ sum w n
sum_mono w i zero le = let none : i ≡ 0 = omega arith in omega (arith, ap (sum w) none)
sum_mono w i (suc n) le = elim (last_cases_le i n le) [
  | inl e ↦ omega (arith, ap (sum w) e)
  | inr lt ↦ omega (arith, sum_mono w i n lt)
]

pub sum_zero : (n : ℕ) → sum (λ t. 0) n ≡ 0
sum_zero zero = refl
sum_zero (suc n) = omega (arith, sum_zero n)
