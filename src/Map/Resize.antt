-- ===== src/Map/Resize.antt =====
-- map_resize of ce_util/ce_map.c: the new table binds what the old one bound, and has room.
use cloudeagle.Common.{
  ℕ, ◌+◌, ◌-◌, ◌*◌, ◌%◌, ◌^◌, ◌<◌, ◌≤◌, ◌≡◌, refl, arith, true, false, some, ◌==◌, ◌↔◌, List,
}
use cloudeagle.Common.Memory.{Memory}
use cloudeagle.Map.{null, Keys, CeMap, usable_fraction, create_map_keys, map_init_size}
use cloudeagle.Map.Change.{insert_all, map_resize, insertion_resize, new_size_from, int_leb}
use cloudeagle.Map.Table.{IsTable, IsTable-usable, Binds}
use cloudeagle.Map.Count.{IsMap, power_bounds, sum_zero}
use cloudeagle.Map.Room.{new_size_from-lem}
use cloudeagle.Map.Copy.{Copied}
use cloudeagle.Map.CopyLoop.{insert_all-lem, Copied-Binds}

-- The table that `create_map_keys` makes.
abbrev pub new_keys : ℕ → Keys
new_keys n = record {
  m_key_num = n;
  m_key_usable = usable_fraction n;
  m_key_entries = λ s. record { m_hash = 0; m_key = null; m_value = 0 };
  is_static = false;
}

pub new_keys-IsTable : (mem : Memory) (n : ℕ) → IsTable mem (new_keys n)
new_keys-IsTable mem n = record {
  hashed = λ s a k. cc;
  reached = λ s a k. cc;
  unique = λ s t a b k k' same. cc;
  valued = λ s a k. cc;
  unvalued = λ s k. refl;
}

Copied-zero :
    (mem : Memory) (old : Keys) (width : ℕ) (old_table : IsTable mem old) (width_le : width ≤ 26)
    → Copied mem old width (usable_fraction (2 ^ width)) old_table width_le 0 (new_keys (2 ^ width))
Copied-zero mem old width old_table width_le = record {
  table = new_keys-IsTable mem (2 ^ width);
  size = refl;
  not_static = refl;
  usable_same = refl;
  all_filled = sum_zero (2 ^ width);
  all_living = sum_zero (2 ^ width);
  forth = λ s a lt k. absurd (omega arith);
  back = λ t b k. cc;
}

-- The map after `insertion_resize`: it binds the same, counts the same and has an entry to be used.
pub record Resized (mem : Memory) (mp mp' : CeMap) : Type 0 where
  pub is_map : IsMap mem mp'
  pub same : (u : List ℕ) (v : ℕ) → Binds mem mp.ma_keys u v ↔ Binds mem mp'.ma_keys u v
  pub same_used : mp'.ma_used ≡ mp.ma_used
  pub some_usable : int_leb mp'.ma_keys.m_key_usable 0 ≡ false

map_resize-room :
    (mp : CeMap) (n : ℕ) (keys' : Keys) (minused : ℕ)
    → new_size_from 30 map_init_size minused ≡ n
    → int_leb n 0 ≡ false
    → (mp.ma_keys.m_key_num == 1) ≡ false
    → insert_all mp.ma_keys.m_key_num 0 mp.ma_keys (new_keys n) ≡ some keys'
    → mp.ma_keys.is_static ≡ false
    → map_resize true minused mp
      ≡ some (
        true,
        record mp {
          ma_keys = record keys' {
            m_key_usable = (keys'.m_key_usable + 2 ^ 32 - mp.ma_used) % 2 ^ 32;
          };
        },
      )
unfolding map_resize create_map_keys
map_resize-room mp n keys' minused size positive not_one copied not_static =
    rw (size, positive, not_one, copied, not_static, map_resize) refl

-- With the size that was found.
module _ (mem : Memory) (mp : CeMap) (m : IsMap mem mp) (k : ℕ) (lo : 3 ≤ k) (hi : k ≤ 26)
    (above : mp.ma_used * 2 < 2 ^ k) where
  abbrev left : ℕ
  left = usable_fraction (2 ^ k) - mp.ma_used

  abbrev resized : Keys → CeMap
  resized keys' = record mp {
    ma_keys = record keys' { m_key_usable = (keys'.m_key_usable + 2 ^ 32 - mp.ma_used) % 2 ^ 32 };
  }

  module _ (keys' : Keys)
      (c : Copied mem mp.ma_keys k
        (usable_fraction (2 ^ k))
        m.table
        hi
        mp.ma_keys.m_key_num
        keys') where
    left-lem :
        ((keys'.m_key_usable + 2 ^ 32 - mp.ma_used) % 2 ^ 32 ≡ left)
        × (mp.ma_used + left ≡ usable_fraction (2 ^ k))
        × (0 < left)
        × (left < 2 ^ 31)
    left-lem =
        let (n_lo, n_hi) = power_bounds k lo hi in
        (omega (arith, c.usable_same), omega arith, omega arith, omega arith)

    resized-IsTable : IsTable mem (resized keys').ma_keys
    resized-IsTable = IsTable-usable mem keys' _ c.table

    resized-IsMap : IsMap mem (resized keys')
    resized-IsMap =
        let (e, sum, pos, small) = left-lem in
        record {
          table = resized-IsTable;
          width = k;
          at_least = lo;
          at_most = hi;
          size = c.size;
          not_static = c.not_static;
          usable = rw (e, c.size) (omega (arith, c.all_filled, m.used, sum));
          used = rw c.size (omega (arith, c.all_living, m.used));
          limit = m.limit;
        }

    resized-Resized : Resized mem mp (resized keys')
    unfolding Binds
    resized-Resized =
        let (e, sum, pos, small) = left-lem in
        let (old_lo, old_hi) = power_bounds m.width m.at_least m.at_most in
        record {
          is_map = resized-IsMap;
          same =
              Copied-Binds mem mp.ma_keys k (usable_fraction (2 ^ k)) m.table hi keys'
                (omega (arith, m.size)) c;
          same_used = refl;
          some_usable = rw e (ground arith);
        }

size-lem :
    (used : ℕ)
    → used < 2 ^ 25
    → (k : ℕ) × (3 ≤ k)
      × (k ≤ 26)
      × (new_size_from 30 map_init_size (used * 2 % 2 ^ 32) ≡ 2 ^ k)
      × (used * 2 < 2 ^ k)
size-lem used used< =
    let (k, lo, hi, e, above) =
      new_size_from-lem 30 3 (used * 2 % 2 ^ 32) (omega arith) (omega arith) (omega arith) in
    (k, lo, hi, e, omega arith)

pub insertion_resize-lem :
    (mem : Memory) (mp : CeMap)
    → IsMap mem mp
    → mp.ma_used < 2 ^ 25
    → (mp' : CeMap) × (insertion_resize true mp ≡ some (true, mp')) × Resized mem mp mp'
unfolding insertion_resize
insertion_resize-lem mem mp m used< =
    let (k, lo, hi, size, above) = size-lem mp.ma_used used< in
    let (n_lo, n_hi) = power_bounds k lo hi in
    let (old_lo, old_hi) = power_bounds m.width m.at_least m.at_most in
    let positive : int_leb (2 ^ k) 0 ≡ false = ground arith in
    let not_one : (mp.ma_keys.m_key_num == 1) ≡ false = ground (arith, m.size) in
    let (keys', copied, c) =
      insert_all-lem mem mp.ma_keys k (usable_fraction (2 ^ k)) m.table hi mp.ma_keys.m_key_num 0
        (new_keys (2 ^ k)) (omega arith) (omega (arith, m.used))
        (Copied-zero mem mp.ma_keys k m.table hi) in
    (
      resized mem mp m k lo hi above keys',
      map_resize-room mp (2 ^ k) keys' (mp.ma_used * 2 % 2 ^ 32) size positive not_one copied
          m.not_static,
      resized-Resized mem mp m k lo hi above keys' c,
    )
