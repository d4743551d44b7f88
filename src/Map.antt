-- ===== src/Map.antt =====
-- ce_util/ce_map.h and ce_util/ce_map.c: a hash map from strings to pointers, by open addressing.
-- The keys are C strings in memory that the map reads and never writes. `Change` has the functions
-- that change a map.
use cloudeagle.Common.{
  ℕ, zero, suc, ◌+◌, ◌-◌, ◌*◌, ◌/◌, ◌%◌, ◌^◌, Bool, ◌&&◌, ◌||◌, not, true, false, Option, none,
  some,
}
use cloudeagle.Common.{ltb, leb, ◌==◌, if◌then◌else◌, List, [], ◌∷◌, length, bit_xor}
use cloudeagle.Common.Memory.{Memory, load, c_string}
use Prim.Native.Nat.{compare, Ordering}
pub mod Probe
pub mod Change
pub mod Walk
pub mod Search
pub mod Texts
pub mod Table
pub mod Put
pub mod Lookup
pub mod Count
pub mod Room
pub mod Copy
pub mod CopyLoop
pub mod Resize
pub mod Update
pub mod Insert
pub mod Delete
pub mod Assoc
pub mod Refinement
pub mod Runs
pub mod Faults
mod Tests

-- `m_key`: NULL, the address of `_dummy_struct`, or that of a string.
pub data Key : Type 0 where
  null : Key
  dummy : Key
  string : ℕ → Key

-- `ce_map_entry_t`; a NULL value is 0.
pub record Entry : Type 0 where
  pub m_hash : ℕ
  pub m_key : Key
  pub m_value : ℕ

-- `ce_map_keys_t`. `is_static` tells `empty_keys_struct` from what malloc gave.
pub record Keys : Type 0 where
  pub m_key_num : ℕ
  pub m_key_usable : ℕ
  pub m_key_entries : ℕ → Entry
  pub is_static : Bool

-- `ce_map_t`; `kv_free_fun` is whether there is such a callback.
pub record CeMap : Type 0 where
  pub ma_used : ℕ
  pub private_data : ℕ
  pub kv_free_fun : Bool
  pub ma_keys : Keys

-- `ce_str_t`
pub record CeStr : Type 0 where
  pub address : ℕ
  pub len : ℕ

-- The bytes of a `ce_str_t`.
abbrev pub bytes_of : Memory → CeStr → List ℕ
bytes_of mem key = load mem key.address key.len

-- memcmp of `n` bytes: the sign of the result.
abbrev pub memcmp : ℕ → List ℕ → List ℕ → Ordering
memcmp zero s1 s2 = Ordering.eq
memcmp (suc n) [] s2 = Ordering.eq
memcmp (suc n) (a ∷ s1) [] = Ordering.eq
memcmp (suc n) (a ∷ s1) (b ∷ s2) = elim (compare a b) [
  | Ordering.lt ↦ Ordering.lt
  | Ordering.eq ↦ memcmp n s1 s2
  | Ordering.gt ↦ Ordering.gt
]

abbrev pub is_zero : Ordering → Bool
is_zero o = elim o [ Ordering.lt ↦ false | Ordering.eq ↦ true | Ordering.gt ↦ false ]

-- The sign of the result, of two strings that are given with their lengths.
unfoldable pub ce_memn2cmp : List ℕ → List ℕ → Ordering
ce_memn2cmp s1 s2 =
    let n = if leb (length s1) (length s2) then length s1 else length s2 in
    let z = if leb (length s1) (length s2) then Ordering.lt else Ordering.gt in
    let m = memcmp n s1 s2 in if not (is_zero m) || length s1 == length s2 then m else z

-- One turn of the loop of `string_hash`: `x` is the digit of the bits 28 to 31.
abbrev pub hash_step : ℕ → ℕ → ℕ
hash_step hash b =
    let h = (hash * 16 + b) % 2 ^ 64 in
    let x = h / 2 ^ 28 % 16 * 2 ^ 28 in if x == 0 then h else bit_xor h (x / 2 ^ 24) - x

abbrev pub hash_from : ℕ → List ℕ → ℕ
hash_from hash [] = hash
hash_from hash (b ∷ bs) = hash_from (hash_step hash b) bs

unfoldable pub string_hash : Memory → CeStr → ℕ
string_hash mem key =
    if key.address == 0 || key.len == 0 then 0 else hash_from 0 (bytes_of mem key) % 2 ^ 31

-- USABLE_FRACTION
abbrev pub usable_fraction : ℕ → ℕ
usable_fraction n = (n * 2 + 1) / 3

-- Of the entries only the keys and the values are set; no `m_hash` of a NULL key is read. `alloc` is
-- whether malloc gives memory. `k_size`, an `int`, does not overflow for 2 ^ 26 entries or fewer; what
-- malloc gets for more is not modelled.
unfoldable pub create_map_keys : Bool → ℕ → Option Keys
create_map_keys alloc k_num =
    if alloc
    then some (record {
      m_key_num = k_num;
      m_key_usable = usable_fraction k_num;
      m_key_entries = λ s. record { m_hash = 0; m_key = null; m_value = 0 };
      is_static = false;
    })
    else none

-- MAP_INIT_D_SIZE
abbrev pub map_init_size : ℕ
map_init_size = 8

unfoldable pub ce_create_map : Bool → Bool → ℕ → Bool → Option CeMap
unfolding create_map_keys
ce_create_map alloc alloc' private_data kv_free_fun =
    if alloc
    then elim (create_map_keys alloc' map_init_size) [
      | none ↦ none
      | some keys ↦ some (record {
        ma_used = 0;
        private_data = private_data;
        kv_free_fun = kv_free_fun;
        ma_keys = keys;
      })
    ]
    else none

-- The next `i` of a search, an `int` that wraps around.
abbrev pub next_i : ℕ → ℕ → ℕ
next_i i perturb = (i * 4 + i + perturb + 1) % 2 ^ 32

-- The slot of an `i`: its bits under the mask, for a number of entries that is a power of two.
abbrev pub slot : Keys → ℕ → ℕ
slot keys i = i % keys.m_key_num

-- The test that an entry with a string at `a` has the key.
abbrev pub is_key : Memory → CeStr → ℕ → Entry → ℕ → Bool
is_key mem key hash ep a =
    (ep.m_hash == hash) && is_zero (ce_memn2cmp (bytes_of mem key) (c_string mem a))

-- The looks of `find_key_entry`, the one before its loop and those in it, of which there are at
-- most `fuel`. The result is the slot of the entry.
unfoldable pub find_from : ℕ → Memory → Keys → CeStr → ℕ → ℕ → ℕ → Option ℕ → Option ℕ
find_from zero mem keys key hash i perturb freeslot = none
find_from (suc fuel) mem keys key hash i perturb freeslot =
    let s = slot keys i in
    let ep = keys.m_key_entries s in
    elim ep.m_key [
      | null ↦ elim freeslot [ none ↦ some s | some f ↦ some f ]
      | dummy ↦
          find_from fuel mem keys key hash (next_i i perturb) (perturb / 32)
            (elim freeslot [ none ↦ some s | some f ↦ some f ])
      | string a ↦ elim (is_key mem key hash ep a) [
        | true ↦ some s
        | false ↦ find_from fuel mem keys key hash (next_i i perturb) (perturb / 32) freeslot
      ]
    ]

-- After seven steps `perturb` is zero, and then each slot is met once in as many steps as there are.
abbrev pub enough : Keys → ℕ
enough keys = keys.m_key_num + 7

unfoldable pub find_key_entry : Memory → CeMap → CeStr → ℕ → Option ℕ
unfolding find_from
find_key_entry mem mp key hash =
    find_from (enough mp.ma_keys) mem mp.ma_keys key hash (slot mp.ma_keys hash) hash none
