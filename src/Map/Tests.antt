-- ===== src/Map/Tests.antt =====
-- Runs of the map, and the theorems at concrete inputs.
use cloudeagle.Common.{
  ℕ, ◌+◌, ◌-◌, ◌%◌, ◌^◌, ◌<◌, ◌≡◌, ◌≢◌, refl, sym, arith, true, false, not, some, none, List, [],
  ◌∷◌, ◌==◌, ◌⊎◌, if◌then◌else◌,
}
use cloudeagle.Common.Memory.{Memory, store, c_string, load}
use cloudeagle.Map.{null, dummy, string, CeMap, CeStr, Keys, bytes_of, string_hash, find_from}
use cloudeagle.Map.Change.{
  ce_map_get_value, ce_map_set_value, ce_map_del_value, ce_map_coceins, ce_clear_map, freed_from,
}
use cloudeagle.Map.Walk.{walk, walk-meets}
use cloudeagle.Map.Search.{key_at}
use cloudeagle.Map.Resize.{new_keys}
use cloudeagle.Map.Assoc.{update}
use cloudeagle.Map.Refinement.{
  IsKey, Represents, ce_map_get_value-Represents, ce_map_set_value-Represents,
  ce_map_del_value-Represents,
}
use cloudeagle.Map.Runs.{
  Op, set, del, run_new, apply_ops, IsAllowed, no_values, new_map, new_map-Represents,
  ce_map_get_value-run_ops,
}
use cloudeagle.Map.Faults.{
  find_from-endless, ce_map_del_value-absent, ce_map_set_value-ce_clear_map,
}

abbrev strings : Memory
strings = store (store (λ a. 0) 100 (b'm' ∷ b'a' ∷ b'p' ∷ [])) 200 (b'k' ∷ b'e' ∷ b'y' ∷ b's' ∷ [])

abbrev key1 : CeStr
key1 = record { address = 100; len = 3 }

abbrev key2 : CeStr
key2 = record { address = 200; len = 4 }

hash_test : string_hash strings key1 ≡ 29568
unfolding string_hash load store
hash_test = refl

key1-IsKey : IsKey strings key1
unfolding c_string load store
key1-IsKey = (omega arith, refl)

key2-IsKey : IsKey strings key2
unfolding c_string load store
key2-IsKey = (omega arith, refl)

abbrev calls : List Op
calls = set key1 7 ∷ set key2 9 ∷ set key1 8 ∷ del key2 ∷ []

calls-IsAllowed : IsAllowed strings calls no_values
unfolding load store
calls-IsAllowed = (
  key1-IsKey,
  omega arith,
  (key2-IsKey, omega arith, (key1-IsKey, omega arith, (omega arith, omega arith, tt))),
)

ce_map_get_value-run_ops_example :
    (mp' : CeMap) × (run_new strings calls 0 true ≡ some mp')
    × (ce_map_get_value strings mp' key1
        ≡ some (apply_ops strings calls no_values (bytes_of strings key1)))
    × (ce_map_coceins strings mp' key1
        ≡ some (not (apply_ops strings calls no_values (bytes_of strings key1) == 0)))
ce_map_get_value-run_ops_example =
    ce_map_get_value-run_ops strings calls key1 0 true calls-IsAllowed (omega arith) (omega arith)

-- What the abstract map has there.
abstract_test : apply_ops strings calls no_values (bytes_of strings key1) ≡ 8
unfolding load store
abstract_test = refl

abbrev mp0 : CeMap
mp0 = new_map 0 true

ce_map_set_value-Represents_example :
    (mp' : CeMap) × (ce_map_set_value true strings mp0 key1 7 ≡ some (true, mp'))
    × Represents strings mp' (update no_values (bytes_of strings key1) 7)
    × (mp'.ma_used ≡ 0 + 1)
ce_map_set_value-Represents_example =
    ce_map_set_value-Represents strings mp0 no_values (new_map-Represents strings 0 true).1 key1 7
      key1-IsKey (omega arith) (omega arith)

ce_map_get_value-Represents_example :
    (ce_map_get_value strings mp0 key2 ≡ some 0) × (ce_map_coceins strings mp0 key2 ≡ some false)
ce_map_get_value-Represents_example =
    ce_map_get_value-Represents strings mp0 no_values (new_map-Represents strings 0 true).1 key2
      (omega arith)

-- The map after one value is set.
abbrev one_value : CeMap
one_value =
    (ce_map_set_value-Represents strings mp0 no_values (new_map-Represents strings 0 true).1 key1 7
      key1-IsKey (omega arith) (omega arith)).0

one_value_there : update no_values (bytes_of strings key1) 7 (bytes_of strings key1) ≢ 0
unfolding load store
one_value_there = omega arith

ce_map_del_value-Represents_example :
    (a : ℕ) × (mp' : CeMap) × (c_string strings a ≡ bytes_of strings key1)
    × (ce_map_del_value strings one_value key1
        ≡ some (
          if one_value.kv_free_fun
              then (string a, update no_values (bytes_of strings key1) 7 (bytes_of strings key1))
                ∷ []
              else [],
          mp',
        ))
    × Represents strings mp'
        (update (update no_values (bytes_of strings key1) 7) (bytes_of strings key1) 0)
    × (mp'.ma_used + 1 ≡ one_value.ma_used)
ce_map_del_value-Represents_example =
    ce_map_del_value-Represents strings one_value (update no_values (bytes_of strings key1) 7)
      (ce_map_set_value-Represents strings mp0 no_values (new_map-Represents strings 0 true).1 key1
        7 key1-IsKey (omega arith) (omega arith)).2
      key1 (omega arith) one_value_there

walk-meets_example : (n : ℕ) × (n < 2 ^ 3 + 7) × (walk n 5 29568 % 2 ^ 3 ≡ 2)
walk-meets_example = walk-meets 3 5 29568 2 (omega arith) (omega arith) (omega arith)

-- A table in which all strings were deleted.
abbrev all_deleted : Keys
all_deleted = record (new_keys 8) {
  m_key_entries = λ s. record { m_hash = 3; m_key = dummy; m_value = 0 };
}

find_from-endless_example : find_from 1000000 strings all_deleted key1 29568 0 29568 none ≡ none
find_from-endless_example =
    find_from-endless strings all_deleted key1 29568 (λ i e. cc) (λ i a e. cc) 1000000 0 29568 none

ce_map_del_value-absent_example :
    (s : ℕ) × (mp' : CeMap) × ((key_at mp0.ma_keys s ≡ null) ⊎ (key_at mp0.ma_keys s ≡ dummy))
    × (ce_map_del_value strings mp0 key1 ≡ some ((key_at mp0.ma_keys s, 0) ∷ [], mp'))
    × (mp'.ma_used ≡ (0 + 2 ^ 32 - 1) % 2 ^ 32)
    × (key_at mp'.ma_keys s ≡ dummy)
ce_map_del_value-absent_example =
    ce_map_del_value-absent strings mp0 key1 (new_map-Represents strings 0 true).1.is_map
      (omega arith)
      (λ v b.
        let (p, q) = ((new_map-Represents strings 0 true).1.binds (bytes_of strings key1) v).0 b in
        absurd (q (sym p)))

ce_map_set_value-ce_clear_map_example :
    (mp' : CeMap) × (ce_clear_map mp0 ≡ some (freed_from 8 0 mp0.ma_keys, mp'))
    × (ce_map_get_value strings mp' key1 ≡ some 0)
    × (ce_map_set_value true strings mp' key1 7 ≡ none)
ce_map_set_value-ce_clear_map_example = ce_map_set_value-ce_clear_map strings mp0 key1 7 refl
