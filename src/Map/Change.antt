-- ===== src/Map/Change.antt =====
-- The functions of ce_util/ce_map.c that change a map, and those that look into it. Where one gives
-- `none`, an assertion fails, the static table is freed, or a search does not end.
use cloudeagle.Common.{
  ℕ, zero, suc, ◌+◌, ◌-◌, ◌*◌, ◌/◌, ◌%◌, ◌^◌, Bool, ◌&&◌, not, true, false, Option, none, some,
}
use cloudeagle.Common.{leb, ◌==◌, if◌then◌else◌, List, [], ◌∷◌}
use cloudeagle.Common.Memory.{Memory}
use cloudeagle.Map.{
  Key, null, dummy, string, Entry, Keys, CeMap, CeStr, slot, next_i, enough, find_key_entry,
  string_hash, create_map_keys, map_init_size,
}

-- `a <= b` for the `int` values of two 32-bit patterns.
abbrev pub int_leb : ℕ → ℕ → Bool
int_leb a b = leb ((a + 2 ^ 31) % 2 ^ 32) ((b + 2 ^ 31) % 2 ^ 32)

abbrev pub set_entry : Keys → ℕ → Entry → Keys
set_entry keys s e = record keys { m_key_entries = λ t. if t == s then e else keys.m_key_entries t }

-- The loops of `find_empty_slot` and `insertmap_clean`: on to the first entry of a NULL key.
unfoldable pub empty_from : ℕ → Keys → ℕ → ℕ → Option ℕ
empty_from zero keys i perturb = none
empty_from (suc fuel) keys i perturb = elim (keys.m_key_entries (slot keys i)).m_key [
  | null ↦ some (slot keys i)
  | dummy ↦ empty_from fuel keys (next_i i perturb) (perturb / 32)
  | string a ↦ empty_from fuel keys (next_i i perturb) (perturb / 32)
]

-- The assertion is that the entry has no value.
unfoldable pub find_empty_slot : Keys → ℕ → Option ℕ
unfolding empty_from
find_empty_slot keys hash = elim (empty_from (enough keys) keys (slot keys hash) hash) [
  | none ↦ none
  | some s ↦ if (keys.m_key_entries s).m_value == 0 then some s else none
]

-- Its own loop is the one of `find_empty_slot`.
unfoldable pub insertmap_clean : Keys → Key → ℕ → ℕ → Option Keys
unfolding find_empty_slot
insertmap_clean keys key hash value = elim key [
  | null ↦ none
  | dummy ↦ none
  | string a ↦ if value == 0 then none else elim (find_empty_slot keys hash) [
    | none ↦ none
    | some s ↦ some (set_entry keys s (record { m_hash = hash; m_key = string a; m_value = value }))
  ]
]

-- The loop of `map_resize` for the size: doubled while it is at most `minused` and positive.
unfoldable pub new_size_from : ℕ → ℕ → ℕ → ℕ
new_size_from zero size minused = size
new_size_from (suc fuel) size minused = elim (int_leb size minused && not (int_leb size 0)) [
  | true ↦ new_size_from fuel (size * 2 % 2 ^ 32) minused
  | false ↦ size
]

-- The loop of `map_resize` over the `n` old entries from `i` on.
unfoldable pub insert_all : ℕ → ℕ → Keys → Keys → Option Keys
unfolding insertmap_clean
insert_all zero i old keys = some keys
insert_all (suc n) i old keys =
    let ep = old.m_key_entries i in
    elim (ep.m_value == 0) [
      | true ↦ insert_all n (suc i) old keys
      | false ↦ elim (insertmap_clean keys ep.m_key ep.m_hash ep.m_value) [
        | none ↦ none
        | some keys' ↦ insert_all n (suc i) old keys'
      ]
    ]

-- CE_OK is true and CE_ERROR false. Of a size of one the old table is `empty_keys_struct`, and its
-- release is an error. The size is found in at most 30 turns.
unfoldable pub map_resize : Bool → ℕ → CeMap → Option (Bool × CeMap)
unfolding new_size_from create_map_keys insert_all
map_resize alloc minused mp =
    let new_size = new_size_from 30 map_init_size minused in
    if int_leb new_size 0 then some (false, mp) else elim (create_map_keys alloc new_size) [
      | none ↦ some (false, mp)
      | some keys ↦
          let old = mp.ma_keys in
          if old.m_key_num == 1
          then if old.is_static then none else some (true, record mp { ma_keys = keys })
          else elim (insert_all old.m_key_num 0 old keys) [
            | none ↦ none
            | some keys' ↦
                if old.is_static
                then none
                else some (
                  true,
                  record mp {
                    ma_keys = record keys' {
                      m_key_usable = (keys'.m_key_usable + 2 ^ 32 - mp.ma_used) % 2 ^ 32;
                    };
                  },
                )
          ]
    ]

-- GROWTH_RATE
unfoldable pub insertion_resize : Bool → CeMap → Option (Bool × CeMap)
unfolding map_resize
insertion_resize alloc mp = map_resize alloc (mp.ma_used * 2 % 2 ^ 32) mp

abbrev pub count_used : CeMap → CeMap
count_used mp = record mp { ma_used = (mp.ma_used + 1) % 2 ^ 32 }

-- A new entry in the place of a NULL key; the assertion is that `m_key_usable` was positive.
abbrev pub fill : CeMap → ℕ → Entry → Option (Bool × CeMap)
fill mp s e =
    let keys = mp.ma_keys in
    if int_leb keys.m_key_usable 0
    then none
    else some (
      true,
      count_used (record mp {
        ma_keys = set_entry (record keys { m_key_usable = keys.m_key_usable - 1 }) s e;
      }),
    )

unfoldable pub insert_map : Bool → Memory → CeMap → CeStr → ℕ → ℕ → Option (Bool × CeMap)
unfolding insertion_resize find_key_entry find_empty_slot
insert_map alloc mem mp key hash value = elim (find_key_entry mem mp key hash) [
  | none ↦ none
  | some s ↦
      let e : Entry = record { m_hash = hash; m_key = string key.address; m_value = value } in
      let ep = mp.ma_keys.m_key_entries s in
      elim ep.m_key [
        | string a ↦ some (
          true,
          count_used
              (record mp { ma_keys = set_entry mp.ma_keys s (record ep { m_value = value }) }),
        )
        | dummy ↦ some (true, count_used (record mp { ma_keys = set_entry mp.ma_keys s e }))
        | null ↦
            if int_leb mp.ma_keys.m_key_usable 0
            then elim (insertion_resize alloc mp) [
              | none ↦ none
              | some (ok, mp') ↦
                  if ok
                  then elim (find_empty_slot mp'.ma_keys hash) [
                    | none ↦ none
                    | some s' ↦ fill mp' s' e
                  ]
                  else some (false, mp')
            ]
            else fill mp s e
      ]
]

-- NULL is 0.
unfoldable pub ce_map_get_value : Memory → CeMap → CeStr → Option ℕ
unfolding find_key_entry string_hash
ce_map_get_value mem mp key = elim (find_key_entry mem mp key (string_hash mem key)) [
  | none ↦ none
  | some s ↦
      let ep = mp.ma_keys.m_key_entries s in
      some (elim ep.m_key [ null ↦ 0 | dummy ↦ 0 | string a ↦ ep.m_value ])
]

unfoldable pub ce_map_set_value : Bool → Memory → CeMap → CeStr → ℕ → Option (Bool × CeMap)
unfolding insert_map string_hash
ce_map_set_value alloc mem mp key value =
    if key.address == 0 then none else insert_map alloc mem mp key (string_hash mem key) value

-- With the map go the arguments of the calls of `kv_free_fun`.
unfoldable pub ce_map_del_value : Memory → CeMap → CeStr → Option (List (Key × ℕ) × CeMap)
unfolding find_key_entry string_hash
ce_map_del_value mem mp key =
    if key.address == 0 then none else elim (find_key_entry mem mp key (string_hash mem key)) [
      | none ↦ none
      | some s ↦
          let ep = mp.ma_keys.m_key_entries s in
          some (
            if mp.kv_free_fun then (ep.m_key, ep.m_value) ∷ [] else [],
            record mp {
              ma_used = (mp.ma_used + 2 ^ 32 - 1) % 2 ^ 32;
              ma_keys = set_entry mp.ma_keys s (record ep { m_key = dummy; m_value = 0 });
            },
          )
    ]

-- The calls of `kv_free_fun` for the `n` entries from `i` on.
abbrev pub freed_from : ℕ → ℕ → Keys → List (Key × ℕ)
freed_from zero i keys = []
freed_from (suc n) i keys =
    let ep = keys.m_key_entries i in
    let rest = freed_from n (suc i) keys in
    elim ep.m_key [ null ↦ rest | dummy ↦ rest | string a ↦ (string a, ep.m_value) ∷ rest ]

-- The static table cannot be freed.
unfoldable pub free_map_keys : Bool → Keys → Option (List (Key × ℕ))
free_map_keys kv_free_fun keys =
    if keys.is_static
    then none
    else some (if kv_free_fun then freed_from keys.m_key_num 0 keys else [])

-- `empty_keys_struct`, as it is at first. A map that writes into it changes it for every map.
abbrev pub empty_keys : Keys
empty_keys = record {
  m_key_num = 1;
  m_key_usable = 0;
  m_key_entries = λ s. record { m_hash = 0; m_key = null; m_value = 0 };
  is_static = true;
}

unfoldable pub ce_clear_map : CeMap → Option (List (Key × ℕ) × CeMap)
unfolding free_map_keys
ce_clear_map mp = elim (free_map_keys mp.kv_free_fun mp.ma_keys) [
  | none ↦ none
  | some freed ↦ some (freed, record mp { ma_keys = empty_keys; ma_used = 0 })
]

unfoldable pub ce_map_coceins : Memory → CeMap → CeStr → Option Bool
unfolding find_key_entry string_hash
ce_map_coceins mem mp key =
    if key.address == 0
    then some false
    else elim (find_key_entry mem mp key (string_hash mem key)) [
      | none ↦ none
      | some s ↦ some (elim (mp.ma_keys.m_key_entries s).m_key [
        | null ↦ false
        | dummy ↦ false
        | string a ↦ true
      ])
    ]
