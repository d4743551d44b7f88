-- ===== src/Map/Faults.antt =====
-- Where ce_util/ce_map.c goes wrong: deleting what is not there, and using a map that was cleared.
use cloudeagle.Common.{
  ℕ, zero, suc, ◌+◌, ◌-◌, ◌/◌, ◌%◌, ◌^◌, ◌≡◌, ◌≢◌, refl, ap, ◌∙◌, arith, true, false, inl, inr, ◌⊎◌,
  Option, some, none, if◌then◌else◌, [], ◌∷◌,
}
use cloudeagle.Common.Memory.{Memory}
use cloudeagle.Map.{
  null, dummy, string, Keys, CeMap, CeStr, bytes_of, slot, next_i, is_key, find_from,
  find_key_entry,
}
use cloudeagle.Map.Change.{
  set_entry, empty_keys, ce_map_get_value, ce_map_set_value, ce_map_del_value, ce_clear_map,
  insert_map, insertion_resize, map_resize, free_map_keys, freed_from,
}
use cloudeagle.Map.Search.{key_at, Key-cases}
use cloudeagle.Map.Lookup.{Present, Absent, find_key_entry-cases, some_key}
use cloudeagle.Map.Table.{Binds}
use cloudeagle.Map.Count.{IsMap, IsMap-HasRoom}
use cloudeagle.Map.Room.{set_entry-Puts}
use cloudeagle.Map.Update.{if-false}

-- In a table without a NULL key, a search for a key that it does not have never ends.
pub find_from-endless :
    (mem : Memory) (keys : Keys) (key : CeStr) (hash : ℕ)
    → ((i : ℕ) → key_at keys (slot keys i) ≢ null)
    → ((i a : ℕ)
        → key_at keys (slot keys i) ≡ string a
        → is_key mem key hash (keys.m_key_entries (slot keys i)) a ≡ false)
    → (fuel i perturb : ℕ) (freeslot : Option ℕ)
    → find_from fuel mem keys key hash i perturb freeslot ≡ none
unfolding find_from
find_from-endless mem keys key hash full absent zero i perturb freeslot = refl
find_from-endless mem keys key hash full absent (suc fuel) i perturb freeslot =
    elim (Key-cases (key_at keys (slot keys i))) [
      | inl h ↦ absurd (full i h)
      | inr (inl h) ↦
          rw (h, find_from)
            (find_from-endless mem keys key hash full absent fuel (next_i i perturb) (perturb / 32)
              _)
      | inr (inr (a, h)) ↦
          rw (h, absent i a h, find_from)
            (find_from-endless mem keys key hash full absent fuel (next_i i perturb) (perturb / 32)
              freeslot)
    ]

-- The map with a deleted entry.
abbrev without : CeMap → ℕ → CeMap
without mp s = record mp {
  ma_used = (mp.ma_used + 2 ^ 32 - 1) % 2 ^ 32;
  ma_keys =
      set_entry mp.ma_keys s (record (mp.ma_keys.m_key_entries s) { m_key = dummy; m_value = 0 });
}

-- Deleting a key that is not bound takes one off the count of the others, hands a NULL key or the
-- address of `_dummy_struct` to the callback, and makes the entry a deleted one.
pub ce_map_del_value-absent :
    (mem : Memory) (mp : CeMap) (key : CeStr)
    → IsMap mem mp
    → key.address ≢ 0
    → ((v : ℕ) → ¬ Binds mem mp.ma_keys (bytes_of mem key) v)
    → (s : ℕ) × (mp' : CeMap) × ((key_at mp.ma_keys s ≡ null) ⊎ (key_at mp.ma_keys s ≡ dummy))
      × (ce_map_del_value mem mp key
          ≡ some (if mp.kv_free_fun then (key_at mp.ma_keys s, 0) ∷ [] else [], mp'))
      × (mp'.ma_used ≡ (mp.ma_used + 2 ^ 32 - 1) % 2 ^ 32)
      × (key_at mp'.ma_keys s ≡ dummy)
unfolding ce_map_del_value Present Absent Binds
ce_map_del_value-absent mem mp key m address unbound =
    let (s, e, found) = find_key_entry-cases mem mp key m.table (IsMap-HasRoom mem mp m) address in
    elim found [
      | inl (a, k, same) ↦ absurd (unbound _ (s, a, k, same, refl))
      | inr (absent, k, reach) ↦ (
        s,
        without mp s,
        k,
        if-false _ _ (some_key mem mp key m.table (IsMap-HasRoom mem mp m) address)
            ∙ rw e (
                ap
                  (λ v.
                    some
                      (if mp.kv_free_fun then (key_at mp.ma_keys s, v) ∷ [] else [], without mp s))
                  (m.table.unvalued s k)),
        refl,
        ap (λ y. y.m_key)
            (set_entry-Puts mp.ma_keys mp.ma_keys.m_key_usable s
              (record (mp.ma_keys.m_key_entries s) { m_key = dummy; m_value = 0 })).here,
      )
    ]

-- After `ce_clear_map` a value can never be set: to make room, the static table would be freed.
pub ce_map_set_value-ce_clear_map :
    (mem : Memory) (mp : CeMap) (key : CeStr) (v : ℕ)
    → mp.ma_keys.is_static ≡ false
    → (mp' : CeMap) × (ce_clear_map mp
        ≡ some (if mp.kv_free_fun then freed_from mp.ma_keys.m_key_num 0 mp.ma_keys else [], mp'))
      × (ce_map_get_value mem mp' key ≡ some 0)
      × (ce_map_set_value true mem mp' key v ≡ none)
unfolding ce_clear_map free_map_keys ce_map_set_value ce_map_get_value insert_map insertion_resize
    map_resize find_key_entry find_from
ce_map_set_value-ce_clear_map mem mp key v static =
    (record mp { ma_keys = empty_keys; ma_used = 0 }, rw static refl, refl, ground arith)
