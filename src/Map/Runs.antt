-- ===== src/Map/Runs.antt =====
-- Sequences of calls of ce_util/ce_map.c, each a client's.
use cloudeagle.Common.{
  ℕ, ◌+◌, ◌^◌, ◌≤◌, ◌≡◌, ◌≢◌, refl, sym, arith, Bool, true, not, Option, some, none, ◌==◌,
  if◌then◌else◌, List, [], ◌∷◌, length,
}
use cloudeagle.Common.Memory.{Memory}
use cloudeagle.Map.{CeMap, CeStr, bytes_of, ce_create_map, map_init_size}
use cloudeagle.Map.Assoc.{Assoc, update}
use cloudeagle.Map.Change.{ce_map_get_value, ce_map_set_value, ce_map_del_value, ce_map_coceins}
use cloudeagle.Map.Resize.{new_keys}
use cloudeagle.Map.Delete.{ce_create_map-lem}
use cloudeagle.Map.Refinement.{
  Represents, IsKey, ce_map_get_value-Represents, ce_map_set_value-Represents,
  ce_map_del_value-Represents,
}

-- Calls of a client. The results of the calls are looked at, and the callback's are not.
pub data Op : Type 0 where
  set : CeStr → ℕ → Op
  del : CeStr → Op

abbrev pub run_op : Memory → Op → CeMap → Option CeMap
run_op mem (set key v) mp = elim (ce_map_set_value true mem mp key v) [
  | none ↦ none
  | some (ok, mp') ↦ if ok then some mp' else none
]
run_op mem (del key) mp = elim (ce_map_del_value mem mp key) [
  | none ↦ none
  | some (freed, mp') ↦ some mp'
]

abbrev pub run_ops : Memory → List Op → CeMap → Option CeMap
run_ops mem [] mp = some mp
run_ops mem (op ∷ ops) mp = elim (run_op mem op mp) [ none ↦ none | some mp' ↦ run_ops mem ops mp' ]

abbrev pub apply_op : Memory → Op → Assoc → Assoc
apply_op mem (set key v) f = update f (bytes_of mem key) v
apply_op mem (del key) f = update f (bytes_of mem key) 0

abbrev pub apply_ops : Memory → List Op → Assoc → Assoc
apply_ops mem [] f = f
apply_ops mem (op ∷ ops) f = apply_ops mem ops (apply_op mem op f)

-- Only what is there is deleted, and NULL is no value.
abbrev pub IsAllowed : Memory → List Op → Assoc → Type 0
IsAllowed mem [] f = Unit
IsAllowed mem (set key v ∷ ops) f =
    IsKey mem key × (v ≢ 0) × IsAllowed mem ops (update f (bytes_of mem key) v)
IsAllowed mem (del key ∷ ops) f =
    (key.address ≢ 0)
    × (f (bytes_of mem key) ≢ 0)
    × IsAllowed mem ops (update f (bytes_of mem key) 0)

run_ops-Represents :
    (mem : Memory) (ops : List Op) (mp : CeMap) (f : Assoc)
    → Represents mem mp f
    → mp.ma_used + length ops ≤ 2 ^ 25
    → IsAllowed mem ops f
    → (mp' : CeMap) × (run_ops mem ops mp ≡ some mp') × Represents mem mp' (apply_ops mem ops f)
run_ops-Represents mem [] mp f r bound h = (mp, refl, r)
run_ops-Represents mem (set key v ∷ ops) mp f r bound (is_key, v≢, h) =
    let (mp1, done, r1, used) =
      ce_map_set_value-Represents mem mp f r key v is_key v≢ (omega arith) in
    let (mp', rest, r') =
      run_ops-Represents mem ops mp1 (update f (bytes_of mem key) v) r1 (omega arith) h in
    (mp', rw (done, run_ops, run_op) rest, r')
run_ops-Represents mem (del key ∷ ops) mp f r bound (address, f1, h) =
    let (a, mp1, same, done, r1, used) = ce_map_del_value-Represents mem mp f r key address f1 in
    let (mp', rest, r') =
      run_ops-Represents mem ops mp1 (update f (bytes_of mem key) 0) r1 (omega arith) h in
    (mp', rw (done, run_ops, run_op) rest, r')

abbrev pub no_values : Assoc
no_values u = 0

-- A map that has just been made.
abbrev pub new_map : ℕ → Bool → CeMap
new_map private_data kv_free_fun = record {
  ma_used = 0;
  private_data = private_data;
  kv_free_fun = kv_free_fun;
  ma_keys = new_keys map_init_size;
}

pub new_map-Represents :
    (mem : Memory) (private_data : ℕ) (kv_free_fun : Bool)
    → (ce_create_map true true private_data kv_free_fun ≡ some (new_map private_data kv_free_fun))
      × Represents mem (new_map private_data kv_free_fun) no_values
new_map-Represents mem private_data kv_free_fun =
    let (created, is_map, none_bound) = ce_create_map-lem mem private_data kv_free_fun in
    (
      created,
      record {
        is_map = is_map;
        binds = λ w x. (λ b. absurd (none_bound w x b), λ (p, q). absurd (q (sym p)));
      },
    )

-- A map is made and the calls are made on it.
abbrev pub run_new : Memory → List Op → ℕ → Bool → Option CeMap
run_new mem ops private_data kv_free_fun = elim (ce_create_map true true private_data kv_free_fun) [
  | none ↦ none
  | some mp ↦ run_ops mem ops mp
]

-- At most 2 ^ 25 calls that set values that are not NULL or delete keys that are bound, with memory
-- for each table, on a new map: they all succeed, and then each key has in the map the value that it
-- has in the abstract map after the same calls.
pub ce_map_get_value-run_ops :
    (mem : Memory) (ops : List Op) (key : CeStr) (private_data : ℕ) (kv_free_fun : Bool)
    → IsAllowed mem ops no_values
    → length ops ≤ 2 ^ 25
    → key.address ≢ 0
    → (mp' : CeMap) × (run_new mem ops private_data kv_free_fun ≡ some mp')
      × (ce_map_get_value mem mp' key ≡ some (apply_ops mem ops no_values (bytes_of mem key)))
      × (ce_map_coceins mem mp' key
          ≡ some (not (apply_ops mem ops no_values (bytes_of mem key) == 0)))
ce_map_get_value-run_ops mem ops key private_data kv_free_fun allowed few address =
    let (created, fresh) = new_map-Represents mem private_data kv_free_fun in
    let (mp', run, r) =
      run_ops-Represents mem ops (new_map private_data kv_free_fun) no_values fresh (omega arith)
        allowed in
    let (get, has) =
      ce_map_get_value-Represents mem mp' (apply_ops mem ops no_values) r key address in
    (mp', rw (created, run_new) run, get, has)
