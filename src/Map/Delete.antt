-- ===== src/Map/Delete.antt =====
-- ce_create_map and ce_map_del_value of ce_util/ce_map.c.
use cloudeagle.Common.{
  ℕ, suc, ◌+◌, ◌-◌, ◌%◌, ◌^◌, ◌<◌, ◌≡◌, ◌≢◌, refl, ap, sym, ◌∙◌, arith, Bool, true, inl, inr, some,
  if◌then◌else◌, ◌↔◌, List, [], ◌∷◌,
}
use cloudeagle.Common.Memory.{Memory, c_string}
use cloudeagle.Map.{
  dummy, string, Entry, CeMap, CeStr, bytes_of, ce_create_map, create_map_keys, map_init_size,
}
use cloudeagle.Map.Change.{set_entry, ce_map_del_value}
use cloudeagle.Map.Search.{key_at}
use cloudeagle.Map.Table.{Reaches-lt, Binds, Binds-unique}
use cloudeagle.Map.Put.{Puts, string_inj, IsTable-dummy, Binds-else_where, string-cases}
use cloudeagle.Map.Lookup.{Present, Absent, find_key_entry-cases, some_key}
use cloudeagle.Map.Count.{IsMap, IsMap-HasRoom, IsMap-Puts, power_bounds, sum_mono, filled, living}
use cloudeagle.Map.Room.{set_entry-Puts}
use cloudeagle.Map.Resize.{new_keys, new_keys-IsTable}
use cloudeagle.Map.Update.{if-false}

-- The second map does not bind `u`, and the other strings as the first one does.
pub record Removes (mem : Memory) (mp : CeMap) (u : List ℕ) (mp' : CeMap) : Type 0 where
  pub is_map : IsMap mem mp'
  pub unbound : (x : ℕ) → ¬ Binds mem mp'.ma_keys u x
  pub others : (w : List ℕ) (x : ℕ) → w ≢ u → Binds mem mp.ma_keys w x ↔ Binds mem mp'.ma_keys w x
  pub counted : mp'.ma_used + 1 ≡ mp.ma_used

module _ (mem : Memory) (mp : CeMap) (key : CeStr) (m : IsMap mem mp) (address : key.address ≢ 0)
    (s a : ℕ) (k : key_at mp.ma_keys s ≡ string a) (text : c_string mem a ≡ bytes_of mem key) where
  abbrev deleted : Entry
  deleted = record (mp.ma_keys.m_key_entries s) { m_key = dummy; m_value = 0 }

  abbrev without : CeMap
  without = record mp {
    ma_used = (mp.ma_used + 2 ^ 32 - 1) % 2 ^ 32;
    ma_keys = set_entry mp.ma_keys s deleted;
  }

  place_lt : s < mp.ma_keys.m_key_num
  place_lt =
      let (lo, hi) = power_bounds m.width m.at_least m.at_most in
      Reaches-lt mp.ma_keys _ _ s (omega (arith, m.size)) (m.table.reached s a k)

  -- A map counts the string that it has.
  used_pos : 0 < mp.ma_used
  used_pos =
      let le = sum_mono (λ t. living (key_at mp.ma_keys t)) (suc s) mp.ma_keys.m_key_num place_lt in
      omega (arith, m.used, ap living k)

  deleted-Puts : Puts mp.ma_keys without.ma_keys s deleted
  deleted-Puts = set_entry-Puts mp.ma_keys mp.ma_keys.m_key_usable s deleted

  without-Removes : Removes mem mp (bytes_of mem key) without
  unfolding Binds
  without-Removes =
      let pos : 0 < mp.ma_used = used_pos in
      record {
        is_map =
            IsMap-Puts mem mp without s deleted m place_lt deleted-Puts
              (IsTable-dummy mp.ma_keys without.ma_keys s deleted deleted-Puts mem m.table refl
                refl)
              refl (omega (arith, ap filled k)) (omega (arith, ap living k, pos))
              (omega (arith, m.limit));
        unbound = λ x (t, b, k', same, _).
            elim (string-cases mp.ma_keys without.ma_keys s deleted deleted-Puts t b k') [
              | inl (h, z, _) ↦ cc
              | inr (h, z, _) ↦ h (m.table.unique t s b a z k (same ∙ sym text))
            ];
        others = λ w x ne.
            Binds-else_where mp.ma_keys without.ma_keys s deleted deleted-Puts mem m.table w x
              (λ b k' z. ne (sym z ∙ ap (c_string mem) (string_inj b a (sym k' ∙ k)) ∙ text))
              (λ b z. cc);
        counted = omega (arith, pos, m.limit);
      }

module _ (mem : Memory) (mp : CeMap) (key : CeStr) (m : IsMap mem mp)
    (address : key.address ≢ 0) where
  -- The entry of a key that is bound is deleted, and handed to the callback if there is one.
  pub ce_map_del_value-lem :
      (v : ℕ)
      → Binds mem mp.ma_keys (bytes_of mem key) v
      → (a : ℕ) × (mp' : CeMap) × (c_string mem a ≡ bytes_of mem key)
        × (ce_map_del_value mem mp key
            ≡ some (if mp.kv_free_fun then (string a, v) ∷ [] else [], mp'))
        × Removes mem mp (bytes_of mem key) mp'
  unfolding ce_map_del_value Present Absent Binds
  ce_map_del_value-lem v bound =
      let (s, e, found) =
        find_key_entry-cases mem mp key m.table (IsMap-HasRoom mem mp m) address in
      elim found [
        | inl (a, k, same) ↦ (
          a,
          without mem mp key m address s a k same,
          same,
          if-false _ _ (some_key mem mp key m.table (IsMap-HasRoom mem mp m) address)
              ∙ rw e (
                  ap
                    (λ p. some (
                      if mp.kv_free_fun then p ∷ [] else [],
                      without mem mp key m address s a k same,
                    ))
                    (λ i. (
                      k i,
                      Binds-unique mem mp.ma_keys (bytes_of mem key) _ v m.table
                          (s, a, k, same, refl) bound i,
                    ))),
          without-Removes mem mp key m address s a k same,
        )
        | inr (absent, _, _) ↦ let (t, b, k', same, _) = bound in absurd (absent t b k' same)
      ]

-- A new map is one that binds nothing.
pub ce_create_map-lem :
    (mem : Memory) (private_data : ℕ) (kv_free_fun : Bool)
    → let mp : CeMap = record {
      ma_used = 0;
      private_data = private_data;
      kv_free_fun = kv_free_fun;
      ma_keys = new_keys map_init_size;
    } in
      (ce_create_map true true private_data kv_free_fun ≡ some mp)
      × IsMap mem mp
      × ((u : List ℕ) (v : ℕ) → ¬ Binds mem mp.ma_keys u v)
unfolding ce_create_map create_map_keys Binds
ce_create_map-lem mem private_data kv_free_fun = (
  refl,
  record {
    table = new_keys-IsTable mem 8;
    width = 3;
    at_least = omega arith;
    at_most = omega arith;
    size = refl;
    not_static = refl;
    usable = omega arith;
    used = omega arith;
    limit = omega arith;
  },
  λ u v (s, a, k, _, _). cc,
)
