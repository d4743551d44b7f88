-- ===== src/Map/Insert.antt =====
-- ce_map_set_value of ce_util/ce_map.c, the growth of the table included: what the map binds
-- afterwards.
use cloudeagle.Common.{
  ℕ, ◌+◌, ◌^◌, ◌<◌, ◌≡◌, ◌≢◌, refl, ap, ◌∙◌, subst, arith, true, inl, inr, some, Bool-cases,
}
use cloudeagle.Common.Memory.{Memory, c_string}
use cloudeagle.Map.{string, CeMap, CeStr, bytes_of, slot, string_hash}
use cloudeagle.Map.Change.{
  int_leb, fill, insert_map, insertion_resize, find_empty_slot, ce_map_set_value,
}
use cloudeagle.Map.Search.{key_at, Reaches}
use cloudeagle.Map.Texts.{string_hash-lem}
use cloudeagle.Map.Table.{Binds}
use cloudeagle.Map.Lookup.{Present, Absent, find_key_entry-cases, some_key}
use cloudeagle.Map.Count.{IsMap, IsMap-HasRoom, filled}
use cloudeagle.Map.Room.{find_empty_slot-lem}
use cloudeagle.Map.Resize.{Resized, insertion_resize-lem}
use cloudeagle.Map.Update.{
  Sets, new_entry, string-elim, if-false, if-true, Sets-present, Sets-absent, fill-Sets,
}

module _ (mem : Memory) (mp : CeMap) (key : CeStr) (v : ℕ) (m : IsMap mem mp) (v≢ : v ≢ 0)
    (used< : mp.ma_used < 2 ^ 25) (address : key.address ≢ 0)
    (ends : c_string mem key.address ≡ bytes_of mem key) where
  -- The table grew first.
  Sets-Resized :
      (mp' mp'' : CeMap)
      → Resized mem mp mp'
      → Sets mem mp' (bytes_of mem key) v mp''
      → Sets mem mp (bytes_of mem key) v mp''
  Sets-Resized mp' mp'' r s = record {
    is_map = s.is_map;
    bound = s.bound;
    others = λ w x ne.
        (λ b. (s.others w x ne).0 ((r.same w x).0 b), λ b. (r.same w x).1 ((s.others w x ne).1 b));
    counted = s.counted ∙ ap (λ n. n + 1) r.same_used;
  }

  fill-Resized :
      (s : ℕ)
      → Absent mem mp.ma_keys key m.table s
      → (mp1 : CeMap) × (s' : ℕ) × (mp' : CeMap) × (insertion_resize true mp ≡ some (true, mp1))
        × (find_empty_slot mp1.ma_keys (string_hash mem key) ≡ some s')
        × (fill mp1 s' (new_entry mem mp key v m v≢ used< address ends) ≡ some (true, mp'))
        × Sets mem mp (bytes_of mem key) v mp'
  unfolding Absent Binds
  fill-Resized s (absent, _, _) =
      let (mp1, resized, r) = insertion_resize-lem mem mp m used< in
      let hash = string_hash-lem mem key address in
      let (s', found, (k, reach)) =
        find_empty_slot-lem mem mp1.ma_keys (string_hash mem key) r.is_map.table
          (IsMap-HasRoom mem mp1 r.is_map) (omega (arith, hash)) in
      let reach' = subst (λ h. Reaches mp1.ma_keys (slot mp1.ma_keys h) h s') hash reach in
      let absent' : (t a : ℕ)
          → key_at mp1.ma_keys t ≡ string a
          → c_string mem a ≢ bytes_of mem key =
        λ t a k' z.
          let (t', a', k'', text, _) = (r.same (bytes_of mem key) _).1 (t, a, k', z, refl) in
          absent t' a' k'' text in
      let (mp', filled_up, sets) =
        fill-Sets mem mp1 key v r.is_map v≢ (omega (arith, r.same_used)) address ends s'
          (absent', inl k, reach') k r.some_usable in
      (mp1, s', mp', resized, found, filled_up, Sets-Resized mp1 mp' r sets)

  insert_map-lem :
      (mp' : CeMap) × (insert_map true mem mp key (string_hash mem key) v ≡ some (true, mp'))
      × Sets mem mp (bytes_of mem key) v mp'
  unfolding insert_map Present Absent
  insert_map-lem =
      let (s, e, found) =
        find_key_entry-cases mem mp key m.table (IsMap-HasRoom mem mp m) address in
      elim found [
        | inl (a, k, same) ↦ (
          _,
          rw (e, insert_map) (string-elim (key_at mp.ma_keys s) a k _ _ _),
          Sets-present mem mp key v m v≢ used< address ends s a k same,
        )
        | inr (absent, inr k, reach) ↦ (
          _,
          rw (e, k, insert_map) refl,
          Sets-absent mem mp key v m v≢ used< address ends s mp.ma_keys.m_key_usable absent (inr k)
              reach (omega (arith, ap filled k)),
        )
        | inr (absent, inl k, reach) ↦ elim (Bool-cases (int_leb mp.ma_keys.m_key_usable 0)) [
          | inr pos ↦
              let (mp', done, sets) =
                fill-Sets mem mp key v m v≢ used< address ends s (absent, inl k, reach) k pos in
              (mp', rw (e, k, insert_map) (if-false _ _ pos ∙ done), sets)
          | inl full ↦
              let (mp1, s', mp', resized, found', done, sets) =
                fill-Resized s (absent, inl k, reach) in
              (mp', rw (e, k, insert_map) (if-true _ _ full ∙ rw (resized, found') done), sets)
        ]
      ]

  -- Whatever the map: the key is bound to the value, and no other key to another one.
  pub ce_map_set_value-lem :
      (mp' : CeMap) × (ce_map_set_value true mem mp key v ≡ some (true, mp'))
      × Sets mem mp (bytes_of mem key) v mp'
  unfolding ce_map_set_value
  ce_map_set_value-lem =
      let (mp', done, sets) = insert_map-lem in
      (
        mp',
        if-false _ _ (some_key mem mp key m.table (IsMap-HasRoom mem mp m) address) ∙ done,
        sets,
      )
