-- ===== src/Volume/Table.antt =====
-- What the operations on the volume table promise.
use frommel.Base.{
  ℕ, suc, ◌<◌, ◌≡◌, ◌≢◌, ◌↔◌, true, none, some, List, arith, Str, str_eq_refl, length, get_elem?,
  take-all, find_from, find_from_bounds, find_from-none, find_from_earlier, find_from_entry,
  find_from-all, find_from-set, count-set, get_elem?-set_ne, bit_or-one_pos,
}
use frommel.Volume.{
  Volume, is_free, is_used, matches, new_volume, add_volume, find_volume, count_vols,
  max_vol_name_len,
}

-- The new entry is found under its name, if the name leaves room for the terminator.
new_volume-matches :
    (name path : Str) (flags : ℕ)
    → length name < max_vol_name_len
    → matches name (new_volume name path flags) ≡ true
new_volume-matches name path flags h =
    ground (arith, bit_or-one_pos flags, take-all 16 name, str_eq_refl name)

module _ (vols : List Volume) (name path : Str) (flags : ℕ) where
  -- A volume that has been added is found under its name, at the number that was returned, if the
  -- name has at most 15 bytes and no volume in use had it before.
  pub find-add :
      (i : ℕ)
      → length name < max_vol_name_len
      → find_volume vols name ≡ none
      → (add_volume vols name path flags).0 ≡ some i
      → find_volume (add_volume vols name path flags).1 name ≡ some i
  unfolding find_volume add_volume
  find-add i short fresh added = ground (
    arith,
    find_from-set (matches name) 0 vols i (new_volume name path flags),
    find_from_bounds is_free 0 vols {j = i},
    new_volume-matches name path flags,
  )

  -- Adding fails exactly if every slot is in use, and then leaves the table alone.
  pub add-full :
      ((add_volume vols name path flags).0 ≡ none)
      ↔ ((i : ℕ) (v : Volume) → get_elem? vols i ≡ some v → is_used v ≡ true)
  unfolding add_volume
  add-full = (
    λ h j v g. ground (arith, find_from-none is_free 0 vols j {x = v}),
    λ all. rw (find_from-all is_free 0 vols (λ k v g. ground (arith, all k v g)), add_volume),
  )

  -- A successful call writes the first free slot only, and one more volume is in use.
  pub add_counts :
      (i : ℕ)
      → (add_volume vols name path flags).0 ≡ some i
      → (count_vols (add_volume vols name path flags).1 ≡ suc (count_vols vols))
        × ((j : ℕ) → j ≢ i → get_elem? (add_volume vols name path flags).1 j ≡ get_elem? vols j)
        × ((j : ℕ) (v : Volume) → j < i → get_elem? vols j ≡ some v → is_used v ≡ true)
  unfolding add_volume count_vols
  add_counts i added = (
    let e : find_from is_free 0 vols ≡ some i = ground arith in
        let (v, g, f) = find_from_entry is_free vols e in
        ground (
          arith,
          bit_or-one_pos flags,
          count-set is_used vols i {x = v} (new_volume name path flags),
        ),
    λ j ne. ground (arith, get_elem?-set_ne vols i j (new_volume name path flags)),
    λ j v lt g. ground (arith, find_from_earlier is_free 0 vols j {j = i} {x = v}),
  )
