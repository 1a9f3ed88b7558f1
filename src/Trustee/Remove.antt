-- ===== src/Trustee/Remove.antt =====
-- src/src/server/trustee.c: a right that was removed is gone, and no other is.
use frommel.Base.{
  ℕ, ◌-◌, ◌≡◌, ◌≢◌, inl, inr, refl, sym, ap, ◌∙◌, arith, ◌==◌, Bool, true, false, Option, none,
  some, List, [], ◌∷◌, get_elem?, length, if◌then◌else◌, >>=-eq-some, Str, remove_at, IsUnique,
  lookup-remove_at, lookup-remove_at_other, find_from_entry, Option-cases,
}
use frommel.Volume.{Volume, max_vol_path_len}
use frommel.Station.{Station}
use frommel.Fs.{error_ok}
use frommel.Trustee.{DskRecord, Disk, write_file, error_io, build_trustfile}
use frommel.Trustee.Files.{
  Access, id_of, remove_right, position, remove_file, remove_found, delete_at, overwrite_last,
}
use frommel.Trustee.Grant.{stored, stored_in, stored_lem, write_file_self, write_file_other}

-- No object has two records in one trustee file.
abbrev pub HasDistinctObjects : Disk → Type 0
HasDistinctObjects disk =
    (file : Str) (records : List DskRecord) → disk file ≡ some records → IsUnique id_of records

if_ok :
    (b : Bool) {x z : Disk} (y : Disk)
    → ◌≡◌ {A = ℕ × Disk} (if b then (error_ok, x) else (error_io, y)) (error_ok, z)
    → z ≡ x
if_ok true y h = sym (ap (λ r. r.1) h)
if_ok false y h = ground arith

if_ok_twice :
    (last writes truncates : Bool) {x z : Disk} (y : Disk) (w : Disk)
    → ◌≡◌ {A = ℕ × Disk}
        (if last
          then (if truncates then (error_ok, x) else (error_io, y))
          else if writes
          then (if truncates then (error_ok, x) else (error_io, w))
          else (error_io, y))
        (error_ok, z)
    → z ≡ x
if_ok_twice true b c y w h = if_ok c y h
if_ok_twice false true c y w h = if_ok c w h
if_ok_twice false false c y w h = ground arith

deleted :
    (access : Access) (disk : Disk) (file : Str) (records : List DskRecord) (p : ℕ) {disk' : Disk}
    → delete_at access disk file records p ≡ (error_ok, disk')
    → disk' ≡ write_file disk file (remove_at records p)
deleted access disk file records p h =
    if_ok_twice (p == length records - 1) (access.write file) (access.truncate file) disk
      (write_file disk file (overwrite_last records p (get_elem? records (length records - 1)))) h

removed_found :
    (access : Access) (disk : Disk) (file : Str) (records : List DskRecord) (objid junk : ℕ)
    (o : Option ℕ) {disk' : Disk}
    → remove_found access disk file records objid junk o ≡ (error_ok, disk')
    → (p : ℕ) × (o ≡ some p) × (disk' ≡ write_file disk file (remove_at records p))
removed_found access disk file records objid junk (some p) {disk'} h =
    (p, refl, deleted access disk file records p h)
removed_found access disk file [] objid junk none h = ground arith
removed_found access disk file (d ∷ ds) objid junk none h = ground arith

removed_file :
    (access : Access) (disk : Disk) (file : Str) (objid junk : ℕ) {disk' : Disk}
    → remove_file access disk file objid junk ≡ (error_ok, disk')
    → (records : List DskRecord) × (p : ℕ) × (disk file ≡ some records)
      × (position records objid ≡ some p)
      × (disk' ≡ write_file disk file (remove_at records p))
removed_file access disk file objid junk {disk'} h = elim (Option-cases (disk file)) [
  | inl e ↦ ground (arith, e)
  | inr (records, e) ↦
      let (p, q, d) =
        removed_found access disk file records objid junk (position records objid)
          (ground (arith, e)) in
      (records, p, e, q, d)
]

removed :
    (access : Access) (disk : Disk) (file : Str) (objid junk : ℕ) {disk' : Disk}
    → HasDistinctObjects disk
    → remove_file access disk file objid junk ≡ (error_ok, disk')
    → (stored disk' file objid ≡ none)
      × ((other : ℕ) → other ≢ objid → stored disk' file other ≡ stored disk file other)
      × ((name : Str) → name ≢ file → disk' name ≡ disk name)
removed access disk file objid junk {disk'} u h =
    let (records, p, e, q, d) = removed_file access disk file objid junk h in
    let w : disk' file ≡ some (remove_at records p) =
      ap (λ f. f file) d ∙ write_file_self disk file (remove_at records p) in
    let (x, g, t) = find_from_entry (λ r. id_of r == objid) records q in
    let key : id_of x ≡ objid = ground arith in
    let gone = lookup-remove_at id_of records p {x = x} (u file records e) g in
    (
      stored_lem disk' file objid ∙ ap (λ f. stored_in f objid) w ∙ ground (arith, gone, key),
      λ other ne.
          stored_lem disk' file other
          ∙ ap (λ f. stored_in f other) w
          ∙ ground (
            arith,
            lookup-remove_at_other id_of records p other {x = x} (u file records e) g
                (λ r. ne (sym r ∙ key)),
          )
          ∙ ap (λ f. stored_in f other) (sym e)
          ∙ sym (stored_lem disk file other),
      λ name ne. ap (λ f. f name) d ∙ write_file_other disk file name (remove_at records p) ne,
    )

-- Once `trust_remove_right` has returned OK, on files that hold no object twice, the trustee file of the
-- directory holds no right of the object, every other object's record there is as it was, and all
-- other files are untouched.
pub remove_right_lem :
    (access : Access) (vols : List Volume) (disk : Disk) (k : Station) (dh : ℕ) (path : Option Str)
    (objid junk : ℕ) {disk' : Disk}
    → HasDistinctObjects disk
    → remove_right access vols disk k dh path objid junk ≡ some (error_ok, disk')
    → (file : Str) × (build_trustfile vols k dh path max_vol_path_len ≡ some (error_ok, file))
      × (stored disk' file objid ≡ none)
      × ((other : ℕ) → other ≢ objid → stored disk' file other ≡ stored disk file other)
      × ((name : Str) → name ≢ file → disk' name ≡ disk name)
unfolding remove_right
remove_right_lem access vols disk k dh path objid junk {disk'} u h =
    let ((code, file), e, f) = >>=-eq-some (build_trustfile vols k dh path max_vol_path_len) _ h in
    let g : remove_file access disk file objid junk ≡ (error_ok, disk') = ground arith in
    let (gone, others, files) = removed access disk file objid junk u g in
    (file, ground arith, gone, others, files)
