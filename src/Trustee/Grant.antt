-- ===== src/Trustee/Grant.antt =====
-- src/src/server/trustee.c: a right that was granted is found, one that was removed is not.
use frommel.Base.{
  ℕ, ◌^◌, ◌<◌, ◌≡◌, ◌≢◌, inl, inr, refl, sym, ap, ◌∙◌, arith, true, false, Option, none, some, List,
  [], ◌∷◌, if◌then◌else◌, >>=-eq-some, Str, str_eq_refl, str_eq→eq, get_be16, get_be32-put_be32,
  get_be16-put_be16, lookup, lookup_entry, lookup-amend, lookup-amend_other, Option-cases,
}
use frommel.Volume.{Volume, max_vol_path_len}
use frommel.Station.{Station}
use frommel.Fs.{error_ok}
use frommel.Trustee.{
  DskRecord, Trustee, Disk, write_file, build_trustfile, grab_from, grab_rights, conv_rec,
  zero_trustee,
}
use frommel.Trustee.Files.{
  Access, id_of, set_rights, new_record, grant_in, grant_right, grant_file, opened,
}

-- The scan of a file is a lookup.
pub grab_from-some :
    (records : List DskRecord) (objid : ℕ) (rec : Trustee) {d : DskRecord}
    → lookup id_of objid records ≡ some d
    → grab_from records objid rec ≡ (true, conv_rec d)
unfolding grab_from
grab_from-some [] objid rec h = cc
grab_from-some (e ∷ ds) objid rec {d} h =
    ground (arith, grab_from-some ds objid (conv_rec e) {d = d})

pub grab_from-none :
    (records : List DskRecord) (objid : ℕ) (rec : Trustee)
    → lookup id_of objid records ≡ none
    → (grab_from records objid rec).0 ≡ false
unfolding grab_from
grab_from-none [] objid rec h = refl
grab_from-none (e ∷ ds) objid rec h = ground (arith, grab_from-none ds objid (conv_rec e))

-- What the trustee file of a directory says of an object.
unfoldable pub stored : Disk → Str → ℕ → Option Trustee
stored disk file objid =
    let (found, rec) = grab_rights disk file objid zero_trustee in if found then some rec else none

-- The same as a lookup.
abbrev pub stored_in : Option (List DskRecord) → ℕ → Option Trustee
stored_in none objid = none
stored_in (some records) objid = elim (lookup id_of objid records) [
  | none ↦ none
  | some d ↦ some (conv_rec d)
]

pub stored_lem :
    (disk : Disk) (file : Str) (objid : ℕ) → stored disk file objid ≡ stored_in (disk file) objid
unfolding stored grab_rights
stored_lem disk file objid = elim (Option-cases (disk file)) [
  | inl e ↦ ground (arith, e)
  | inr (records, e) ↦ elim (Option-cases (lookup id_of objid records)) [
    | inl q ↦ ground (arith, e, q, grab_from-none records objid zero_trustee q)
    | inr (d, q) ↦ ground (arith, e, q, grab_from-some records objid zero_trustee q)
  ]
]

-- A stored right is grabbed, whatever stood in the record.
pub grab_rights-stored :
    (disk : Disk) (file : Str) (objid : ℕ) (rec : Trustee) {r : Trustee}
    → stored disk file objid ≡ some r
    → grab_rights disk file objid rec ≡ (true, r)
unfolding grab_rights
grab_rights-stored disk file objid rec {r} h = elim (Option-cases (disk file)) [
  | inl e ↦ ground (arith, stored_lem disk file objid, e)
  | inr (records, e) ↦ elim (Option-cases (lookup id_of objid records)) [
    | inl q ↦ ground (arith, stored_lem disk file objid, e, q)
    | inr (d, q) ↦
        ground (arith, stored_lem disk file objid, e, q, grab_from-some records objid rec q)
  ]
]

pub grab_rights-missing :
    (disk : Disk) (file : Str) (objid : ℕ) (rec : Trustee)
    → stored disk file objid ≡ none
    → (grab_rights disk file objid rec).0 ≡ false
unfolding grab_rights
grab_rights-missing disk file objid rec h = elim (Option-cases (disk file)) [
  | inl e ↦ ground (arith, e)
  | inr (records, e) ↦ elim (Option-cases (lookup id_of objid records)) [
    | inl q ↦ ground (arith, e, grab_from-none records objid rec q)
    | inr (d, q) ↦ ground (arith, stored_lem disk file objid, e, q)
  ]
]

lookup-grant_in :
    (records : List DskRecord) (objid rights : ℕ)
    → objid < 2 ^ 32
    → rights < 2 ^ 16
    → (d : DskRecord) × (lookup id_of objid (grant_in records objid rights) ≡ some d)
      × (get_be16 d.rights ≡ rights)
unfolding grant_in
lookup-grant_in records objid rights h g =
    let e =
      lookup-amend id_of objid (set_rights rights) (new_record objid rights)
        (get_be32-put_be32 objid h) (λ d q. q) records in
    elim (Option-cases (lookup id_of objid records)) [
      | inl q ↦ (new_record objid rights, rw (e, q) refl, get_be16-put_be16 rights g)
      | inr (d, q) ↦ (set_rights rights d, rw (e, q) refl, get_be16-put_be16 rights g)
    ]

lookup-grant_in_other :
    (records : List DskRecord) (objid rights other : ℕ)
    → objid < 2 ^ 32
    → other ≢ objid
    → lookup id_of other (grant_in records objid rights) ≡ lookup id_of other records
unfolding grant_in
lookup-grant_in_other records objid rights other h ne =
    lookup-amend_other id_of objid (set_rights rights) (new_record objid rights)
      (get_be32-put_be32 objid h) (λ d q. q) records other (λ e. ne (sym e))

conv_found :
    (records : List DskRecord) (objid : ℕ) {d : DskRecord} {rights : ℕ}
    → lookup id_of objid records ≡ some d
    → id_of d ≡ objid
    → get_be16 d.rights ≡ rights
    → stored_in (some records) objid ≡ some (record { obj_id = objid; rights = rights })
unfolding conv_rec
conv_found records objid {d} {rights} q key r = ground (arith, q, key, r)

stored_file :
    (access : Access) (disk : Disk) (file : Str) (objid rights : ℕ) {disk' : Disk}
    → grant_file access disk file objid rights ≡ (error_ok, disk')
    → (records : List DskRecord) × (disk' ≡ write_file disk file (grant_in records objid rights))
      × (opened access disk file ≡ some records)
stored_file access disk file objid rights {disk'} h =
    elim (Option-cases (opened access disk file)) [
      | inl e ↦ ground (arith, e, h)
      | inr (records, e) ↦ (records, ground (arith, e, h), e)
    ]

pub write_file_self :
    (disk : Disk) (file : Str) (records : List DskRecord)
    → write_file disk file records file ≡ some records
write_file_self disk file records = ground (arith, str_eq_refl file)

pub write_file_other :
    (disk : Disk) (file name : Str) (records : List DskRecord)
    → name ≢ file
    → write_file disk file records name ≡ disk name
write_file_other disk file name records ne = ground (arith, str_eq→eq name file)

opened-stored :
    (access : Access) (disk : Disk) (file : Str) (other : ℕ) {records : List DskRecord}
    → opened access disk file ≡ some records
    → stored_in (disk file) other ≡ stored_in (some records) other
opened-stored access disk file other {records} h = elim (Option-cases (disk file)) [
  | inl e ↦ ground (arith, e)
  | inr (ds, e) ↦ ground (arith, e)
]

granted :
    (access : Access) (disk : Disk) (file : Str) (objid rights : ℕ) {disk' : Disk}
    → objid < 2 ^ 32
    → rights < 2 ^ 16
    → grant_file access disk file objid rights ≡ (error_ok, disk')
    → (stored disk' file objid ≡ some (record { obj_id = objid; rights = rights }))
      × ((other : ℕ) → other ≢ objid → stored disk' file other ≡ stored disk file other)
      × ((name : Str) → name ≢ file → disk' name ≡ disk name)
granted access disk file objid rights {disk'} hid hr h =
    let (records, e, o) = stored_file access disk file objid rights h in
    let w : disk' file ≡ some (grant_in records objid rights) =
      ap (λ f. f file) e ∙ write_file_self disk file (grant_in records objid rights) in
    let (d, q, r) = lookup-grant_in records objid rights hid hr in
    let (i, gi, key) = lookup_entry id_of objid (grant_in records objid rights) {x = d} q in
    (
      stored_lem disk' file objid
          ∙ ap (λ f. stored_in f objid) w
          ∙ conv_found (grant_in records objid rights) objid q key r,
      λ other ne.
          stored_lem disk' file other
          ∙ ap (λ f. stored_in f other) w
          ∙ ground (arith, lookup-grant_in_other records objid rights other hid ne)
          ∙ sym (opened-stored access disk file other o)
          ∙ sym (stored_lem disk file other),
      λ name ne.
          ap (λ f. f name) e ∙ write_file_other disk file name (grant_in records objid rights) ne,
    )

-- Once `trust_grant_right` has returned OK for an object id of 32 bits and rights of 16, the trustee
-- file of the directory holds the right for the
-- object, every other object's record there is as it was, and all other files are untouched.
pub grant_right_lem :
    (access : Access) (vols : List Volume) (disk : Disk) (k : Station) (dh : ℕ) (path : Option Str)
    (objid rights : ℕ) {disk' : Disk}
    → objid < 2 ^ 32
    → rights < 2 ^ 16
    → grant_right access vols disk k dh path objid rights ≡ some (error_ok, disk')
    → (file : Str) × (build_trustfile vols k dh path max_vol_path_len ≡ some (error_ok, file))
      × (stored disk' file objid ≡ some (record { obj_id = objid; rights = rights }))
      × ((other : ℕ) → other ≢ objid → stored disk' file other ≡ stored disk file other)
      × ((name : Str) → name ≢ file → disk' name ≡ disk name)
unfolding grant_right
grant_right_lem access vols disk k dh path objid rights {disk'} hid hr h =
    let ((code, file), e, f) = >>=-eq-some (build_trustfile vols k dh path max_vol_path_len) _ h in
    let g : grant_file access disk file objid rights ≡ (error_ok, disk') = ground arith in
    let (found, others, files) = granted access disk file objid rights hid hr g in
    (file, ground arith, found, others, files)
