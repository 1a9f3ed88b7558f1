-- ===== src/Trustee/Files.antt =====
-- src/src/server/trustee.c: granting and removing rights in the trustee file of a directory.
use frommel.Base.{
  ℕ, ◌-◌, ◌==◌, Bool, Option, none, some, List, [], ◌∷◌, get_elem?, set, if◌then◌else◌, ◌>>=◌, Str,
  get_be32, put_be16, put_be32, remove_at, amend, find_from, length,
}
use frommel.Volume.{Volume, max_vol_path_len}
use frommel.Station.{Station}
use frommel.Fs.{error_ok}
use frommel.Trustee.{DskRecord, Disk, write_file, error_io, error_not_found, build_trustfile}

-- What the kernel lets the server do with a file.
pub record Access : Type 0 where
  pub create : Str → Bool
  pub write : Str → Bool
  pub truncate : Str → Bool

abbrev pub id_of : DskRecord → ℕ
id_of d = get_be32 d.obj_id

abbrev pub set_rights : ℕ → DskRecord → DskRecord
set_rights rights d = record d { rights = put_be16 rights }

abbrev pub new_record : ℕ → ℕ → DskRecord
new_record objid rights = record { obj_id = put_be32 objid; rights = put_be16 rights }

-- The loop of `trust_grant_right` and the append behind it.
unfoldable pub grant_in : List DskRecord → ℕ → ℕ → List DskRecord
grant_in records objid rights =
    amend id_of objid (set_rights rights) (new_record objid rights) records

-- The file that `fopen` gives: a new one is empty.
abbrev pub opened : Access → Disk → Str → Option (List DskRecord)
opened access disk file = elim (disk file) [
  | some records ↦ some records
  | none ↦ if access.create file then some [] else none
]

abbrev pub grant_file : Access → Disk → Str → ℕ → ℕ → ℕ × Disk
grant_file access disk file objid rights = elim (opened access disk file) [
  | none ↦ (error_io, disk)
  | some records ↦
      if access.write file
      then (error_ok, write_file disk file (grant_in records objid rights))
      else (error_io, write_file disk file records)
]

-- The last record over record `p`, where cutting the file may fail.
abbrev pub overwrite_last : List DskRecord → ℕ → Option DskRecord → List DskRecord
overwrite_last records p none = records
overwrite_last records p (some last) = set records p last

-- Record `p` is deleted.
abbrev pub delete_at : Access → Disk → Str → List DskRecord → ℕ → ℕ × Disk
delete_at access disk file records p =
    if p == length records - 1
    then (if access.truncate file
        then (error_ok, write_file disk file (remove_at records p))
        else (error_io, disk))
    else if access.write file
    then (if access.truncate file then (error_ok, write_file disk file (remove_at records p)) else (
      error_io,
      write_file disk file (overwrite_last records p (get_elem? records (length records - 1))),
    ))
    else (error_io, disk)

-- `none` is a search without a hit: then the last record that was read decides. On an empty file that
-- is `junk`, what stood in the memory of `rec`, and a hit ends in `ftruncate` with a negative length.
abbrev pub remove_found : Access → Disk → Str → List DskRecord → ℕ → ℕ → Option ℕ → ℕ × Disk
remove_found access disk file records objid junk (some p) = delete_at access disk file records p
remove_found access disk file [] objid junk none =
    (if junk == objid then error_io else error_not_found, disk)
remove_found access disk file (d ∷ ds) objid junk none = (error_not_found, disk)

-- The position of the first record of an object.
abbrev pub position : List DskRecord → ℕ → Option ℕ
position records objid = find_from (λ d. id_of d == objid) 0 records

abbrev pub remove_file : Access → Disk → Str → ℕ → ℕ → ℕ × Disk
remove_file access disk file objid junk = elim (disk file) [
  | none ↦ (error_io, disk)
  | some records ↦ remove_found access disk file records objid junk (position records objid)
]

module _ (access : Access) (vols : List Volume) where
  -- The code and the files afterwards.
  unfoldable pub grant_right : Disk → Station → ℕ → Option Str → ℕ → ℕ → Option (ℕ × Disk)
  grant_right disk k dh path objid rights = do
    (code, file) ← build_trustfile vols k dh path max_vol_path_len
    some (if code == error_ok then grant_file access disk file objid rights else (code, disk))

  unfoldable pub remove_right : Disk → Station → ℕ → Option Str → ℕ → ℕ → Option (ℕ × Disk)
  remove_right disk k dh path objid junk = do
    (code, file) ← build_trustfile vols k dh path max_vol_path_len
    some (if code == error_ok then remove_file access disk file objid junk else (code, disk))
