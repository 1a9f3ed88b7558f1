-- ===== src/Trustee.antt =====
-- src/src/server/trustee.c and src/include/trustee.h: the rights that objects hold on directories, kept in
-- a file in each directory.
pub mod Files
pub mod Grant
pub mod Remove
pub mod Scan
pub mod Equals
use frommel.Base.{
  ℕ, zero, suc, ◌+◌, ◌-◌, leb, ◌==◌, ◌&&◌, Bool, true, false, Option, none, some, List, [], ◌∷◌,
  ◌++◌, take, get_elem?, if◌then◌else◌, ◌>>=◌, ◌>>◌, in_bounds, ltb, Str, codes, str_eq, strncat,
  length, bit_and, not, ◌>>>◌, u32, Two, Four, get_be16, get_be32, put_be16, put_be32, window,
  remove_at, amend, find_from,
}
use frommel.Volume.{Volume, max_vol_path_len}
use frommel.Station.{Station, DirHandle}
use frommel.Fs.{build_path, split_last, error_ok, error_invalid_path}

abbrev pub sysfile : Str
sysfile = codes "$TRUSTEE.SYS"

abbrev pub error_not_found : ℕ
error_not_found = 0xfe

abbrev pub error_io : ℕ
error_io = 0xff

abbrev pub error_no_record : ℕ
error_no_record = 0x100

-- -1, as the bits of an int
abbrev pub failure : ℕ
failure = 0xffffffff

-- `TRUST_DSKRECORD`
pub record DskRecord : Type 0 where
  pub obj_id : Four
  pub rights : Two

-- `TRUST_RECORD`
pub record Trustee : Type 0 where
  pub obj_id : ℕ
  pub rights : ℕ

abbrev pub zero_trustee : Trustee
zero_trustee = record { obj_id = 0; rights = 0 }

unfoldable pub conv_rec : DskRecord → Trustee
conv_rec d = record { obj_id = get_be32 d.obj_id; rights = get_be16 d.rights }

-- The records of each file that can be opened.
abbrev pub Disk : Type 0
Disk = Str → Option (List DskRecord)

abbrev pub write_file : Disk → Str → List DskRecord → Disk
write_file disk name records path = if str_eq path name then some records else disk path

-- `{path}/$TRUSTEE.SYS`, as `snprintf` cuts it off
abbrev pub trustee_file : Str → Str
trustee_file path = take (max_vol_path_len - 1) (path ++ b'/' ∷ sysfile)

-- The loop of `trust_grab_rights`: `rec` is overwritten by each record that is read.
unfoldable pub grab_from : List DskRecord → ℕ → Trustee → Bool × Trustee
grab_from [] objid rec = (false, rec)
grab_from (d ∷ ds) objid rec =
    let rest = grab_from ds objid (conv_rec d) in
    if get_be32 d.obj_id == objid then (true, conv_rec d) else rest

unfoldable pub grab_rights : Disk → Str → ℕ → Trustee → Bool × Trustee
grab_rights disk fname objid rec = elim (disk fname) [
  | none ↦ (false, rec)
  | some records ↦ grab_from records objid rec
]

-- `strncmp (s, prefix, strlen (prefix)) == 0`
abbrev pub starts_with : Str → Str → Bool
starts_with [] s = true
starts_with (c ∷ p) [] = false
starts_with (c ∷ p) (d ∷ s) = c == d && starts_with p s

-- `{vol}/login`, cut off
abbrev pub login_dir : Volume → Str
login_dir v = take (max_vol_path_len - 1) (v.path ++ codes "/login")

module _ (disk : Disk) (vols : List Volume) where
  -- The loop of `trust_scan_rights`; each round takes the last part off the path. The code and the
  -- record; `none` is a volume number out of range, or no fuel left.
  unfoldable pub scan_from : ℕ → ℕ → ℕ → Str → Trustee → Option (ℕ × Trustee)
  scan_from zero volno objid path rec = none
  scan_from (suc fuel) volno objid path rec =
      let (found, rec') = grab_rights disk (trustee_file path) objid rec in
      if found then some (error_ok, rec') else elim (split_last b'/' path) [
        | none ↦ some (failure, rec')
        | some (dir, name) ↦ do
          v ← get_elem? vols volno
          elim (str_eq path v.path) [
            | true ↦ some (error_no_record, zero_trustee)
            | false ↦ scan_from fuel volno objid dir rec'
          ]
      ]

  unfoldable pub scan_rights : ℕ → ℕ → Str → Trustee → Option (ℕ × Trustee)
  scan_rights volno objid path rec = scan_from (suc (length path)) volno objid path rec

  -- The loop over SECURITY_EQUALS: its counter `i` also takes the result of the scan. `none` after 33
  -- rounds is a loop that never ends.
  unfoldable pub scan_equals : ℕ → ℕ → ℕ → List ℕ → Str → Trustee → Option (ℕ × Trustee)
  scan_equals zero i volno bytes path rec = none
  scan_equals (suc fuel) i volno bytes path rec =
      if leb 32 i then some (error_no_record, rec) else do
        id ← window bytes i
        elim (id == 0) [
          | true ↦ scan_equals fuel (suc i) volno bytes path rec
          | false ↦ do
            (code, rec') ← scan_rights volno id path rec
            elim (code == error_ok) [
              | true ↦ some (error_ok, rec')
              | false ↦ scan_equals fuel (u32 (code + 1)) volno bytes path rec'
            ]
        ]

-- `trust_build_trustfile`
unfoldable pub build_trustfile : List Volume → Station → ℕ → Option Str → ℕ → Option (ℕ × Str)
build_trustfile vols k dh path destlen = do
  (code, dest) ← build_path vols k dh path [] destlen 0
  elim (code == error_ok) [
    | false ↦ some (code, dest)
    | true ↦ do
      d ← strncat destlen dest (codes "/") destlen
      e ← strncat destlen d sysfile destlen
      some (error_ok, e)
  ]

-- `read_prop objid name segno` is `bindio_read_prop` of the bindery in use: the 128 bytes of the value,
-- if there is one.
module _ (disk : Disk) (vols : List Volume) (read_prop : ℕ → Str → ℕ → Option (List ℕ)) where
  -- From the path of the trustee file on.
  unfoldable pub rights_at : Station → ℕ → Str → Trustee → Option (ℕ × Trustee)
  rights_at k volno file rec = elim (split_last b'/' file) [
    | none ↦ some (error_invalid_path, rec)
    | some (dir, name) ↦ do
      (code, rec') ← scan_rights disk vols volno k.object_id dir rec
      elim (code == error_no_record) [
        | false ↦ some (code, rec')
        | true ↦ elim (read_prop k.object_id (codes "SECURITY_EQUALS") 1) [
          | none ↦ some (code, rec')
          | some bytes ↦ scan_equals disk vols 33 0 volno bytes dir rec'
        ]
      ]
  ]

  -- With the path that `fs_build_path` gave, and the volume of the handle.
  unfoldable pub rights_on : Station → ℕ → Option Str → Str → Option (ℕ × Trustee)
  rights_on k dh path realpath = do
    h ← get_elem? k.dh dh
    v ← get_elem? vols h.volno
    elim (starts_with (login_dir v) realpath) [
      | true ↦ some (error_ok, record { obj_id = k.object_id; rights = 0x4100 })
      | false ↦ do
        (code, file) ← build_trustfile vols k dh path max_vol_path_len
        if code == error_ok
            then rights_at k h.volno file zero_trustee
            else some (code, zero_trustee)
    ]

  -- The code and the record.
  unfoldable pub get_rights : Station → ℕ → Option Str → Option (ℕ × Trustee)
  get_rights k dh path =
      let computed : Option (ℕ × Trustee) = do
        (code, realpath) ← build_path vols k dh path [] max_vol_path_len 0
        if code == error_ok then rights_on k dh path realpath else some (error_ok, zero_trustee)
      in if not (k.object_supervisor == 0)
        then some (error_ok, record { obj_id = k.object_id; rights = 0xffff })
        else computed

  -- `true` is the result 0.
  unfoldable pub check_rights : Station → ℕ → Option Str → ℕ → Option Bool
  check_rights k dh path right = do
    (code, rec) ← get_rights k dh path
    some (code == error_ok && bit_and (rec.rights >>> 8) right == right)
