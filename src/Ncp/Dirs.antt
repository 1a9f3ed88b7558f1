-- ===== src/Ncp/Dirs.antt =====
-- src/src/server/ncp_22.c: directory handles, and creating and deleting directories.
use frommel.Base.{
  ℕ, ◌+◌, ◌-◌, ◌==◌, Bool, not, Option, none, some, List, [], ◌∷◌, ◌++◌, map, get_elem?, set, take,
  length, if◌then◌else◌, ◌>>=◌, ◌>>◌, in_bounds, ltb, Str, codes, str_eq, to_lower, to_upper, u8,
  bit_and, slice, c_string, has_nul,
}
use frommel.Volume.{name_text, max_vol_path_len}
use frommel.Station.{Station, dh_max_path_len}
use frommel.Fs.{
  build_path, alloc_dh, dealloc_dh, split_last, forward_slashes, error_ok, error_bad_dh,
}
use frommel.Trustee.{Disk, Trustee, get_rights}
use frommel.Ncp.Fields.{Reply, complete, require, wrong_length, text_field}
use frommel.Ncp.Machine.{Machine, Call, make_dir, remove_dir, Filed, replied}

abbrev pub dh_temp : ℕ
dh_temp = 2

-- `len` bytes from byte `i` on, in lower case.
abbrev pub path_field : List ℕ → ℕ → ℕ → Option Str
path_field body i len = do s ← text_field body i len; some (map to_lower s)

-- The rights of `rec`, or none where the code is not OK.
abbrev pub rights_of : ℕ × Trustee → ℕ
rights_of (code, rec) = if code == error_ok then rec.rights else 0

module _ (m : Machine) (disk : Disk) (k : Station) where
  -- A new handle is answered with the low byte of its rights.
  abbrev pub allocated : Option ℕ × Station → Option (Station × Reply)
  allocated (none, k') = some (k', complete 0xff)
  allocated (some i, k') = do
    rights ← get_rights disk m.vols m.read_prop k' i none
    some (k', (0, u8 i ∷ bit_and (rights_of rights) 0xff ∷ []))

  -- `ncp_alloc_perm_dirhandle` and `ncp_alloc_temp_dirhandle` differ in the flags of the handle only. The
  -- source handle is not used.
  unfoldable pub alloc_dirhandle : ℕ → List ℕ → ℕ → Option (Station × Reply)
  alloc_dirhandle flags body size =
      let named : ℕ → Option (Station × Reply) = λ path_len. do
        path ← path_field body 3 path_len
        alloc_dh m.exists m.vols k flags 0 path >>= allocated
      in let parsed : Option (Station × Reply) = do
        source_dh ← get_elem? body 0
        name ← get_elem? body 1
        path_len ← get_elem? body 2
        require (size == path_len + 4) (k, wrong_length) (named path_len)
        in require (not (ltb size 4)) (k, wrong_length) parsed

  unfoldable pub dealloc_dirhandle : List ℕ → ℕ → Option (Station × Reply)
  dealloc_dirhandle body size =
      let parsed : Option (Station × Reply) = do
        dh ← get_elem? body 0
        (ok, k') ← dealloc_dh k dh
        some (k', complete (if ok then 0 else error_bad_dh))
      in require (not (ltb size 2)) (k, wrong_length) parsed

  -- The name of the volume, a colon and the path, in upper case, behind their length.
  unfoldable pub handle_getdirpath : List ℕ → ℕ → Option Reply
  handle_getdirpath body size =
      let told : Option Reply = do
        dh ← get_elem? body 0
        h ← get_elem? k.dh dh
        v ← get_elem? m.vols h.volno
        let text = map to_upper (name_text v ++ (b':' ∷ h.path))
        some (0, u8 (length text) ∷ text)
      in require (size == 2) wrong_length told

  -- The last part of the path is taken off it, if it has one.
  abbrev pub parent : Str → Str
  parent path = elim (split_last b'/' path) [ none ↦ path | some (dir, name) ↦ dir ]

  -- The new path of a handle: `snprintf` reads the array that it writes to, and is taken to work as if
  -- these were two.
  abbrev pub step_into : Str → Str → Str
  step_into path part =
      if str_eq part (codes "..")
      then parent path
      else take (dh_max_path_len - 1) (path ++ (b'/' ∷ part))

  -- No right is checked, and not whether the handle is in use.
  unfoldable pub handle_setdirpath : List ℕ → ℕ → Option (Station × Reply)
  handle_setdirpath body size =
      let moved : ℕ → ℕ → ℕ → Option (Station × Reply) = λ dest_dh source_dh path_len. do
        path ← path_field body 3 path_len
        old ← get_elem? k.dh dest_dh
        h ← get_elem? k.dh source_dh
        let h' = record h { path = step_into h.path (forward_slashes path) }
        some (record k { dh = set k.dh dest_dh h' }, complete 0)
      in let parsed : Option (Station × Reply) = do
        dest_dh ← get_elem? body 0
        source_dh ← get_elem? body 1
        path_len ← get_elem? body 2
        require (size == path_len + 4) (k, wrong_length) (moved dest_dh source_dh path_len)
        in require (not (ltb size 4)) (k, wrong_length) parsed

  -- What the kernel is asked for, and its code, where the path could be built.
  abbrev pub asked_for : (Str → Call) → (Str → Bool) → ℕ × Str → Filed
  asked_for call works (code, path) =
      if code == error_ok
      then record (replied k disk (complete (if works path then 0 else 0xff))) {
        calls = call path ∷ [];
      }
      else replied k disk (complete code)

  -- No right is checked.
  unfoldable pub handle_createdir : List ℕ → ℕ → Option Filed
  handle_createdir body size =
      let parsed : Option Filed = do
        dh ← get_elem? body 0
        mask ← get_elem? body 1
        path_len ← get_elem? body 2
        path ← path_field body 3 path_len
        built ← build_path m.vols k dh (some path) [] max_vol_path_len 0
        some (asked_for make_dir m.mkdir built)
      in require (not (ltb size 4)) (replied k disk wrong_length) parsed

  -- The name is copied to an array that was never cleared, and is not terminated. Only the bytes of the name
  -- are put in lower case.
  abbrev pub unterminated : List ℕ → Option Str
  unterminated sent = do
    in_bounds (has_nul (sent ++ m.stack))
    some (c_string (map to_lower sent ++ m.stack))

  -- No right is checked.
  unfoldable pub handle_deletedir : List ℕ → ℕ → Option Filed
  handle_deletedir body size =
      let parsed : Option Filed = do
        dh ← get_elem? body 0
        mask ← get_elem? body 1
        name_len ← get_elem? body 2
        sent ← slice body 3 name_len
        name ← unterminated sent
        built ← build_path m.vols k dh (some name) [] max_vol_path_len 0
        some (asked_for remove_dir m.rmdir built)
      in require (not (ltb size 5)) (replied k disk wrong_length) parsed
