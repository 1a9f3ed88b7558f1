-- ===== src/Ncp/Trustees.antt =====
-- src/src/server/ncp_22.c: the rights of objects on directories, as clients ask for them and change them.
use frommel.Base.{
  ℕ, ◌+◌, ◌-◌, ◌*◌, ◌==◌, ◌&&◌, not, Option, none, some, List, [], ◌∷◌, ◌++◌, get_elem?, take, drop,
  length, replicate, if◌then◌else◌, ◌>>=◌, ltb, Str, str_eq, bit_and, be16, be32,
}
use frommel.Volume.{max_vol_path_len}
use frommel.Station.{Station}
use frommel.Fs.{build_path, error_ok, error_invalid_path, max_field_len}
use frommel.Trustee.{Disk, DskRecord, conv_rec, get_rights, build_trustfile}
use frommel.Trustee.Files.{grant_right, remove_right}
use frommel.Ncp.Fields.{Reply, complete, require, wrong_length, be16_at, be32_at}
use frommel.Ncp.Machine.{Machine, Filed, replied}
use frommel.Ncp.Dirs.{path_field, rights_of}

module _ (m : Machine) (disk : Disk) (k : Station) where
  -- Rights of none on anything but the volume itself are told as an invalid path.
  abbrev pub tell_rights : ℕ → Str → ℕ → Option Reply
  tell_rights dh realpath rights = do
    h ← get_elem? k.dh dh
    v ← get_elem? m.vols h.volno
    some (
        if rights == 0 && not (str_eq realpath v.path)
        then complete error_invalid_path
        else (0, bit_and rights 0xff ∷ []))

  abbrev pub rights_on_dir : ℕ → Str → Str → Option Reply
  rights_on_dir dh path realpath =
      if m.has_dir_bit realpath
      then (get_rights disk m.vols m.read_prop k dh (some path) >>= λ given.
          tell_rights dh realpath (rights_of given))
      else some (complete error_invalid_path)

  unfoldable pub handle_effrights : List ℕ → ℕ → Option Reply
  handle_effrights body size =
      let named : ℕ → ℕ → Option Reply = λ dh path_len. do
        path ← path_field body 2 path_len
        (code, realpath) ← build_path m.vols k dh (some path) [] max_field_len 0
        (if code == error_ok then rights_on_dir dh path realpath else some (complete code))
      in let parsed : Option Reply = do
        dh ← get_elem? body 0
        path_len ← get_elem? body 1
        require (size == 3 + path_len) wrong_length (named dh path_len)
        in require (not (ltb size 3)) wrong_length parsed

  -- A code above 0xff is cut to a byte.
  unfoldable pub handle_geteffrights : List ℕ → ℕ → Option Reply
  handle_geteffrights body size =
      let parsed : Option Reply = do
        dh ← get_elem? body 0
        path_len ← get_elem? body 1
        path ← path_field body 2 path_len
        (code, rec) ← get_rights disk m.vols m.read_prop k dh (some path)
        some (if code == error_ok then (0, be16 rec.rights) else complete (bit_and code 0xff))
      in require (not (ltb size 3)) wrong_length parsed

  -- The code of a change of a trustee file, and the files afterwards.
  abbrev pub changed : ℕ × Disk → Filed
  changed (code, disk') = replied k disk' (complete (bit_and code 0xff))

  -- Neither here nor in trust_grant_right is a right of the connection checked.
  unfoldable pub handle_addtrusteetodir : List ℕ → ℕ → Option Filed
  handle_addtrusteetodir body size =
      let parsed : Option Filed = do
        dh ← get_elem? body 0
        trustee_id ← be32_at body 1
        mask ← get_elem? body 5
        path_len ← get_elem? body 6
        path ← path_field body 7 path_len
        done ← grant_right m.access m.vols disk k dh (some path) trustee_id mask
        some (changed done)
      in require (not (ltb size 9)) (replied k disk wrong_length) parsed

  unfoldable pub handle_addexttrustee : List ℕ → ℕ → Option Filed
  handle_addexttrustee body size =
      let parsed : Option Filed = do
        dh ← get_elem? body 0
        trustee_id ← be32_at body 1
        mask ← be16_at body 5
        path_len ← get_elem? body 7
        path ← path_field body 8 path_len
        done ← grant_right m.access m.vols disk k dh (some path) trustee_id mask
        some (changed done)
      in require (not (ltb size 9)) (replied k disk wrong_length) parsed

  -- One byte behind the id is skipped.
  unfoldable pub handle_removetrusteefromdir : List ℕ → ℕ → Option Filed
  handle_removetrusteefromdir body size =
      let parsed : Option Filed = do
        dh ← get_elem? body 0
        objid ← be32_at body 1
        path_len ← get_elem? body 6
        path ← path_field body 7 path_len
        done ← remove_right m.access m.vols disk k dh (some path) objid m.junk_id
        some (changed done)
      in require (not (ltb size 5)) (replied k disk wrong_length) parsed

  abbrev pub ids_of : List DskRecord → List ℕ
  ids_of [] = []
  ids_of (d ∷ ds) = be32 (conv_rec d).obj_id ++ ids_of ds

  abbrev pub masks_of : List DskRecord → List ℕ
  masks_of [] = []
  masks_of (d ∷ ds) = be16 (conv_rec d).rights ++ masks_of ds

  -- `NCP_SCANTRUST` with 20 trustees at most, and code 0x9c where there are none.
  abbrev pub trustees_reply : List DskRecord → Reply
  trustees_reply ds =
      let n = length ds in
      (
        (if n == 0 then 0x9c else 0),
        n ∷ (ids_of ds ++ (replicate (80 - 4 * n) 0 ++ (masks_of ds ++ replicate (40 - 2 * n) 0))),
      )

  abbrev pub page_of : ℕ → Option (List DskRecord) → List DskRecord
  page_of seq none = []
  page_of seq (some records) = take 20 (drop (20 * seq) records)

  unfoldable pub handle_scanextrust : List ℕ → ℕ → Option Reply
  handle_scanextrust body size =
      let parsed : Option Reply = do
        dh ← get_elem? body 0
        seq ← get_elem? body 1
        path_len ← get_elem? body 2
        path ← path_field body 3 path_len
        (code, file) ← build_trustfile m.vols k dh (some path) max_vol_path_len
        some (if code == error_ok then trustees_reply (page_of seq (disk file)) else complete code)
      in require (not (ltb size 4)) wrong_length parsed
