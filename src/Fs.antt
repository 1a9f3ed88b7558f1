-- ===== src/Fs.antt =====
-- src/src/server/fs.c and src/include/fs.h: directory handles and paths. `stat` is the kernel's answer to
-- `stat (path, …) == 0`.
pub mod Path
pub mod Files
use frommel.Base.{
  ℕ, zero, suc, ◌+◌, ◌-◌, ◌≤◌, ◌==◌, ◌&&◌, ◌||◌, Bool, true, false, not, bit_and, Option, none,
  some, List, [], ◌∷◌, ◌++◌, map, if◌then◌else◌, in_bounds, ltb, leb, ◌>>◌, ◌>>=◌, Str, codes,
  strncpy, strncat, to_upper, length, get_elem?, set, find_from, take, drop,
}
use frommel.Volume.{Volume, find_volume, max_vol_path_len}
use frommel.Station.{Station, DirHandle, zero_dh, dh_per_conn, dh_max_path_len}

abbrev pub dh_perm : ℕ
dh_perm = 1

abbrev pub ignore_dh_path : ℕ
ignore_dh_path = 1

abbrev pub ignore_conn : ℕ
ignore_conn = 2

-- `FS_ERROR_xxx`, and the other codes that the functions of fs.c pass on.
abbrev pub error_ok : ℕ
error_ok = 0

abbrev pub error_out_of_handles : ℕ
error_out_of_handles = 0x81

abbrev pub error_bad_handle : ℕ
error_bad_handle = 0x88

abbrev pub error_cant_write : ℕ
error_cant_write = 0x94

abbrev pub error_bad_dh : ℕ
error_bad_dh = 0x9b

abbrev pub error_invalid_path : ℕ
error_invalid_path = 0x9c

abbrev pub error_no_file : ℕ
error_no_file = 0xff

-- `NCP_MAX_FIELD_LEN` of src/include/ncp.h
abbrev pub max_field_len : ℕ
max_field_len = 1024

-- The text up to the first `mark`, and the text behind it.
unfoldable pub split_at : ℕ → Str → Option (Str × Str)
split_at mark [] = none
split_at mark (c ∷ s) =
    let rest = split_at mark s in
    if c == mark then some ([], s) else elim rest [ none ↦ none | some (a, b) ↦ some (c ∷ a, b) ]

-- The text up to the last `mark`, and the text behind it.
unfoldable pub split_last : ℕ → Str → Option (Str × Str)
split_last mark [] = none
split_last mark (c ∷ s) = elim (split_last mark s) [
  | some (a, b) ↦ some (c ∷ a, b)
  | none ↦ if c == mark then some ([], s) else none
]

abbrev pub forward_slashes : Str → Str
forward_slashes s = map (λ c. if c == b'\\' then b'/' else c) s

-- `strncpy (tmp, s, …)` into a cleared array, and the loop of `toupper`
abbrev pub upper : Str → Str
upper s = map to_upper s

abbrev pub ends_in_slash : Str → Bool
ends_in_slash [] = false
ends_in_slash (c ∷ []) = c == b'/'
ends_in_slash (c ∷ d ∷ s) = ends_in_slash (d ∷ s)

abbrev pub is_empty : Str → Bool
is_empty [] = true
is_empty (c ∷ s) = false

-- `strcat (dest, "/"); strncat (dest, part, destlen - strlen (dest));`
unfoldable pub append_part : ℕ → Str → Str → Option Str
append_part size dest part = do
  d ← strncat size dest (b'/' ∷ []) 1
  strncat size d part (size - length d)

-- A part that is NULL or empty is left out.
abbrev pub append_if_given : ℕ → Str → Option Str → Option Str
append_if_given size dest none = some dest
append_if_given size dest (some []) = some dest
append_if_given size dest (some (c ∷ s)) = append_part size dest (c ∷ s)

-- The path of volume `v` with `rest` behind it, as the last part of `fs_build_path` builds it in `tmp`.
-- A fault if `v.path` has no terminator, or is empty where its last byte is read.
abbrev pub volume_path : Volume → Str → Option Str
volume_path v rest = do
  in_bounds (ltb (length v.path) max_vol_path_len)
  in_bounds (is_empty rest || not (is_empty v.path))
  some (v.path ++ (if not (is_empty rest) && not (ends_in_slash v.path) then b'/' ∷ rest else rest))

module _ (vols : List Volume) where
  -- A colon: what stands before it, back to the last '/', names a volume, whose path takes its place.
  -- A fault if there is no '/' before it, where the source reads dest[-1].
  unfoldable pub resolve_colon : ℕ → Str → Option (ℕ × Str)
  resolve_colon destlen dest = elim (split_at b':' dest) [
    | none ↦ some (error_ok, dest)
    | some (before, rest) ↦ elim (split_last b'/' before) [
      | none ↦ none
      | some (dir, name) ↦ elim (find_volume vols (upper name)) [
        | none ↦ some (error_invalid_path, dest)
        | some i ↦ do
          v ← get_elem? vols i
          tmp ← volume_path v rest
          some (error_ok, strncpy tmp destlen)
      ]
    ]
  ]

  -- `fs_build_path` once the handle's part stands in `dest`.
  unfoldable pub finish_path : Option Str → ℕ → Str → Option (ℕ × Str)
  finish_path path destlen dest = do
    d ← append_if_given destlen dest path
    in_bounds (ltb (length d) destlen)
    resolve_colon destlen (forward_slashes d)

  -- `fs_build_path` with a directory handle that is in use: the volume's path, and that of the handle.
  unfoldable pub build_on_volume : Option Volume → DirHandle → Option Str → ℕ → ℕ → Option (ℕ × Str)
  build_on_volume none h path destlen flags = none
  build_on_volume (some v) h path destlen flags = do
    d ←
        append_if_given destlen (strncpy v.path destlen)
          (if bit_and flags ignore_dh_path == 0 then some h.path else none)
    finish_path path destlen d

  unfoldable pub build_from_dh : Option DirHandle → Option Str → Str → ℕ → ℕ → Option (ℕ × Str)
  build_from_dh none path dest destlen flags = none
  build_from_dh (some h) path dest destlen flags =
      if h.flags == 0
      then some (error_bad_dh, dest)
      else build_on_volume (get_elem? vols h.volno) h path destlen flags

  -- `dest` is the array of `destlen` bytes as the caller hands it over. The result is the code that is
  -- returned and the array afterwards; `none` is an access out of bounds.
  unfoldable pub build_path : Station → ℕ → Option Str → Str → ℕ → ℕ → Option (ℕ × Str)
  build_path k dh path dest destlen flags =
      if bit_and flags ignore_conn == 0
      then build_from_dh (get_elem? k.dh dh) path dest destlen flags
      else finish_path path destlen dest

unfoldable pub find_free_dh : Station → Option ℕ
find_free_dh k = find_from (λ (d : DirHandle). d.flags == 0) 0 k.dh

-- The volume and the path that a path with a colon names; without one, or if there is no such volume,
-- the volume is the caller's.
unfoldable pub choose_volume : List Volume → ℕ → Str → Option (ℕ × Str)
choose_volume vols volno path = elim (split_at b':' path) [
  | none ↦ some (volno, path)
  | some (before, rest) ↦ do
    in_bounds (ltb (length before) max_field_len)
    elim (find_volume vols (upper before)) [ none ↦ some (volno, path) | some j ↦ some (j, rest) ]
]

abbrev pub new_dh : ℕ → ℕ → Str → DirHandle
new_dh flags volno path = record {
  flags = flags;
  volno = volno;
  path = strncpy path dh_max_path_len;
}

module _ (stat : Str → Bool) (vols : List Volume) where
  -- The rest of `fs_con_alloc_dh` once slot `i` holds the new handle: it is cleared again if its path
  -- cannot be built or does not exist.
  unfoldable pub settle_dh : Station → ℕ → Option (Option ℕ × Station)
  settle_dh k i = do
    (code, path) ← build_path vols k i none [] max_vol_path_len 0
    some (
        if code == error_ok && stat path
        then (some i, k)
        else (none, record k { dh = set k.dh i zero_dh }))

  unfoldable pub alloc_dh : Station → ℕ → ℕ → Str → Option (Option ℕ × Station)
  alloc_dh k flags volno path = elim (find_free_dh k) [
    | none ↦ some (none, k)
    | some i ↦ do
      (vol, rest) ← choose_volume vols volno path
      settle_dh (record k { dh = set k.dh i (new_dh flags vol rest) }) i
  ]

-- `dh` is an int. The test lets 32 pass, one past the array: a fault.
unfoldable pub dealloc_dh : Station → ℕ → Option (Bool × Station)
dealloc_dh k dh =
    let cleared : Option (Bool × Station) = do
      in_bounds (ltb dh (length k.dh))
      some (true, record k { dh = set k.dh dh zero_dh })
    in if ltb dh_per_conn dh then some (false, k) else cleared
