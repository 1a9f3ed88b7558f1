-- ===== src/Opening.antt =====
-- src/src/server/fs.c: what works on the rights of the trustees: opening files, and search handles.
pub mod Rights
use frommel.Base.{
  ℕ, zero, suc, ◌+◌, ◌-◌, ◌==◌, ◌&&◌, ◌||◌, not, Bool, true, false, Option, none, some, List, [],
  ◌∷◌, ◌++◌, map, get_elem?, set, if◌then◌else◌, ◌>>=◌, ◌>>◌, in_bounds, ltb, Str, codes, str_eq,
  length, bit_and, bit_or, to_lower,
}
use frommel.Volume.{Volume, max_vol_path_len}
use frommel.Station.{Station, SearchHandle, sh_max_path_len}
use frommel.Fs.{
  build_path, split_last, forward_slashes, error_ok, error_out_of_handles, error_cant_write,
  error_no_file,
}
use frommel.Fs.Files.{find_free_fh, find_free_sh}
use frommel.Trustee.{Disk, check_rights, sysfile, failure}

abbrev pub right_read : ℕ
right_read = 1

abbrev pub right_write : ℕ
right_write = 2

abbrev pub right_create : ℕ
right_create = 8

abbrev pub right_filescan : ℕ
right_filescan = 0x40

-- `O_RDONLY`, `O_WRONLY` and `O_RDWR` as 0, 1 and 2, and `O_CREAT | O_TRUNC`
pub record Mode : Type 0 where
  pub way : ℕ
  pub create : Bool

abbrev pub asked : ℕ → ℕ → Bool
asked rights bit = not (bit_and rights bit == 0)

unfoldable pub mode_of : ℕ → Mode
mode_of rights = record {
  way = if asked rights 4 then 2 else if asked rights 2 then 1 else 0;
  create = asked rights 128;
}

-- The right that the object must have; -1 where no bit is set.
unfoldable pub right_of : ℕ → ℕ
right_of rights =
    if asked rights 128
    then right_create
    else if asked rights 4
    then bit_or right_read right_write
    else if asked rights 2
    then right_write
    else if asked rights 1
    then right_read
    else failure

-- The directory part of a file name, if it has one.
abbrev pub dir_of : Option (Str × Str) → Option Str
dir_of none = none
dir_of (some (dir, name)) = some dir

unfoldable pub directory : Str → Option Str
directory fname = dir_of (split_last b'/' (forward_slashes fname))

abbrev pub last_part : Str → Option (Str × Str) → Str
last_part path none = path
last_part path (some (dir, name)) = name

-- `strcasecmp (name, TRUST_SYSFILE) == 0`, for what stands behind the last slash
unfoldable pub is_sysfile : Str → Bool
is_sysfile path =
    str_eq (map to_lower (last_part path (split_last b'/' path))) (map to_lower sysfile)

abbrev pub dotted_char : ℕ → ℕ
dotted_char c = if c == 0xae then b'.' else c

abbrev pub dotted : Str → Str
dotted path = map dotted_char path

-- `st_mode path` is what `stat` says, if it succeeds, `open_fd path mode` the descriptor, if there is one.
module _ (disk : Disk) (vols : List Volume) (read_prop : ℕ → Str → ℕ → Option (List ℕ))
    (st_mode : Str → Option ℕ) (open_fd : Str → Mode → Option ℕ) where
  abbrev pub opened : Station → ℕ → Option ℕ → ℕ × Option ℕ × Station
  opened k h none = (failure, none, k)
  opened k h (some fd) = (error_ok, some h, record k { fh = set k.fh h (some fd) })

  -- `S_IFDIR` alone: a directory with permission bits passes.
  abbrev pub may_open : Option ℕ → Bool
  may_open none = false
  may_open (some m) = not (m == 0x4000)

  abbrev pub open_path : Station → ℕ → ℕ → Str → ℕ × Option ℕ × Station
  open_path k h rights path =
      if not (asked rights 128) && not (may_open (st_mode path))
      then (failure, none, k)
      else opened k h (open_fd path (mode_of rights))

  abbrev pub open_built : Station → ℕ → ℕ → ℕ × Str → ℕ × Option ℕ × Station
  open_built k h rights (code, path) =
      if code == error_ok
      then (if is_sysfile path
          then (error_cant_write, none, k)
          else open_path k h rights (dotted path))
      else (code, none, k)

  abbrev pub open_allowed : Station → ℕ → ℕ → ℕ → Str → Bool → Option (ℕ × Option ℕ × Station)
  open_allowed k h dh rights fname false = some (error_no_file, none, k)
  open_allowed k h dh rights fname true =
      build_path vols k dh (some fname) [] max_vol_path_len 0 >>= λ built.
      some (open_built k h rights built)

  abbrev pub open_on : Station → ℕ → ℕ → Str → Option ℕ → Option (ℕ × Option ℕ × Station)
  open_on k dh rights fname none = some (error_out_of_handles, none, k)
  open_on k dh rights fname (some h) = do
    in_bounds (ltb (length fname) max_vol_path_len)
    allowed ← check_rights disk vols read_prop k dh (directory fname) (right_of rights)
    open_allowed k h dh rights fname allowed

  -- The code, the handle where it is OK, and the connection afterwards.
  unfoldable pub open_file : Station → ℕ → ℕ → Str → Option (ℕ × Option ℕ × Station)
  open_file k dh rights fname = open_on k dh rights fname (find_free_fh k)

  abbrev pub relpath_of : Option Str → Str
  relpath_of none = []
  relpath_of (some path) = path

  -- A path that cannot be built stays in the handle, which is then taken.
  abbrev pub alloc_built :
      Station → ℕ → ℕ → Option Str → SearchHandle → ℕ × Str → Option (Option ℕ × Station)
  alloc_built k i dh path s (code, full) =
      let made : Option (Option ℕ × Station) = do
        in_bounds (ltb (length (relpath_of path)) sh_max_path_len)
        allowed ← check_rights disk vols read_prop k dh path right_filescan
        let s' : SearchHandle = record {
          path = full;
          relpath = relpath_of path;
          dh = dh;
          scan_right = if allowed then 1 else 0;
        }
        some (some i, record k { sh = set k.sh i s' })
      in if code == error_ok
        then made
        else some (none, record k { sh = set k.sh i (record s { path = full }) })

  abbrev pub alloc_in : Station → ℕ → Option Str → Option ℕ → Option (Option ℕ × Station)
  alloc_in k dh path none = some (none, k)
  alloc_in k dh path (some i) = do
    s ← get_elem? k.sh i
    built ← build_path vols k dh path s.path sh_max_path_len 0
    alloc_built k i dh path s built

  -- `none` as the first result is -1.
  unfoldable pub alloc_sh : Station → ℕ → Option Str → Option (Option ℕ × Station)
  alloc_sh k dh path = alloc_in k dh path (find_free_sh k)
