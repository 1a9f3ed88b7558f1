-- ===== src/Volume.antt =====
-- src/src/lib/volume.c and src/include/volume.h: the table of mounted volumes.
pub mod Table
use frommel.Base.{
  ℕ, ◌+◌, ◌==◌, ◌&&◌, Bool, not, bit_or, Option, none, some, List, ◌++◌, if◌then◌else◌, Str, str_eq,
  strncpy, length, set, replicate, find_from, count, [], in_bounds, ltb, ◌>>◌,
}

abbrev pub max_vols : ℕ
max_vols = 16

abbrev pub max_vol_name_len : ℕ
max_vol_name_len = 16

abbrev pub max_vol_path_len : ℕ
max_vol_path_len = 256

-- `VOLUME`. `name` and `path` are the bytes of the arrays `char name[16]` and `char path[256]`.
pub record Volume : Type 0 where
  pub flags : ℕ
  pub name : Str
  pub path : Str

-- the entry after `bzero`
abbrev pub zero_volume : Volume
zero_volume = record { flags = 0; name = []; path = [] }

-- A full `name` has no terminator, and is read on into `path`, which lies behind it.
abbrev pub name_text : Volume → Str
name_text v = if length v.name == max_vol_name_len then v.name ++ v.path else v.name

abbrev pub is_free : Volume → Bool
is_free v = v.flags == 0

abbrev pub is_used : Volume → Bool
is_used v = not (v.flags == 0)

abbrev pub matches : Str → Volume → Bool
matches name v = is_used v && str_eq name (name_text v)

unfoldable pub init : List Volume
init = replicate max_vols zero_volume

-- What `vol_add_volume` stores in the slot that it has found.
abbrev pub new_volume : Str → Str → ℕ → Volume
new_volume name path flags = record {
  flags = bit_or flags 1;
  name = strncpy name max_vol_name_len;
  path = strncpy path max_vol_path_len;
}

-- `none` is the result -1.
unfoldable pub add_volume : List Volume → Str → Str → ℕ → Option ℕ × List Volume
add_volume vols name path flags = elim (find_from is_free 0 vols) [
  | none ↦ (none, vols)
  | some i ↦ (some i, set vols i (new_volume name path flags))
]

unfoldable pub find_volume : List Volume → Str → Option ℕ
find_volume vols name = find_from (matches name) 0 vols

unfoldable pub count_vols : List Volume → ℕ
count_vols vols = count is_used vols

-- `none` is the write past the table.
unfoldable pub delete_volume : List Volume → ℕ → Option (List Volume)
delete_volume vols n = do in_bounds (ltb n (length vols)); some (set vols n zero_volume)
