-- ===== src/Fs/Files.antt =====
-- src/src/server/fs.c: the file and search handles of a connection, and `fs_volume_inuse`.
use frommel.Base.{
  ℕ, ◌==◌, ◌&&◌, ◌||◌, Bool, not, Option, none, some, List, [], ◌∷◌, false, get_elem?, set,
  find_from,
}
use frommel.Station.{Station, DirHandle, SearchHandle, in_use}
use frommel.Fs.{error_ok, error_bad_handle, is_empty}

unfoldable pub find_free_sh : Station → Option ℕ
find_free_sh k = find_from (λ (s : SearchHandle). is_empty s.path) 0 k.sh

abbrev pub is_closed : Option ℕ → Bool
is_closed none = Bool.true
is_closed (some fd) = false

unfoldable pub find_free_fh : Station → Option ℕ
find_free_fh k = find_from is_closed 0 k.fh

abbrev close_entry : Station → ℕ → Option (Option ℕ) → Option (ℕ × Option ℕ × Station)
close_entry k h none = none
close_entry k h (some none) = some (error_bad_handle, none, k)
close_entry k h (some (some fd)) = some (error_ok, some fd, record k { fh = set k.fh h none })

-- The code, the descriptor that is closed, if any, and the connection afterwards. A fault if `h` is past
-- the array.
unfoldable pub close_file : Station → ℕ → Option (ℕ × Option ℕ × Station)
close_file k h = close_entry k h (get_elem? k.fh h)

abbrev pub any {ℓ} : {A : Type ℓ} → (A → Bool) → List A → Bool
any p [] = false
any p (x ∷ xs) = p x || any p xs

abbrev pub holds_volume : ℕ → DirHandle → Bool
holds_volume volno d = not (d.flags == 0) && d.volno == volno

abbrev pub uses_volume : ℕ → Station → Bool
uses_volume volno k = in_use k && any (holds_volume volno) k.dh

-- `true` is the result 0. The loop starts at connection 1.
unfoldable pub volume_inuse : List Station → ℕ → Bool
volume_inuse [] volno = false
volume_inuse (spare ∷ conns) volno = any (uses_volume volno) conns
