-- ===== src/Conn/Logout.antt =====
-- What `conn_logout` and `conn_clear` leave behind.
use frommel.Base.{
  ℕ, ◌+◌, ◌<◌, ◌≡◌, refl, Bool, Option, none, some, List, [], ◌∷◌, ◌++◌, map, replicate, get_elem?,
  length, length-append, ap, sym, subst, arith, Str, codes, if◌then◌else◌,
}
use frommel.Volume.{Volume, max_vol_path_len}
use frommel.Station.{Station, DirHandle, zero_dh, dh_per_conn, fh_per_conn, zero_station}
use frommel.Fs.{
  alloc_dh, settle_dh, find_free_dh, choose_volume, split_at, build_path, new_dh, dh_perm,
  forward_slashes, error_ok,
}
use frommel.Fs.Path.{Free, build_path_joins, full_path}
use frommel.Conn.{clear, close_handle, closed, logged_out, logout, open_files, get_bind_accesslevel}

-- The login directory of volume 0.
abbrev pub login_path : Volume → Str
login_path v = forward_slashes (v.path ++ b'/' ∷ codes "login")

-- Volume 0 is mounted at a path without colons that leaves room for `/login`.
pub record HasLogin (vols : List Volume) (v : Volume) : Type 0 where
  pub mounted : get_elem? vols 0 ≡ some v
  pub short : length v.path + 6 < max_vol_path_len
  pub plain : Free b':' (login_path v)

abbrev pub login_dh : DirHandle
login_dh = new_dh dh_perm 0 (codes "login")

length-login_path : (v : Volume) → length (full_path v login_dh none) ≡ length v.path + 6
length-login_path v = length-append v.path (b'/' ∷ codes "login")

module _ (stat : Str → Bool) (vols : List Volume) (v : Volume) where
  -- The directory handles after a logout: #0 and #1 are the login directory, if it exists.
  abbrev pub login_handles : List DirHandle
  login_handles =
      if stat (login_path v)
      then login_dh ∷ login_dh ∷ replicate 30 zero_dh
      else replicate dh_per_conn zero_dh

  abbrev with_login : Station → Station
  with_login k = record (closed k) { dh = login_dh ∷ replicate 31 zero_dh }

  login_built :
      (k : Station)
      → HasLogin vols v
      → build_path vols (with_login k) 0 none [] max_vol_path_len 0 ≡ some (error_ok, login_path v)
  login_built k h =
      (build_path_joins vols (with_login k) 0 none [] max_vol_path_len login_dh v refl
          (λ e. omega arith) h.mounted h.plain).0
        (omega (arith, length-login_path v, h.short))

  -- Where volume 0 has room for its login directory, a logout goes through without a fault, and closes
  -- every open descriptor. Nobody is logged in after
  -- it, no file is open, and the only directory handles are the two for the login directory of volume 0.
  pub logout_lem :
      (k : Station)
      → HasLogin vols v
      → logout stat vols k
        ≡ some (open_files k.fh, logged_out (record (closed k) { dh = login_handles }))
  unfolding logout alloc_dh settle_dh find_free_dh choose_volume split_at
  logout_lem k h = ground (arith, login_built k h)

open_files-closed : (fh : List (Option ℕ)) → open_files (map close_handle fh) ≡ []
unfolding open_files
open_files-closed [] = refl
open_files-closed (f ∷ fh) = open_files-closed fh

close_twice : (fh : List (Option ℕ)) → map close_handle (map close_handle fh) ≡ map close_handle fh
close_twice [] = refl
close_twice (f ∷ fh) = ap (◌∷◌ none) (close_twice fh)

module _ (stat : Str → Bool) (vols : List Volume) (v : Volume) (h : HasLogin vols v) where
  -- A second logout finds nothing to close and changes nothing.
  pub logout-logout :
      (k k' : Station) (fds : List ℕ)
      → logout stat vols k ≡ some (fds, k')
      → logout stat vols k' ≡ some ([], k')
  logout-logout k k' fds e =
      let done = logged_out (record (closed k) { dh = login_handles stat vols v }) in
      let same : k' ≡ done = ground (arith, logout_lem stat vols v k h) in
      subst (λ s. logout stat vols s ≡ some ([], s)) (sym same)
        (ground (arith, logout_lem stat vols v done h, open_files-closed k.fh, close_twice k.fh))

  -- After a logout the connection has the access level of somebody who is not logged in.
  logout-level :
      (k k' : Station) (fds : List ℕ)
      → logout stat vols k ≡ some (fds, k')
      → get_bind_accesslevel k' ≡ 0
  logout-level k k' fds e = ground (arith, logout_lem stat vols v k h)

  -- If volume 0 is mounted at a path without colons that leaves room for /login, a cleared
  -- connection holds descriptor 0 in all its 64 file handles, so the next logout on it closes
  -- descriptor 0 each time.
  pub clear_closes :
      (k k' : Station) (fds : List ℕ)
      → clear stat vols k ≡ some (fds, k')
      → (k'' : Station) × (logout stat vols k' ≡ some (replicate fh_per_conn 0, k''))
  unfolding clear open_files
  clear_closes k k' fds e =
      let same : k' ≡ zero_station = ground (arith, logout_lem stat vols v k h) in
      (
        logged_out (record (closed zero_station) { dh = login_handles stat vols v }),
        rw same (logout_lem stat vols v zero_station h),
      )
