-- ===== src/Conn/Promises.antt =====
-- What `conn_logout` promises, in terms of the fields of a connection.
use frommel.Base.{
  ℕ, zero, suc, ◌==◌, ◌≡◌, refl, ap, Bool, false, Option, none, some, List, [], ◌∷◌, ◌++◌, map,
  replicate, get_elem?, length, length-map, count, Str, codes, if◌then◌else◌, Bool-cases, inl, inr,
}
use frommel.Volume.{Volume}
use frommel.Station.{Station, Addr, DirHandle, SearchHandle}
use frommel.Fs.{forward_slashes}
use frommel.Conn.{close_handle, closed, logged_out, logout, open_files}
use frommel.Conn.Logout.{HasLogin, logout_lem, login_handles}

-- A handle holds the descriptor.
abbrev pub holds : ℕ → Option ℕ → Bool
holds fd none = false
holds fd (some n) = n == fd

-- Every descriptor stands in the list as often as in the handles.
abbrev pub Lists : List (Option ℕ) → List ℕ → Type 0
Lists fh fds = (fd : ℕ) → count (λ n. n == fd) fds ≡ count (holds fd) fh

abbrev pub AllClosed : List (Option ℕ) → Type 0
AllClosed fh = (i : ℕ) (f : Option ℕ) → get_elem? fh i ≡ some f → f ≡ none

pub open_files-Lists : (fh : List (Option ℕ)) → Lists fh (open_files fh)
unfolding open_files
open_files-Lists [] fd = refl
open_files-Lists (none ∷ fh) fd = open_files-Lists fh fd
open_files-Lists (some n ∷ fh) fd = elim (Bool-cases (n == fd)) [
  | inl y ↦ rw y (ap suc (open_files-Lists fh fd))
  | inr m ↦ rw m (open_files-Lists fh fd)
]

close_handle-AllClosed : (fh : List (Option ℕ)) → AllClosed (map close_handle fh)
close_handle-AllClosed [] i f e = cc
close_handle-AllClosed (x ∷ fh) zero f e = cc
close_handle-AllClosed (x ∷ fh) (suc i) f e = close_handle-AllClosed fh i f e

-- The handles that are all zeros.
abbrev no_dirs : ℕ → List DirHandle
no_dirs n = replicate n (record { flags = 0; volno = 0; path = [] })

abbrev no_searches : ℕ → List SearchHandle
no_searches n = replicate n (record { path = []; relpath = []; dh = 0; scan_right = 0 })

-- The directory `login` of volume 0, as a permanent handle.
abbrev to_login : DirHandle
to_login = record { flags = 1; volno = 0; path = codes "login" }

-- Connection `k` with nobody logged in, as `k'`: no file is open, and no directory but that for logging
-- in, if the volume at `path` has one.
pub record IsReset (stat : Str → Bool) (path : Str) (k k' : Station) : Type 0 where
  pub attached : k'.status ≡ 1
  pub nobody : k'.object_id ≡ 0xffffffff
  pub no_type : k'.object_type ≡ 0xffff
  pub no_supervisor : k'.object_supervisor ≡ 0
  pub no_message : k'.message ≡ []
  pub listens : k'.message_ok ≡ 1
  pub all_closed : AllClosed k'.fh
  pub as_many : length k'.fh ≡ length k.fh
  pub no_search : k'.sh ≡ no_searches 16
  pub dirs : k'.dh ≡ (
      if stat (forward_slashes (path ++ codes "/login"))
      then to_login ∷ to_login ∷ no_dirs 30
      else no_dirs 32)
  pub same_seq : k'.seq_no ≡ k.seq_no
  pub same_task : k'.task_no ≡ k.task_no
  pub same_key : k'.login_key ≡ k.login_key

module _ (stat : Str → Bool) (vols : List Volume) (v : Volume) where
  -- A logged out connection, whatever its address and times become.
  pub stamped-IsReset :
      (k : Station) (addr : Addr) (login last wdog : ℕ)
      → IsReset stat v.path k
          (record (logged_out (record (closed k) { dh = login_handles stat vols v })) {
            addr = addr;
            login_time = login;
            last_time = last;
            wdog_time = wdog;
          })
  stamped-IsReset k addr login last wdog = record {
    attached = refl;
    nobody = refl;
    no_type = refl;
    no_supervisor = refl;
    no_message = refl;
    listens = refl;
    all_closed = close_handle-AllClosed k.fh;
    as_many = length-map close_handle k.fh;
    no_search = refl;
    dirs = refl;
    same_seq = refl;
    same_task = refl;
    same_key = refl;
  }

  -- If volume 0 is mounted at a path without colons that leaves room for /login, a logout goes
  -- through without a fault. It closes each descriptor as often as a file handle held it;
  -- afterwards no file is open, the status is 1, the object is 0xffffffff of type 0xffff and no
  -- supervisor, there is no message and messages are taken, the search handles are zeros, and so
  -- are the directory handles but for the first two, which are the directory login of volume 0 if
  -- that exists. Address, times, sequence number, task and login key are as before.
  pub logout-IsReset :
      (k : Station)
      → HasLogin vols v
      → (fds : List ℕ) × (k' : Station) × (logout stat vols k ≡ some (fds, k'))
        × Lists k.fh fds
        × IsReset stat v.path k k'
        × (k'.addr ≡ k.addr)
        × (k'.login_time ≡ k.login_time)
        × (k'.last_time ≡ k.last_time)
        × (k'.wdog_time ≡ k.wdog_time)
  logout-IsReset k h = (
    open_files k.fh,
    logged_out (record (closed k) { dh = login_handles stat vols v }),
    logout_lem stat vols v k h,
    open_files-Lists k.fh,
    stamped-IsReset k k.addr k.login_time k.last_time k.wdog_time,
    refl,
    refl,
    refl,
    refl,
  )
