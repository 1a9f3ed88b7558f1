-- ===== src/Conn.antt =====
-- src/src/server/conn.c and the sending half of src/src/server/wdog.c: the table of service connections.
-- The list holds conn[0] … conn[conf_nofconns]; number 0 is allocated, but no loop visits it.
pub mod Logout
pub mod Attach
pub mod Promises
pub mod Served
pub mod Nodes
use frommel.Base.{
  ℕ, zero, suc, ◌+◌, ◌==◌, ◌&&◌, Bool, not, Option, none, some, List, [], ◌∷◌, ◌++◌, map, replicate,
  get_elem?, set, find_from, count, if◌then◌else◌, ltb, ◌>>=◌, codes, Str, u8, u16,
}
use frommel.Volume.{Volume}
use frommel.Station.{
  Station, Addr, zero_station, zero_dh, zero_sh, dh_per_conn, sh_per_conn, same_node, in_use,
  status_unused, status_attached,
}
use frommel.Fs.{alloc_dh, dh_perm}

-- `CONN_TIMEOUT_LENGTH` of src/include/config.h
abbrev pub timeout_length : ℕ
timeout_length = 300

-- the object of a connection that nobody has logged in on
abbrev pub no_object : ℕ
no_object = 0xffffffff

unfoldable pub init : ℕ → List Station
init nofconns = replicate (suc nofconns) zero_station

unfoldable pub find_free_conn : List Station → Option ℕ
find_free_conn [] = none
find_free_conn (spare ∷ conns) = find_from (λ k. not (in_use k)) 1 conns

unfoldable pub count_used : List Station → ℕ
count_used [] = 0
count_used (spare ∷ conns) = count in_use conns

abbrev pub is_client : Addr → Station → Bool
is_client a k = same_node k.addr a

unfoldable pub scan_client_by_addr : List Station → Option Addr → Option ℕ
scan_client_by_addr conns none = none
scan_client_by_addr [] (some a) = none
scan_client_by_addr (spare ∷ conns) (some a) = find_from (is_client a) 1 conns

-- The descriptors that `conn_logout` closes.
unfoldable pub open_files : List (Option ℕ) → List ℕ
open_files [] = []
open_files (none ∷ fh) = open_files fh
open_files (some fd ∷ fh) = fd ∷ open_files fh

abbrev pub get_bind_accesslevel : Station → ℕ
get_bind_accesslevel k =
    if k.object_id == no_object then 0x00 else if not (k.object_supervisor == 0) then 0x33 else 0x22

-- the entry of a file that has been closed
abbrev pub close_handle : Option ℕ → Option ℕ
close_handle f = none

-- All files are closed and all handles cleared, before the first directory handle is set up.
abbrev pub closed : Station → Station
closed k = record k {
  fh = map close_handle k.fh;
  status = status_attached;
  dh = replicate dh_per_conn zero_dh;
  sh = replicate sh_per_conn zero_sh;
}

-- The end of `conn_logout`, with handle #0 copied to #1.
abbrev pub logged_out : Station → Station
logged_out k = record k {
  object_id = no_object;
  object_type = 0xffff;
  object_supervisor = 0;
  message = [];
  message_ok = 1;
}

abbrev pub set_addr : Option Addr → Station → Station
set_addr none k = k
set_addr (some a) k = record k { addr = a }

module _ (stat : Str → Bool) (vols : List Volume) where
  -- The descriptors that are closed, and the connection afterwards.
  unfoldable pub logout : Station → Option (List ℕ × Station)
  logout k = do
    (made, k') ← alloc_dh stat vols (closed k) dh_perm 0 (codes "login")
    first ← get_elem? k'.dh 0
    some (open_files k.fh, logged_out (record k' { dh = set k'.dh 1 first }))

  unfoldable pub clear : Station → Option (List ℕ × Station)
  clear k = do (fds, k') ← logout k; some (fds, zero_station)

  -- The end of `conn_attach_client`, on connection `c`.
  unfoldable pub attach_to :
      List Station → Option Addr → ℕ → ℕ → Option (Option ℕ × List ℕ × List Station)
  attach_to conns addr now c = do
    k ← get_elem? conns c
    (fds, k') ← logout k
    let ready = record (set_addr addr k') { login_time = now; last_time = now; wdog_time = 0 }
    some (some c, fds, set conns c ready)

  unfoldable pub attach_free :
      List Station → Option Addr → ℕ → Option ℕ → Option (Option ℕ × List ℕ × List Station)
  attach_free conns addr now none = some (none, [], conns)
  attach_free conns addr now (some c) = attach_to conns addr now c

  -- `none` as the first result is -1.
  unfoldable pub attach_client :
      List Station → Option Addr → ℕ → Option (Option ℕ × List ℕ × List Station)
  attach_client conns addr now = elim (scan_client_by_addr conns addr) [
    | some c ↦ attach_to conns addr now c
    | none ↦ attach_free conns addr now (find_free_conn conns)
  ]
