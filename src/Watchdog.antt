-- ===== src/Watchdog.antt =====
-- src/src/server/wdog.c, and `conn_cleanup` of src/src/server/conn.c, which sends its packets. What leaves the
-- server is a list of actions; `now` and `stamp` are readings of the clock.
pub mod Rounds
use frommel.Base.{
  ℕ, suc, ◌+◌, ◌==◌, ◌&&◌, Bool, Option, none, some, List, [], ◌∷◌, ◌++◌, map, get_elem?, set,
  length, if◌then◌else◌, ltb, ◌>>=◌, Str, u8, u16,
}
use frommel.Volume.{Volume}
use frommel.Station.{Station, Addr, same_node, in_use}
use frommel.Conn.{clear, timeout_length}

-- `WDOG_PACKET` and the address that it goes to. `cid` is a uint8.
pub record Packet : Type 0 where
  pub cid : ℕ
  pub sign_char : ℕ
  pub to : Addr

pub data Action : Type 0 where
  sends : Packet → Action
  closes : ℕ → Action

-- The client listens on the socket behind its own.
unfoldable pub watchdog : ℕ → ℕ → Station → Packet
watchdog c sign_char k = record {
  cid = u8 c;
  sign_char = sign_char;
  to = record k.addr { port = u16 (k.addr.port + 1) };
}

abbrev pub is_idle : ℕ → Station → Bool
is_idle now k = in_use k && ltb (k.last_time + timeout_length) now

module _ (stat : Str → Bool) (vols : List Volume) (now stamp : ℕ) where
  abbrev drop_conn : Station → Option (List Action × Station)
  drop_conn k = do (fds, k') ← clear stat vols k; some (map closes fds, k')

  -- The body of the loop of `conn_cleanup`, for connection `i`.
  unfoldable pub tidy : ℕ → Station → Option (List Action × Station)
  tidy i k =
      if is_idle now k
      then if k.wdog_time == 0
        then some (sends (watchdog i b'?' k) ∷ [], record k { wdog_time = stamp })
        else drop_conn k
      else some ([], k)

  unfoldable pub cleanup_from : ℕ → List Station → Option (List Action × List Station)
  cleanup_from i [] = some ([], [])
  cleanup_from i (k ∷ ks) = do
    (acts, k') ← tidy i k
    (rest, ks') ← cleanup_from (suc i) ks
    some (acts ++ rest, k' ∷ ks')

  unfoldable pub cleanup : List Station → Option (List Action × List Station)
  cleanup [] = some ([], [])
  cleanup (spare ∷ conns) = do (acts, conns') ← cleanup_from 1 conns; some (acts, spare ∷ conns')

abbrev answered : ℕ → Station → Station
answered now k = record k { last_time = now; wdog_time = 0 }

abbrev answer : ℕ → List Station → ℕ → ℕ → Addr → Option Station → Option (List Station)
answer now conns cid sign_char from none = none
answer now conns cid sign_char from (some k) =
    some
      (if same_node k.addr from && sign_char == b'N' then set conns cid (answered now k) else conns)

-- A packet has two bytes. A number past the table is dropped; number 0 is let through.
unfoldable pub handle_packet : ℕ → List Station → List ℕ → Addr → ℕ → Option (List Station)
handle_packet nofconns conns (cid ∷ sign_char ∷ []) from now =
    if ltb nofconns cid
    then some conns
    else answer now conns cid sign_char from (get_elem? conns cid)
handle_packet nofconns conns bytes from now = some conns
