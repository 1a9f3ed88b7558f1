-- ===== src/Gasp.antt =====
-- src/src/server/gasp_server.c and src/include/gasp.h: the sessions of remote consoles. `body` is what a
-- request carries behind its header, `size` its length; the outer `none` is an access out of bounds.
pub mod Info
pub mod Handle
pub mod Kept
pub mod Commands
pub mod History
pub mod Opening
pub mod Unopened
pub mod Broadcast
use frommel.Base.{
  ℕ, zero, suc, ◌+◌, ◌-◌, ◌*◌, ◌/◌, ◌%◌, ◌^◌, ◌==◌, Bool, true, false, not, Option, none, some,
  List, [], ◌∷◌, ◌++◌, get_elem?, set, replicate, find_from, if◌then◌else◌, ◌>>=◌, ◌>>◌, in_bounds,
  leb, Two, Four, get_be16, get_be32, u8, bit_and, ◌>>>◌, slice, four_at, Str,
}
use frommel.Volume.{Volume}
use frommel.Station.{Station, Addr, zero_addr}
use frommel.BinderyIo.{Bindery}
use frommel.Bindery.{verify_pwd}

abbrev pub datasize : ℕ
datasize = 512

abbrev pub max_sessions : ℕ
max_sessions = 8

abbrev pub status_unused : ℕ
status_unused = 0

abbrev pub status_connected : ℕ
status_connected = 1

abbrev pub status_auth : ℕ
status_auth = 2

-- the status codes of replies, `GASP_STATUS_…`
abbrev pub ok : ℕ
ok = 0

abbrev pub notauth : ℕ
notauth = 1

abbrev pub badauth : ℕ
badauth = 2

abbrev pub outofsess : ℕ
outofsess = 3

abbrev pub noconn : ℕ
noconn = 4

abbrev pub nosess : ℕ
nosess = 5

abbrev pub nosap : ℕ
nosap = 6

abbrev pub badsess : ℕ
badsess = 253

abbrev pub badcmd : ℕ
badcmd = 254

abbrev pub unknowncmd : ℕ
unknowncmd = 255

-- `GASP_SESSION`
pub record Session : Type 0 where
  pub status : ℕ
  pub addr : Addr
  pub key : List ℕ

-- The sessions, the connections conn[0] … conn[conf_nofconns], and whether the server is still up.
pub record Server : Type 0 where
  pub sessions : List Session
  pub conns : List Station
  pub running : Bool

-- A packet that is sent, and to whom.
pub record Reply : Type 0 where
  pub to : Addr
  pub bytes : List ℕ

-- What one packet does: the reply, the descriptors that are closed, and the server afterwards.
pub record Turn : Type 0 where
  pub reply : Option Reply
  pub closed : List ℕ
  pub server : Server

abbrev pub zero_session : Session
zero_session = record { status = status_unused; addr = zero_addr; key = replicate 8 0 }

unfoldable pub init : List Session
init = replicate max_sessions zero_session

unfoldable pub send_reply : Addr → ℕ → ℕ → List ℕ → Option Reply
send_reply addr sessionid statuscode body = some (record {
  to = addr;
  bytes =
      0x77 ∷ 0x77 ∷ u8 (sessionid >>> 8) ∷ bit_and sessionid 0xff ∷ bit_and statuscode 0xff ∷ body;
})

-- A reply that leaves the server as it is.
abbrev pub just : Server → Option Reply → Turn
just s reply = record { reply = reply; closed = []; server = s }

unfoldable pub send_reply_session : Server → ℕ → ℕ → List ℕ → Option Turn
send_reply_session s sessionid statuscode body = do
  session ← get_elem? s.sessions sessionid
  some (just s (send_reply session.addr sessionid statuscode body))

abbrev pub is_unused : Session → Bool
is_unused session = session.status == status_unused

-- The end of `gasp_handle_hello`, with the session that the search has found.
abbrev pub open_session : Server → ℕ → Addr → List ℕ → Option ℕ → Option Turn
open_session s sessionid addr key none = some (just s (send_reply addr sessionid outofsess []))
open_session s sessionid addr key (some i) =
    let session : Session = record { status = status_connected; addr = addr; key = key } in
    send_reply_session (record s { sessions = set s.sessions i session }) i ok key

-- `key` are the 8 random bytes.
unfoldable pub handle_hello : Server → ℕ → Addr → List ℕ → Option Turn
handle_hello s sessionid addr key =
    open_session s sessionid addr key (find_from is_unused 0 s.sessions)

abbrev pub authenticate : Server → ℕ → Session → Option Turn
authenticate s sessionid session =
    let sessions = set s.sessions sessionid (record session { status = status_auth }) in
    send_reply_session (record s { sessions = sessions }) sessionid ok []

module _ (shuffle : List ℕ → Str → List ℕ) (nw_encrypt : List ℕ → List ℕ → List ℕ)
    (bindery : Bindery) where
  abbrev pub check_answer : Server → ℕ → List ℕ → Option Turn
  check_answer s sessionid body = do
    session ← get_elem? s.sessions sessionid
    answer ← slice body 0 8
    right ← verify_pwd shuffle nw_encrypt bindery 1 answer session.key
    (if right then authenticate s sessionid session else send_reply_session s sessionid badauth [])

  unfoldable pub handle_auth : Server → ℕ → List ℕ → ℕ → Option Turn
  handle_auth s sessionid body size =
      if size == 8 then check_answer s sessionid body else send_reply_session s sessionid badcmd []
