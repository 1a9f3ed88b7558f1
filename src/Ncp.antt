-- ===== src/Ncp.antt =====
-- src/src/server/ncp.c and src/include/ncp.h: requests of clients. The outer `none` is an access out of
-- bounds. The functions that need more than a connection enter as a parameter.
pub mod Messages
pub mod Wanted
pub mod Listing
pub mod Matching
pub mod Scale
pub mod Anyone
pub mod Service
pub mod Wildcards
pub mod Scandir
pub mod Space
pub mod Trustees
pub mod Dirs
pub mod Machine
pub mod Reading
pub mod Roster
pub mod Named
pub mod Passwords
pub mod Stated
pub mod Authority
pub mod Grants
pub mod Pointwise
pub mod Calls
pub mod About
pub mod Stations
pub mod Keys
pub mod Groups
pub mod Values
pub mod Objects
pub mod Fields
pub mod Handle
pub mod Hijack
pub mod Delivery
use frommel.Base.{
  ℕ, zero, suc, ◌+◌, ◌-◌, ◌*◌, ◌/◌, ◌%◌, ◌^◌, ◌==◌, ◌&&◌, ◌||◌, Bool, true, false, not, Option,
  none, some, List, [], ◌∷◌, ◌++◌, map, get_elem?, set, if◌then◌else◌, ◌>>=◌, ltb, Two, get_be16,
  u8, bit_and, bit_or, ◌>>>◌, two_at, Str,
}
use frommel.Volume.{Volume}
use frommel.Station.{Station, Addr, SearchHandle}
use frommel.Conn.{logout}
use frommel.Fs.Files.{close_file}

abbrev pub error_wrong_length : ℕ
error_wrong_length = 0xff

abbrev pub packet_bufsize : ℕ
packet_bufsize = 2048

-- `NCP_REQUEST`
pub record Request : Type 0 where
  pub req_type : Two
  pub seq_no : ℕ
  pub con_no : ℕ
  pub task_no : ℕ
  pub reserved : ℕ
  pub req_code : ℕ

-- A packet that is sent, and to whom.
pub record Sent : Type 0 where
  pub to : Addr
  pub bytes : List ℕ

-- What a function of one connection answers: the completion code, the data behind it, the descriptors
-- that are closed, and the connection afterwards.
pub record Answer : Type 0 where
  pub code : ℕ
  pub reply : List ℕ
  pub closed : List ℕ
  pub station : Station

unfoldable pub request_at : List ℕ → Option Request
request_at buffer = do
  req_type ← two_at buffer 0
  seq_no ← get_elem? buffer 2
  con_no ← get_elem? buffer 3
  task_no ← get_elem? buffer 4
  reserved ← get_elem? buffer 5
  req_code ← get_elem? buffer 6
  some (record {
    req_type = req_type;
    seq_no = seq_no;
    con_no = con_no;
    task_no = task_no;
    reserved = reserved;
    req_code = req_code;
  })

abbrev pub is_empty : Str → Bool
is_empty [] = true
is_empty (c ∷ s) = false

-- `conn_stat` of a reply: the server goes down, and a message is waiting.
unfoldable pub conn_stat : Bool → Station → ℕ
conn_stat down k = bit_or (if down then 0x8 else 0) (if is_empty k.message then 0 else 0x40)

-- `down` is `down_flag`.
unfoldable pub send_reply : Bool → ℕ → Station → List ℕ → ℕ → Sent
send_reply down c k reply comp_code = record {
  to = k.addr;
  bytes =
      0x33
      ∷ 0x33
      ∷ k.seq_no
      ∷ bit_and c 0xff
      ∷ k.task_no
      ∷ u8 (c >>> 8)
      ∷ comp_code
      ∷ conn_stat down k
      ∷ reply;
}

unfoldable pub send_compcode_addr : Addr → ℕ → ℕ → ℕ → ℕ → ℕ → Sent
send_compcode_addr addr c task_no seq_no comp_code flags = record {
  to = addr;
  bytes = 0x33 ∷ 0x33 ∷ seq_no ∷ u8 c ∷ task_no ∷ 0 ∷ comp_code ∷ flags ∷ [];
}

-- An answer that leaves the connection as it is.
abbrev pub answer : Station → ℕ → List ℕ → Answer
answer k code reply = record { code = code; reply = reply; closed = []; station = k }

-- `NCP_REQUIRE_LENGTH`
abbrev pub require_length : Station → ℕ → ℕ → Option Answer → Option Answer
require_length k size required a =
    if size == required then a else some (answer k error_wrong_length [])

unfoldable pub handle_buffersize : Station → Option Answer
handle_buffersize k = some (answer k 0 (packet_bufsize / 256 ∷ packet_bufsize % 256 ∷ []))

abbrev pub closing : Station → List ℕ → Option Answer
closing k body = do
  handle ← two_at body 5
  (code, fd, k') ← close_file k (get_be16 handle)
  some (record {
    code = code;
    reply = [];
    closed = elim fd [ none ↦ [] | some n ↦ n ∷ [] ];
    station = k';
  })

unfoldable pub handle_fclose : Station → List ℕ → ℕ → Option Answer
handle_fclose k body size = require_length k size 7 (closing k body)

abbrev pub clear_search : SearchHandle → SearchHandle
clear_search s = record s { path = [] }

unfoldable pub handle_eoj : Station → ℕ → Option Answer
handle_eoj k size =
    require_length k size 0 (some (answer (record k { sh = map clear_search k.sh }) 0 []))

module _ (stat : Str → Bool) (vols : List Volume) where
  abbrev pub logging_out : Station → Option Answer
  logging_out k = do
    (fds, k') ← logout stat vols k
    some (record { code = 0; reply = []; closed = fds; station = k' })

  unfoldable pub handle_logout : Station → ℕ → Option Answer
  handle_logout k size = require_length k size 0 (logging_out k)

-- Big packets are not supported: `PBURST_WORKS` is not defined.
unfoldable pub handle_maxpacket : Station → ℕ → Option Answer
handle_maxpacket k size = require_length k size 3 (some (answer k 0xfb []))
