-- ===== src/Link.antt =====
-- src/src/server/link.c and src/include/link.h: greeting the servers that are configured as linked, and
-- answering their greetings. `buffer` is where a packet was received, `size` its length; the outer
-- `none` is an access out of bounds.
pub mod Greeting
use frommel.Base.{
  ℕ, ◌+◌, ◌*◌, ◌-◌, ◌/◌, ◌%◌, ◌^◌, ◌==◌, Bool, Option, none, some, List, [], ◌∷◌, ◌++◌, get_elem?,
  map, take, length, replicate, find_from, if◌then◌else◌, ◌>>=◌, ltb, get_be16, u8, bit_and, ◌>>>◌,
  two_at, text_at, Str, str_eq,
}
use frommel.Station.{Addr}
use frommel.Gasp.{Reply}

-- `LINK_SERVER`: of its address only six bytes are used, which are a node address.
pub record Linked : Type 0 where
  pub servername : Str
  pub host : ℕ

-- `servers` is conf_link_servers, with all its LINK_MAX_SERVERS entries.
unfoldable pub scan_server : List Linked → Str → Option ℕ
scan_server servers sname = find_from (λ (l : Linked). str_eq l.servername sname) 0 servers

-- A `LINK_HELLO` behind its header.
unfoldable pub hello : Str → ℕ → List ℕ
hello servername key =
    0x88 ∷ 0x88 ∷ 0xff ∷ 0xff ∷ 0 ∷ 0 ∷ take 48 servername
    ++ (replicate (48 - length servername) 0
        ++ (u8 (key >>> 24) ∷ u8 (key >>> 16) ∷ u8 (key >>> 8) ∷ bit_and key 0xff ∷ []))

abbrev pub port_link : ℕ
port_link = 0x0460

-- What is sent at the start of the server with address `own`, to the first `nofservers` entries.
unfoldable pub init : Bool → Addr → Str → ℕ → ℕ → List Linked → List Reply
init enabled own servername key nofservers servers =
    if enabled
    then map
        (λ (l : Linked). record {
          to = record { net = own.net; host = l.host; port = port_link };
          bytes = hello servername key;
        })
        (take nofservers servers)
    else []

unfoldable pub send_response : ℕ → ℕ → Addr → List ℕ → Reply
send_response sessionid statuscode addr body = record {
  to = addr;
  bytes = 0x99 ∷ 0x99 ∷ u8 (sessionid >>> 8) ∷ bit_and sessionid 0xff ∷ u8 statuscode ∷ body;
}

-- The end of `link_handle_hello`, with the server that the search has found.
abbrev pub greet : List Linked → ℕ → Addr → Option ℕ → Option (Option Reply)
greet servers sessionid addr none = some none
greet servers sessionid addr (some i) = do
  server ← get_elem? servers i
  some (if server.host == addr.host then some (send_response sessionid 0 addr []) else none)

-- `datalen` has 16 bits.
unfoldable pub handle_hello : List Linked → List ℕ → ℕ → ℕ → Addr → Option (Option Reply)
handle_hello servers buffer datalen sessionid addr =
    let named : Option (Option Reply) = do
      sname ← text_at buffer 6
      greet servers sessionid addr (scan_server servers sname)
    in if datalen == 52 then named else some none

unfoldable pub handle_packet : List Linked → List ℕ → ℕ → Addr → Option (Option Reply)
handle_packet servers buffer size addr =
    let split : Option (Option Reply) = do
      type ← two_at buffer 0
      sessionid ← two_at buffer 2
      command ← two_at buffer 4
      (if get_be16 type == 0x8888
          then (if get_be16 command == 0
              then handle_hello servers buffer ((size + 65530) % 2 ^ 16) (get_be16 sessionid) addr
              else some none)
          else some none)
    in if ltb size 5 then some none else split
