-- ===== src/Sap.antt =====
-- src/src/server/sap.c and src/include/sap.h: the table of services that other servers advertise. The
-- packets that `sap_event` broadcasts, and its timer, are not modelled.
pub mod Handle
pub mod Wire
pub mod Answers
pub mod Services
pub mod Sound
pub mod Cleanup
use frommel.Base.{
  ℕ, zero, suc, ◌+◌, ◌*◌, ◌%◌, ◌==◌, ◌&&◌, Bool, true, false, not, Option, none, some, List, [],
  ◌∷◌, ◌++◌, map, get_elem?, set, take, drop, find_from, if◌then◌else◌, ◌>>=◌, Str, str_eq,
  to_lower, length, Two, bit_and, ◌>>>◌, u8, get_be16, ltb, leb, c_string, slice, two_at, replicate,
}

abbrev pub max_services : ℕ
max_services = 16

abbrev pub timeout_length : ℕ
timeout_length = 150

abbrev pub packet_maxlen : ℕ
packet_maxlen = 2048

-- `sizeof (SAP_PACKET)`
abbrev pub packet_size : ℕ
packet_size = 66

-- `SAP_PACKET`
pub record Packet : Type 0 where
  pub operation : Two
  pub service_type : Two
  pub server_name : List ℕ
  pub net_addr : List ℕ
  pub node_addr : List ℕ
  pub socket_addr : Two
  pub hops : Two

-- `SAP_ENTRY`
pub record Entry : Type 0 where
  pub service_type : ℕ
  pub server_name : List ℕ
  pub net_addr : List ℕ
  pub node_addr : List ℕ
  pub socket_addr : ℕ
  pub hops : ℕ
  pub last_update : ℕ

abbrev pub zero_entry : Entry
zero_entry = record {
  service_type = 0;
  server_name = replicate 48 0;
  net_addr = replicate 4 0;
  node_addr = replicate 6 0;
  socket_addr = 0;
  hops = 0;
  last_update = 0;
}

-- The table after `sap_init`.
abbrev pub cleared : List Entry
cleared = replicate max_services zero_entry

-- The packet that stands at byte `i`.
unfoldable pub packet_at : List ℕ → ℕ → Option Packet
packet_at buffer i = do
  operation ← two_at buffer i
  service_type ← two_at buffer (i + 2)
  server_name ← slice buffer (i + 4) 48
  net_addr ← slice buffer (i + 52) 4
  node_addr ← slice buffer (i + 56) 6
  socket_addr ← two_at buffer (i + 62)
  hops ← two_at buffer (i + 64)
  some (record {
    operation = operation;
    service_type = service_type;
    server_name = server_name;
    net_addr = net_addr;
    node_addr = node_addr;
    socket_addr = socket_addr;
    hops = hops;
  })

abbrev pub folded : List ℕ → Str
folded name = map to_lower (c_string (take 48 name))

-- `strncasecmp (a, b, 48) == 0`
abbrev pub same_name : List ℕ → List ℕ → Bool
same_name a b = str_eq (folded a) (folded b)

abbrev pub is_service : List ℕ → ℕ → Entry → Bool
is_service name type e = same_name name e.server_name && e.service_type == type

unfoldable pub scan_service : List Entry → List ℕ → ℕ → Option ℕ
scan_service services name type = find_from (is_service name type) 0 services

abbrev pub is_free : Entry → Bool
is_free e = e.service_type == 0

unfoldable pub scan_freeserviceno : List Entry → Option ℕ
scan_freeserviceno services = find_from is_free 0 services

-- The slot of a service: the one it has, or else a free one.
unfoldable pub slot_for : List Entry → List ℕ → ℕ → Option ℕ
slot_for services name type = elim (scan_service services name type) [
  | some i ↦ some i
  | none ↦ scan_freeserviceno services
]

-- What `sap_handle_response` writes into the slot.
unfoldable pub entry_of : Packet → ℕ → Entry
entry_of p now = record {
  service_type = get_be16 p.service_type;
  server_name = p.server_name;
  net_addr = p.net_addr;
  node_addr = p.node_addr;
  socket_addr = get_be16 p.socket_addr;
  hops = get_be16 p.hops;
  last_update = now;
}

-- The bytes of one answer to a request with operation `operation`.
unfoldable pub answer : ℕ → Entry → List ℕ
answer operation e =
    u8 ((operation + 1) >>> 8)
    ∷ bit_and (operation + 1) 0xff
    ∷ u8 (e.service_type >>> 8)
    ∷ bit_and e.service_type 0xff
    ∷ (e.server_name
        ++ (e.net_addr
            ++ (e.node_addr
                ++ (u8 (e.socket_addr >>> 8)
                    ∷ bit_and e.socket_addr 0xff
                    ∷ u8 (e.hops >>> 8)
                    ∷ bit_and e.hops 0xff
                    ∷ []))))

-- The loop of `sap_handle_genserv`: the services that are answered with, `k` of them before. It stops
-- when one more would not fit the packet.
unfoldable pub collect : ℕ → ℕ → List Entry → List Entry
collect type k [] = []
collect type k (e ∷ es) = elim (e.service_type == type) [
  | false ↦ collect type k es
  | true ↦ elim (ltb packet_maxlen ((k + 2) * packet_size)) [
    | true ↦ e ∷ []
    | false ↦ e ∷ collect type (suc k) es
  ]
]

abbrev pub join : List (List ℕ) → List ℕ
join [] = []
join (p ∷ ps) = p ++ join ps

-- The packet that is sent, if any.
unfoldable pub handle_genserv : List Entry → List ℕ → ℕ → Option (Option (List ℕ))
handle_genserv services buffer size =
    let answered : Option (Option (List ℕ)) = do
      operation ← two_at buffer 0
      type ← two_at buffer 2
      some (some (join (map (answer (get_be16 operation)) (collect (get_be16 type) 0 services))))
    in if size == 4 then answered else some none

-- One service in `sap_cleanup`.
abbrev pub age : ℕ → Entry → Entry
age now e =
    if not (e.service_type == 0) && ltb (e.last_update + timeout_length) now
    then record e { service_type = 0 }
    else e

unfoldable pub cleanup : ℕ → List Entry → List Entry
cleanup now services = map (age now) services
