-- ===== src/Sap/Handle.antt =====
-- src/src/server/sap.c: answers of other servers, which also go to the bindery, and the dispatch.
use frommel.Base.{
  ℕ, zero, suc, ◌+◌, ◌/◌, ◌%◌, ◌^◌, ◌==◌, ◌||◌, ◌&&◌, not, Bool, false, Option, none, some, List,
  ◌∷◌, ◌++◌, set, drop, if◌then◌else◌, ◌>>=◌, Str, codes, get_be16, ltb, replicate, text_at, two_at,
}
use frommel.BinderyIo.{Bindery, scan_object}
use frommel.BinderyIo.Store.{Io, add_object, add_prop, write_prop}
use frommel.Sap.{Packet, Entry, packet_at, packet_size, slot_for, entry_of, handle_genserv}

-- The services, the bindery, and the array `tmpdata`: it holds what stood on the stack until an object is
-- added, which clears it.
pub record Registry : Type 0 where
  pub services : List Entry
  pub bindery : Bindery
  pub tmpdata : List ℕ

-- The id of the server's object, `none` for -1, once it has been looked up or added. `ids` are the
-- random numbers for the object, the value and the property.
abbrev pub add_server : Io → Registry → Str → ℕ × ℕ × ℕ → Option (Option ℕ × Registry)
add_server io g name (id, valid, propid) = do
  (made, err, b) ← add_object io g.bindery name 4 0 0x40 id 0
  elim made [
    | none ↦ some (none, record g { bindery = b })
    | some objid ↦ do
      let zeros = replicate 128 0
      (prop, err', b') ←
          add_prop io b objid (codes "NET_ADDRESS") 0 0x40 (some zeros) valid propid err
      some (some objid, record g { bindery = b'; tmpdata = zeros })
  ]

unfoldable pub server_object : Io → Registry → Str → ℕ × ℕ × ℕ → Option (Option ℕ × Registry)
server_object io g name ids = do
  hit ← scan_object g.bindery.objs name 4
  elim hit [ none ↦ add_server io g name ids | some (i, r, o) ↦ some (some o.id, g) ]

-- `objid > 0`, as an int
abbrev pub is_positive : Option ℕ → Bool
is_positive none = false
is_positive (some id) = not (id == 0) && ltb id (2 ^ 31)

abbrev pub write_address : Io → Registry → Packet → Option ℕ → Option Registry
write_address io g p none = some g
write_address io g p (some objid) =
    let stored : Option Registry = do
      let tmp =
          p.net_addr ++ (p.node_addr ++ (p.socket_addr.b0 ∷ p.socket_addr.b1 ∷ drop 12 g.tmpdata))
      (code, b) ← write_prop io g.bindery objid (codes "NET_ADDRESS") 1 0 tmp
      some (record g { bindery = b; tmpdata = tmp })
    in if is_positive (some objid) then stored else some g

-- A server's answer goes to the bindery as well; `i` is where its packet stands.
abbrev pub register : Io → Registry → Packet → List ℕ → ℕ → ℕ × ℕ × ℕ → Option Registry
register io g p buffer i ids =
    let registered : Option Registry = do
      name ← text_at buffer (i + 4)
      (objid, g') ← server_object io g name ids
      write_address io g' p objid
    in if get_be16 p.service_type == 4 then registered else some g

-- The service is stored in its slot; `none` as the inner result is the return for want of one.
abbrev pub place :
    Io → ℕ → Registry → Packet → List ℕ → ℕ → ℕ × ℕ × ℕ → Option ℕ → Option (Option Registry)
place io now g p buffer i ids none = some none
place io now g p buffer i ids (some slot) = do
  g' ← register io (record g { services = set g.services slot (entry_of p now) }) p buffer i ids
  some (some g')

-- One packet of a response, at byte `i`.
unfoldable pub take_packet : Io → ℕ → Registry → List ℕ → ℕ → ℕ × ℕ × ℕ → Option (Option Registry)
take_packet io now g buffer i ids = do
  p ← packet_at buffer i
  place io now g p buffer i ids (slot_for g.services p.server_name (get_be16 p.service_type))

-- The loop of `sap_handle_response`, `rounds` packets from byte `i` on.
unfoldable pub take_packets : ℕ → Io → ℕ → Registry → List ℕ → ℕ → (ℕ → ℕ × ℕ × ℕ) → Option Registry
take_packets zero io now g buffer i ids = some g
take_packets (suc rounds) io now g buffer i ids = do
  next ← take_packet io now g buffer i (ids i)
  elim next [ none ↦ some g | some g' ↦ take_packets rounds io now g' buffer (i + packet_size) ids ]

unfoldable pub handle_response : Io → ℕ → Registry → List ℕ → ℕ → (ℕ → ℕ × ℕ × ℕ) → Option Registry
handle_response io now g buffer size ids =
    let taken : Option Registry = take_packets (size / packet_size) io now g buffer 0 ids in
    if size == 0 || not (size % packet_size == 0) then some g else taken

-- The answer that is sent, if any, and the registry; `nearest` is `conf_sap_nearest`.
unfoldable pub handle_packet :
    Bool → Io → ℕ → Registry → List ℕ → ℕ → (ℕ → ℕ × ℕ × ℕ) → Option (Option (List ℕ) × Registry)
handle_packet nearest io now g buffer size ids =
    let asked : Option (Option (List ℕ) × Registry) = do
      reply ← handle_genserv g.services buffer size
      some (reply, g)
    in let told : Option (Option (List ℕ) × Registry) = do
      g' ← handle_response io now g buffer size ids
      some (none, g')
      in two_at buffer 0 >>= λ type.
      if get_be16 type == 1
      then asked
      else if get_be16 type == 2
      then told
      else if get_be16 type == 3
      then (if nearest then asked else some (none, g))
      else if get_be16 type == 4
      then told
      else some (none, g)
