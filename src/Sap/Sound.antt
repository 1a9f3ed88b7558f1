-- ===== src/Sap/Sound.antt =====
-- src/src/server/sap.c: every packet leaves a sound table of services.
use frommel.Base.{
  ℕ, zero, suc, ◌+◌, ◌/◌, ◌%◌, ◌≡◌, refl, sym, ap, ◌∙◌, subst, Bool, not, ◌||◌, Option, none, some,
  List, ◌∷◌, ◌++◌, drop, set, ◌>>=◌, ◌==◌, two_at, get_be16, text_at, codes, replicate, Str,
  Bool-cases, if-result, inl, inr, some-injective, none≢some, >>=-eq-some,
}
use frommel.BinderyIo.{Bindery, NetObj, Obj, scan_object}
use frommel.BinderyIo.Store.{Io, add_object, add_prop, write_prop}
use frommel.Sap.{Packet, packet_at, packet_size, slot_for, entry_of, handle_genserv}
use frommel.Sap.Handle.{
  Registry, add_server, server_object, write_address, is_positive, take_packet, take_packets,
  register, place, handle_response, handle_packet,
}
use frommel.Sap.Services.{IsSound, store-IsSound}

add_server-services :
    (io : Io) (g : Registry) (name : Str) (ids : ℕ × ℕ × ℕ) {r : Option ℕ × Registry}
    → add_server io g name ids ≡ some r
    → r.1.services ≡ g.services
add_server-services io g name (id, valid, propid) {r} h =
    let ((made, err, b), e, h1) = >>=-eq-some (add_object io g.bindery name 4 0 0x40 id 0) _ h in
    added made err b h1
  where
    added :
        (made : Option ℕ) (err : ℕ) (b : Bindery)
        → (elim made as (λ _. Option (Option ℕ × Registry)) [
          | none ↦ some (none, record g { bindery = b })
          | some objid ↦ do
            let zeros = replicate 128 0
            (prop, err', b') ←
                add_prop io b objid (codes "NET_ADDRESS") 0 0x40 (some zeros) valid propid err
            some (some objid, record g { bindery = b'; tmpdata = zeros })
        ])
          ≡ some r
        → r.1.services ≡ g.services
    added none err b h = ap (λ (q : Option ℕ × Registry). q.1.services) (sym (some-injective h))
    added (some objid) err b h =
        let ((prop, err', b'), e, h1) =
          >>=-eq-some
            (add_prop io b objid (codes "NET_ADDRESS") 0 0x40 (some (replicate 128 0)) valid propid
              err)
            _ h in
        ap (λ (q : Option ℕ × Registry). q.1.services) (sym (some-injective h1))

server_object-services :
    (io : Io) (g : Registry) (name : Str) (ids : ℕ × ℕ × ℕ) {r : Option ℕ × Registry}
    → server_object io g name ids ≡ some r
    → r.1.services ≡ g.services
unfolding server_object
server_object-services io g name (id, valid, propid) {r} h =
    let (hit, e, h1) = >>=-eq-some (scan_object g.bindery.objs name 4) _ h in seen hit h1
  where
    seen :
        (hit : Option (ℕ × NetObj × Obj))
        → (elim hit as (λ _. Option (Option ℕ × Registry)) [
          | none ↦ add_server io g name (id, valid, propid)
          | some x ↦ some (some x.2.id, g)
        ])
          ≡ some r
        → r.1.services ≡ g.services
    seen none h = add_server-services io g name (id, valid, propid) h
    seen (some x) h = ap (λ (q : Option ℕ × Registry). q.1.services) (sym (some-injective h))

write_address-services :
    (io : Io) (g : Registry) (p : Packet) (objid : Option ℕ) {g' : Registry}
    → write_address io g p objid ≡ some g'
    → g'.services ≡ g.services
write_address-services io g p none h = ap Registry.services (sym (some-injective h))
write_address-services io g p (some objid) {g'} h =
    let tmp =
      p.net_addr ++ (p.node_addr ++ (p.socket_addr.b0 ∷ p.socket_addr.b1 ∷ drop 12 g.tmpdata)) in
    elim (Bool-cases (is_positive (some objid))) [
      | inr f ↦ ap Registry.services (sym (some-injective (rw f at h)))
      | inl t ↦
          let (r, e, h1) =
            >>=-eq-some (write_prop io g.bindery objid (codes "NET_ADDRESS") 1 0 tmp) _
              (rw t at h) in
          ap Registry.services (sym (some-injective h1))
    ]

register-services :
    (io : Io) (g : Registry) (p : Packet) (buffer : List ℕ) (i : ℕ) (ids : ℕ × ℕ × ℕ)
    {g' : Registry}
    → register io g p buffer i ids ≡ some g'
    → g'.services ≡ g.services
register-services io g p buffer i ids {g'} h = elim (Bool-cases (get_be16 p.service_type == 4)) [
  | inr f ↦ ap Registry.services (sym (some-injective (rw f at h)))
  | inl t ↦
      let (name, _, h1) = >>=-eq-some (text_at buffer (i + 4)) _ (rw t at h) in
      let ((objid, g1), e, h2) = >>=-eq-some (server_object io g name ids) _ h1 in
      write_address-services io g1 p objid h2 ∙ server_object-services io g name ids e
]

place-IsSound :
    (io : Io) (now : ℕ) (g : Registry) (p : Packet) (buffer : List ℕ) (i : ℕ) (ids : ℕ × ℕ × ℕ)
    (at : Option ℕ) {g' : Registry}
    → IsSound g.services
    → packet_at buffer i ≡ some p
    → slot_for g.services p.server_name (get_be16 p.service_type) ≡ at
    → place io now g p buffer i ids at ≡ some (some g')
    → IsSound g'.services
place-IsSound io now g p buffer i ids none {g'} w e f h = absurd (none≢some g' (some-injective h))
place-IsSound io now g p buffer i ids (some slot) {g'} w e f h =
    let stored = record g { services = set g.services slot (entry_of p now) } in
    let (g1, r, h1) = >>=-eq-some (register io stored p buffer i ids) _ h in
    let same =
      ap Registry.services (sym (some-injective (some-injective h1)))
      ∙ register-services io stored p buffer i ids r in
    subst IsSound (sym same) (store-IsSound g.services buffer i now slot w e f)

pub take_packet-IsSound :
    (io : Io) (now : ℕ) (g : Registry) (buffer : List ℕ) (i : ℕ) (ids : ℕ × ℕ × ℕ) {g' : Registry}
    → IsSound g.services
    → take_packet io now g buffer i ids ≡ some (some g')
    → IsSound g'.services
unfolding take_packet
take_packet-IsSound io now g buffer i ids {g'} w h =
    let (p, e, h1) = >>=-eq-some (packet_at buffer i) _ h in
    place-IsSound io now g p buffer i ids _ w e refl h1

take_packets-IsSound :
    (rounds : ℕ) (io : Io) (now : ℕ) (g : Registry) (buffer : List ℕ) (i : ℕ) (ids : ℕ → ℕ × ℕ × ℕ)
    {g' : Registry}
    → IsSound g.services
    → take_packets rounds io now g buffer i ids ≡ some g'
    → IsSound g'.services
unfolding take_packets
take_packets-IsSound zero io now g buffer i ids w h =
    subst (λ (q : Registry). IsSound q.services) (some-injective h) w
take_packets-IsSound (suc rounds) io now g buffer i ids {g'} w h =
    let (next, e, h1) = >>=-eq-some (take_packet io now g buffer i (ids i)) _ h in
    onward next e h1
      (λ g1 u f. take_packets-IsSound rounds io now g1 buffer (i + packet_size) ids {g' = g'} u f)
  where
    onward :
        (next : Option Registry)
        → take_packet io now g buffer i (ids i) ≡ some next
        → (elim next as (λ _. Option Registry) [
          | none ↦ some g
          | some g' ↦ take_packets rounds io now g' buffer (i + packet_size) ids
        ])
          ≡ some g'
        → ((g1 : Registry)
            → IsSound g1.services
            → take_packets rounds io now g1 buffer (i + packet_size) ids ≡ some g'
            → IsSound g'.services)
        → IsSound g'.services
    onward none e h rec = subst (λ (q : Registry). IsSound q.services) (some-injective h) w
    onward (some g1) e h rec = rec g1 (take_packet-IsSound io now g buffer i (ids i) w e) h

handle_response-IsSound :
    (io : Io) (now : ℕ) (g : Registry) (buffer : List ℕ) (size : ℕ) (ids : ℕ → ℕ × ℕ × ℕ)
    {g' : Registry}
    → IsSound g.services
    → handle_response io now g buffer size ids ≡ some g'
    → IsSound g'.services
unfolding handle_response
handle_response-IsSound io now g buffer size ids w h =
    elim (Bool-cases (size == 0 || not (size % packet_size == 0))) [
      | inl t ↦ subst (λ (q : Registry). IsSound q.services) (some-injective (rw t at h)) w
      | inr f ↦ take_packets-IsSound (size / packet_size) io now g buffer 0 ids w (rw f at h)
    ]

abbrev IsKept : Option (List ℕ) × Registry → Type 0
IsKept q = IsSound q.1.services

-- Every packet that is handled without a fault leaves the table of services sound, if it was: the
-- fields of all entries have their sizes, and no two used slots have the same type and the same
-- name, case aside.
pub handle_packet-IsSound :
    (nearest : Bool) (io : Io) (now : ℕ) (g : Registry) (buffer : List ℕ) (size : ℕ)
    (ids : ℕ → ℕ × ℕ × ℕ) {r : Option (List ℕ) × Registry}
    → IsSound g.services
    → handle_packet nearest io now g buffer size ids ≡ some r
    → IsSound r.1.services
unfolding handle_packet
handle_packet-IsSound nearest io now g buffer size ids {r} w h =
    let (type, _, h1) = >>=-eq-some (two_at buffer 0) _ h in
    let kept = λ (q : Option (List ℕ) × Registry) (e : some (none, g) ≡ some q).
      subst (λ (q : Option (List ℕ) × Registry). IsSound q.1.services) (some-injective e) w in
    if-result IsKept (get_be16 type == 1) _ _ asked
      (λ q. if-result IsKept (get_be16 type == 2) _ _ told (λ q.
        if-result IsKept (get_be16 type == 3) _ _ (λ q. if-result IsKept nearest _ _ asked kept)
          (λ q. if-result IsKept (get_be16 type == 4) _ _ told kept)))
      h1
  where
    asked :
        (q : Option (List ℕ) × Registry)
        → (handle_genserv g.services buffer size >>= λ reply. some (reply, g)) ≡ some q
        → IsKept q
    asked q h =
        let (reply, _, e) = >>=-eq-some (handle_genserv g.services buffer size) _ h in
        subst IsKept (some-injective e) w

    told :
        (q : Option (List ℕ) × Registry)
        → (handle_response io now g buffer size ids >>= λ g'. some (none, g')) ≡ some q
        → IsKept q
    told q h =
        let (g', e1, e) = >>=-eq-some (handle_response io now g buffer size ids) _ h in
        subst IsKept (some-injective e) (handle_response-IsSound io now g buffer size ids w e1)
