-- ===== src/Tests/Sap.antt =====
-- A table with one service and a free slot.
use frommel.Base.{
  ℕ, zero, suc, ◌+◌, ◌*◌, ◌%◌, ◌^◌, ◌≡◌, refl, sym, ap, ◌∙◌, arith, true, none, some, List, [], ◌∷◌,
  ◌++◌, codes, replicate, length, get_elem?, two_at, get_be16, slice, some-injective,
}
use frommel.Tests.Bindery.{io}
use frommel.Sap.{
  Entry, Packet, zero_entry, packet_at, packet_size, scan_service, cleanup, handle_genserv, collect,
  answer, entry_of, slot_for, scan_freeserviceno,
}
use frommel.Sap.Handle.{Registry, handle_packet, handle_response, take_packets, take_packet}
use frommel.Sap.Wire.{IsShaped, AllShaped, AllShaped-cons, packets}
use frommel.Sap.Answers.{handle_genserv-answers, requested}
use frommel.Sap.Services.{IsUnique, IsSound}
use frommel.Sap.Sound.{handle_packet-IsSound}
use frommel.Sap.Cleanup.{scan_service-cleanup}

abbrev alpha : Entry
alpha = record {
  service_type = 4;
  server_name = codes "ALPHA" ++ replicate 43 0;
  net_addr = 0 ∷ 0 ∷ 0 ∷ 9 ∷ [];
  node_addr = 0 ∷ 0 ∷ 0 ∷ 0 ∷ 0 ∷ 1 ∷ [];
  socket_addr = 0x451;
  hops = 1;
  last_update = 100;
}

abbrev printer : Entry
printer = record alpha { service_type = 7; server_name = codes "LASER" ++ replicate 43 0 }

abbrev services : List Entry
services = alpha ∷ zero_entry ∷ []

alpha-IsShaped : IsShaped alpha
alpha-IsShaped = (omega arith, refl, refl, refl, omega arith, omega arith)

zero_entry-IsShaped : IsShaped zero_entry
zero_entry-IsShaped = (omega arith, refl, refl, refl, omega arith, omega arith)

shaped : AllShaped services
shaped =
    AllShaped-cons alpha (zero_entry ∷ []) alpha-IsShaped
      (AllShaped-cons zero_entry [] zero_entry-IsShaped (λ i e g. cc))

unique : IsUnique services
unique zero zero e e' g h nz t n = refl
unique zero (suc zero) e e' g h nz t n =
    absurd (nz (t ∙ ap (λ (x : Entry). x.service_type) (sym (some-injective h))))
unique zero (suc (suc j)) e e' g h nz t n = cc
unique (suc zero) j e e' g h nz t n =
    absurd (nz (ap (λ (x : Entry). x.service_type) (sym (some-injective g))))
unique (suc (suc i)) j e e' g h nz t n = cc

-- A general request for servers.
abbrev request : List ℕ
request = 0 ∷ 1 ∷ 0 ∷ 4 ∷ []

replies : handle_genserv services request 4 ≡ some (some (packets 1 (alpha ∷ [])))
unfolding handle_genserv collect answer two_at get_be16
replies = refl

operation_of : two_at request 0 ≡ some (record { b0 = 0; b1 = 1 })
unfolding two_at
operation_of = refl

type_of : two_at request 2 ≡ some (record { b0 = 0; b1 = 4 })
unfolding two_at
type_of = refl

first_of : get_elem? (requested (get_be16 (record { b0 = 0; b1 = 4 })) services) 0 ≡ some alpha
unfolding get_be16
first_of = refl

handle_genserv-answers_example :
    (reply : List ℕ) × (p : Packet) × (handle_genserv services request 4 ≡ some (some reply))
    × (length reply
        ≡ length (requested (get_be16 (record { b0 = 0; b1 = 4 })) services) * packet_size)
    × (packet_at reply (0 * packet_size) ≡ some p)
    × (get_be16 p.operation ≡ (get_be16 (record { b0 = 0; b1 = 1 }) + 1) % 2 ^ 16)
    × (entry_of p 700 ≡ record alpha { last_update = 700 })
handle_genserv-answers_example =
    handle_genserv-answers services request 700 0 {e = alpha} shaped (omega arith) operation_of
      type_of first_of

-- The print server is told of, and takes the free slot.
abbrev told : List ℕ
told = packets 1 (printer ∷ [])

abbrev registry : Registry
registry = record {
  services = services;
  bindery = record { objs = []; props = []; vals = [] };
  tmpdata = replicate 128 0;
}

abbrev registry_after : Registry
registry_after = record registry { services = alpha ∷ record printer { last_update = 700 } ∷ [] }

takes : handle_packet true io 700 registry told 66 (λ i. (1, 2, 3)) ≡ some (none, registry_after)
unfolding handle_packet handle_response take_packets take_packet packet_at answer two_at slice
    get_be16 slot_for scan_service scan_freeserviceno entry_of
takes = refl

handle_packet-IsSound_example : IsSound registry_after.services
handle_packet-IsSound_example =
    handle_packet-IsSound true io 700 registry told 66 (λ i. (1, 2, 3)) {r = (none, registry_after)}
      (shaped, unique) takes

found : scan_service services (codes "alpha") 4 ≡ some 0
unfolding scan_service
found = refl

scan_service-cleanup_example : scan_service (cleanup 251 services) (codes "alpha") 4 ≡ none
scan_service-cleanup_example =
    scan_service-cleanup 251 services (codes "alpha") 4 0 alpha unique (λ q. omega arith) found refl
