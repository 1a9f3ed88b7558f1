-- ===== src/Tests/Objects.antt =====
-- Requests of function 23: a user is created and found, listed and told, and a property is read.
use frommel.Base.{
  ℕ, ◌≡◌, refl, arith, some, List, [], ◌∷◌, ◌++◌, codes, replicate, two_at, get_be16, get_be32,
  four_at, slice, put_be32, put_be16, join32, join16, be16, be32,
}
use frommel.Station.{Station, zero_station}
use frommel.BinderyIo.{Bindery, scan_object, conv_object, scan_prop, conv_prop, scan_val, conv_val}
use frommel.BinderyIo.Found.{IsText}
use frommel.BinderyIo.Store.{new_object, new_prop, new_val, read_prop, add_object}
use frommel.Bindery.{objinset_with, check_access}
use frommel.Tests.Data.{client}
use frommel.Ncp.Fields.{be16_at, be32_at, text_field}
use frommel.Ncp.Objects.{handle_createobj, handle_getobjid}
use frommel.Ncp.Values.{handle_readprop}
use frommel.Ncp.Stations.{handle_getobjconnlist, le32_times}
use frommel.Ncp.Named.{create_request, id_request, getobjid-createobj, zeros}
use frommel.Ncp.Roster.{getobjconnlist_ids}
use frommel.Ncp.Reading.{Permitted, handle_readprop-Permitted}
use frommel.Tests.Calls.{site, guest, guest_obj, lone, locked, finds, guest_in}

-- A supervisor creates a user.
abbrev boss : Station
boss = record (client 7 100 0) { object_id = 1; object_supervisor = 1; message_ok = 1 }

abbrev with_bob : Bindery
with_bob = record lone { objs = guest ∷ new_object (codes "BOB") 1 0 0x31 0x1234 ∷ [] }

bob-IsText : IsText (codes "BOB")
bob-IsText = (λ e. omega arith, (λ e. omega arith, (λ e. omega arith, tt)))

creates_bob :
    handle_createobj site lone boss (create_request 0 0x31 1 (codes "BOB") []) 9
    ≡ some (0, with_bob)
unfolding handle_createobj add_object scan_object conv_object two_at get_be16 slice join32 join16
    put_be32 put_be16
creates_bob = refl

getobjid-createobj_example :
    handle_getobjid with_bob (id_request 1 (codes "BOB") []) 7
    ≡ some (0, be32 0x1234 ++ (be16 1 ++ (codes "BOB" ++ zeros 45)))
getobjid-createobj_example =
    getobjid-createobj site lone boss 0 0x31 1 (codes "BOB") [] [] 9 {b' = with_bob} bob-IsText
      (omega arith) (omega arith) (omega arith) (omega arith) creates_bob

-- Whose connections are those of GUEST, from number 1 on?
abbrev roster_body : List ℕ
roster_body = 0 ∷ 0 ∷ 0 ∷ 0 ∷ 0 ∷ 1 ∷ 5 ∷ codes "GUEST"

roster_from : be32_at roster_body 0 ≡ some 0
unfolding four_at get_be32
roster_from = refl

roster_type : be16_at roster_body 4 ≡ some 1
unfolding two_at get_be16
roster_type = refl

roster_name : text_field roster_body 7 5 ≡ some (codes "GUEST")
unfolding slice
roster_name = refl

getobjconnlist_ids_example :
    handle_getobjconnlist guest_in.conns locked roster_body 12 ≡ some (0, 1 ∷ le32_times 1 7)
getobjconnlist_ids_example =
    getobjconnlist_ids guest_in.conns locked roster_body 12 0 1 5 0 (codes "GUEST") guest guest_obj
      (omega arith) roster_from roster_type refl roster_name finds (omega arith)

-- The supervisor sends "Hi" to everyone.
abbrev others : List Station
others = client 7 100 0 ∷ zero_station ∷ client 9 100 350 ∷ []

-- GUEST may not read the password, which only the server may; a property of mask 0 anyone may.
abbrev shown : Bindery
shown = record lone {
  props = new_prop 7 (codes "NAME") 0 0 21 31 ∷ [];
  vals = new_val 21 31 (some (codes "A guest" ++ replicate 121 0)) ∷ [];
}

abbrev read_body : List ℕ
read_body = 0 ∷ 1 ∷ 5 ∷ codes "GUEST" ++ (1 ∷ 4 ∷ codes "NAME")

reads :
    handle_readprop shown (client 7 100 0) read_body 15
    ≡ some (0, codes "A guest" ++ replicate 121 0 ++ 0 ∷ 0 ∷ [])
unfolding handle_readprop read_prop scan_object conv_object scan_prop conv_prop scan_val conv_val
    join32 join16 put_be32 put_be16 two_at get_be16 slice check_access objinset_with
reads = refl

handle_readprop-Permitted_example :
    Permitted shown (client 7 100 0) (codes "A guest" ++ replicate 121 0 ++ 0 ∷ 0 ∷ [])
handle_readprop-Permitted_example =
    handle_readprop-Permitted shown (client 7 100 0) read_body 15 reads
