-- ===== src/Tests/Bindery.antt =====
-- A bindery of one user, with a password and a set of equals.
use frommel.Base.{
  Bool-cases, ◌==◌, inl, inr, arith, ℕ, ◌≡◌, refl, none, some, List, [], ◌∷◌, ◌++◌, codes,
  replicate, Str, true, take, put_be32, put_be16, join32, join16,
}
use frommel.BinderyIo.{
  NetProp, Bindery, scan_prop, scan_val, conv_prop, conv_val, scan_object, conv_object, Prop, Val,
}
use frommel.BinderyIo.Store.{Io, ok, new_object, new_prop, new_val, write_prop}
use frommel.Bindery.{
  set_pwd, verify_pwd, obj_is_supervisor, add_member, add_remove_objfromset, find_set, is_objinset,
}
use frommel.Bindery.Login.{verify_pwd-set_pwd}
use frommel.Bindery.Added.{HasArrays, is_objinset-added}
use frommel.Bindery.Sets.{overlap_makes_supervisor}

abbrev pub io : Io
io = record {
  write_objs = true;
  write_props = true;
  write_vals = true;
  cut_objs = true;
  cut_props = true;
  cut_vals = true;
}

abbrev password : NetProp
password = new_prop 7 (codes "PASSWORD") 0 0x44 21 31

abbrev equals : NetProp
equals = new_prop 7 (codes "SECURITY_EQUALS") 1 0x32 22 32

-- The ids 0x12000000 and 0x01345678.
abbrev set : List ℕ
set = 0x12 ∷ 0 ∷ 0 ∷ 0 ∷ 1 ∷ 0x34 ∷ 0x56 ∷ 0x78 ∷ replicate 120 0

abbrev users : Bindery
users = record {
  objs = new_object (codes "GUEST") 1 0 0x31 7 ∷ [];
  props = password ∷ equals ∷ [];
  vals = new_val 21 31 none ∷ new_val 22 32 (some set) ∷ [];
}

-- Stand-ins for the hashing: 16 bytes from the id, and the key mixed in at the front.
abbrev pub hash : List ℕ → Str → List ℕ
hash lon pwd = replicate 16 3

abbrev pub encrypt : List ℕ → List ℕ → List ℕ
encrypt key hashed = take 8 (key ++ hashed)

abbrev pub junk : List ℕ
junk = replicate 112 9

abbrev with_password : Bindery
with_password = record users {
  vals = new_val 21 31 (some (replicate 16 3 ++ junk)) ∷ new_val 22 32 (some set) ∷ [];
}

sets : set_pwd hash encrypt io users 7 (codes "secret") junk ≡ some (true, with_password)
unfolding set_pwd write_prop scan_prop conv_prop scan_val conv_val join32 join16 put_be32 put_be16
sets = refl

verify_pwd-set_pwd_example :
    verify_pwd hash encrypt with_password 7 (1 ∷ 2 ∷ 3 ∷ 3 ∷ 3 ∷ 3 ∷ 3 ∷ 3 ∷ []) (1 ∷ 2 ∷ [])
    ≡ some true
verify_pwd-set_pwd_example =
    verify_pwd-set_pwd hash encrypt io users 7 (codes "secret") junk (1 ∷ 2 ∷ [])
      (1 ∷ 2 ∷ 3 ∷ 3 ∷ 3 ∷ 3 ∷ 3 ∷ 3 ∷ []) (λ lon text. refl) sets

abbrev shown_prop : Prop
shown_prop = record {
  id = 22;
  name = codes "SECURITY_EQUALS";
  flags = 1;
  security = 0x32;
  object_id = 7;
  value_id = 32;
  next_id = 0xffffffff;
}

abbrev shown_val : Val
shown_val = record { id = 32; prop_id = 22; next_id = 0xffffffff; size = 256; bytes = set }

finds_prop : scan_prop users.props 7 (codes "SECURITY_EQUALS") ≡ some (some (1, equals, shown_prop))
unfolding scan_prop conv_prop join32 join16 put_be32 put_be16
finds_prop = refl

finds_val : scan_val users.vals 32 ≡ some (some (1, new_val 22 32 (some set), shown_val))
unfolding scan_val conv_val join32 join16 put_be32 put_be16
finds_val = refl

overlap_makes_supervisor_example : obj_is_supervisor users 7 ≡ some true
overlap_makes_supervisor_example =
    overlap_makes_supervisor users 7 0x12 (0x34 ∷ 0x56 ∷ 0x78 ∷ replicate 120 0) finds_prop
      finds_val refl

-- A group, with an empty set for its members, and a user.
abbrev club : Bindery
club = record {
  objs = new_object (codes "CLUB") 2 0 0x31 7 ∷ new_object (codes "BOB") 1 0 0x31 9 ∷ [];
  props = new_prop 7 (codes "GROUP_MEMBERS") 1 0x32 22 32 ∷ [];
  vals = new_val 22 32 none ∷ [];
}

abbrev club_with_bob : Bindery
club_with_bob = record club { vals = new_val 22 32 (some (0 ∷ 0 ∷ 0 ∷ 9 ∷ replicate 124 0)) ∷ [] }

club-HasArrays : HasArrays club
unfolding scan_val conv_val join32 put_be32
club-HasArrays n j s v h = elim (Bool-cases (32 == n)) [
  | inl e ↦ ground (arith, e)
  | inr e ↦ ground (arith, e)
]

adds_bob :
    add_remove_objfromset io none club 2 (codes "CLUB") (codes "GROUP_MEMBERS") 1 (codes "BOB") 0
    ≡ some (ok, club_with_bob)
unfolding add_remove_objfromset find_set add_member write_prop scan_object conv_object scan_prop
    conv_prop scan_val conv_val join32 join16 put_be32 put_be16
adds_bob = refl

is_objinset-added_example :
    is_objinset none club_with_bob 2
      (some (codes "CLUB"))
      0
      (codes "GROUP_MEMBERS")
      1
      (some (codes "BOB"))
      0
    ≡ some ok
is_objinset-added_example =
    is_objinset-added io club 2 (codes "CLUB") (codes "GROUP_MEMBERS") 1 (codes "BOB")
      {b' = club_with_bob} club-HasArrays adds_bob
