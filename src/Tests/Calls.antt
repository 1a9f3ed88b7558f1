-- ===== src/Tests/Calls.antt =====
-- Requests of function 23: a guest logs in, and loses the password to another.
use frommel.Base.{
  ℕ, ◌≡◌, refl, arith, true, false, none, some, List, [], ◌∷◌, ◌++◌, codes, replicate, take, two_at,
  get_be16, slice, put_be32, put_be16, str_eq, ◌-◌, join32, join16, set,
}
use frommel.Station.{Station}
use frommel.BinderyIo.{
  Bindery, NetObj, Obj, Prop, Val, no_id, scan_object, conv_object, scan_prop, conv_prop, scan_val,
  conv_val,
}
use frommel.BinderyIo.Store.{ok, new_object, new_prop, new_val, write_prop, read_prop}
use frommel.Bindery.{set_pwd, verify_pwd, obj_is_supervisor, is_objinset, objinset_with}
use frommel.Tests.Bindery.{io, hash, encrypt, junk}
use frommel.Tests.Data.{volumes, exists, client, table}
use frommel.Ncp.Fields.{Site, Handled, complete, be16_at, text_field}
use frommel.Ncp.Messages.{sub_size}
use frommel.Ncp.Keys.{
  new_pwd, handle_keyedlogin, handle_keyedchangepwd, with_station, max_field_len,
}
use frommel.Ncp.Calls.{handle_r23}
use frommel.Ncp.Grants.{Justified}
use frommel.Ncp.Authority.{handle_r23-Justified}
use frommel.Ncp.Pointwise.{Pointwise}
use frommel.Ncp.Passwords.{wrong_password_changes, keyed_login}

abbrev key : List ℕ
key = 1 ∷ 2 ∷ 3 ∷ 4 ∷ 5 ∷ 6 ∷ 7 ∷ 8 ∷ []

abbrev pub site : Site
site = record {
  io = io;
  servername = codes "FROMMEL";
  nwversion = 312;
  nofconns = 3;
  serialno = 0x12345678;
  appno = 0;
  loginenabled = 1;
  localtime = λ t. record {
    year = 102;
    month = 0;
    day = 1;
    hour = 12;
    minute = 0;
    second = 0;
    dayofweek = 2;
  };
  key = key;
  new_id = 0x1234;
  new_valid = 0x5678;
  stack = replicate 128 9;
  junk_obj = new_object [] 0 0 0 0;
  junk_prop = new_prop 0 [] 0 0 0 0;
}

-- A stand-in for the decryption of new passwords: the new bytes as they are sent.
abbrev decrypt : List ℕ → List ℕ → List ℕ
decrypt old sent = take 8 sent

abbrev pub guest : NetObj
guest = new_object (codes "GUEST") 1 0 0x31 7

abbrev pub guest_obj : Obj
guest_obj = record {
  id = 7;
  type = 1;
  name = codes "GUEST";
  flags = 0;
  security = 0x31;
  prop_id = no_id;
}

-- One user, whose password is not set yet.
abbrev pub lone : Bindery
lone = record {
  objs = guest ∷ [];
  props = new_prop 7 (codes "PASSWORD") 0 0x44 21 31 ∷ [];
  vals = new_val 21 31 none ∷ [];
}

abbrev pub locked : Bindery
locked = record lone { vals = new_val 21 31 (some (replicate 16 3 ++ junk)) ∷ [] }

sets : set_pwd hash encrypt io lone 7 (codes "secret") junk ≡ some (true, locked)
unfolding set_pwd write_prop scan_prop conv_prop scan_val conv_val join32 join16 put_be32 put_be16
sets = refl

pub finds : scan_object locked.objs (codes "GUEST") 1 ≡ some (some (0, guest, guest_obj))
unfolding scan_object conv_object join32 join16 put_be32 put_be16
finds = refl

no_supervisor : obj_is_supervisor locked 7 ≡ some false
unfolding obj_is_supervisor is_objinset objinset_with scan_prop conv_prop join32 put_be32
no_supervisor = refl

-- The answer to the key, type 1, and the name.
abbrev login_body : List ℕ
login_body = key ++ 0 ∷ 1 ∷ 5 ∷ codes "GUEST"

sends_answer : slice login_body 0 8 ≡ some (take 8 (encrypt key (replicate 16 3)))
unfolding slice
sends_answer = refl

sends_type : be16_at login_body 8 ≡ some 1
unfolding two_at get_be16
sends_type = refl

sends_name : text_field login_body 11 5 ≡ some (codes "GUEST")
unfolding slice
sends_name = refl

abbrev keyed : Station
keyed = record (client 7 100 0) { login_key = key }

abbrev keyed_table : List Station
keyed_table = set table 1 keyed

abbrev pub guest_in : Handled
guest_in =
    with_station keyed_table locked 1
      (record keyed { status = 2; object_type = 1; object_id = 7; object_supervisor = 0 })
      (complete 0)

keyed_login_example :
    (handle_r23 hash encrypt decrypt exists volumes site table locked 1 (0 ∷ 1 ∷ 23 ∷ []) 3
      ≡ some (with_station table locked 1 keyed (0, key)))
    × (handle_r23 hash encrypt decrypt exists volumes site keyed_table locked 1
          (0 ∷ 17 ∷ 24 ∷ login_body)
          19
        ≡ some guest_in)
keyed_login_example =
    keyed_login hash encrypt decrypt exists volumes site io lone locked (codes "secret") junk table
      1 (client 7 100 0) 0 1 0 17 1 5 0 [] login_body (codes "GUEST") guest guest_obj false
      (λ lon text. refl) sets refl finds no_supervisor sends_answer sends_type refl sends_name
      (omega arith)

logs_in :
    handle_r23 hash encrypt decrypt exists volumes site keyed_table locked 1
      (0 ∷ 17 ∷ 24 ∷ login_body)
      19
    ≡ some guest_in
unfolding handle_r23 handle_keyedlogin verify_pwd read_prop scan_object conv_object scan_prop
    conv_prop scan_val conv_val join32 join16 put_be32 put_be16 two_at get_be16 slice sub_size
    obj_is_supervisor is_objinset objinset_with
logs_in = refl

handle_r23-Justified_example :
    Pointwise
      (Justified hash encrypt decrypt exists volumes site locked 1 keyed login_body)
      keyed_table
      guest_in.conns
handle_r23-Justified_example =
    handle_r23-Justified hash encrypt decrypt exists volumes site locked keyed_table 1 keyed
      (0 ∷ 17 ∷ 24 ∷ login_body) 19 {d = guest_in} refl logs_in

-- Another client: a wrong answer, the user, and a new password of 16 bytes.
abbrev theft : List ℕ
theft = replicate 8 5 ++ (0 ∷ 1 ∷ 5 ∷ codes "GUEST" ++ (16 ∷ replicate 16 4))

abbrev stolen_pwd : List ℕ
stolen_pwd =
    new_pwd hash encrypt decrypt (take 128 (replicate 16 3 ++ junk))
      (replicate 16 4 ++ replicate (max_field_len - 16) 0)

abbrev stolen : Bindery
stolen = record lone { vals = new_val 21 31 (some stolen_pwd) ∷ [] }

abbrev pwd_val : Val
pwd_val = record {
  id = 31;
  prop_id = 21;
  next_id = no_id;
  size = 256;
  bytes = take 128 (replicate 16 3 ++ junk);
}

abbrev pwd_prop : Prop
pwd_prop = record {
  id = 21;
  name = codes "PASSWORD";
  flags = 0;
  security = 0x44;
  object_id = 7;
  value_id = 31;
  next_id = no_id;
}

theft_answer : slice theft 0 8 ≡ some (replicate 8 5)
unfolding slice
theft_answer = refl

theft_type : be16_at theft 8 ≡ some 1
unfolding two_at get_be16
theft_type = refl

theft_name : text_field theft 11 5 ≡ some (codes "GUEST")
unfolding slice
theft_name = refl

theft_pwd : slice theft 17 16 ≡ some (replicate 16 4)
unfolding slice
theft_pwd = refl

old_pwd : read_prop locked 7 (codes "PASSWORD") 1 ≡ some (0, some (pwd_val, pwd_prop))
unfolding read_prop scan_prop conv_prop scan_val conv_val join32 join16 put_be32 put_be16
old_pwd = refl

is_written : write_prop io locked 7 (codes "PASSWORD") 1 0 stolen_pwd ≡ some (ok, stolen)
unfolding write_prop scan_prop conv_prop scan_val conv_val join32 join16 put_be32 put_be16
is_written = refl

wrong_password_changes_example :
    (handle_keyedchangepwd hash encrypt decrypt site locked (client 9 100 0) theft 33
      ≡ some (0xff ∷ ok ∷ [], stolen))
    × ((answer fresh : List ℕ)
        → verify_pwd hash encrypt stolen 7 answer fresh
          ≡ some (str_eq (take 8 answer) (take 8 (encrypt fresh (take 16 (take 128 stolen_pwd))))))
wrong_password_changes_example =
    wrong_password_changes hash encrypt decrypt site locked stolen (client 9 100 0) theft 33
      (replicate 8 5) (replicate 16 4) 1 5 16 0 0 (codes "GUEST") guest guest_obj pwd_val pwd_prop
      (omega arith) theft_answer theft_type refl theft_name refl theft_pwd finds old_pwd refl refl
      is_written
