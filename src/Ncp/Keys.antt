-- ===== src/Ncp/Keys.antt =====
-- src/src/server/ncp_23.c: logging in, and changing passwords. A password crosses the network encrypted
-- with the key of the connection; src/src/lib/crypt.c is a parameter.
use frommel.Base.{
  ℕ, ◌+◌, ◌-◌, ◌==◌, Bool, not, Option, none, some, List, [], ◌∷◌, ◌++◌, get_elem?, set, take, drop,
  replicate, if◌then◌else◌, ◌>>=◌, ltb, Str, str_eq, codes, slice,
}
use frommel.Station.{Station}
use frommel.BinderyIo.{Bindery, NetObj, Obj, Prop, Val, scan_object}
use frommel.BinderyIo.Store.{Made, no_such_object, add_prop, read_prop, write_prop}
use frommel.Bindery.{id_bytes, verify_pwd, obj_is_supervisor}
use frommel.Ncp.{error_wrong_length}
use frommel.Ncp.Fields.{Reply, Site, Handled, complete, require, wrong_length, be16_at, text_field}

abbrev pub status_loggedin : ℕ
status_loggedin = 2

abbrev pub bad_password : ℕ
bad_password = 0xde

abbrev pub max_field_len : ℕ
max_field_len = 1024

-- A reply to connection `c`, which becomes `k`.
abbrev pub with_station : List Station → Bindery → ℕ → Station → Reply → Handled
with_station conns b c k reply = record {
  replies = reply ∷ [];
  closed = [];
  conns = set conns c k;
  bindery = b;
}

unfoldable pub handle_loginkey : Site → List Station → Bindery → ℕ → Station → ℕ → Option Handled
handle_loginkey env conns b c k size =
    require (size == 1) (with_station conns b c k wrong_length)
      (some (with_station conns b c (record k { login_key = env.key }) (0, env.key)))

module _ (shuffle : List ℕ → Str → List ℕ)
    (nw_encrypt nw_decrypt_newpass : List ℕ → List ℕ → List ℕ) where
  -- The connection after a login as the object, with what bind_obj_is_supervisor says of it.
  abbrev pub logged_in : Station → ℕ → ℕ → Bool → Station
  logged_in k obj_type id supervisor = record k {
    status = status_loggedin;
    object_type = obj_type;
    object_id = id;
    object_supervisor = if supervisor then 1 else 0;
  }

  abbrev pub log_in :
      Bindery → Station → List ℕ → ℕ → Option (ℕ × NetObj × Obj) → Option (Station × Reply)
  log_in b k key obj_type none = some (k, complete no_such_object)
  log_in b k key obj_type (some (i, r, o)) =
      verify_pwd shuffle nw_encrypt b o.id key k.login_key >>= λ right.
      if right
      then (obj_is_supervisor b o.id >>= λ supervisor.
          some (logged_in k obj_type o.id supervisor, complete 0))
      else some (k, complete bad_password)

  -- The station after the call, and the reply.
  unfoldable pub handle_keyedlogin : Bindery → Station → List ℕ → ℕ → Option (Station × Reply)
  handle_keyedlogin b k body size =
      let named : List ℕ → ℕ → ℕ → Option (Station × Reply) = λ key obj_type obj_len. do
        obj_name ← text_field body 11 obj_len
        hit ← scan_object b.objs obj_name obj_type
        log_in b k key obj_type hit
      in let parsed : Option (Station × Reply) = do
        key ← slice body 0 8
        obj_type ← be16_at body 8
        obj_len ← get_elem? body 10
        require (size == 12 + obj_len) (k, wrong_length) (named key obj_type obj_len)
        in require (not (ltb size 12)) (k, wrong_length) parsed

  unfoldable pub handle_keyedverifypwd : Bindery → Station → List ℕ → ℕ → Option Reply
  handle_keyedverifypwd b k body size =
      let found : List ℕ → Option (ℕ × NetObj × Obj) → Option Reply = λ key hit. elim hit [
        | none ↦ some (complete no_such_object)
        | some (i, r, o) ↦ do
          right ← verify_pwd shuffle nw_encrypt b o.id key k.login_key
          some (complete (if right then 0 else 0xff))
      ] in
      let parsed : Option Reply = do
        key ← slice body 0 8
        obj_type ← be16_at body 8
        obj_len ← get_elem? body 10
        obj_name ← text_field body 11 obj_len
        scan_object b.objs obj_name obj_type >>= found key
      in require (not (ltb size 12)) wrong_length parsed

  -- `memcmp (key, …, 8) == 0`, with the hash encrypted by the key of the connection
  abbrev pub answers : Station → List ℕ → List ℕ → Bool
  answers k key hash = str_eq (take 8 key) (take 8 (nw_encrypt k.login_key (take 16 hash)))

  -- `pwd`, with its first 16 bytes decrypted by the old hash
  abbrev pub new_pwd : List ℕ → List ℕ → List ℕ
  new_pwd hash pwd =
      nw_decrypt_newpass (take 8 hash) (take 8 pwd)
      ++ (nw_decrypt_newpass (take 8 (drop 8 hash)) (take 8 (drop 8 pwd)) ++ drop 16 pwd)

  -- The end of `ncp_handle_keyedchangepwd`: `sent` are the codes that have been sent already.
  abbrev pub store_pwd : Site → List ℕ → Bindery → ℕ → List ℕ → List ℕ → Option (List ℕ × Bindery)
  store_pwd env sent b id hash pwd =
      write_prop env.io b id (codes "PASSWORD") 1 0 (new_pwd hash pwd) >>= λ (code, b').
      some (sent ++ code ∷ [], b')

  -- The object has no password yet; the hash is what stood on the stack.
  abbrev pub first_pwd : Site → Bindery → ℕ → List ℕ → Made → Option (List ℕ × Bindery)
  first_pwd env b id pwd (none, err, b') = some (err ∷ [], b')
  first_pwd env b id pwd (some propid, err, b') = store_pwd env [] b' id env.stack pwd

  -- A supervisor may give the blank password instead of the old one. For any other the refusal is sent, but
  -- the function goes on.
  abbrev pub change_pwd :
      Site
      → Bindery
      → Station
      → ℕ
      → List ℕ
      → List ℕ
      → ℕ × Option (Val × Prop)
      → Option (List ℕ × Bindery)
  change_pwd env b k id key pwd (code, none) =
      add_prop env.io b id (codes "PASSWORD") 0 0x44 none env.new_valid env.new_id 0
      >>= first_pwd env b id pwd
  change_pwd env b k id key pwd (code, some (v, p)) =
      let blank = shuffle (id_bytes id) [] in
      if answers k key v.bytes
      then store_pwd env [] b id v.bytes pwd
      else if k.object_supervisor == 0
      then store_pwd env (0xff ∷ []) b id v.bytes pwd
      else if answers k key blank
      then store_pwd env [] b id blank pwd
      else some (0xff ∷ [], b)

  abbrev pub change_of :
      Site
      → Bindery
      → Station
      → List ℕ
      → List ℕ
      → Option (ℕ × NetObj × Obj)
      → Option (List ℕ × Bindery)
  change_of env b k key pwd none = some (no_such_object ∷ [], b)
  change_of env b k key pwd (some (i, r, o)) =
      read_prop b o.id (codes "PASSWORD") 1 >>= change_pwd env b k o.id key pwd

  -- The codes that are sent, in order.
  unfoldable pub handle_keyedchangepwd :
      Site → Bindery → Station → List ℕ → ℕ → Option (List ℕ × Bindery)
  handle_keyedchangepwd env b k body size =
      let parsed : Option (List ℕ × Bindery) = do
        key ← slice body 0 8
        obj_type ← be16_at body 8
        obj_len ← get_elem? body 10
        obj_name ← text_field body 11 obj_len
        pwd_len ← get_elem? body (11 + obj_len)
        sent ← slice body (12 + obj_len) pwd_len
        let pwd = sent ++ replicate (max_field_len - pwd_len) 0
        scan_object b.objs obj_name obj_type >>= change_of env b k key pwd
      in require (not (ltb size 15)) (error_wrong_length ∷ [], b) parsed
