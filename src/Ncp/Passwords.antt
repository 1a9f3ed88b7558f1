-- ===== src/Ncp/Passwords.antt =====
-- src/src/server/ncp_23.c: logging in with a password, and changing that of another.
use frommel.Base.{
  ℕ, ◌+◌, ◌-◌, ◌≤◌, ◌<◌, ◌≡◌, refl, ap, ◌∙◌, arith, ◌==◌, Bool, true, false, some, List, [], ◌∷◌,
  ◌++◌, get_elem?, set, take, replicate, length, Str, codes, str_eq, str_eq_refl, slice,
  if◌then◌else◌, ltb, take-all, get_elem?-set_self, get_elem?-lt, length-slice, two_at,
}
use frommel.Volume.{Volume}
use frommel.Station.{Station}
use frommel.BinderyIo.{Bindery, NetObj, Obj, Prop, Val, scan_object}
use frommel.BinderyIo.Store.{Io, ok, read_prop, write_prop}
use frommel.BinderyIo.Found.{read_prop-write_prop}
use frommel.Bindery.{id_bytes, set_pwd, verify_pwd, obj_is_supervisor}
use frommel.Bindery.Login.{verify_pwd-set_pwd}
use frommel.Ncp.Fields.{Site, complete, be16_at, text_field}
use frommel.Ncp.Calls.{handle_r23}
use frommel.Ncp.Stated.{sub_size-size}
use frommel.Ncp.Keys.{
  max_field_len, answers, new_pwd, handle_keyedlogin, handle_keyedchangepwd, handle_loginkey,
  with_station, status_loggedin,
}

module _ (shuffle : List ℕ → Str → List ℕ)
    (nw_encrypt nw_decrypt_newpass : List ℕ → List ℕ → List ℕ) (env : Site) where
  -- A connection that is no supervisor, and gives a wrong answer for the old password of an
  -- object, is sent the refusal 0xff, but the password is changed all the same: once that has been
  -- written, exactly the answers to what the connection chose are accepted, for any login key.
  pub wrong_password_changes :
      (b b' : Bindery) (k : Station) (body : List ℕ) (size : ℕ) (key sent : List ℕ)
      (obj_type obj_len pwd_len i code : ℕ) (obj_name : Str) (r : NetObj) (o : Obj) (v : Val)
      (p : Prop)
      → 15 ≤ size
      → slice body 0 8 ≡ some key
      → be16_at body 8 ≡ some obj_type
      → get_elem? body 10 ≡ some obj_len
      → text_field body 11 obj_len ≡ some obj_name
      → get_elem? body (11 + obj_len) ≡ some pwd_len
      → slice body (12 + obj_len) pwd_len ≡ some sent
      → scan_object b.objs obj_name obj_type ≡ some (some (i, r, o))
      → read_prop b o.id (codes "PASSWORD") 1 ≡ some (code, some (v, p))
      → answers shuffle nw_encrypt nw_decrypt_newpass k key v.bytes ≡ false
      → k.object_supervisor ≡ 0
      → write_prop env.io b o.id (codes "PASSWORD") 1 0 (
          new_pwd shuffle nw_encrypt nw_decrypt_newpass v.bytes
            (sent ++ replicate (max_field_len - pwd_len) 0))
        ≡ some (ok, b')
      → (handle_keyedchangepwd shuffle nw_encrypt nw_decrypt_newpass env b k body size
          ≡ some (0xff ∷ ok ∷ [], b'))
        × ((answer fresh : List ℕ)
            → verify_pwd shuffle nw_encrypt b' o.id answer fresh
              ≡ some (
                  str_eq (take 8 answer) (
                    take 8 (
                      nw_encrypt fresh (
                        take 16 (
                          take 128 (
                            new_pwd shuffle nw_encrypt nw_decrypt_newpass v.bytes
                              (sent ++ replicate (max_field_len - pwd_len) 0))))))))
  unfolding handle_keyedchangepwd verify_pwd
  wrong_password_changes b b' k body size key sent obj_type obj_len pwd_len i code obj_name r o v p
        fits e1 e2 e3 e4 e5 e6 found old wrong low written =
      let long : ltb size 15 ≡ false = ground arith in
      (
        rw (long, e1, e2, e3, e4, e5, e6, found, old, wrong, low, written) refl,
        λ answer fresh.
            let bytes =
              new_pwd shuffle nw_encrypt nw_decrypt_newpass v.bytes
                (sent ++ replicate (max_field_len - pwd_len) 0) in
            let (w, q, again, kept) =
              read_prop-write_prop env.io b o.id (codes "PASSWORD") 1 0 1 bytes {b' = b'} written in
            rw (again, kept) refl,
      )

module _ (shuffle : List ℕ → Str → List ℕ)
    (nw_encrypt nw_decrypt_newpass : List ℕ → List ℕ → List ℕ) (stat : Str → Bool)
    (vols : List Volume) (env : Site) where
  -- If the password of an object has been set by bind_set_pwd, and hashes have 16 bytes, then NCP
  -- 23 23 hands out the login key, and NCP 23 24 with the name of the object and the right answer
  -- to the key, sent next, logs the connection in as the object: as a supervisor exactly if
  -- bind_obj_is_supervisor says so.
  pub keyed_login :
      (io : Io) (b b' : Bindery) (pwd : Str) (junk : List ℕ) (conns : List Station) (c : ℕ)
      (k : Station) (hi lo hi' lo' obj_type obj_len i : ℕ) (rest body : List ℕ) (obj_name : Str)
      (r : NetObj) (o : Obj) (supervisor : Bool)
      → ((lon : List ℕ) (text : Str) → length (shuffle lon text) ≡ 16)
      → set_pwd shuffle nw_encrypt io b o.id pwd junk ≡ some (true, b')
      → get_elem? conns c ≡ some k
      → scan_object b'.objs obj_name obj_type ≡ some (some (i, r, o))
      → obj_is_supervisor b' o.id ≡ some supervisor
      → slice body 0 8 ≡ some (take 8 (nw_encrypt env.key (shuffle (id_bytes o.id) pwd)))
      → be16_at body 8 ≡ some obj_type
      → get_elem? body 10 ≡ some obj_len
      → text_field body 11 obj_len ≡ some obj_name
      → obj_len < 256
      → let keyed = record k { login_key = env.key } in
        let conns' = set conns c keyed in
        (handle_r23 shuffle nw_encrypt nw_decrypt_newpass stat vols env conns b' c
            (hi ∷ lo ∷ 23 ∷ rest)
            3
          ≡ some (with_station conns b' c keyed (0, env.key)))
        × (handle_r23 shuffle nw_encrypt nw_decrypt_newpass stat vols env conns' b' c
              (hi' ∷ lo' ∷ 24 ∷ body)
              (14 + obj_len)
            ≡ some (
                with_station conns' b' c
                  (record keyed {
                    status = status_loggedin;
                    object_type = obj_type;
                    object_id = o.id;
                    object_supervisor = if supervisor then 1 else 0;
                  })
                  (complete 0)))
  unfolding handle_r23 handle_loginkey handle_keyedlogin two_at
  keyed_login io b b' pwd junk conns c k hi lo hi' lo' obj_type obj_len i rest body obj_name r o
        supervisor sixteen stored here found super e1 e2 e3 e4 small =
      let answer = take 8 (nw_encrypt env.key (shuffle (id_bytes o.id) pwd)) in
      let keyed : Station = record k { login_key = env.key } in
      let whole : take 8 answer ≡ answer =
        take-all 8 answer (omega (arith, length-slice body 0 8 e1)) in
      let accepted =
        verify_pwd-set_pwd shuffle nw_encrypt io b o.id pwd junk env.key answer {b' = b'} sixteen
          stored
        ∙ ap some (ap (λ (x : List ℕ). str_eq x answer) whole ∙ str_eq_refl answer) in
      let there : get_elem? (set conns c keyed) c ≡ some keyed =
        get_elem?-set_self conns c keyed (get_elem?-lt conns c here) in
      let first = sub_size-size (record { b0 = hi; b1 = lo }) 3 (omega arith) (omega arith) in
      let second =
        sub_size-size (record { b0 = hi'; b1 = lo' }) (14 + obj_len) (omega arith) (omega arith) in
      let size : 14 + obj_len - 2 ≡ 12 + obj_len = omega arith in
      let long : ltb (12 + obj_len) 12 ≡ false = ground arith in
      let exact : (12 + obj_len == 12 + obj_len) ≡ true = ground arith in
      (
        rw (here, first) refl,
        rw (there, second, size, long, e1, e2, e3, exact, e4, found, accepted, super) refl,
      )
