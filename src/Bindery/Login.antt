-- ===== src/Bindery/Login.antt =====
-- src/src/server/bindery.c: a password that was set is the one that is accepted.
use frommel.Base.{
  ℕ, ◌≡◌, refl, sym, ap, ◌∙◌, arith, true, some, List, ◌++◌, take, length, >>=-eq-some, Str, str_eq,
  codes,
}
use frommel.BinderyIo.{Bindery}
use frommel.BinderyIo.Store.{Io, ok, write_prop}
use frommel.BinderyIo.Found.{read_prop-write_prop, take-field}
use frommel.Bindery.{id_bytes, set_pwd, verify_pwd}

hash_kept : (hash junk : List ℕ) → length hash ≡ 16 → take 16 (take 128 (hash ++ junk)) ≡ hash
hash_kept hash junk h =
    ap (λ n. take n (take 128 (hash ++ junk))) (sym h) ∙ take-field 128 hash junk (omega arith)

module _ (shuffle : List ℕ → Str → List ℕ) (nw_encrypt : List ℕ → List ℕ → List ℕ) where
  -- Once `bind_set_pwd` has returned 0, `bind_verify_pwd` accepts for any key exactly the answers whose
  -- first 8 bytes are those of the encrypted hash of the password, if hashes have 16 bytes.
  pub verify_pwd-set_pwd :
      (io : Io) (b : Bindery) (obj_id : ℕ) (pwd : Str) (junk key answer : List ℕ) {b' : Bindery}
      → ((lon : List ℕ) (text : Str) → length (shuffle lon text) ≡ 16)
      → set_pwd shuffle nw_encrypt io b obj_id pwd junk ≡ some (true, b')
      → verify_pwd shuffle nw_encrypt b' obj_id answer key
        ≡ some (str_eq (take 8 answer) (take 8 (nw_encrypt key (shuffle (id_bytes obj_id) pwd))))
  unfolding set_pwd verify_pwd
  verify_pwd-set_pwd io b obj_id pwd junk key answer {b'} sixteen h =
      let hash = shuffle (id_bytes obj_id) pwd in
      let ((code, b2), e, f) =
        >>=-eq-some (write_prop io b obj_id (codes "PASSWORD") 1 0 (hash ++ junk)) _ h in
      let g : write_prop io b obj_id (codes "PASSWORD") 1 0 (hash ++ junk) ≡ some (ok, b') =
        ground (arith, e, f) in
      let (v, p, r, bytes) =
        read_prop-write_prop io b obj_id (codes "PASSWORD") 1 0 1 (hash ++ junk) {b' = b'} g in
      let kept : take 16 v.bytes ≡ hash =
        ap (take 16) bytes ∙ hash_kept hash junk (sixteen (id_bytes obj_id) pwd) in
      rw (r, kept) refl
