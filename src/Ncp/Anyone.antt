-- ===== src/Ncp/Anyone.antt =====
-- src/src/server/ncp_22.c: requests that are served whoever is logged in.
use frommel.Base.{
  ℕ, ◌==◌, ◌≡◌, refl, Bool, true, false, Option, none, some, List, [], get_elem?, ap, drop, two_at,
  slice, not, inl, inr, Bool-cases, ◌>>=◌, Str, ltb,
}
use frommel.Volume.{max_vol_path_len}
use frommel.Station.{Station}
use frommel.Fs.{build_path, error_ok}
use frommel.Trustee.{Disk, build_trustfile}
use frommel.Trustee.Files.{grant_right, remove_right}
use frommel.Ncp.Fields.{require, wrong_length, be16_at, be32_at}
use frommel.Ncp.Machine.{Machine, Filed, Call, make_dir, remove_dir, replied}
use frommel.Ncp.Dirs.{path_field, asked_for, unterminated, handle_createdir, handle_deletedir}
use frommel.Ncp.Trustees.{handle_addtrusteetodir, handle_addexttrustee, handle_removetrusteefromdir}
use frommel.Ncp.Messages.{sub_size}
use frommel.Ncp.Scandir.{Shelf}
use frommel.Ncp.Service.{handle_r22}

-- The connection, had another object logged in on it.
abbrev pub logged_in_as : Station → ℕ → ℕ → ℕ → Station
logged_in_as k id type supervisor = record k {
  object_id = id;
  object_type = type;
  object_supervisor = supervisor;
}

abbrev pub with_station : Station → Filed → Filed
with_station k f = record f { station = k }

abbrev pub restationed : Station → Option Filed → Option Filed
restationed k none = none
restationed k (some f) = some (with_station k f)

-- What is computed first does not look at who is logged in.
same_bind :
    {A : Type 0} (k' : Station) (o : Option A) (f g : A → Option Filed)
    → ((a : A) → f a ≡ restationed k' (g a))
    → (o >>= f) ≡ restationed k' (o >>= g)
same_bind k' none f g h = refl
same_bind k' (some a) f g h = h a

same_require :
    (k' : Station) (fits : Bool) (refused refused' : Filed) (f g : Option Filed)
    → refused' ≡ with_station k' refused
    → f ≡ restationed k' g
    → require fits refused' f ≡ restationed k' (require fits refused g)
same_require k' true refused refused' f g e h = h
same_require k' false refused refused' f g e h = ap some e

module _ (m : Machine) (disk : Disk) (k : Station) (id type supervisor : ℕ) where
  asked_for-anyone :
      (call : Str → Call) (works : Str → Bool) (built : ℕ × Str)
      → asked_for m disk (logged_in_as k id type supervisor) call works built
        ≡ with_station (logged_in_as k id type supervisor) (asked_for m disk k call works built)
  asked_for-anyone call works built = elim (Bool-cases (built.0 == error_ok)) [
    | inl y ↦ rw (y) refl
    | inr n ↦ rw (n) refl
  ]

  createdir-anyone :
      (body : List ℕ) (size : ℕ)
      → handle_createdir m disk (logged_in_as k id type supervisor) body size
        ≡ restationed (logged_in_as k id type supervisor) (handle_createdir m disk k body size)
  unfolding handle_createdir build_path
  createdir-anyone body size =
      let k' = logged_in_as k id type supervisor in
      same_require k' (not (ltb size 4)) (replied k disk wrong_length)
        (replied k' disk wrong_length) _ _ refl
        (same_bind k' (get_elem? body 0) _ _ (λ dh. same_bind k' (get_elem? body 1) _ _ (λ mask.
          same_bind k' (get_elem? body 2) _ _ (λ path_len.
            same_bind k' (path_field body 3 path_len) _ _ (λ path.
              same_bind k' (build_path m.vols k dh (some path) [] max_vol_path_len 0) _ _
                (λ built. ap some (asked_for-anyone make_dir m.mkdir built)))))))

  addtrustee-anyone :
      (body : List ℕ) (size : ℕ)
      → handle_addtrusteetodir m disk (logged_in_as k id type supervisor) body size
        ≡ restationed
            (logged_in_as k id type supervisor)
            (handle_addtrusteetodir m disk k body size)
  unfolding handle_addtrusteetodir grant_right build_trustfile build_path
  addtrustee-anyone body size =
      let k' = logged_in_as k id type supervisor in
      same_require k' (not (ltb size 9)) (replied k disk wrong_length)
        (replied k' disk wrong_length) _ _ refl
        (same_bind k' (get_elem? body 0) _ _ (λ dh. same_bind k' (be32_at body 1) _ _ (λ trustee_id.
          same_bind k' (get_elem? body 5) _ _ (λ mask.
            same_bind k' (get_elem? body 6) _ _ (λ path_len.
              same_bind k' (path_field body 7 path_len) _ _ (λ path.
                same_bind k' (grant_right m.access m.vols disk k dh (some path) trustee_id mask) _ _
                  (λ done. refl)))))))

  deletedir-anyone :
      (body : List ℕ) (size : ℕ)
      → handle_deletedir m disk (logged_in_as k id type supervisor) body size
        ≡ restationed (logged_in_as k id type supervisor) (handle_deletedir m disk k body size)
  unfolding handle_deletedir build_path
  deletedir-anyone body size =
      let k' = logged_in_as k id type supervisor in
      same_require k' (not (ltb size 5)) (replied k disk wrong_length)
        (replied k' disk wrong_length) _ _ refl
        (same_bind k' (get_elem? body 0) _ _ (λ dh. same_bind k' (get_elem? body 1) _ _ (λ mask.
          same_bind k' (get_elem? body 2) _ _ (λ name_len.
            same_bind k' (slice body 3 name_len) _ _ (λ sent.
              same_bind k' (unterminated m disk k sent) _ _ (λ name.
                same_bind k' (build_path m.vols k dh (some name) [] max_vol_path_len 0) _ _
                  (λ built. ap some (asked_for-anyone remove_dir m.rmdir built))))))))

  addexttrustee-anyone :
      (body : List ℕ) (size : ℕ)
      → handle_addexttrustee m disk (logged_in_as k id type supervisor) body size
        ≡ restationed (logged_in_as k id type supervisor) (handle_addexttrustee m disk k body size)
  unfolding handle_addexttrustee grant_right build_trustfile build_path
  addexttrustee-anyone body size =
      let k' = logged_in_as k id type supervisor in
      same_require k' (not (ltb size 9)) (replied k disk wrong_length)
        (replied k' disk wrong_length) _ _ refl
        (same_bind k' (get_elem? body 0) _ _ (λ dh. same_bind k' (be32_at body 1) _ _ (λ trustee_id.
          same_bind k' (be16_at body 5) _ _ (λ mask.
            same_bind k' (get_elem? body 7) _ _ (λ path_len.
              same_bind k' (path_field body 8 path_len) _ _ (λ path.
                same_bind k' (grant_right m.access m.vols disk k dh (some path) trustee_id mask) _ _
                  (λ done. refl)))))))

  removetrustee-anyone :
      (body : List ℕ) (size : ℕ)
      → handle_removetrusteefromdir m disk (logged_in_as k id type supervisor) body size
        ≡ restationed
            (logged_in_as k id type supervisor)
            (handle_removetrusteefromdir m disk k body size)
  unfolding handle_removetrusteefromdir remove_right build_trustfile build_path
  removetrustee-anyone body size =
      let k' = logged_in_as k id type supervisor in
      same_require k' (not (ltb size 5)) (replied k disk wrong_length)
        (replied k' disk wrong_length) _ _ refl
        (same_bind k' (get_elem? body 0) _ _ (λ dh. same_bind k' (be32_at body 1) _ _ (λ objid.
          same_bind k' (get_elem? body 6) _ _ (λ path_len.
            same_bind k' (path_field body 7 path_len) _ _ (λ path.
              same_bind k' (remove_right m.access m.vols disk k dh (some path) objid m.junk_id) _ _
                (λ done. refl))))))

-- The subfunctions that change directories or their trustees.
pub data Unguarded : ℕ → Type 0 where
  create_dir : Unguarded 10
  delete_dir : Unguarded 11
  add_trustee : Unguarded 13
  add_ext_trustee : Unguarded 39
  remove_trustee : Unguarded 43

-- The data and size of a request, for the subfunction in it.
module _ (m : Machine) (env : Shelf) (disk : Disk) (k : Station) (id type supervisor : ℕ) where
  -- NCP 22 10, 11, 13, 39 and 43, which create and delete directories, and add and remove
  -- trustees, do the same, with the same reply, trustee files and calls of the kernel, whatever
  -- object is logged in on the connection, supervisor or not.
  pub login_unused :
      (sub_func : ℕ) (body : List ℕ) (size : ℕ)
      → Unguarded sub_func
      → get_elem? body 2 ≡ some sub_func
      → handle_r22 m env disk (logged_in_as k id type supervisor) body size
        ≡ restationed (logged_in_as k id type supervisor) (handle_r22 m env disk k body size)
  unfolding handle_r22
  login_unused _ body size create_dir h = rw (h) (
      same_bind (logged_in_as k id type supervisor) (two_at body 0) _ _ (λ stated.
        createdir-anyone m disk k id type supervisor (drop 3 body) (sub_size stated size)))
  login_unused _ body size delete_dir h = rw (h) (
      same_bind (logged_in_as k id type supervisor) (two_at body 0) _ _ (λ stated.
        deletedir-anyone m disk k id type supervisor (drop 3 body) (sub_size stated size)))
  login_unused _ body size add_trustee h = rw (h) (
      same_bind (logged_in_as k id type supervisor) (two_at body 0) _ _ (λ stated.
        addtrustee-anyone m disk k id type supervisor (drop 3 body) (sub_size stated size)))
  login_unused _ body size add_ext_trustee h = rw (h) (
      same_bind (logged_in_as k id type supervisor) (two_at body 0) _ _ (λ stated.
        addexttrustee-anyone m disk k id type supervisor (drop 3 body) (sub_size stated size)))
  login_unused _ body size remove_trustee h = rw (h) (
      same_bind (logged_in_as k id type supervisor) (two_at body 0) _ _ (λ stated.
        removetrustee-anyone m disk k id type supervisor (drop 3 body) (sub_size stated size)))
