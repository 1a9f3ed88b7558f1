-- ===== src/Ncp/Grants.antt =====
-- src/src/server/ncp_23.c: what single requests do to the rights of connections.
use frommel.Base.{
  ℕ, ◌≡◌, ◌≢◌, ◌⊎◌, inl, inr, refl, sym, ap, ◌∙◌, ◌==◌, ==_iff, Bool, true, not, Option, none, some,
  List, [], ◌∷◌, get_elem?, subst, some-injective, Bool-cases, >>=-eq-some, if-result, Str, ◌>>=◌,
  if◌then◌else◌, slice, ltb, ◌+◌, true≢false, c_string, has_nul, in_bounds,
}
use frommel.Volume.{Volume}
use frommel.Station.{Station, zero_station}
use frommel.Conn.{clear, logout}
use frommel.BinderyIo.{Bindery, NetObj, Obj, scan_object}
use frommel.Bindery.{verify_pwd, obj_is_supervisor, is_operator}
use frommel.Ncp.Messages.{message_at}
use frommel.Ncp.Fields.{Reply, Site, Handled, complete, wrong_length, be16_at, text_field}
use frommel.Ncp.Keys.{log_in, handle_keyedlogin}
use frommel.Ncp.Stations.{
  handle_broadcast_old, handle_clearconn, send_to, message_to_all, message_to, no_console_rights,
}
use frommel.Ncp.Pointwise.{
  Pointwise, Pointwise-same, Pointwise-set, SameRights, same_rights, message_to-SameRights,
  message_to_all-SameRights,
}

module _ (shuffle : List ℕ → Str → List ℕ)
    (nw_encrypt nw_decrypt_newpass : List ℕ → List ℕ → List ℕ) (stat : Str → Bool)
    (vols : List Volume) (env : Site) (b : Bindery) (c : ℕ) (k : Station) (body : List ℕ) where
  -- A supervisor has cleared the connection.
  abbrev pub Cleared : Station → Type 0
  Cleared y = (k.object_supervisor ≢ 0) × (y ≡ zero_station)

  -- The connection that asks has sent the answer of the object that it becomes, and is a supervisor
  -- after it if that object is one.
  abbrev pub Proved : ℕ → Station → Type 0
  Proved j y =
      (j ≡ c)
      × ((key : List ℕ) × (supervisor : Bool) × (slice body 0 8 ≡ some key)
          × (verify_pwd shuffle nw_encrypt b y.object_id key k.login_key ≡ some true)
          × (obj_is_supervisor b y.object_id ≡ some supervisor)
          × (y.object_supervisor ≡ (if supervisor then 1 else 0)))

  abbrev pub Justified : ℕ → Station → Station → Type 0
  Justified j x y = SameRights j x y ⊎ (Cleared y ⊎ Proved j y)

  pub Justified-same : (j : ℕ) (x : Station) → Justified j x x
  Justified-same j x = inl (refl, refl)

  abbrev pub Lawful : List Station → Handled → Type 0
  Lawful conns d = Pointwise Justified conns d.conns

  pub Lawful-same :
      (conns : List Station) (d e : Handled) → d.conns ≡ conns → some d ≡ some e → Lawful conns e
  Lawful-same conns d e q h j x g = (
    x,
    ap (λ (d : Handled). get_elem? d.conns j) (sym (some-injective h))
        ∙ (ap (λ (ks : List Station). get_elem? ks j) q ∙ g),
    inl (refl, refl),
  )

  log_in-Justified :
      (key : List ℕ) (obj_type : ℕ) (hit : Option (ℕ × NetObj × Obj)) (k' : Station) (reply : Reply)
      → slice body 0 8 ≡ some key
      → log_in shuffle nw_encrypt nw_decrypt_newpass b k key obj_type hit ≡ some (k', reply)
      → Justified c k k'
  log_in-Justified key obj_type none k' reply s h =
      let e : k' ≡ k = sym (ap (λ (p : Station × Reply). p.0) (some-injective h)) in
      inl (ap (λ (z : Station). z.object_id) e, ap (λ (z : Station). z.object_supervisor) e)
  log_in-Justified key obj_type (some (i, r, o)) k' reply s h =
      let (right, v, f) = >>=-eq-some (verify_pwd shuffle nw_encrypt b o.id key k.login_key) _ h in
      elim (Bool-cases right) [
        | inr wrong ↦
            let e : k' ≡ k =
              sym (ap (λ (p : Station × Reply). p.0) (some-injective (rw wrong at f))) in
            inl (ap (λ (z : Station). z.object_id) e, ap (λ (z : Station). z.object_supervisor) e)
        | inl good ↦
            let (supervisor, u, g) = >>=-eq-some (obj_is_supervisor b o.id) _ (rw good at f) in
            let e = sym (ap (λ (p : Station × Reply). p.0) (some-injective g)) in
            let id : k'.object_id ≡ o.id = ap (λ (z : Station). z.object_id) e in
            inr (
              inr (
                refl,
                (
                  key,
                  supervisor,
                  s,
                  ap (λ (n : ℕ). verify_pwd shuffle nw_encrypt b n key k.login_key) id
                      ∙ (v ∙ ap some good),
                  ap (obj_is_supervisor b) id ∙ u,
                  ap (λ (z : Station). z.object_supervisor) e,
                ),
              ))
      ]

  pub login-Justified :
      (size : ℕ) (k' : Station) (reply : Reply)
      → handle_keyedlogin shuffle nw_encrypt nw_decrypt_newpass b k body size ≡ some (k', reply)
      → Justified c k k'
  unfolding handle_keyedlogin
  login-Justified size k' reply h =
      if-result (λ (p : Station × Reply). Justified c k p.0) (not (ltb size 12)) _ _
        (λ p e.
          let (key, s, f) = >>=-eq-some (slice body 0 8) _ e in
          let (obj_type, _, g) = >>=-eq-some (be16_at body 8) _ f in
          let (obj_len, _, l) = >>=-eq-some (get_elem? body 10) _ g in
          if-result (λ (p : Station × Reply). Justified c k p.0) (size == 12 + obj_len) _ _
            (λ p m.
              let (name, _, n) = >>=-eq-some (text_field body 11 obj_len) _ m in
              let (hit, _, o) = >>=-eq-some (scan_object b.objs name obj_type) _ n in
              log_in-Justified key obj_type hit p.0 p.1 s o)
            refused l)
        refused h
    where
      refused : (p : Station × Reply) → some (k, wrong_length) ≡ some p → Justified c k p.0
      refused p e =
          let q : p.0 ≡ k = sym (ap (λ (p : Station × Reply). p.0) (some-injective e)) in
          inl (ap (λ (z : Station). z.object_id) q, ap (λ (z : Station). z.object_supervisor) q)

  send_to-SameRights :
      (message stations : List ℕ) (conns : List Station) (p : List Station × Reply)
      → send_to message stations k conns ≡ some p
      → Pointwise SameRights conns p.0
  send_to-SameRights message stations conns p h =
      let (_, _, e) = >>=-eq-some (in_bounds (has_nul message)) _ h in to stations e
    where
      to :
          (sts : List ℕ)
          → (elim sts [
            | [] ↦ some (message_to_all (c_string message) k conns, complete 0)
            | st ∷ sts ↦ message_to (c_string message) (st ∷ sts) conns >>= λ conns'.
                some (conns', complete 0)
          ])
            ≡ some p
          → Pointwise SameRights conns p.0
      to [] e =
          subst (Pointwise SameRights conns)
            (ap (λ (p : List Station × Reply). p.0) (some-injective e))
            (message_to_all-SameRights (c_string message) k conns)
      to (st ∷ sts) e =
          let (conns', q, f) = >>=-eq-some (message_to (c_string message) (st ∷ sts) conns) _ e in
          subst (Pointwise SameRights conns)
            (ap (λ (p : List Station × Reply). p.0) (some-injective f))
            (message_to-SameRights (c_string message) (st ∷ sts) conns q)

  pub broadcast-SameRights :
      (conns : List Station) (size : ℕ) (p : List Station × Reply)
      → handle_broadcast_old env conns b k body size ≡ some p
      → Pointwise SameRights conns p.0
  unfolding handle_broadcast_old
  broadcast-SameRights conns size p h =
      if-result (λ (p : List Station × Reply). Pointwise SameRights conns p.0) (not (ltb size 5)) _
        _
        (λ p e.
          let (nofstations, _, f) = >>=-eq-some (get_elem? body 0) _ e in
          let (stations, _, g) = >>=-eq-some (slice body 1 nofstations) _ f in
          let (len, _, l) = >>=-eq-some (get_elem? body (1 + nofstations)) _ g in
          let (message, _, m) = >>=-eq-some (message_at body (2 + nofstations) len) _ l in
          let (operator, _, n) = >>=-eq-some (is_operator b env.servername k) _ m in
          if-result (λ (p : List Station × Reply). Pointwise SameRights conns p.0) operator _ _
            (send_to-SameRights message stations conns) (kept (complete no_console_rights)) n)
        (kept wrong_length) h
    where
      kept :
          (reply : Reply) (p : List Station × Reply)
          → some (conns, reply) ≡ some p
          → Pointwise SameRights conns p.0
      kept reply p e =
          subst (Pointwise SameRights conns)
            (ap (λ (p : List Station × Reply). p.0) (some-injective e))
            (Pointwise-same SameRights same_rights conns)

  pub clearing-Justified :
      (conns : List Station) (size : ℕ) (p : List ℕ × List Station × Reply)
      → handle_clearconn stat vols conns k body size ≡ some p
      → Pointwise Justified conns p.1
  unfolding handle_clearconn clear
  clearing-Justified conns size p h =
      if-result (λ (p : List ℕ × List Station × Reply). Pointwise Justified conns p.1) (size == 2) _
        _
        (λ p e.
          let (con_no, _, f) = >>=-eq-some (get_elem? body 0) _ e in
          elim (Bool-cases (k.object_supervisor == 0)) [
            | inl u ↦ kept (complete no_console_rights) p (rw u at f)
            | inr s ↦
                let (victim, v, g) = >>=-eq-some (get_elem? conns con_no) _ (rw s at f) in
                let ((fds, zeroed), q, l) = >>=-eq-some (clear stat vols victim) _ g in
                let ((fds', k'), _, z) = >>=-eq-some (logout stat vols victim) _ q in
                let zero : zeroed ≡ zero_station =
                  sym (ap (λ (p : List ℕ × Station). p.1) (some-injective z)) in
                subst (Pointwise Justified conns)
                  (ap (λ (p : List ℕ × List Station × Reply). p.1) (some-injective l))
                  (Pointwise-set Justified Justified-same conns con_no victim zeroed v
                    (inr (inl (λ w. true≢false (sym ((==_iff _ 0).1 w) ∙ s), zero))))
          ])
        (kept wrong_length) h
    where
      kept :
          (reply : Reply) (p : List ℕ × List Station × Reply)
          → some ([], conns, reply) ≡ some p
          → Pointwise Justified conns p.1
      kept reply p e =
          subst (Pointwise Justified conns)
            (ap (λ (p : List ℕ × List Station × Reply). p.1) (some-injective e))
            (Pointwise-same Justified Justified-same conns)
