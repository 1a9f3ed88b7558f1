-- ===== src/Ncp/Authority.antt =====
-- src/src/server/ncp_23.c: whose rights a request can change, whatever it asks.
use frommel.Base.{
  ℕ, ◌≡◌, inl, refl, ◌==◌, Bool, Option, none, some, List, [], get_elem?, map, drop, subst,
  some-injective, >>=-eq-some, if-result, Str, two_at,
}
use frommel.Volume.{Volume}
use frommel.Station.{Station}
use frommel.BinderyIo.{Bindery}
use frommel.Ncp.Messages.{sub_size}
use frommel.Ncp.Fields.{Reply, Site, Handled, complete, wrong_length}
use frommel.Ncp.Keys.{handle_loginkey, handle_keyedlogin, handle_keyedchangepwd, with_station}
use frommel.Ncp.Stations.{handle_broadcast_old, handle_clearconn}
use frommel.Ncp.Calls.{told, edited, settle, change, handle_r23}
use frommel.Ncp.Grants.{
  Justified, Lawful, Justified-same, Lawful-same, login-Justified, broadcast-SameRights,
  clearing-Justified,
}
use frommel.Ncp.Pointwise.{Pointwise, Pointwise-set}

module _ (shuffle : List ℕ → Str → List ℕ)
    (nw_encrypt nw_decrypt_newpass : List ℕ → List ℕ → List ℕ) (stat : Str → Bool)
    (vols : List Volume) (env : Site) (b : Bindery) (c : ℕ) (k : Station) (body : List ℕ) where
  abbrev Just : ℕ → Station → Station → Type 0
  Just = Justified shuffle nw_encrypt nw_decrypt_newpass stat vols env b c k body

  abbrev Legal : List Station → Handled → Type 0
  Legal = Lawful shuffle nw_encrypt nw_decrypt_newpass stat vols env b c k body

  change-Lawful :
      (conns : List Station) (sub_func size : ℕ)
      → get_elem? conns c ≡ some k
      → (d : Handled)
      → change shuffle nw_encrypt nw_decrypt_newpass stat vols env conns b c k sub_func body size
        ≡ some d
      → Legal conns d
  unfolding handle_loginkey
  change-Lawful conns sub_func size here d =
      if-result (Legal conns) (sub_func == 23) _ _
        (λ d.
          if-result (Legal conns) (size == 1) _ _
            (set_alike (record k { login_key = env.key }) (0, env.key) refl refl)
            (set_alike k wrong_length refl refl))
        (λ d.
          if-result (Legal conns) (sub_func == 24) _ _
            (λ d e.
              let ((k', reply), q, f) =
                >>=-eq-some (handle_keyedlogin shuffle nw_encrypt nw_decrypt_newpass b k body size)
                  _ e in
              set_to k' reply
                ((login-Justified shuffle nw_encrypt nw_decrypt_newpass stat vols env b c k body)
                  size k' reply q)
                d f)
            (λ d.
              if-result (Legal conns) (sub_func == 75) _ _
                (λ d e.
                  let ((codes, b'), _, f) =
                    >>=-eq-some
                      (handle_keyedchangepwd shuffle nw_encrypt nw_decrypt_newpass env b k body
                        size)
                      _ e in
                  (Lawful-same shuffle nw_encrypt nw_decrypt_newpass stat vols env b c k body) conns
                    (record {
                      replies = map complete codes;
                      closed = [];
                      conns = conns;
                      bindery = b';
                    })
                    d refl f)
                (λ d.
                  if-result (Legal conns) (sub_func == 209) _ _
                    (λ d e.
                      let ((conns', reply), q, f) =
                        >>=-eq-some (handle_broadcast_old env conns b k body size) _ e in
                      moved (told conns' b reply)
                        (λ j x g.
                          let (y, gy, r) =
                            (broadcast-SameRights shuffle nw_encrypt nw_decrypt_newpass stat vols
                                env b c k body)
                              conns size (conns', reply) q j x g in
                          (y, gy, inl r))
                        d f)
                    (λ d.
                      if-result (Legal conns) (sub_func == 210) _ _
                        (λ d e.
                          let ((fds, conns', reply), q, f) =
                            >>=-eq-some (handle_clearconn stat vols conns k body size) _ e in
                          moved (record (told conns' b reply) { closed = fds })
                            ((clearing-Justified shuffle nw_encrypt nw_decrypt_newpass stat vols env
                                b c k body)
                              conns size (fds, conns', reply) q)
                            d f)
                        (λ d.
                          (Lawful-same shuffle nw_encrypt nw_decrypt_newpass stat vols env b c k
                              body)
                            conns (told conns b (complete 0xff)) d refl)))))
    where
      moved : (d : Handled) → Legal conns d → (e : Handled) → some d ≡ some e → Legal conns e
      moved d l e q = subst (Legal conns) (some-injective q) l

      set_to :
          (k' : Station) (reply : Reply)
          → Just c k k'
          → (d : Handled) → some (with_station conns b c k' reply) ≡ some d
          → Legal conns d
      set_to k' reply r d e = subst (Legal conns) (some-injective e) (
          Pointwise-set Just
            (Justified-same shuffle nw_encrypt nw_decrypt_newpass stat vols env b c k body) conns c
            k k' here r)

      set_alike :
          (k' : Station) (reply : Reply)
          → k'.object_id ≡ k.object_id
          → k'.object_supervisor ≡ k.object_supervisor
          → (d : Handled) → some (with_station conns b c k' reply) ≡ some d
          → Legal conns d
      set_alike k' reply p q = set_to k' reply (inl (p, q))

  settle-Lawful :
      (conns : List Station) (asked others : Option (Option Reply))
      (edits : Option (Option (ℕ × Bindery))) (changed : Option Handled)
      → ((d : Handled) → changed ≡ some d → Legal conns d)
      → (d : Handled) → settle conns b asked others edits changed ≡ some d
      → Legal conns d
  settle-Lawful conns (some asked) others edits changed l d h =
      let (reply, _, e) = >>=-eq-some asked _ h in
      (Lawful-same shuffle nw_encrypt nw_decrypt_newpass stat vols env b c k body) conns
        (told conns b reply) d refl e
  settle-Lawful conns none (some asked) edits changed l d h =
      let (reply, _, e) = >>=-eq-some asked _ h in
      (Lawful-same shuffle nw_encrypt nw_decrypt_newpass stat vols env b c k body) conns
        (told conns b reply) d refl e
  settle-Lawful conns none none (some edits) changed l d h =
      let (done, _, e) = >>=-eq-some edits _ h in
      (Lawful-same shuffle nw_encrypt nw_decrypt_newpass stat vols env b c k body) conns
        (edited conns done) d refl e
  settle-Lawful conns none none none changed l d h = l d h

module _ (shuffle : List ℕ → Str → List ℕ)
    (nw_encrypt nw_decrypt_newpass : List ℕ → List ℕ → List ℕ) (stat : Str → Bool)
    (vols : List Volume) (env : Site) where
  -- Every request of function 23 that is handled without a fault leaves each connection the object
  -- that it had, and whether it is a supervisor, but in two cases: a supervisor asked and the
  -- connection has been cleared; or it is the connection that asked, it sent the answer that the
  -- bindery accepts for its new object and its login key, and it is a supervisor exactly if
  -- bind_obj_is_supervisor says so of that object.
  pub handle_r23-Justified :
      (b : Bindery) (conns : List Station) (c : ℕ) (k : Station) (packet : List ℕ) (size : ℕ)
      {d : Handled}
      → get_elem? conns c ≡ some k
      → handle_r23 shuffle nw_encrypt nw_decrypt_newpass stat vols env conns b c packet size
        ≡ some d
      → Pointwise
          (Justified shuffle nw_encrypt nw_decrypt_newpass stat vols env b c k (drop 3 packet))
          conns
          d.conns
  unfolding handle_r23
  handle_r23-Justified b conns c k packet size {d} here h =
      let (sub_func, _, f) = >>=-eq-some (get_elem? packet 2) _ (rw here at h) in
      let (stated, _, g) = >>=-eq-some (two_at packet 0) _ f in
      settle-Lawful shuffle nw_encrypt nw_decrypt_newpass stat vols env b c k (drop 3 packet) conns
        _ _ _ _
        (change-Lawful shuffle nw_encrypt nw_decrypt_newpass stat vols env b c k (drop 3 packet)
          conns sub_func (sub_size stated size) here)
        d g
