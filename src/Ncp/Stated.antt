-- ===== src/Ncp/Stated.antt =====
-- src/src/server/ncp_21.c and src/src/server/ncp_23.c: the length that a request states is not used.
use frommel.Base.{ℕ, ◌-◌, ◌^◌, ◌≤◌, ◌<◌, ◌≡◌, refl, arith, Bool, List, ◌∷◌, Two, Str, two_at}
use frommel.Volume.{Volume}
use frommel.Station.{Station}
use frommel.BinderyIo.{Bindery}
use frommel.Ncp.Messages.{sub_size, handle_r21}
use frommel.Ncp.Fields.{Site}
use frommel.Ncp.Calls.{handle_r23}

-- Either the length matches the packet, and then it is the size without the two bytes, or that is taken.
pub sub_size-size :
    (stated : Two) (size : ℕ) → 2 ≤ size → size < 2 ^ 16 → sub_size stated size ≡ size - 2
unfolding sub_size
sub_size-size stated size h g = ground arith

module _ (shuffle : List ℕ → Str → List ℕ)
    (nw_encrypt nw_decrypt_newpass : List ℕ → List ℕ → List ℕ) (stat : Str → Bool)
    (vols : List Volume) (env : Site) where
  -- Requests of function 21 and of function 23 of 2 bytes or more, and less than 2^16, are handled
  -- alike whatever length they state in their first two bytes.
  pub stated_length_unused :
      (conns : List Station) (b : Bindery) (c : ℕ) (k : Station) (hi lo hi' lo' : ℕ) (body : List ℕ)
      (size : ℕ)
      → 2 ≤ size
      → size < 2 ^ 16
      → (handle_r21 k (hi ∷ lo ∷ body) size ≡ handle_r21 k (hi' ∷ lo' ∷ body) size)
        × (handle_r23 shuffle nw_encrypt nw_decrypt_newpass stat vols env conns b c
              (hi ∷ lo ∷ body)
              size
            ≡ handle_r23 shuffle nw_encrypt nw_decrypt_newpass stat vols env conns b c
                (hi' ∷ lo' ∷ body)
                size)
  unfolding handle_r21 handle_r23 two_at
  stated_length_unused conns b c k hi lo hi' lo' body size h g =
      let e = sub_size-size (record { b0 = hi; b1 = lo }) size h g in
      let e' = sub_size-size (record { b0 = hi'; b1 = lo' }) size h g in
      (rw (e, e') refl, rw (e, e') refl)
