-- ===== src/Conn/Attach.antt =====
-- What `conn_attach_client` promises.
use frommel.Base.{
  ℕ, ◌≤◌, ◌<◌, ◌≡◌, refl, ◌⊎◌, inl, inr, Bool, not, Option, none, some, List, [], ◌∷◌, get_elem?,
  set, length, arith, Str, find_from_bounds, get_elem?-some, Option-cases,
}
use frommel.Volume.{Volume}
use frommel.Station.{Station, Addr, in_use}
use frommel.Conn.{
  attach_to, attach_free, attach_client, find_free_conn, scan_client_by_addr, is_client, set_addr,
  logged_out, closed, open_files,
}
use frommel.Conn.Logout.{HasLogin, logout_lem, login_handles}

-- The free connection that is found is within the table, and every one before it is in use.
find_free_conn_bounds :
    (conns : List Station) {c : ℕ} → find_free_conn conns ≡ some c → (1 ≤ c) × (c < length conns)
unfolding find_free_conn
find_free_conn_bounds [] h = cc
find_free_conn_bounds (spare ∷ conns) {c} h =
    omega (arith, find_from_bounds (λ k. not (in_use k)) 1 conns {j = c} h)

scan_client_bounds :
    (conns : List Station) (addr : Option Addr) {c : ℕ}
    → scan_client_by_addr conns addr ≡ some c
    → (1 ≤ c) × (c < length conns)
unfolding scan_client_by_addr
scan_client_bounds conns none h = cc
scan_client_bounds [] (some a) h = cc
scan_client_bounds (spare ∷ conns) (some a) {c} h =
    omega (arith, find_from_bounds (is_client a) 1 conns {j = c} h)

module _ (stat : Str → Bool) (vols : List Volume) (v : Volume) (h : HasLogin vols v) where
  -- the connection that an attach leaves in the table
  abbrev pub fresh : Option Addr → ℕ → Station → Station
  fresh addr now k =
      record (set_addr addr (logged_out (record (closed k) { dh = login_handles stat vols v }))) {
        login_time = now;
        last_time = now;
        wdog_time = 0;
      }

  -- What a call of `conn_attach_client` did: it took connection `c`, which was `k`.
  pub record Attached (conns : List Station) (addr : Option Addr) (now c : ℕ)
      (result : Option (Option ℕ × List ℕ × List Station)) : Type 0 where
    pub before : Station
    pub at_least : 1 ≤ c
    pub inside : c < length conns
    pub was : get_elem? conns c ≡ some before
    pub returns : result ≡ some (some c, open_files before.fh, set conns c (fresh addr now before))

  attach_to-Attached :
      (conns : List Station) (addr : Option Addr) (now c : ℕ)
      → 1 ≤ c
      → c < length conns
      → Attached conns addr now c (attach_to stat vols conns addr now c)
  unfolding attach_to
  attach_to-Attached conns addr now c one lt =
      let (k, e) = get_elem?-some conns c lt in
      record {
        before = k;
        at_least = one;
        inside = lt;
        was = e;
        returns = ground (arith, e, logout_lem stat vols v k h);
      }

  -- How the connection was found: by its address, or because it was the first free one.
  pub data Chosen (conns : List Station) (addr : Option Addr) (c : ℕ) : Type 0 where
    known : scan_client_by_addr conns addr ≡ some c → Chosen conns addr c
    free :
        scan_client_by_addr conns addr ≡ none → find_free_conn conns ≡ some c → Chosen conns addr c

  -- A client that is known keeps its connection, any other gets the first free one, which is logged out,
  -- given the address and stamped, while all other connections stay as they are. Only a client that is
  -- not known is refused, only if no connection is free, and then nothing changes. No access is out of
  -- bounds.
  pub attach_client_lem :
      (conns : List Station) (addr : Option Addr) (now : ℕ)
      → ((c : ℕ) × Chosen conns addr c
          × Attached conns addr now c (attach_client stat vols conns addr now))
        ⊎ ((scan_client_by_addr conns addr ≡ none)
            × (find_free_conn conns ≡ none)
            × (attach_client stat vols conns addr now ≡ some (none, [], conns)))
  unfolding attach_client attach_free
  attach_client_lem conns addr now = elim (Option-cases (scan_client_by_addr conns addr)) [
    | inr (c, e) ↦
        let b = scan_client_bounds conns addr {c = c} e in
        inl (c, known e, rw (e, attach_client) (attach_to-Attached conns addr now c b.0 b.1))
    | inl e ↦ elim (Option-cases (find_free_conn conns)) [
      | inr (c, f) ↦
          let b = find_free_conn_bounds conns {c = c} f in
          inl (
            c,
            free e f,
            rw (e, f, attach_client, attach_free) (attach_to-Attached conns addr now c b.0 b.1),
          )
      | inl f ↦ inr (e, f, rw (e, f, attach_client, attach_free) refl)
    ]
  ]
