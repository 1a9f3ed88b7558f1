-- ===== src/Conn/Served.antt =====
-- What `conn_attach_client` promises, in terms of the addresses and states in the table.
use frommel.Base.{
  ℕ, zero, suc, ◌≤◌, ◌<◌, ◌≡◌, ◌≢◌, refl, sym, ◌⊎◌, inl, inr, Bool, not, Option, none, some, List,
  [], ◌∷◌, get_elem?, set, length, length-set, some-injective, get_elem?-set_self, get_elem?-set_ne,
  arith, Str, find_from_passes, find_from_earlier, find_from-none, find_from_bounds,
}
use frommel.Volume.{Volume}
use frommel.Station.{Station, Addr, in_use}
use frommel.Conn.{attach_client, find_free_conn, scan_client_by_addr, is_client, open_files}
use frommel.Conn.Logout.{HasLogin}
use frommel.Conn.Attach.{attach_client_lem, Chosen, known, free, fresh}
use frommel.Conn.Promises.{Lists, IsReset, stamped-IsReset, open_files-Lists}

-- The connection is at the node of the address; the socket does not count.
abbrev pub IsAt : Addr → Station → Type 0
IsAt a k = (k.addr.net ≡ a.net) × (k.addr.host ≡ a.host)

-- No connection from number 1 on, and before number `c`, is at the node of an address.
abbrev pub NoneAt : List Station → Option Addr → ℕ → Type 0
NoneAt conns addr c =
    (a : Addr) (j : ℕ) (l : Station)
    → addr ≡ some a
    → 1 ≤ j
    → j < c
    → get_elem? conns j ≡ some l
    → ¬ (IsAt a l)

-- All connections from number 1 on, and before number `c`, are in use.
abbrev pub AllUsed : List Station → ℕ → Type 0
AllUsed conns c = (j : ℕ) (l : Station) → 1 ≤ j → j < c → get_elem? conns j ≡ some l → l.status ≢ 0

-- The connection that a client is given, which was `k`: the first at its node, or else the first that
-- is not used.
pub data Picked (conns : List Station) (addr : Option Addr) (c : ℕ) (k : Station) : Type 0 where
  own : (a : Addr) → addr ≡ some a → IsAt a k → NoneAt conns addr c → Picked conns addr c k
  spare : NoneAt conns addr (length conns) → k.status ≡ 0 → AllUsed conns c → Picked conns addr c k

scan-earlier :
    (conns : List Station) (addr : Option Addr) (c : ℕ)
    → scan_client_by_addr conns addr ≡ some c
    → NoneAt conns addr c
unfolding scan_client_by_addr
scan-earlier [] addr c h a j l e one lt g at = cc
scan-earlier (s ∷ conns) none c h a j l e one lt g at = cc
scan-earlier (s ∷ conns) (some b) c h a zero l e one lt g at = absurd (omega arith)
scan-earlier (s ∷ conns) (some b) c h a (suc j) l e one lt g at =
    ground (arith, find_from_earlier (is_client b) 1 conns j {j = c} {x = l} h (omega arith) g)

scan-none :
    (conns : List Station) (addr : Option Addr) (c : ℕ)
    → scan_client_by_addr conns addr ≡ none
    → NoneAt conns addr c
unfolding scan_client_by_addr
scan-none [] addr c h a j l e one lt g at = cc
scan-none (s ∷ conns) none c h a j l e one lt g at = cc
scan-none (s ∷ conns) (some b) c h a zero l e one lt g at = absurd (omega arith)
scan-none (s ∷ conns) (some b) c h a (suc j) l e one lt g at =
    ground (arith, find_from-none (is_client b) 1 conns j {x = l} h g)

scan-here :
    (conns : List Station) (addr : Option Addr) (c : ℕ) (k : Station)
    → scan_client_by_addr conns addr ≡ some c
    → get_elem? conns c ≡ some k
    → (a : Addr) × (addr ≡ some a) × IsAt a k
unfolding scan_client_by_addr
scan-here [] addr c k h g = cc
scan-here (s ∷ conns) none c k h g = cc
scan-here (s ∷ conns) (some b) zero k h g =
    absurd (omega (arith, find_from_bounds (is_client b) 1 conns {j = 0} h))
scan-here (s ∷ conns) (some b) (suc c) k h g =
    (b, refl, ground (arith, find_from_passes (is_client b) 1 conns c {x = k}))

free-here :
    (conns : List Station) (c : ℕ) (k : Station)
    → find_free_conn conns ≡ some c
    → get_elem? conns c ≡ some k
    → k.status ≡ 0
unfolding find_free_conn
free-here [] c k h g = cc
free-here (s ∷ conns) zero k h g =
    absurd (omega (arith, find_from_bounds (λ k. not (in_use k)) 1 conns {j = 0} h))
free-here (s ∷ conns) (suc c) k h g =
    ground (arith, find_from_passes (λ k. not (in_use k)) 1 conns c {x = k})

free-earlier : (conns : List Station) (c : ℕ) → find_free_conn conns ≡ some c → AllUsed conns c
unfolding find_free_conn
free-earlier [] c h j l one lt g q = cc
free-earlier (s ∷ conns) c h zero l one lt g q = absurd (omega arith)
free-earlier (s ∷ conns) c h (suc j) l one lt g q =
    ground
      (arith, find_from_earlier (λ k. not (in_use k)) 1 conns j {j = c} {x = l} h (omega arith) g)

free-none : (conns : List Station) (c : ℕ) → find_free_conn conns ≡ none → AllUsed conns c
unfolding find_free_conn
free-none [] c h j l one lt g q = cc
free-none (s ∷ conns) c h zero l one lt g q = absurd (omega arith)
free-none (s ∷ conns) c h (suc j) l one lt g q =
    ground (arith, find_from-none (λ k. not (in_use k)) 1 conns j {x = l} h g)

module _ (stat : Str → Bool) (vols : List Volume) (v : Volume) (h : HasLogin vols v) where
  -- What the call did: connection `c` was picked, and logged out; it has the address and the time of the
  -- call; and all others are as they were.
  pub record Served (conns : List Station) (addr : Option Addr) (now c : ℕ) (fds : List ℕ)
      (conns' : List Station) : Type 0 where
    pub before : Station
    pub after : Station
    pub at_least : 1 ≤ c
    pub was : get_elem? conns c ≡ some before
    pub picked : Picked conns addr c before
    pub closes : Lists before.fh fds
    pub is : get_elem? conns' c ≡ some after
    pub reset : IsReset stat v.path before after
    pub moved : (a : Addr) → addr ≡ some a → after.addr ≡ a
    pub stayed : addr ≡ none → after.addr ≡ before.addr
    pub login_now : after.login_time ≡ now
    pub heard_now : after.last_time ≡ now
    pub not_asked : after.wdog_time ≡ 0
    pub as_many : length conns' ≡ length conns
    pub others : (j : ℕ) → j ≢ c → get_elem? conns' j ≡ get_elem? conns j

  pick_lem :
      (conns : List Station) (addr : Option Addr) (c : ℕ) (k : Station)
      → Chosen stat vols v h conns addr c
      → get_elem? conns c ≡ some k
      → Picked conns addr c k
  pick_lem conns addr c k (known e) g =
      let (a, q, at) = scan-here conns addr c k e g in own a q at (scan-earlier conns addr c e)
  pick_lem conns addr c k (free e f) g =
      spare (scan-none conns addr (length conns) e) (free-here conns c k f g)
        (free-earlier conns c f)

  fresh-IsReset :
      (addr : Option Addr) (now : ℕ) (k : Station)
      → IsReset stat v.path k (fresh stat vols v h addr now k)
  fresh-IsReset none now k = stamped-IsReset stat vols v k k.addr now now 0
  fresh-IsReset (some a) now k = stamped-IsReset stat vols v k a now now 0

  fresh-moved :
      (addr : Option Addr) (now : ℕ) (k : Station) (a : Addr)
      → addr ≡ some a
      → (fresh stat vols v h addr now k).addr ≡ a
  fresh-moved none now k a e = cc
  fresh-moved (some b) now k a e = some-injective e

  fresh-stayed :
      (addr : Option Addr) (now : ℕ) (k : Station)
      → addr ≡ none
      → (fresh stat vols v h addr now k).addr ≡ k.addr
  fresh-stayed none now k e = refl
  fresh-stayed (some b) now k e = cc

  -- If volume 0 is mounted at a path without colons that leaves room for /login,
  -- conn_attach_client goes through without a fault. It gives the client the first connection from
  -- number 1 on with its network and node, or, where there is none, the first with status 0. That
  -- connection has its open descriptors closed, each as often as it was held, all handles, object
  -- fields and the message reset as after a logout, the address of the client, the time of the
  -- call for its login and its last packet, and no watchdog; all others stay as they are. Only if
  -- no connection is at the node, and all are in use, is the client refused, and then nothing
  -- changes.
  pub attach_client-Served :
      (conns : List Station) (addr : Option Addr) (now : ℕ)
      → ((c : ℕ) × (fds : List ℕ) × (conns' : List Station) × (attach_client stat vols conns addr
              now
            ≡ some (some c, fds, conns'))
          × Served conns addr now c fds conns')
        ⊎ ((attach_client stat vols conns addr now ≡ some (none, [], conns))
            × NoneAt conns addr (length conns)
            × AllUsed conns (length conns))
  attach_client-Served conns addr now = elim (attach_client_lem stat vols v h conns addr now) [
    | inr (e, f, r) ↦
        inr (r, scan-none conns addr (length conns) e, free-none conns (length conns) f)
    | inl (c, ch, done) ↦
        let k = done.before in
        let k' = fresh stat vols v h addr now k in
        inl (
          c,
          open_files k.fh,
          set conns c k',
          done.returns,
          record {
            before = k;
            after = k';
            at_least = done.at_least;
            was = done.was;
            picked = pick_lem conns addr c k ch done.was;
            closes = open_files-Lists k.fh;
            is = get_elem?-set_self conns c k' done.inside;
            reset = fresh-IsReset addr now k;
            moved = fresh-moved addr now k;
            stayed = fresh-stayed addr now k;
            login_now = refl;
            heard_now = refl;
            not_asked = refl;
            as_many = length-set conns c k';
            others = λ j ne. get_elem?-set_ne conns c j k' (λ e. ne (sym e));
          },
        )
  ]
