-- ===== src/Watchdog/Rounds.antt =====
-- What a round of `conn_cleanup` does to each connection, and what an answer undoes.
use frommel.Base.{
  ℕ, suc, ◌+◌, ◌≤◌, ◌<◌, ◌≡◌, refl, ◌≢◌, ◌⊎◌, inl, inr, ◌^◌, ◌==◌, Bool, true, false, some, List,
  [], ◌∷◌, ◌++◌, map, get_elem?, set, arith, Str, Bool-cases, ◌%◌,
}
use frommel.Volume.{Volume}
use frommel.Station.{Station, Addr, same_node, zero_station}
use frommel.Conn.{clear, open_files, timeout_length}
use frommel.Conn.Logout.{HasLogin, logout_lem}
use frommel.Conn.Promises.{Lists, open_files-Lists}
use frommel.Conn.Nodes.{HasDistinctNodes, IsNode}
use frommel.Watchdog.{
  Action, sends, closes, watchdog, is_idle, tidy, cleanup_from, cleanup, handle_packet, answered,
}

-- What leaves the server for connection `i`, and what becomes of it: nothing, unless it is in use and has
-- been silent for too long; then a packet to the socket behind that of the client, which waits from then
-- on for the answer; and if that was so already, all descriptors are closed and the record is cleared.
pub data Tidied (now stamp i : ℕ) (k : Station) : List Action → Station → Type 0 where
  kept : (k.status ≡ 0) ⊎ (now ≤ k.last_time + 300) → Tidied now stamp i k [] k
  warned :
      k.status ≢ 0
      → k.last_time + 300 < now
      → k.wdog_time ≡ 0
      → Tidied now stamp i k
          (sends (record {
            cid = i % 2 ^ 8;
            sign_char = b'?';
            to = record { net = k.addr.net; host = k.addr.host; port = (k.addr.port + 1) % 2 ^ 16 };
          })
            ∷ [])
          (record k { wdog_time = stamp })
  dropped :
      (fds : List ℕ)
      → k.status ≢ 0
      → k.last_time + 300 < now
      → k.wdog_time ≢ 0
      → Lists k.fh fds
      → Tidied now stamp i k (map closes fds) zero_station

-- A round over the connections from number `i` on: what leaves the server, in this order, and the
-- connections after it.
pub data Round (now stamp : ℕ) : ℕ → List Station → List Action → List Station → Type 0 where
  over : {i : ℕ} → Round now stamp i [] [] []
  next :
      {i : ℕ} {k k' : Station} {ks ks' : List Station} {acts rest : List Action}
      → Tidied now stamp i k acts k'
      → Round now stamp (suc i) ks rest ks'
      → Round now stamp i (k ∷ ks) (acts ++ rest) (k' ∷ ks')

module _ (stat : Str → Bool) (vols : List Volume) (v : Volume) (login : HasLogin vols v)
    (now stamp : ℕ) where
  tidy-Tidied :
      (i : ℕ) (k : Station)
      → (acts : List Action) × (k' : Station) × (tidy stat vols now stamp i k ≡ some (acts, k'))
        × Tidied now stamp i k acts k'
  unfolding tidy clear watchdog
  tidy-Tidied i k = elim (Bool-cases (is_idle now k)) [
    | inr e ↦ ([], k, rw (e, tidy) refl, kept (not_idle e))
    | inl e ↦ elim (Bool-cases (k.wdog_time == 0)) [
      | inl z ↦ (
        sends (watchdog i b'?' k) ∷ [],
        record k { wdog_time = stamp },
        rw (e, z, tidy) refl,
        warned (ground arith) (ground arith) (ground arith),
      )
      | inr z ↦ (
        map closes (open_files k.fh),
        zero_station,
        ground (arith, e, z, logout_lem stat vols v k login),
        dropped (open_files k.fh) (ground arith) (ground arith) (ground arith)
            (open_files-Lists k.fh),
      )
    ]
  ]
    where
      not_idle : is_idle now k ≡ false → (k.status ≡ 0) ⊎ (now ≤ k.last_time + 300)
      not_idle e = elim (Bool-cases (k.status == 0)) [
        | inl u ↦ inl (ground arith)
        | inr u ↦ inr (ground (arith, u))
      ]

  cleanup_from-Round :
      (i : ℕ) (conns : List Station)
      → (acts : List Action) × (conns' : List Station) × (cleanup_from stat vols now stamp i conns
          ≡ some (acts, conns'))
        × Round now stamp i conns acts conns'
  unfolding cleanup_from
  cleanup_from-Round i [] = ([], [], refl, over)
  cleanup_from-Round i (k ∷ ks) =
      let (acts, k', e, t) = tidy-Tidied i k in
      let (rest, ks', f, r) = cleanup_from-Round (suc i) ks in
      (acts ++ rest, k' ∷ ks', ground (arith, e, f), next t r)

  -- If volume 0 is mounted at a path without colons that leaves room for /login, a round of
  -- conn_cleanup goes through without a fault, and does this to the connections from number 1 on,
  -- in order, and nothing else. One with status 0, or heard of in the last 300 seconds, is left
  -- alone. To any other, if its watchdog time is 0, the packet of the low byte of its number and a
  -- question mark is sent, to the socket behind its own, and it is stamped. If it was stamped
  -- already, its open descriptors are closed, each as often as it was held, and its record is
  -- cleared.
  pub cleanup-Round :
      (spare : Station) (conns : List Station)
      → (acts : List Action) × (conns' : List Station) × (cleanup stat vols now stamp
            (spare ∷ conns)
          ≡ some (acts, spare ∷ conns'))
        × Round now stamp 1 conns acts conns'
  unfolding cleanup
  cleanup-Round spare conns =
      let (acts, conns', e, r) = cleanup_from-Round 1 conns in (acts, conns', ground (arith, e), r)

-- The answer 'N' to the watchdog of connection `c`, from its node, clears the watchdog of `c` and stamps
-- it, so that a round within 300 seconds leaves it alone. Here `c` fits the byte that carries it.
pub answer-clears :
    (conns : List Station) (nofconns c now later : ℕ) (k : Station) (from : Addr)
    → c < 256
    → c ≤ nofconns
    → get_elem? conns c ≡ some k
    → same_node k.addr from ≡ true
    → later ≤ now + timeout_length
    → (k' : Station) × (handle_packet nofconns conns ((watchdog c b'?' k).cid ∷ b'N' ∷ []) from now
        ≡ some (set conns c k'))
      × (k'.wdog_time ≡ 0)
      × (is_idle later k' ≡ false)
unfolding handle_packet watchdog
answer-clears conns nofconns c now later k from small fits g node soon =
    let byte : c % 256 ≡ c = omega arith in
    (answered now k, rw byte (ground (arith, g)), refl, ground arith)

-- The number of a connection above 255 does not fit the byte, so the answer names another connection,
-- and is lost: on a table whose connections belong to distinct nodes it changes nothing.
pub answer-lost :
    (conns : List Station) (nofconns c now : ℕ) (k l : Station) (from : Addr)
    → 256 ≤ c
    → 1 ≤ c % 256
    → HasDistinctNodes conns
    → get_elem? conns c ≡ some k
    → get_elem? conns (c % 256) ≡ some l
    → IsNode k.addr
    → from ≡ k.addr
    → handle_packet nofconns conns ((watchdog c b'?' k).cid ∷ b'N' ∷ []) from now ≡ some conns
unfolding handle_packet watchdog
answer-lost conns nofconns c now k l from big one distinct g g' node e =
    elim (Bool-cases (same_node l.addr from)) [
      | inr apart ↦ ground (arith, g', apart)
      | inl same ↦
          let number : c ≡ c % 256 =
            distinct c (c % 256) k l (omega arith) one g g' node (ground arith) in
          absurd (omega arith)
    ]
