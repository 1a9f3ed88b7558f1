-- ===== src/Gasp/Unopened.antt =====
-- src/src/server/gasp_server.c: commands on sessions that nobody has opened.
use frommel.Base.{
  ℕ, ◌≤◌, ◌<◌, ◌≡◌, refl, arith, Bool, false, ◌||◌, some, List, [], get_elem?, set, drop, ltb,
  get_be16, get_be32, two_at, four_at, Str, ◌==◌, Two, Four,
}
use frommel.Volume.{Volume}
use frommel.Station.{Station, Addr, zero_station}
use frommel.Conn.{clear, open_files}
use frommel.Conn.Logout.{HasLogin, logout_lem}
use frommel.Gasp.{Session, Server, Turn, send_reply, send_reply_session, status_unused, ok}
use frommel.Gasp.Info.{Surroundings, clear_conn}
use frommel.Gasp.Handle.{run_command, handle_packet, cmd_clearconn}

module _ (shuffle : List ℕ → Str → List ℕ) (nw_encrypt : List ℕ → List ℕ → List ℕ)
    (stat : Str → Bool) (vols : List Volume) (env : Surroundings) where
  -- On a session that is unused, which nobody has authenticated, a packet of 10 bytes with the
  -- command to clear a connection in range is run: the connection is cleared and its files are
  -- closed, if volume 0 has a login directory whose path fits.
  pub unopened_clears :
      (v : Volume) (s : Server) (key : List ℕ) (addr : Addr) (buffer : List ℕ) (i c : ℕ)
      (session : Session) (k : Station) {sessionid command : Two} {number : Four}
      → HasLogin vols v
      → two_at buffer 2 ≡ some sessionid
      → two_at buffer 4 ≡ some command
      → four_at (drop 6 buffer) 0 ≡ some number
      → get_be16 sessionid ≡ i
      → i < 0xffff
      → get_be16 command ≡ cmd_clearconn
      → get_elem? s.sessions i ≡ some session
      → session.status ≡ status_unused
      → get_be32 number ≡ c
      → 0 < c
      → c ≤ env.nofconns
      → get_elem? s.conns c ≡ some k
      → (turn : Turn) × (handle_packet shuffle nw_encrypt stat vols env key s addr buffer 10
          ≡ some turn)
        × (turn.reply ≡ send_reply session.addr i ok [])
        × (turn.closed ≡ open_files k.fh)
        × (turn.server.conns ≡ set s.conns c zero_station)
  unfolding handle_packet run_command clear_conn send_reply_session clear
  unopened_clears v s key addr buffer i c session k {sessionid} {command} {number} login e f d n lt
        cc g u b pos most gk =
      let other : i == 0xffff ≡ false = ground arith in
      let inside : (ltb c 1 || ltb env.nofconns c) ≡ false = ground arith in
      let s' = record s { conns = set s.conns c zero_station } in
      (
        record { reply = send_reply session.addr i ok []; closed = open_files k.fh; server = s' },
        rw (e, f, n, other, g, u, cc, d, b, inside, gk, logout_lem stat vols v k login, g) refl,
        refl,
        refl,
        refl,
      )
