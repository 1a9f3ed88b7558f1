-- ===== src/Gasp/Opening.antt =====
-- src/src/server/gasp_server.c: how a console becomes authenticated.
use frommel.Base.{
  ℕ, ◌≤◌, ◌<◌, ◌≡◌, refl, ap, ◌∙◌, arith, Bool, true, false, some, List, [], get_elem?, set, take,
  drop, ltb, get_be16, two_at, slice, Str, ◌==◌, Two, length, find_from, find_from_bounds,
  get_elem?-lt, get_elem?-set_self, str_eq, str_eq_refl, take-all, length-slice,
}
use frommel.Volume.{Volume}
use frommel.Station.{Addr}
use frommel.BinderyIo.{Bindery}
use frommel.BinderyIo.Store.{Io}
use frommel.Bindery.{verify_pwd, set_pwd, id_bytes}
use frommel.Bindery.Login.{verify_pwd-set_pwd}
use frommel.Gasp.{
  Session, Server, Turn, just, send_reply, send_reply_session, handle_hello, handle_auth,
  status_connected, status_auth, ok, is_unused, max_sessions,
}
use frommel.Gasp.Info.{Surroundings}
use frommel.Gasp.Handle.{handle_packet, cmd_auth, cmd_hello}

module _ (shuffle : List ℕ → Str → List ℕ) (nw_encrypt : List ℕ → List ℕ → List ℕ)
    (stat : Str → Bool) (vols : List Volume) (env : Surroundings) where
  -- A hello gets the first unused session.
  hello_opens :
      (s : Server) (key : List ℕ) (addr : Addr) (buffer : List ℕ) (size i : ℕ)
      {sessionid command : Two}
      → 6 ≤ size
      → two_at buffer 2 ≡ some sessionid
      → two_at buffer 4 ≡ some command
      → get_be16 sessionid ≡ 0xffff
      → get_be16 command ≡ cmd_hello
      → find_from is_unused 0 s.sessions ≡ some i
      → (turn : Turn) × (handle_packet shuffle nw_encrypt stat vols env key s addr buffer size
          ≡ some turn)
        × (turn.reply ≡ send_reply addr i ok key)
        × (turn.server.sessions
            ≡ set s.sessions i (record { status = status_connected; addr = addr; key = key }))
        × (turn.server.running ≡ s.running)
        × (turn.server.conns ≡ s.conns)
  unfolding handle_packet handle_hello send_reply_session
  hello_opens s key addr buffer size i {sessionid} {command} long e f n c h =
      let session : Session = record { status = status_connected; addr = addr; key = key } in
      let lt : i < length s.sessions =
        omega (arith, find_from_bounds is_unused 0 s.sessions {j = i} h) in
      let long_enough : ltb size 6 ≡ false = ground arith in
      (
        just (record s { sessions = set s.sessions i session }) (send_reply addr i ok key),
        rw (long_enough, e, f, n, c, h, get_elem?-set_self s.sessions i session lt) refl,
        refl,
        refl,
        refl,
        refl,
      )

  -- A session that is connected is authenticated by a right answer.
  answer_opens :
      (s : Server) (key : List ℕ) (addr : Addr) (buffer : List ℕ) (i : ℕ) (session : Session)
      (answer : List ℕ) {sessionid command : Two}
      → two_at buffer 2 ≡ some sessionid
      → two_at buffer 4 ≡ some command
      → get_be16 sessionid ≡ i
      → i < 0xffff
      → get_be16 command ≡ cmd_auth
      → get_elem? s.sessions i ≡ some session
      → session.status ≡ status_connected
      → slice (drop 6 buffer) 0 8 ≡ some answer
      → verify_pwd shuffle nw_encrypt env.bindery 1 answer session.key ≡ some true
      → (turn : Turn) × (handle_packet shuffle nw_encrypt stat vols env key s addr buffer 14
          ≡ some turn)
        × (turn.reply ≡ send_reply session.addr i ok [])
        × (get_elem? turn.server.sessions i ≡ some (record session { status = status_auth }))
  unfolding handle_packet handle_auth send_reply_session
  answer_opens s key addr buffer i session answer e f n lt c g u a v =
      let opened : Session = record session { status = status_auth } in
      let other : i == 0xffff ≡ false = ground arith in
      let here : get_elem? (set s.sessions i opened) i ≡ some opened =
        get_elem?-set_self s.sessions i opened (get_elem?-lt s.sessions i g) in
      (
        just (record s { sessions = set s.sessions i opened }) (send_reply session.addr i ok []),
        rw (e, f, n, other, g, u, c, g, a, v, here) refl,
        refl,
        here,
      )

  -- If the password of object 1 has been set by bind_set_pwd, hashes have 16 bytes, there are 8
  -- sessions and one is unused, then a hello is answered with the first unused session and its
  -- key, and the right answer to the key, sent on that session next, makes the session
  -- authenticated.
  pub logs_in :
      (io : Io) (b : Bindery) (pwd : Str) (junk : List ℕ) (s : Server) (key : List ℕ) (addr : Addr)
      (hello login : List ℕ) (i : ℕ) {sid1 cmd1 sid2 cmd2 : Two}
      → ((lon : List ℕ) (text : Str) → length (shuffle lon text) ≡ 16)
      → set_pwd shuffle nw_encrypt io b 1 pwd junk ≡ some (true, env.bindery)
      → length s.sessions ≡ max_sessions
      → find_from is_unused 0 s.sessions ≡ some i
      → two_at hello 2 ≡ some sid1
      → two_at hello 4 ≡ some cmd1
      → get_be16 sid1 ≡ 0xffff
      → get_be16 cmd1 ≡ cmd_hello
      → two_at login 2 ≡ some sid2
      → two_at login 4 ≡ some cmd2
      → get_be16 sid2 ≡ i
      → get_be16 cmd2 ≡ cmd_auth
      → slice (drop 6 login) 0 8 ≡ some (take 8 (nw_encrypt key (shuffle (id_bytes 1) pwd)))
      → (greeted : Turn) × (opened : Turn) × (handle_packet shuffle nw_encrypt stat vols env key s
            addr hello 6
          ≡ some greeted)
        × (greeted.reply ≡ send_reply addr i ok key)
        × (handle_packet shuffle nw_encrypt stat vols env key greeted.server addr login 14
            ≡ some opened)
        × (opened.reply ≡ send_reply addr i ok [])
        × (get_elem? opened.server.sessions i
            ≡ some (record { status = status_auth; addr = addr; key = key }))
  logs_in io b pwd junk s key addr hello login i sixteen stored eight free e1 f1 n1 c1 e2 f2 n2 c2
        sent =
      let answer = take 8 (nw_encrypt key (shuffle (id_bytes 1) pwd)) in
      let lt : i < length s.sessions =
        omega (arith, find_from_bounds is_unused 0 s.sessions {j = i} free) in
      let session : Session = record { status = status_connected; addr = addr; key = key } in
      let (greeted, h1, r1, k1, _, _) =
        hello_opens s key addr hello 6 i (omega arith) e1 f1 n1 c1 free in
      let whole : take 8 answer ≡ answer =
        take-all 8 answer (omega (arith, length-slice (drop 6 login) 0 8 sent)) in
      let accepted =
        verify_pwd-set_pwd shuffle nw_encrypt io b 1 pwd junk key answer {b' = env.bindery} sixteen
          stored
        ∙ ap some (ap (λ (x : List ℕ). str_eq x answer) whole ∙ str_eq_refl answer) in
      let here =
        ap (λ (ss : List Session). get_elem? ss i) k1
        ∙ get_elem?-set_self s.sessions i session lt in
      let (opened, h2, r2, k2) =
        answer_opens greeted.server key addr login i session answer e2 f2 n2 (omega arith) c2 here
          refl sent accepted in
      (greeted, opened, h1, r1, h2, r2, k2)
