-- ===== src/Gasp/Handle.antt =====
-- src/src/server/gasp_server.c: `gasp_handle_packet`. The header is read from a buffer that is longer
-- than it; `key` are the random bytes of a hello.
use frommel.Base.{
  ℕ, ◌-◌, ◌==◌, Bool, false, Option, none, some, List, [], get_elem?, set, drop, if◌then◌else◌,
  ◌>>=◌, ltb, get_be16, two_at, Str,
}
use frommel.Volume.{Volume}
use frommel.Station.{Addr}
use frommel.Gasp.{
  Session, Server, Turn, just, send_reply, handle_hello, handle_auth, status_connected,
  status_unused, ok, notauth, badsess, unknowncmd,
}
use frommel.Gasp.Info.{
  Surroundings, send_serverinfo, send_coninfo, clear_conn, send_broadcast, send_sessinfo,
  send_sapinfo,
}

-- the commands, `GASP_CMD_…`
abbrev pub cmd_hello : ℕ
cmd_hello = 0

abbrev pub cmd_auth : ℕ
cmd_auth = 2

abbrev pub cmd_discon : ℕ
cmd_discon = 3

abbrev pub cmd_down : ℕ
cmd_down = 4

abbrev pub cmd_lenable : ℕ
cmd_lenable = 6

abbrev pub cmd_ldisable : ℕ
cmd_ldisable = 7

abbrev pub cmd_broadcast : ℕ
cmd_broadcast = 8

abbrev pub cmd_getinfo : ℕ
cmd_getinfo = 9

abbrev pub cmd_getconn : ℕ
cmd_getconn = 10

abbrev pub cmd_clearconn : ℕ
cmd_clearconn = 11

abbrev pub cmd_getsess : ℕ
cmd_getsess = 12

abbrev pub cmd_getsapinfo : ℕ
cmd_getsapinfo = 13

module _ (shuffle : List ℕ → Str → List ℕ) (nw_encrypt : List ℕ → List ℕ → List ℕ)
    (stat : Str → Bool) (vols : List Volume) where
  -- The switch; the sender of the packet is at `addr`.
  unfoldable pub run_command : Surroundings → Server → Addr → ℕ → ℕ → List ℕ → ℕ → Option Turn
  run_command env s addr sessionid command body size =
      let disconnected : Option Turn = do
        session ← get_elem? s.sessions sessionid
        let sessions = set s.sessions sessionid (record session { status = status_unused })
        some (just (record s { sessions = sessions }) (send_reply addr sessionid ok []))
      in if command == cmd_discon
        then disconnected
        else if command == cmd_lenable
        then some (just s (send_reply addr sessionid ok []))
        else if command == cmd_ldisable
        then some (just s (send_reply addr sessionid ok []))
        else if command == cmd_broadcast
        then send_broadcast s sessionid body size
        else if command == cmd_down
        then some (just (record s { running = false }) (send_reply addr sessionid ok []))
        else if command == cmd_getinfo
        then send_serverinfo env s sessionid
        else if command == cmd_getconn
        then send_coninfo env s sessionid body size
        else if command == cmd_clearconn
        then clear_conn stat vols env s sessionid body size
        else if command == cmd_getsess
        then send_sessinfo env s sessionid body size
        else if command == cmd_getsapinfo
        then send_sapinfo env s sessionid body size
        else some (just s (send_reply addr sessionid unknowncmd []))

  abbrev pub as_session : Surroundings → Server → Addr → ℕ → ℕ → List ℕ → ℕ → Session → Option Turn
  as_session env s addr sessionid command body size session =
      if session.status == status_connected
      then (if command == cmd_auth
          then handle_auth shuffle nw_encrypt env.bindery s sessionid body size
          else some (just s (send_reply addr sessionid notauth [])))
      else run_command env s addr sessionid command body size

  -- A session that is connected may only authenticate; any other status runs the command.
  abbrev pub in_session : Surroundings → Server → Addr → ℕ → ℕ → List ℕ → ℕ → Option Turn
  in_session env s addr sessionid command body size =
      get_elem? s.sessions sessionid >>= as_session env s addr sessionid command body size

  abbrev pub without_session : Surroundings → List ℕ → Server → Addr → ℕ → Option Turn
  without_session env key s addr command =
      if command == cmd_hello
      then handle_hello s 0xffff addr key
      else some (just s (send_reply addr 0xffff badsess []))

  unfoldable pub handle_packet : Surroundings → List ℕ → Server → Addr → List ℕ → ℕ → Option Turn
  handle_packet env key s addr buffer size =
      let split : Option Turn = do
        sessionid ← two_at buffer 2
        command ← two_at buffer 4
        (if get_be16 sessionid == 0xffff
            then without_session env key s addr (get_be16 command)
            else in_session env s addr (get_be16 sessionid) (get_be16 command) (drop 6 buffer)
                (size - 6))
      in if ltb size 6 then some (just s none) else split
