-- ===== src/Ncp/Handle.antt =====
-- src/src/server/ncp.c: creating and destroying connections, and the dispatch of packets.
use frommel.Base.{
  ℕ, ◌+◌, ◌-◌, ◌==◌, ◌&&◌, ◌||◌, Bool, true, false, Option, none, some, List, [], ◌∷◌, get_elem?,
  set, drop, if◌then◌else◌, ◌>>=◌, ltb, join16, u8, Str, bit_and,
}
use frommel.Volume.{Volume}
use frommel.Station.{Station, Addr, zero_station}
use frommel.Conn.{attach_client}
use frommel.Ncp.{
  Request, Sent, Answer, answer, request_at, send_reply, send_compcode_addr, handle_buffersize,
  handle_fclose, handle_eoj, handle_logout, handle_maxpacket,
}
use frommel.Ncp.Messages.{handle_r21}
use frommel.Ncp.Service.{handle_r34, handle_r87}

-- What a packet does: what is sent, the descriptors that are closed, the connections afterwards, and
-- whether the server is still up.
pub record Outcome : Type 0 where
  pub sent : List Sent
  pub closed : List ℕ
  pub conns : List Station
  pub running : Bool

-- `down_flag`, `conf_nofconns`, and the date and time of the server.
pub record Setting : Type 0 where
  pub down : Bool
  pub nofconns : ℕ
  pub year : ℕ
  pub month : ℕ
  pub day : ℕ
  pub hour : ℕ
  pub minute : ℕ
  pub second : ℕ
  pub dayofweek : ℕ

-- All other functions, whose state this dispatch does not have: of a function number, the connections,
-- the number of one of them, and the data and size of the request.
abbrev pub Functions : Type 0
Functions = ℕ → List Station → ℕ → List ℕ → ℕ → Option Outcome

abbrev pub rest : List Sent → List Station → Outcome
rest sent conns = record { sent = sent; closed = []; conns = conns; running = true }

-- All of `struct ipx_addr`, with the socket.
abbrev pub same_addr : Addr → Addr → Bool
same_addr a b = (a.net == b.net && a.host == b.host) && a.port == b.port

-- The answer of a function on connection `c` is stored and sent.
abbrev pub answered : Setting → List Station → ℕ → Answer → Outcome
answered env conns c a = record {
  sent = send_reply env.down c a.station a.reply a.code ∷ [];
  closed = a.closed;
  conns = set conns c a.station;
  running = true;
}

-- A year in C counts from 1900, a month from 0.
unfoldable pub handle_timedate : Setting → Station → Option Answer
handle_timedate env k = some (
    answer k 0 (
      u8 env.year
      ∷ u8 (env.month + 1)
      ∷ env.day
      ∷ env.hour
      ∷ env.minute
      ∷ env.second
      ∷ env.dayofweek
      ∷ []))

-- `bzero (conn[c])`: no file is closed.
unfoldable pub destroy_conn : List Station → ℕ → Addr → Option Outcome
destroy_conn conns c from = do
  k ← get_elem? conns c
  let bytes = 0x33 ∷ 0x33 ∷ k.seq_no ∷ bit_and c 0xff ∷ k.task_no ∷ 0 ∷ 0 ∷ 0 ∷ []
  some (rest (record { to = from; bytes = bytes } ∷ []) (set conns c zero_station))

abbrev pub is_file_request : ℕ → Bool
is_file_request type = type == 0x2222 || type == 0x5555

abbrev pub refused : List Station → ℕ → Request → Addr → Outcome
refused conns c r from = rest (send_compcode_addr from c r.task_no r.seq_no 0xff 0 ∷ []) conns

module _ (stat : Str → Bool) (vols : List Volume) (serve : Functions) (env : Setting) where
  -- The answer to a client that has been given connection `c`, if it has.
  abbrev pub greet : Option ℕ × List ℕ × List Station → Option Outcome
  greet (none, fds, conns) = some (record (rest [] conns) { closed = fds })
  greet (some c, fds, conns) = do
    k ← get_elem? conns c
    some (record (rest (send_reply env.down c k [] 0 ∷ []) conns) { closed = fds })

  unfoldable pub create_conn : List Station → Addr → ℕ → Option Outcome
  create_conn conns from now = attach_client stat vols conns (some from) now >>= greet

  -- The functions on a connection alone; `none` for any other number.
  abbrev pub own_function : ℕ → Station → List ℕ → ℕ → Option (Option Answer)
  own_function func_no k body size =
      if func_no == 20
      then some (handle_timedate env k)
      else if func_no == 21
      then some (handle_r21 k body size)
      else if func_no == 24
      then some (handle_eoj k size)
      else if func_no == 25
      then some (handle_logout stat vols k size)
      else if func_no == 33
      then some (handle_buffersize k)
      else if func_no == 34
      then some (handle_r34 body size >>= λ reply. some (answer k reply.0 reply.1))
      else if func_no == 66
      then some (handle_fclose k body size)
      else if func_no == 87
      then some (handle_r87 body >>= λ reply. some (answer k reply.0 reply.1))
      else if func_no == 97
      then some (handle_maxpacket k size)
      else if func_no == 101
      then some (some (answer k 0xff []))
      else none

  abbrev pub run : List Station → ℕ → ℕ → List ℕ → ℕ → Option (Option Answer) → Option Outcome
  run conns c func_no body size none = serve func_no conns c body size
  run conns c func_no body size (some handled) = handled >>= λ a. some (answered env conns c a)

  unfoldable pub handle_request : List Station → ℕ → ℕ → List ℕ → ℕ → Option Outcome
  handle_request conns c func_no body size = do
    k ← get_elem? conns c
    run conns c func_no body size (own_function func_no k body size)

  -- The request has come from the connection's address: it is noted, and taken care of.
  abbrev pub accepted :
      List Station → ℕ → Station → Request → Addr → List ℕ → ℕ → ℕ → Option Outcome
  accepted conns c k r from body size now =
      let k' = record k { task_no = r.task_no; seq_no = r.seq_no; last_time = now } in
      if join16 r.req_type == 0x2222
      then handle_request (set conns c k') c r.req_code body size
      else destroy_conn (set conns c k') c from

  abbrev pub from_client : List Station → ℕ → Request → Addr → List ℕ → ℕ → ℕ → Option Outcome
  from_client conns c r from body size now =
      let known : Option Outcome = do
        k ← get_elem? conns c
        (if same_addr from k.addr
            then accepted conns c k r from body size now
            else some (refused conns c r from))
      in if ltb env.nofconns c then some (refused conns c r from) else known

  abbrev pub by_type : List Station → Request → Addr → List ℕ → ℕ → ℕ → Option Outcome
  by_type conns r from body size now =
      if is_file_request (join16 r.req_type)
      then from_client conns (join16 (record { b0 = r.reserved; b1 = r.con_no })) r from body size
          now
      else if join16 r.req_type == 0x1111
      then create_conn conns from now
      else some (rest [] conns)

  -- A packet that is too small ends the server.
  unfoldable pub handle_packet : List Station → List ℕ → ℕ → Addr → ℕ → Option Outcome
  handle_packet conns packet size from now =
      let handled : Option Outcome = do
        r ← request_at packet
        by_type conns r from (drop 7 packet) (size - 7) now
      in if ltb size 7 then some (record (rest [] conns) { running = false }) else handled
