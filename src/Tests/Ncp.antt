-- ===== src/Tests/Ncp.antt =====
-- Requests of clients on a small table of connections, and messages on their way to them.
use frommel.Base.{
  ℕ, ◌≡◌, ◌||◌, ◌==◌, refl, arith, true, false, none, some, List, [], ◌∷◌, codes, get_elem?, two_at,
  join16,
}
use frommel.Station.{Station, zero_station}
use frommel.Tests.Data.{volumes, exists, node, client, table}
use frommel.Tests.Gasp.{with_session, opened, rest}
use frommel.Gasp.{Turn, status_auth}
use frommel.Gasp.Info.{send_broadcast}
use frommel.Ncp.{Request, answer, request_at, conn_stat}
use frommel.Ncp.Messages.{handle_getmsg, send_bcast_old}
use frommel.Ncp.Handle.{Outcome, Setting, Functions, handle_packet, destroy_conn, is_file_request}
use frommel.Ncp.Hijack.{is_own, Spares, handle_packet-Spares}
use frommel.Ncp.Delivery.{broadcast_received, send_bcast_old-sender}

abbrev setting : Setting
setting = record {
  down = false;
  nofconns = 3;
  year = 102;
  month = 0;
  day = 1;
  hour = 12;
  minute = 0;
  second = 0;
  dayofweek = 2;
}

-- No other function is called here.
abbrev serve : Functions
serve func_no conns c body size = none

-- Destroy connection 1, with sequence number 4 and task 2.
abbrev leave : List ℕ
leave = 0x55 ∷ 0x55 ∷ 4 ∷ 1 ∷ 2 ∷ 0 ∷ 0 ∷ []

abbrev request : Request
request = record {
  req_type = record { b0 = 0x55; b1 = 0x55 };
  seq_no = 4;
  con_no = 1;
  task_no = 2;
  reserved = 0;
  req_code = 0;
}

abbrev left : Outcome
left = record {
  sent = record { to = node 7; bytes = 0x33 ∷ 0x33 ∷ 4 ∷ 1 ∷ 2 ∷ 0 ∷ 0 ∷ 0 ∷ [] } ∷ [];
  closed = [];
  conns = zero_station ∷ zero_station ∷ zero_station ∷ client 9 100 350 ∷ [];
  running = true;
}

is_request : request_at leave ≡ some request
unfolding request_at two_at
is_request = refl

is_file : is_file_request (join16 request.req_type) ≡ true
unfolding join16
is_file = refl

is_modelled : (join16 request.req_type == 0x5555 || is_own request.req_code) ≡ true
unfolding join16
is_modelled = refl

leaves : handle_packet exists volumes serve setting table leave 7 (node 7) 500 ≡ some left
unfolding handle_packet request_at two_at join16 destroy_conn
leaves = refl

handle_packet-Spares_example : Spares (node 7) table left
handle_packet-Spares_example =
    handle_packet-Spares exists volumes serve setting table leave 7 (node 7) 500 request {o = left}
      is_request is_file is_modelled leaves

broadcast_received_example :
    (turn : Turn) × (ks : List Station) × (k : Station) × (send_broadcast
        (with_session status_auth)
        0
        (codes "DOWN")
        4
      ≡ some turn)
    × (turn.server.conns ≡ zero_station ∷ ks)
    × (get_elem? ks 0 ≡ some k)
    × (conn_stat false k ≡ 0x40)
    × (handle_getmsg k 1 ≡ some (answer (client 7 100 0) 0 (4 ∷ codes "DOWN")))
    × (conn_stat false (client 7 100 0) ≡ 0)
broadcast_received_example =
    broadcast_received (with_session status_auth) 0 (codes "DOWN") 4 (opened status_auth)
      zero_station rest 0 (client 7 100 0) (omega arith) (omega arith) refl refl refl refl

-- Connections 2 and 3 are named, and the sender gets the message.
send_bcast_old-sender_example :
    send_bcast_old (client 7 100 0) (2 ∷ 2 ∷ 3 ∷ 5 ∷ codes "HELLO") 9
    ≡ some (answer (record (client 7 100 0) { message = codes "HELLO" }) 0 (2 ∷ 0 ∷ 0 ∷ []))
send_bcast_old-sender_example =
    send_bcast_old-sender (client 7 100 0) (2 ∷ 3 ∷ []) (codes "HELLO") [] 9 (omega arith)
      (omega arith) (omega arith)
