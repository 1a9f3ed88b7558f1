-- ===== src/Tests/Gasp.antt =====
-- A console server with one connection in use, on a bindery whose supervisor has a password.
use mathlib.Core.List.{Mem}
use frommel.Base.{
  ℕ, ◌≡◌, refl, arith, true, none, some, List, [], ◌∷◌, ◌++◌, codes, replicate, get_elem?, set,
  take, drop, two_at, four_at, Two, Four, get_be16, get_be32, slice, put_be16, put_be32, join32,
  join16,
}
use frommel.Station.{Station, zero_station}
use frommel.BinderyIo.{Bindery, scan_prop, scan_val, conv_prop, conv_val}
use frommel.BinderyIo.Store.{new_object, new_prop, new_val, write_prop, read_prop}
use frommel.Bindery.{set_pwd, verify_pwd, id_bytes}
use frommel.Conn.{open_files}
use frommel.Tests.Data.{sys, volumes, exists, has_login, node, client, table}
use frommel.Tests.Bindery.{io, hash, encrypt, junk}
use frommel.Gasp.{
  Session, Server, Turn, just, init, zero_session, send_reply, send_reply_session, handle_hello,
  handle_auth, status_connected, status_auth, ok,
}
use frommel.Gasp.Info.{Surroundings}
use frommel.Gasp.Handle.{handle_packet}
use frommel.Gasp.History.{Reach, authenticated_answered, Answers}
use frommel.Gasp.Opening.{logs_in}
use frommel.Gasp.Unopened.{unopened_clears}

abbrev supervisor : Bindery
supervisor = record {
  objs = new_object (codes "SUPERVISOR") 1 0 0x31 1 ∷ [];
  props = new_prop 1 (codes "PASSWORD") 0 0x44 21 31 ∷ [];
  vals = new_val 21 31 none ∷ [];
}

abbrev with_password : Bindery
with_password = record supervisor { vals = new_val 21 31 (some (replicate 16 3 ++ junk)) ∷ [] }

sets : set_pwd hash encrypt io supervisor 1 (codes "secret") junk ≡ some (true, with_password)
unfolding set_pwd write_prop scan_prop conv_prop scan_val conv_val join32 join16 put_be32 put_be16
sets = refl

abbrev env : Surroundings
env = record {
  servername = codes "FROMMEL" ++ replicate 41 0;
  nwversion = 0x0311;
  nofconns = 3;
  bindery = with_password;
  services = [];
  stack = 0 ∷ 0 ∷ [];
}

abbrev key : List ℕ
key = replicate 8 5

abbrev at_start : Server
at_start = record { sessions = init; conns = table; running = true }

-- Hello, without a session.
abbrev hello : List ℕ
hello = 0x66 ∷ 0x66 ∷ 0xff ∷ 0xff ∷ 0 ∷ 0 ∷ []

-- Authenticate, session 0.
abbrev login : List ℕ
login = 0x66 ∷ 0x66 ∷ 0 ∷ 0 ∷ 0 ∷ 2 ∷ replicate 8 5

abbrev two : ℕ → ℕ → Two
two a b = record { b0 = a; b1 = b }

hello_session : two_at hello 2 ≡ some (two 0xff 0xff)
unfolding two_at
hello_session = refl

hello_command : two_at hello 4 ≡ some (two 0 0)
unfolding two_at
hello_command = refl

login_session : two_at login 2 ≡ some (two 0 0)
unfolding two_at
login_session = refl

login_command : two_at login 4 ≡ some (two 0 2)
unfolding two_at
login_command = refl

all_ones : get_be16 (two 0xff 0xff) ≡ 0xffff
unfolding get_be16
all_ones = refl

nought : get_be16 (two 0 0) ≡ 0
unfolding get_be16
nought = refl

second : get_be16 (two 0 2) ≡ 2
unfolding get_be16
second = refl

answered :
    slice (drop 6 login) 0 8 ≡ some (take 8 (encrypt key (hash (id_bytes 1) (codes "secret"))))
unfolding slice
answered = refl

abbrev pub opened : ℕ → Session
opened status = record { status = status; addr = node 3; key = key }

logs_in_example :
    (greeted : Turn) × (welcome : Turn) × (handle_packet hash encrypt exists volumes env key
        at_start
        (node 3)
        hello
        6
      ≡ some greeted)
    × (greeted.reply ≡ send_reply (node 3) 0 ok key)
    × (handle_packet hash encrypt exists volumes env key greeted.server (node 3) login 14
        ≡ some welcome)
    × (welcome.reply ≡ send_reply (node 3) 0 ok [])
    × (get_elem? welcome.server.sessions 0 ≡ some (opened status_auth))
unfolding init
logs_in_example =
    logs_in hash encrypt exists volumes env io supervisor (codes "secret") junk at_start key
      (node 3) hello login 0 (λ lon text. refl) sets refl refl hello_session hello_command all_ones
      nought login_session login_command nought second answered

abbrev pub with_session : ℕ → Server
with_session status = record at_start { sessions = opened status ∷ replicate 7 zero_session }

abbrev turn1 : Turn
turn1 = just (with_session status_connected) (send_reply (node 3) 0 ok key)

abbrev turn2 : Turn
turn2 = just (with_session status_auth) (send_reply (node 3) 0 ok [])

greets : handle_packet hash encrypt exists volumes env key at_start (node 3) hello 6 ≡ some turn1
unfolding handle_packet two_at get_be16 handle_hello send_reply_session init
greets = refl

welcomes :
    handle_packet hash encrypt exists volumes env key turn1.server (node 3) login 14 ≡ some turn2
unfolding handle_packet two_at get_be16 handle_auth send_reply_session slice verify_pwd read_prop
    scan_prop conv_prop scan_val conv_val join32 join16 put_be32 put_be16
welcomes = refl

abbrev history : List (List ℕ)
history = login ∷ hello ∷ []

met : Reach hash encrypt exists volumes env history turn2.server
met =
    Reach.step key (node 3) login 14 turn2
      (Reach.step key (node 3) hello 6 turn1 (Reach.start table) refl greets) refl welcomes

authenticated_answered_example :
    (buffer : List ℕ) × Mem buffer history × Answers hash encrypt exists volumes env buffer 0 key
authenticated_answered_example =
    authenticated_answered hash encrypt exists volumes env {history = history} {s = turn2.server} 0
      (opened status_auth) met refl refl

-- Clear connection 1, on session 5, which nobody has opened.
abbrev kill : List ℕ
kill = 0x66 ∷ 0x66 ∷ 0 ∷ 5 ∷ 0 ∷ 11 ∷ 0 ∷ 0 ∷ 0 ∷ 1 ∷ []

kill_session : two_at kill 2 ≡ some (two 0 5)
unfolding two_at
kill_session = refl

kill_command : two_at kill 4 ≡ some (two 0 11)
unfolding two_at
kill_command = refl

abbrev conn_1 : Four
conn_1 = record { b0 = 0; b1 = 0; b2 = 0; b3 = 1 }

kill_number : four_at (drop 6 kill) 0 ≡ some conn_1
unfolding four_at
kill_number = refl

fifth : get_be16 (two 0 5) ≡ 5
unfolding get_be16
fifth = refl

eleventh : get_be16 (two 0 11) ≡ 11
unfolding get_be16
eleventh = refl

first : get_be32 conn_1 ≡ 1
unfolding get_be32
first = refl

never_opened : get_elem? at_start.sessions 5 ≡ some zero_session
unfolding init
never_opened = refl

unopened_clears_example :
    (turn : Turn) × (handle_packet hash encrypt exists volumes env key at_start (node 3) kill 10
      ≡ some turn)
    × (turn.reply ≡ send_reply zero_session.addr 5 ok [])
    × (turn.closed ≡ open_files (client 7 100 0).fh)
    × (turn.server.conns ≡ set table 1 zero_station)
unopened_clears_example =
    unopened_clears hash encrypt exists volumes env sys at_start key (node 3) kill 5 1 zero_session
      (client 7 100 0) has_login kill_session kill_command kill_number fifth (omega arith) eleventh
      never_opened refl first (omega arith) (omega arith) refl

abbrev pub rest : List Station
rest = client 7 100 0 ∷ zero_station ∷ client 9 100 350 ∷ []
