-- ===== src/Tests/Conn.antt =====
-- The table of connections at small inputs.
use frommel.Base.{
  ℕ, zero, suc, ◌≤◌, ◌==◌, if◌then◌else◌, ◌≡◌, refl, ◌⊎◌, none, some, List, [], ◌∷◌, arith,
  get_elem?, replicate, codes,
}
use frommel.Station.{Station, zero_station, fh_per_conn}
use frommel.Conn.{
  attach_client, attach_free, attach_to, clear, logout, open_files, scan_client_by_addr,
  find_free_conn, logged_out, closed,
}
use frommel.Conn.Logout.{logout_lem, logout-logout, clear_closes, login_handles}
use frommel.Conn.Attach.{fresh}
use frommel.Conn.Promises.{Lists, IsReset, logout-IsReset}
use frommel.Conn.Served.{Served, NoneAt, AllUsed, attach_client-Served}
use frommel.Conn.Nodes.{attach-HasDistinctNodes, HasDistinctNodes, IsNode}
use frommel.Tests.Data.{sys, volumes, exists, has_login, node, client, table}

abbrev attached : Station
attached = logged_out (record (closed (client 7 100 0)) { dh = login_handles exists volumes sys })

logs_out : logout exists volumes (client 7 100 0) ≡ some (open_files (client 7 100 0).fh, attached)
logs_out = logout_lem exists volumes sys (client 7 100 0) has_login

logout-IsReset_example :
    (fds : List ℕ) × (k' : Station) × (logout exists volumes (client 7 100 0) ≡ some (fds, k'))
    × Lists (client 7 100 0).fh fds
    × IsReset exists (codes "/vol/sys") (client 7 100 0) k'
    × (k'.addr ≡ node 7)
    × (k'.login_time ≡ 0)
    × (k'.last_time ≡ 100)
    × (k'.wdog_time ≡ 0)
logout-IsReset_example = logout-IsReset exists volumes sys (client 7 100 0) has_login

cleared : clear exists volumes attached ≡ some ([], zero_station)
unfolding clear
cleared = ground (
  arith,
  logout-logout exists volumes sys has_login (client 7 100 0) attached
      (open_files (client 7 100 0).fh) logs_out,
)

clear_closes_example :
    (k : Station) × (logout exists volumes zero_station ≡ some (replicate fh_per_conn 0, k))
clear_closes_example = clear_closes exists volumes sys has_login attached zero_station [] cleared

-- Node 7 is known, and keeps connection 1; node 8 gets connection 2.
known_node : scan_client_by_addr table (some (node 7)) ≡ some 1
unfolding scan_client_by_addr
known_node = refl

free_conn : find_free_conn table ≡ some 2
unfolding find_free_conn
free_conn = refl

abbrev new_table : List Station
new_table =
    zero_station
    ∷ client 7 100 0
    ∷ fresh exists volumes sys has_login (some (node 8)) 500 zero_station
    ∷ client 9 100 350
    ∷ []

attached_node :
    attach_client exists volumes table (some (node 8)) 500
    ≡ some (some 2, replicate fh_per_conn 0, new_table)
unfolding attach_client attach_free attach_to scan_client_by_addr find_free_conn open_files
attached_node = ground (arith, logout_lem exists volumes sys zero_station has_login)

attach_client-Served_example :
    ((c : ℕ) × (fds : List ℕ) × (conns' : List Station) × (attach_client exists volumes table
          (some (node 8))
          500
        ≡ some (some c, fds, conns'))
      × Served exists volumes sys has_login table (some (node 8)) 500 c fds conns')
    ⊎ ((attach_client exists volumes table (some (node 8)) 500 ≡ some (none, [], table))
        × NoneAt table (some (node 8)) 4
        × AllUsed table 4)
attach_client-Served_example =
    attach_client-Served exists volumes sys has_login table (some (node 8)) 500

-- In the table the node tells the number of its connection.
number_of_node :
    (i : ℕ) (k : Station)
    → 1 ≤ i
    → get_elem? table i ≡ some k
    → IsNode k.addr
    → i ≡ (if k.addr.host == 7 then 1 else 3)
number_of_node zero k one g node = absurd (omega arith)
number_of_node (suc zero) k one g node = ground arith
number_of_node (suc (suc zero)) k one g node = ground arith
number_of_node (suc (suc (suc zero))) k one g node = ground arith
number_of_node (suc (suc (suc (suc i)))) k one g node = cc

table-HasDistinctNodes : HasDistinctNodes table
table-HasDistinctNodes i j k l one one' g g' node same =
    ground (arith, number_of_node i k one g node, number_of_node j l one' g')

attach-HasDistinctNodes_example : HasDistinctNodes new_table
attach-HasDistinctNodes_example =
    attach-HasDistinctNodes exists volumes sys has_login table (some (node 8)) 500 (some 2)
      (replicate fh_per_conn 0) new_table attached_node table-HasDistinctNodes
