-- ===== src/Gasp/Info.antt =====
-- src/src/server/gasp_server.c: what a session may ask for.
use frommel.Base.{
  ℕ, ◌-◌, ◌/◌, ◌^◌, ◌==◌, ◌||◌, Bool, not, Option, none, some, List, [], ◌∷◌, ◌++◌, get_elem?, set,
  take, replicate, if◌then◌else◌, ◌>>=◌, ◌>>◌, in_bounds, leb, ltb, get_be32, u8, slice, four_at,
  Str, le16, le32, be16, be32, length, c_string, has_nul,
}
use frommel.Volume.{Volume}
use frommel.Station.{Station, Addr, in_use, max_msg_len}
use frommel.Conn.{clear}
use frommel.BinderyIo.{Bindery, NetObj, Obj, name_array, scan_object_by_id}
use frommel.Sap.{Entry, max_services}
use frommel.Gasp.{
  Server, Turn, send_reply_session, datasize, max_sessions, ok, noconn, nosess, nosap, badcmd,
}

-- The configuration, the services of other servers, and the bytes that stand on the stack.
pub record Surroundings : Type 0 where
  pub servername : List ℕ
  pub nwversion : ℕ
  pub nofconns : ℕ
  pub bindery : Bindery
  pub services : List Entry
  pub stack : List ℕ

-- the network and the node, in network order
abbrev pub addr_bytes : Addr → List ℕ
addr_bytes a = be32 a.net ++ (be16 (a.host / 2 ^ 32) ++ be32 a.host)

unfoldable pub send_serverinfo : Surroundings → Server → ℕ → Option Turn
send_serverinfo env s sessionid =
    let info =
      take 48 env.servername
      ++ (le16 env.nwversion ++ (le32 env.nofconns ++ (max_sessions ∷ []))) in
    send_reply_session s sessionid ok info

-- The number that a request names, if it has 4 bytes; then `k`, else an answer with BADCMD.
abbrev pub with_number : Server → ℕ → List ℕ → ℕ → (ℕ → Option Turn) → Option Turn
with_number s sessionid body size k =
    if size == 4
    then (four_at body 0 >>= λ number. k (get_be32 number))
    else send_reply_session s sessionid badcmd []

-- The number is one of a connection; then `k`, else an answer with NOCONN.
abbrev pub with_conn : Surroundings → Server → ℕ → List ℕ → ℕ → (ℕ → Option Turn) → Option Turn
with_conn env s sessionid body size k = with_number s sessionid body size (λ conn_no.
    if ltb conn_no 1 || ltb env.nofconns conn_no
    then send_reply_session s sessionid noconn []
    else k conn_no)

-- `obj.name`, or zeros where there is no object.
abbrev pub shown_name : Option (ℕ × NetObj × Obj) → List ℕ
shown_name none = replicate 48 0
shown_name (some (i, r, o)) = name_array r

abbrev pub show_conn : Surroundings → Server → ℕ → ℕ → Option Turn
show_conn env s sessionid conn_no = do
  k ← get_elem? s.conns conn_no
  hit ← scan_object_by_id env.bindery.objs k.object_id
  send_reply_session s sessionid ok (
      be32 k.object_id
      ++ (be16 k.object_type ++ (shown_name hit ++ (addr_bytes k.addr ++ replicate 2 0))))

unfoldable pub send_coninfo : Surroundings → Server → ℕ → List ℕ → ℕ → Option Turn
send_coninfo env s sessionid body size =
    with_conn env s sessionid body size (show_conn env s sessionid)

module _ (stat : Str → Bool) (vols : List Volume) where
  abbrev pub kill_conn : Server → ℕ → ℕ → Option Turn
  kill_conn s sessionid conn_no = do
    k ← get_elem? s.conns conn_no
    (fds, k') ← clear stat vols k
    turn ← send_reply_session (record s { conns = set s.conns conn_no k' }) sessionid ok []
    some (record turn { closed = fds })

  unfoldable pub clear_conn : Surroundings → Server → ℕ → List ℕ → ℕ → Option Turn
  clear_conn env s sessionid body size = with_conn env s sessionid body size (kill_conn s sessionid)

-- `strcpy (conn[i]->message, msg)` in the loop: a fault where the text and its terminator do not fit.
unfoldable pub deliver : Str → List Station → Option (List Station)
deliver text [] = some []
deliver text (k ∷ ks) = do
  in_bounds (not (in_use k) || ltb (length text) max_msg_len)
  rest ← deliver text ks
  some ((if in_use k then record k { message = text } else k) ∷ rest)

-- Connection 0 is skipped.
unfoldable pub deliver_all : Str → List Station → Option (List Station)
deliver_all text [] = some []
deliver_all text (spare ∷ ks) = do rest ← deliver text ks; some (spare ∷ rest)

unfoldable pub send_broadcast : Server → ℕ → List ℕ → ℕ → Option Turn
send_broadcast s sessionid body size = do
  in_bounds (leb size datasize)
  copied ← slice body 0 size
  let msg = copied ++ replicate (datasize - size) 0
  in_bounds (has_nul msg)
  conns ← deliver_all (c_string msg) s.conns
  send_reply_session (record s { conns = conns }) sessionid ok []

abbrev pub show_session : Surroundings → Server → ℕ → ℕ → Option Turn
show_session env s sessionid sess_no = do
  session ← get_elem? s.sessions sess_no
  send_reply_session s sessionid ok
      (u8 session.status ∷ (addr_bytes session.addr ++ take 2 env.stack))

-- Session number 8 passes the test, and the read is out of bounds.
abbrev pub any_session : Surroundings → Server → ℕ → ℕ → Option Turn
any_session env s sessionid sess_no =
    if ltb max_sessions sess_no
    then send_reply_session s sessionid nosess []
    else show_session env s sessionid sess_no

unfoldable pub send_sessinfo : Surroundings → Server → ℕ → List ℕ → ℕ → Option Turn
send_sessinfo env s sessionid body size =
    with_number s sessionid body size (any_session env s sessionid)

abbrev pub show_service : Surroundings → Server → ℕ → ℕ → Option Turn
show_service env s sessionid indexno = do
  e ← get_elem? env.services indexno
  send_reply_session s sessionid ok
      (be16 e.service_type ++ (e.server_name ++ (e.net_addr ++ (e.node_addr ++ take 2 env.stack))))

abbrev pub any_service : Surroundings → Server → ℕ → ℕ → Option Turn
any_service env s sessionid indexno =
    if leb max_services indexno
    then send_reply_session s sessionid nosap []
    else show_service env s sessionid indexno

unfoldable pub send_sapinfo : Surroundings → Server → ℕ → List ℕ → ℕ → Option Turn
send_sapinfo env s sessionid body size =
    with_number s sessionid body size (any_service env s sessionid)
