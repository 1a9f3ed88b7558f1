-- ===== src/Ncp/Stations.antt =====
-- src/src/server/ncp_23.c: who is logged in where, messages to connections, and clearing them.
use frommel.Base.{
  ℕ, zero, suc, ◌+◌, ◌^◌, ◌==◌, ◌&&◌, Bool, not, Option, none, some, List, [], ◌∷◌, ◌++◌, get_elem?,
  set, take, drop, map, replicate, length, if◌then◌else◌, ◌>>=◌, ◌>>◌, in_bounds, ltb, leb, Str,
  be16, be32, le32, u8, u32, get_be32, four_at, has_nul, c_string, slice,
}
use frommel.Volume.{Volume}
use frommel.Station.{Station, in_use}
use frommel.Conn.{clear}
use frommel.BinderyIo.{Bindery, NetObj, Obj, scan_object, scan_object_by_id}
use frommel.BinderyIo.Store.{no_such_object}
use frommel.Bindery.{is_operator}
use frommel.Gasp.Info.{shown_name, addr_bytes}
use frommel.Ncp.Messages.{message_at}
use frommel.Ncp.Fields.{
  Reply, Site, Tm, complete, require, wrong_length, be16_at, be32_at, text_field,
}

-- `CONN_ERROR_FAILURE` and `CONN_ERROR_NOCONSRIGHTS`
abbrev pub failure : ℕ
failure = 0xff

abbrev pub no_console_rights : ℕ
no_console_rights = 0xc6

abbrev pub tm_bytes : Tm → List ℕ
tm_bytes t =
    u8 t.year
    ∷ u8 (t.month + 1)
    ∷ u8 t.day
    ∷ u8 t.hour
    ∷ u8 t.minute
    ∷ u8 t.second
    ∷ u8 t.dayofweek
    ∷ []

-- `NCP_STATIONINFO`
unfoldable pub handle_loggedinfo : Site → List Station → Bindery → ℕ → Option Reply
handle_loggedinfo env conns b conn_no = do
  k ← get_elem? conns conn_no
  hit ← scan_object_by_id b.objs k.object_id
  some (
    0,
    be32 k.object_id
        ++ (be16 k.object_type
            ++ (take 47 (shown_name hit)
                ++ (0 ∷ [])
                ++ (tm_bytes (env.localtime k.login_time) ++ 0 ∷ []))),
  )

-- `CONN_RANGE_OK`
abbrev pub range_ok : Site → ℕ → Bool
range_ok env c = ltb 0 c && leb c env.nofconns

abbrev pub info_in_range : Site → List Station → Bindery → ℕ → Option Reply
info_in_range env conns b conn_no =
    if range_ok env conn_no then handle_loggedinfo env conns b conn_no else some (complete failure)

unfoldable pub handle_getloggedinfo : Site → List Station → Bindery → List ℕ → ℕ → Option Reply
handle_getloggedinfo env conns b body size =
    let asked : Option Reply = do
      f ← four_at body 0
      info_in_range env conns b (get_be32 (record { b0 = f.b3; b1 = f.b2; b2 = f.b1; b3 = f.b0 }))
    in require (size == 5) wrong_length asked

unfoldable pub handle_getloggedinfo2 : Site → List Station → Bindery → List ℕ → ℕ → Option Reply
handle_getloggedinfo2 env conns b body size =
    require (size == 2) wrong_length (get_elem? body 0 >>= info_in_range env conns b)

-- The address is not filled in.
unfoldable pub handle_getinteraddr : List ℕ → ℕ → Option Reply
handle_getinteraddr body size =
    let told : Option Reply = do conn_no ← be32_at body 0; some (0, replicate 12 0 ++ 2 ∷ [])
    in require (size == 5) wrong_length told

-- The socket is what stood on the stack.
unfoldable pub get_interaddr_old : Site → List Station → List ℕ → ℕ → Option Reply
get_interaddr_old env conns body size =
    let told : Option Reply = do
      i ← get_elem? body 0
      k ← get_elem? conns i
      some (0, addr_bytes k.addr ++ take 2 env.stack)
    in require (size == 2) wrong_length told

-- The numbers of the connections that pass a test, the first one being number `i`.
unfoldable pub numbers_of : (Station → Bool) → ℕ → List Station → List ℕ
numbers_of test i [] = []
numbers_of test i (k ∷ ks) =
    let later = numbers_of test (suc i) ks in if test k then i ∷ later else later

abbrev pub be32_list : List ℕ → List ℕ
be32_list [] = []
be32_list (n ∷ ns) = be32 n ++ be32_list ns

-- The loop stores its numbers from byte 0 on, and then the count over the first byte of the first one. The
-- last byte that is sent has not been written.
abbrev pub connlist : Site → List Station → ℕ → Option (ℕ × NetObj × Obj) → Reply
connlist env conns obj_type none = complete no_such_object
connlist env conns obj_type (some (i, r, o)) =
    let found =
      take 31
        (numbers_of (λ k. k.object_id == o.id && k.object_type == obj_type) 1 (drop 1 conns)) in
    (0, set (be32_list found ++ take 1 env.stack) 0 (length found))

unfoldable pub get_connlist_old : Site → List Station → Bindery → List ℕ → ℕ → Option Reply
get_connlist_old env conns b body size =
    let listed : Option Reply = do
      obj_type ← be16_at body 0
      obj_len ← get_elem? body 2
      obj_name ← text_field body 3 obj_len
      hit ← scan_object b.objs obj_name obj_type
      some (connlist env conns obj_type hit)
    in require (not (ltb size 5)) wrong_length listed

-- `n` times the id of the object, its lowest byte first
abbrev pub le32_times : ℕ → ℕ → List ℕ
le32_times zero id = []
le32_times (suc n) id = le32 id ++ le32_times n id

-- Each connection of the object from number `start` on, 30 at most, stands in the list as the id of the
-- object. A negative start is an access out of bounds.
abbrev pub objconnlist : List Station → ℕ → Option (ℕ × NetObj × Obj) → Option Reply
objconnlist conns start none = some (complete no_such_object)
objconnlist conns start (some (i, r, o)) = do
  in_bounds (ltb start (2 ^ 31))
  let n = length (take 30 (numbers_of (λ k. k.object_id == o.id) start (drop start conns)))
  some (0, n ∷ le32_times n o.id)

unfoldable pub handle_getobjconnlist : List Station → Bindery → List ℕ → ℕ → Option Reply
handle_getobjconnlist conns b body size =
    let listed : Option Reply = do
      con_no ← be32_at body 0
      obj_type ← be16_at body 4
      obj_len ← get_elem? body 6
      obj_name ← text_field body 7 obj_len
      hit ← scan_object b.objs obj_name obj_type
      objconnlist conns (u32 (con_no + 1)) hit
    in require (not (ltb size 8)) wrong_length listed

-- `strcpy (conn[st]->message, message)` for each station of the list.
unfoldable pub message_to : Str → List ℕ → List Station → Option (List Station)
message_to text [] conns = some conns
message_to text (st ∷ sts) conns = do
  k ← get_elem? conns st
  message_to text sts (set conns st (record k { message = text }))

abbrev pub put_message : Str → Station → Station
put_message text k = record k { message = text }

-- All connections from number 1 on, if the sender is in use and takes messages.
abbrev pub message_to_all : Str → Station → List Station → List Station
message_to_all text k [] = []
message_to_all text k (spare ∷ conns) =
    if in_use k && not (k.message_ok == 0)
    then spare ∷ map (put_message text) conns
    else spare ∷ conns

abbrev pub send_to : List ℕ → List ℕ → Station → List Station → Option (List Station × Reply)
send_to message stations k conns =
    let text = c_string message in
    in_bounds (has_nul message) >> elim stations [
      | [] ↦ some (message_to_all text k conns, complete 0)
      | st ∷ sts ↦ message_to text (st ∷ sts) conns >>= λ conns'. some (conns', complete 0)
    ]

-- The connections after the call, and the reply.
unfoldable pub handle_broadcast_old :
    Site → List Station → Bindery → Station → List ℕ → ℕ → Option (List Station × Reply)
handle_broadcast_old env conns b k body size =
    let parsed : Option (List Station × Reply) = do
      nofstations ← get_elem? body 0
      stations ← slice body 1 nofstations
      messagelen ← get_elem? body (1 + nofstations)
      message ← message_at body (2 + nofstations) messagelen
      operator ← is_operator b env.servername k
      (if operator
          then send_to message stations k conns
          else some (conns, complete no_console_rights))
    in require (not (ltb size 5)) (conns, wrong_length) parsed

module _ (stat : Str → Bool) (vols : List Volume) where
  abbrev pub clear_number : List Station → ℕ → Option (List ℕ × List Station × Reply)
  clear_number conns con_no = do
    victim ← get_elem? conns con_no
    (fds, zeroed) ← clear stat vols victim
    some (fds, set conns con_no zeroed, complete 0)

  -- The descriptors that are closed, the connections after the call, and the reply.
  unfoldable pub handle_clearconn :
      List Station → Station → List ℕ → ℕ → Option (List ℕ × List Station × Reply)
  handle_clearconn conns k body size =
      let cleared : Option (List ℕ × List Station × Reply) = do
        con_no ← get_elem? body 0
        (if k.object_supervisor == 0
            then some ([], conns, complete no_console_rights)
            else clear_number conns con_no)
      in require (size == 2) ([], conns, wrong_length) cleared
