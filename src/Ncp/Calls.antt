-- ===== src/Ncp/Calls.antt =====
-- src/src/server/ncp_23.c: the dispatch of function 23. The subfunctions are told apart by what they may
-- change: nothing, the bindery, or connections.
use frommel.Base.{
  ℕ, ◌==◌, Bool, Option, none, some, List, [], ◌∷◌, get_elem?, map, drop, if◌then◌else◌, ◌>>=◌, Str,
  two_at,
}
use frommel.Volume.{Volume}
use frommel.Station.{Station}
use frommel.BinderyIo.{Bindery}
use frommel.Ncp.Messages.{sub_size}
use frommel.Ncp.Fields.{Reply, Site, Handled, complete}
use frommel.Ncp.About.{
  handle_server_info, handle_serialno, handle_fsdesc, handle_getloginstat, handle_downserver,
}
use frommel.Ncp.Objects.{
  handle_getobjid, handle_getobjname, handle_scanobj, handle_createobj, handle_deleteobj,
}
use frommel.Ncp.Values.{handle_createprop, handle_scanproperty, handle_readprop, handle_writeprop}
use frommel.Ncp.Groups.{
  handle_addobjtoset, handle_deleteobjfromset, handle_isobjinset, handle_accesslevel,
  handle_objaccesslevel, handle_ismanager, handle_consoleprivs, handle_openbindery,
  handle_scanobjtrusteepaths,
}
use frommel.Ncp.Keys.{
  with_station, handle_loginkey, handle_keyedlogin, handle_keyedverifypwd, handle_keyedchangepwd,
}
use frommel.Ncp.Stations.{
  handle_getloggedinfo, handle_getloggedinfo2, handle_getinteraddr, get_interaddr_old,
  get_connlist_old, handle_getobjconnlist, handle_broadcast_old, handle_clearconn,
}

-- What has been done where nothing is changed, and where the bindery is.
abbrev pub told : List Station → Bindery → Reply → Handled
told conns b reply = record { replies = reply ∷ []; closed = []; conns = conns; bindery = b }

abbrev pub edited : List Station → ℕ × Bindery → Handled
edited conns (code, b) = record {
  replies = complete code ∷ [];
  closed = [];
  conns = conns;
  bindery = b;
}

-- The first of the three that knows the subfunction, or else the last one.
abbrev pub settle :
    List Station
    → Bindery
    → Option (Option Reply)
    → Option (Option Reply)
    → Option (Option (ℕ × Bindery))
    → Option Handled
    → Option Handled
settle conns b (some asked) others edits changed = asked >>= λ reply. some (told conns b reply)
settle conns b none (some asked) edits changed = asked >>= λ reply. some (told conns b reply)
settle conns b none none (some edits) changed = edits >>= λ done. some (edited conns done)
settle conns b none none none changed = changed

module _ (shuffle : List ℕ → Str → List ℕ)
    (nw_encrypt nw_decrypt_newpass : List ℕ → List ℕ → List ℕ) (stat : Str → Bool)
    (vols : List Volume) (env : Site) where
  -- The questions about connections and the server; `none` for any other number.
  abbrev pub question : List Station → Bindery → Station → ℕ → List ℕ → ℕ → Option (Option Reply)
  question conns b k sub_func body size =
      if sub_func == 17
      then some (handle_server_info env conns size)
      else if sub_func == 18
      then some (handle_serialno env size)
      else if sub_func == 19
      then some (get_interaddr_old env conns body size)
      else if sub_func == 21
      then some (get_connlist_old env conns b body size)
      else if sub_func == 22
      then some (handle_getloggedinfo2 env conns b body size)
      else if sub_func == 26
      then some (handle_getinteraddr body size)
      else if sub_func == 27
      then some (handle_getobjconnlist conns b body size)
      else if sub_func == 28
      then some (handle_getloggedinfo env conns b body size)
      else if sub_func == 201
      then some (handle_fsdesc size)
      else if sub_func == 205
      then some (handle_getloginstat env size)
      else if sub_func == 211
      then some (handle_downserver b k body size)
      else none

  -- The questions about the bindery.
  abbrev pub bindery_question : Bindery → Station → ℕ → List ℕ → ℕ → Option (Option Reply)
  bindery_question b k sub_func body size =
      if sub_func == 53
      then some (handle_getobjid b body size)
      else if sub_func == 54
      then some (handle_getobjname b k body size)
      else if sub_func == 55
      then some (handle_scanobj b body size)
      else if sub_func == 60
      then some (handle_scanproperty body size)
      else if sub_func == 61
      then some (handle_readprop b k body size)
      else if sub_func == 67
      then some (handle_isobjinset b k body)
      else if sub_func == 68
      then some (handle_openbindery k size)
      else if sub_func == 69
      then some (handle_openbindery k size)
      else if sub_func == 70
      then some (handle_accesslevel k size)
      else if sub_func == 71
      then some (handle_scanobjtrusteepaths b k body size)
      else if sub_func == 72
      then some (handle_objaccesslevel b k body size)
      else if sub_func == 73
      then some (handle_ismanager b k size)
      else if sub_func == 74
      then some (handle_keyedverifypwd shuffle nw_encrypt nw_decrypt_newpass b k body size)
      else if sub_func == 200
      then some (handle_consoleprivs env b k size)
      else none

  -- What edits the bindery, and answers with a code.
  abbrev pub edit : Bindery → Station → ℕ → List ℕ → ℕ → Option (Option (ℕ × Bindery))
  edit b k sub_func body size =
      if sub_func == 50
      then some (handle_createobj env b k body size)
      else if sub_func == 51
      then some (handle_deleteobj env b k body size)
      else if sub_func == 57
      then some (handle_createprop env b k body size)
      else if sub_func == 62
      then some (handle_writeprop env b k body size)
      else if sub_func == 65
      then some (handle_addobjtoset env b k body)
      else if sub_func == 66
      then some (handle_deleteobjfromset env b k body)
      else none

  abbrev pub change_password : List Station → Bindery → Station → List ℕ → ℕ → Option Handled
  change_password conns b k body size = do
    (codes, b') ← handle_keyedchangepwd shuffle nw_encrypt nw_decrypt_newpass env b k body size
    some (record { replies = map complete codes; closed = []; conns = conns; bindery = b' })

  abbrev pub login : List Station → Bindery → ℕ → Station → List ℕ → ℕ → Option Handled
  login conns b c k body size = do
    (k', reply) ← handle_keyedlogin shuffle nw_encrypt nw_decrypt_newpass b k body size
    some (with_station conns b c k' reply)

  abbrev pub broadcast : List Station → Bindery → Station → List ℕ → ℕ → Option Handled
  broadcast conns b k body size = do
    (conns', reply) ← handle_broadcast_old env conns b k body size
    some (told conns' b reply)

  abbrev pub clearing : List Station → Bindery → Station → List ℕ → ℕ → Option Handled
  clearing conns b k body size = do
    (fds, conns', reply) ← handle_clearconn stat vols conns k body size
    some (record (told conns' b reply) { closed = fds })

  abbrev pub change : List Station → Bindery → ℕ → Station → ℕ → List ℕ → ℕ → Option Handled
  change conns b c k sub_func body size =
      if sub_func == 23
      then handle_loginkey env conns b c k size
      else if sub_func == 24
      then login conns b c k body size
      else if sub_func == 75
      then change_password conns b k body size
      else if sub_func == 209
      then broadcast conns b k body size
      else if sub_func == 210
      then clearing conns b k body size
      else some (told conns b (complete 0xff))

  abbrev pub subfunction : List Station → Bindery → ℕ → Station → ℕ → List ℕ → ℕ → Option Handled
  subfunction conns b c k sub_func body size =
      settle conns b (question conns b k sub_func body size)
        (bindery_question b k sub_func body size) (edit b k sub_func body size)
        (change conns b c k sub_func body size)

  unfoldable pub handle_r23 : List Station → Bindery → ℕ → List ℕ → ℕ → Option Handled
  handle_r23 conns b c body size = do
    k ← get_elem? conns c
    sub_func ← get_elem? body 2
    stated ← two_at body 0
    subfunction conns b c k sub_func (drop 3 body) (sub_size stated size)
