-- ===== src/Gasp/Commands.antt =====
-- src/src/server/gasp_server.c: no command authenticates a session.
use frommel.Base.{
  ℕ, ◌≡◌, refl, sym, ap, ◌∙◌, arith, Bool, false, Option, some, List, [], get_elem?, set, ◌>>=◌,
  if◌then◌else◌, Str, ◌==◌, some-injective, >>=-eq-some, if-result,
}
use frommel.Volume.{Volume}
use frommel.Station.{Addr}
use frommel.Gasp.{Server, Turn, Reply, just, send_reply, status_unused, ok, unknowncmd}
use frommel.Gasp.Info.{
  Surroundings, send_serverinfo, send_coninfo, clear_conn, send_sessinfo, send_sapinfo,
}
use frommel.Gasp.Handle.{
  run_command, cmd_discon, cmd_lenable, cmd_ldisable, cmd_broadcast, cmd_down, cmd_getinfo,
  cmd_getconn, cmd_clearconn, cmd_getsess, cmd_getsapinfo,
}
use frommel.Gasp.Kept.{
  OpensNone, keeps-OpensNone, set-OpensNone, with_conn-keeps, with_number-keeps, show_conn-keeps,
  kill_conn-keeps, send_broadcast-keeps, any_session-keeps, any_service-keeps, replied,
  KeepsSessions, send_reply-keeps,
}

module _ (env : Surroundings) (s : Server) (sessionid : ℕ) (body : List ℕ) (size : ℕ)
    (turn : Turn) where
  send_coninfo-keeps : send_coninfo env s sessionid body size ≡ some turn → KeepsSessions s turn
  unfolding send_coninfo
  send_coninfo-keeps e =
      with_conn-keeps (KeepsSessions s) env s sessionid body size _
        (show_conn-keeps s env sessionid) (replied s) e

  send_sessinfo-keeps : send_sessinfo env s sessionid body size ≡ some turn → KeepsSessions s turn
  unfolding send_sessinfo
  send_sessinfo-keeps e =
      with_number-keeps (KeepsSessions s) s sessionid body size _
        (any_session-keeps s env sessionid) (replied s) e

  send_sapinfo-keeps : send_sapinfo env s sessionid body size ≡ some turn → KeepsSessions s turn
  unfolding send_sapinfo
  send_sapinfo-keeps e =
      with_number-keeps (KeepsSessions s) s sessionid body size _
        (any_service-keeps s env sessionid) (replied s) e

clear_conn-keeps :
    (stat : Str → Bool) (vols : List Volume) (env : Surroundings) (s : Server) (sessionid : ℕ)
    (body : List ℕ) (size : ℕ) (turn : Turn)
    → clear_conn stat vols env s sessionid body size ≡ some turn
    → KeepsSessions s turn
unfolding clear_conn
clear_conn-keeps stat vols env s sessionid body size turn e =
    with_conn-keeps (KeepsSessions s) env s sessionid body size _
      (kill_conn-keeps s stat vols sessionid) (replied s) e

-- The part of the switch that answers questions, and clears.
abbrev questions :
    (Str → Bool) → List Volume → Surroundings → Server → Addr → ℕ → ℕ → List ℕ → ℕ → Option Turn
questions stat vols env s addr sessionid command body size =
    if command == cmd_getinfo
    then send_serverinfo env s sessionid
    else if command == cmd_getconn
    then send_coninfo env s sessionid body size
    else if command == cmd_clearconn
    then clear_conn stat vols env s sessionid body size
    else if command == cmd_getsess
    then send_sessinfo env s sessionid body size
    else if command == cmd_getsapinfo
    then send_sapinfo env s sessionid body size
    else some (just s (send_reply addr sessionid unknowncmd []))

module _ (shuffle : List ℕ → Str → List ℕ) (nw_encrypt : List ℕ → List ℕ → List ℕ)
    (stat : Str → Bool) (vols : List Volume) (env : Surroundings) where
  pub run_command-keeps :
      (s : Server) (addr : Addr) (sessionid command : ℕ) (body : List ℕ) (size : ℕ) (turn : Turn)
      → run_command shuffle nw_encrypt stat vols env s addr sessionid command body size ≡ some turn
      → OpensNone s turn
  unfolding run_command send_serverinfo
  run_command-keeps s addr sessionid command body size turn h =
      if-result (OpensNone s) (command == cmd_discon) _ _ left
        (λ t. if-result (OpensNone s) (command == cmd_lenable) _ _ (same s refl) (λ t.
          if-result (OpensNone s) (command == cmd_ldisable) _ _ (same s refl) (λ t.
            if-result (OpensNone s) (command == cmd_broadcast) _ _
              (λ t e. kept t (send_broadcast-keeps s sessionid body size t e))
              (λ t.
                if-result (OpensNone s) (command == cmd_down) _ _
                  (same (record s { running = false }) refl) (λ t. asks t)))))
        h
    where
      kept : (t : Turn) → KeepsSessions s t → OpensNone s t
      kept t = keeps-OpensNone s t

      same :
          (s' : Server) {r : Option Reply}
          → s'.sessions ≡ s.sessions
          → (t : Turn) → some (just s' r) ≡ some t
          → OpensNone s t
      same s' k t e = kept t (sym (ap (λ (t : Turn). t.server.sessions) (some-injective e)) ∙ k)

      asks :
          (t : Turn)
          → questions stat vols env s addr sessionid command body size ≡ some t
          → OpensNone s t
      asks t =
          if-result (OpensNone s) (command == cmd_getinfo) _ _
            (λ t e. kept t (send_reply-keeps s sessionid ok _ t e))
            (λ t.
              if-result (OpensNone s) (command == cmd_getconn) _ _
                (λ t e. kept t (send_coninfo-keeps env s sessionid body size t e))
                (λ t.
                  if-result (OpensNone s) (command == cmd_clearconn) _ _
                    (λ t e. kept t (clear_conn-keeps stat vols env s sessionid body size t e))
                    (λ t.
                      if-result (OpensNone s) (command == cmd_getsess) _ _
                        (λ t e. kept t (send_sessinfo-keeps env s sessionid body size t e))
                        (λ t.
                          if-result (OpensNone s) (command == cmd_getsapinfo) _ _
                            (λ t e. kept t (send_sapinfo-keeps env s sessionid body size t e))
                            (same s refl)))))

      left :
          (t : Turn)
          → (get_elem? s.sessions sessionid >>= λ session. some (
              just
                (record s {
                  sessions = set s.sessions sessionid (record session { status = status_unused });
                })
                (send_reply addr sessionid ok [])))
            ≡ some t
          → OpensNone s t
      left t e =
          let (session, _, f) = >>=-eq-some (get_elem? s.sessions sessionid) _ e in
          set-OpensNone s sessionid (record session { status = status_unused }) t (λ q. omega arith)
            (sym (ap (λ (t : Turn). t.server.sessions) (some-injective f)))
