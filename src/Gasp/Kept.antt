-- ===== src/Gasp/Kept.antt =====
-- src/src/server/gasp_server.c: which sessions a packet can change.
use native.Mathlib.Decide.{ℕ_discrete}
use frommel.Base.{
  ◌≢◌, ◌<◌, get_elem?-set_ne, get_elem?-set_self, get_elem?-lt, length-set, ℕ, ◌-◌, ◌≡◌, sym, ap,
  ◌∙◌, arith, Bool, Option, some, List, [], get_elem?, set, ◌>>=◌, ltb, get_be32, four_at, slice,
  Str, ◌==◌, ◌||◌, some-injective, >>=-eq-some, if-result, in_bounds, leb, length, has_nul,
  c_string, replicate, ◌++◌,
}
use frommel.Volume.{Volume}
use frommel.Conn.{clear}
use frommel.BinderyIo.{scan_object_by_id}
use frommel.Sap.{max_services}
use frommel.Gasp.{
  Session, Server, Turn, send_reply_session, status_auth, ok, badcmd, noconn, nosess, nosap,
  datasize, max_sessions,
}
use frommel.Gasp.Info.{
  Surroundings, send_broadcast, with_number, with_conn, deliver_all, show_conn, kill_conn,
  any_session, show_session, any_service, show_service,
}

pub send_reply_session-keeps :
    (s : Server) (sessionid code : ℕ) (body : List ℕ) {turn : Turn}
    → send_reply_session s sessionid code body ≡ some turn
    → turn.server ≡ s
unfolding send_reply_session
send_reply_session-keeps s sessionid code body h =
    let (session, _, e) = >>=-eq-some (get_elem? s.sessions sessionid) _ h in
    ap Turn.server (sym (some-injective e))

pub with_number-keeps :
    (P : Turn → Type 0) (s : Server) (sessionid : ℕ) (body : List ℕ) (size : ℕ)
    (k : ℕ → Option Turn) {turn : Turn}
    → ((n : ℕ) (t : Turn) → k n ≡ some t → P t)
    → ((t : Turn) → t.server ≡ s → P t)
    → with_number s sessionid body size k ≡ some turn
    → P turn
with_number-keeps P s sessionid body size k hk hs h =
    if-result P (size == 4) (four_at body 0 >>= λ number. k (get_be32 number))
      (send_reply_session s sessionid badcmd [])
      (λ t e. let (number, _, f) = >>=-eq-some (four_at body 0) _ e in hk (get_be32 number) t f)
      (λ t e. hs t (send_reply_session-keeps s sessionid badcmd [] e)) h

pub with_conn-keeps :
    (P : Turn → Type 0) (env : Surroundings) (s : Server) (sessionid : ℕ) (body : List ℕ) (size : ℕ)
    (k : ℕ → Option Turn) {turn : Turn}
    → ((n : ℕ) (t : Turn) → k n ≡ some t → P t)
    → ((t : Turn) → t.server ≡ s → P t)
    → with_conn env s sessionid body size k ≡ some turn
    → P turn
with_conn-keeps P env s sessionid body size k hk hs h =
    with_number-keeps P s sessionid body size _
      (λ n t e.
        if-result P (ltb n 1 || ltb env.nofconns n) (send_reply_session s sessionid noconn []) (k n)
          (λ t e. hs t (send_reply_session-keeps s sessionid noconn [] e)) (hk n) e)
      hs h

module _ (s : Server) where
  -- The sessions are as they were.
  abbrev pub KeepsSessions : Turn → Type 0
  KeepsSessions turn = turn.server.sessions ≡ s.sessions

  pub replied : (turn : Turn) → turn.server ≡ s → KeepsSessions turn
  replied turn e = ap Server.sessions e

  pub send_reply-keeps :
      (sessionid code : ℕ) (body : List ℕ) (turn : Turn)
      → send_reply_session s sessionid code body ≡ some turn
      → KeepsSessions turn
  send_reply-keeps sessionid code body turn e =
      replied turn (send_reply_session-keeps s sessionid code body e)

  pub show_conn-keeps :
      (env : Surroundings) (sessionid n : ℕ) (turn : Turn)
      → show_conn env s sessionid n ≡ some turn
      → KeepsSessions turn
  show_conn-keeps env sessionid n t e =
      let (k, _, f) = >>=-eq-some (get_elem? s.conns n) _ e in
      let (hit, _, g) = >>=-eq-some (scan_object_by_id env.bindery.objs k.object_id) _ f in
      send_reply-keeps sessionid ok _ t g

  pub kill_conn-keeps :
      (stat : Str → Bool) (vols : List Volume) (sessionid n : ℕ) (turn : Turn)
      → kill_conn stat vols s sessionid n ≡ some turn
      → KeepsSessions turn
  kill_conn-keeps stat vols sessionid n turn e =
      let (k, _, f) = >>=-eq-some (get_elem? s.conns n) _ e in
      let ((fds, k'), _, g) = >>=-eq-some (clear stat vols k) _ f in
      let s' = record s { conns = set s.conns n k' } in
      let (turn', e', g') = >>=-eq-some (send_reply_session s' sessionid ok []) _ g in
      ap (λ (t : Turn). t.server.sessions) (sym (some-injective g'))
      ∙ ap Server.sessions (send_reply_session-keeps s' sessionid ok [] e')

  pub send_broadcast-keeps :
      (sessionid : ℕ) (body : List ℕ) (size : ℕ) (turn : Turn)
      → send_broadcast s sessionid body size ≡ some turn
      → KeepsSessions turn
  unfolding send_broadcast
  send_broadcast-keeps sessionid body size turn h =
      let (_, _, h1) = >>=-eq-some (in_bounds (leb size datasize)) _ h in
      let (copied, _, h2) = >>=-eq-some (slice body 0 size) _ h1 in
      let msg = copied ++ replicate (datasize - size) 0 in
      let (_, _, h3) = >>=-eq-some (in_bounds (has_nul msg)) _ h2 in
      let (conns, _, h4) = >>=-eq-some (deliver_all (c_string msg) s.conns) _ h3 in
      ap Server.sessions (send_reply_session-keeps (record s { conns = conns }) sessionid ok [] h4)

  pub any_session-keeps :
      (env : Surroundings) (sessionid n : ℕ) (turn : Turn)
      → any_session env s sessionid n ≡ some turn
      → KeepsSessions turn
  any_session-keeps env sessionid n turn e =
      if-result KeepsSessions (ltb max_sessions n) (send_reply_session s sessionid nosess [])
        (show_session env s sessionid n) (send_reply-keeps sessionid nosess [])
        (λ t e.
          let (session, _, f) = >>=-eq-some (get_elem? s.sessions n) _ e in
          send_reply-keeps sessionid ok _ t f)
        e

  pub any_service-keeps :
      (env : Surroundings) (sessionid n : ℕ) (turn : Turn)
      → any_service env s sessionid n ≡ some turn
      → KeepsSessions turn
  any_service-keeps env sessionid n turn e =
      if-result KeepsSessions (leb max_services n) (send_reply_session s sessionid nosap [])
        (show_service env s sessionid n) (send_reply-keeps sessionid nosap [])
        (λ t e.
          let (x, _, f) = >>=-eq-some (get_elem? env.services n) _ e in
          send_reply-keeps sessionid ok _ t f)
        e

  -- Whoever is authenticated afterwards has been so before, as the same session.
  abbrev pub OpensNone : Turn → Type 0
  OpensNone turn =
      (i : ℕ) (session : Session)
      → get_elem? turn.server.sessions i ≡ some session
      → session.status ≡ status_auth
      → get_elem? s.sessions i ≡ some session

  pub keeps-OpensNone : (turn : Turn) → KeepsSessions turn → OpensNone turn
  keeps-OpensNone turn e i session g a = sym (ap (λ (ss : List Session). get_elem? ss i) e) ∙ g

-- A slot that is written with a session that is not authenticated.
pub set-OpensNone :
    (s : Server) (i : ℕ) (session : Session) (turn : Turn)
    → session.status ≢ status_auth
    → turn.server.sessions ≡ set s.sessions i session
    → OpensNone s turn
set-OpensNone s i session turn na e j x g a =
    let g' = sym (ap (λ (ss : List Session). get_elem? ss j) e) ∙ g in
    elim (ℕ_discrete i j) [
      | no p ↦ sym (get_elem?-set_ne s.sessions i j session p) ∙ g'
      | yes p ↦
          let lt : i < length s.sessions = omega (
            arith,
            get_elem?-lt (set s.sessions i session) j g',
            length-set s.sessions i session,
          ) in
          let same : session ≡ x = some-injective (
            sym (get_elem?-set_self s.sessions i session lt)
            ∙ (ap (get_elem? (set s.sessions i session)) p ∙ g')) in
          absurd (na (ap Session.status same ∙ a))
    ]
