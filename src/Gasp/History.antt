-- ===== src/Gasp/History.antt =====
-- src/src/server/gasp_server.c: runs of the console server, and who is authenticated after them.
use native.Mathlib.Decide.{ℕ_discrete}
use mathlib.Core.List.{Mem, mem-cons_of_mem, mem-cons_self}
use frommel.Base.{
  ℕ, ◌-◌, ◌≡◌, sym, ap, ◌∙◌, arith, Bool, true, Option, none, some, List, [], ◌∷◌, get_elem?, set,
  drop, Two, length, ◌<◌, get_elem?-replicate, ltb, get_be16, two_at, slice, Str, ◌==◌, Bool-cases,
  ◌⊎◌, inl, inr, some-injective, >>=-eq-some, if-result, find_from, get_elem?-lt, get_elem?-set_ne,
  get_elem?-set_self, length-set,
}
use frommel.Volume.{Volume}
use frommel.Station.{Station, Addr}
use frommel.Bindery.{verify_pwd}
use frommel.Gasp.{
  Session, Server, Turn, Reply, just, init, send_reply, send_reply_session, open_session,
  handle_hello, handle_auth, check_answer, authenticate, status_connected, status_unused,
  status_auth, ok, notauth, badsess, badauth, badcmd, is_unused, zero_session, max_sessions,
}
use frommel.Gasp.Info.{Surroundings}
use frommel.Gasp.Handle.{in_session, handle_packet, cmd_auth, cmd_hello}
use frommel.Gasp.Kept.{
  OpensNone, keeps-OpensNone, set-OpensNone, send_reply_session-keeps, send_reply-keeps,
}
use frommel.Gasp.Commands.{run_command-keeps}

module _ (shuffle : List ℕ → Str → List ℕ) (nw_encrypt : List ℕ → List ℕ → List ℕ)
    (stat : Str → Bool) (vols : List Volume) (env : Surroundings) where
  -- The packet carries, for session `i`, the answer that the bindery accepts for a key.
  abbrev pub Answers : List ℕ → ℕ → List ℕ → Type 0
  Answers buffer i key =
      (sessionid : Two) × (answer : List ℕ) × (two_at buffer 2 ≡ some sessionid)
      × (get_be16 sessionid ≡ i)
      × (slice (drop 6 buffer) 0 8 ≡ some answer)
      × (verify_pwd shuffle nw_encrypt env.bindery 1 answer key ≡ some true)

  -- Whoever is authenticated afterwards has been so before, or has just answered.
  abbrev pub OpensAnswered : Server → List ℕ → Turn → Type 0
  OpensAnswered s buffer turn =
      (i : ℕ) (session : Session)
      → get_elem? turn.server.sessions i ≡ some session
      → session.status ≡ status_auth
      → (get_elem? s.sessions i ≡ some session) ⊎ Answers buffer i session.key

  opens_none :
      (s : Server) (buffer : List ℕ) (turn : Turn) → OpensNone s turn → OpensAnswered s buffer turn
  opens_none s buffer turn k i session g a = inl (k i session g a)

  authenticate-opens :
      (s : Server) (buffer : List ℕ) (sessionid : Two) (session : Session) (answer : List ℕ)
      (turn : Turn)
      → two_at buffer 2 ≡ some sessionid
      → slice (drop 6 buffer) 0 8 ≡ some answer
      → verify_pwd shuffle nw_encrypt env.bindery 1 answer session.key ≡ some true
      → authenticate s (get_be16 sessionid) session ≡ some turn
      → OpensAnswered s buffer turn
  authenticate-opens s buffer sessionid session answer turn e f v h i x g a =
      let n = get_be16 sessionid in
      let opened : Session = record session { status = status_auth } in
      let s' = record s { sessions = set s.sessions n opened } in
      let now = ap (λ (r : Server). r.sessions) (send_reply_session-keeps s' n ok [] h) in
      let g' = sym (ap (λ (ss : List Session). get_elem? ss i) now) ∙ g in
      elim (ℕ_discrete n i) [
        | no p ↦ inl (sym (get_elem?-set_ne s.sessions n i opened p) ∙ g')
        | yes p ↦
            let lt : n < length s.sessions = omega (
              arith,
              get_elem?-lt (set s.sessions n opened) i g',
              length-set s.sessions n opened,
            ) in
            let same : opened ≡ x = some-injective (
              sym (get_elem?-set_self s.sessions n opened lt)
              ∙ (ap (get_elem? (set s.sessions n opened)) p ∙ g')) in
            inr (
              sessionid,
              answer,
              e,
              p,
              f,
              ap (verify_pwd shuffle nw_encrypt env.bindery 1 answer) (sym (ap Session.key same))
                  ∙ v,
            )
      ]

  handle_auth-opens :
      (s : Server) (buffer : List ℕ) (sessionid : Two) (size : ℕ) (turn : Turn)
      → two_at buffer 2 ≡ some sessionid
      → handle_auth shuffle nw_encrypt env.bindery s (get_be16 sessionid) (drop 6 buffer) size
        ≡ some turn
      → OpensAnswered s buffer turn
  unfolding handle_auth
  handle_auth-opens s buffer sessionid size turn e h =
      if-result (OpensAnswered s buffer) (size == 8) _ _ checked (refused badcmd) h
    where
      refused :
          (code : ℕ) (t : Turn)
          → send_reply_session s (get_be16 sessionid) code [] ≡ some t
          → OpensAnswered s buffer t
      refused code t h =
          opens_none s buffer t
            (keeps-OpensNone s t (send_reply-keeps s (get_be16 sessionid) code [] t h))

      checked :
          (t : Turn)
          → check_answer shuffle nw_encrypt env.bindery s (get_be16 sessionid) (drop 6 buffer)
            ≡ some t
          → OpensAnswered s buffer t
      checked t h =
          let (session, _, h1) = >>=-eq-some (get_elem? s.sessions (get_be16 sessionid)) _ h in
          let (answer, f, h2) = >>=-eq-some (slice (drop 6 buffer) 0 8) _ h1 in
          let (right, v, h3) =
            >>=-eq-some (verify_pwd shuffle nw_encrypt env.bindery 1 answer session.key) _ h2 in
          elim (Bool-cases right) [
            | inl r ↦
                authenticate-opens s buffer sessionid session answer t e f (v ∙ ap some r)
                  (rw r at h3)
            | inr r ↦ refused badauth t (rw r at h3)
          ]

  handle_hello-keeps :
      (s : Server) (sessionid : ℕ) (addr : Addr) (key : List ℕ) (turn : Turn)
      → handle_hello s sessionid addr key ≡ some turn
      → OpensNone s turn
  unfolding handle_hello
  handle_hello-keeps s sessionid addr key turn h = by_slot (find_from is_unused 0 s.sessions) h
    where
      by_slot :
          (slot : Option ℕ) → open_session s sessionid addr key slot ≡ some turn → OpensNone s turn
      by_slot none h =
          keeps-OpensNone s turn (sym (ap (λ (t : Turn). t.server.sessions) (some-injective h)))
      by_slot (some i) h =
          let session : Session = record { status = status_connected; addr = addr; key = key } in
          let s' = record s { sessions = set s.sessions i session } in
          set-OpensNone s i session turn (λ q. omega arith)
            (ap Server.sessions (send_reply_session-keeps s' i ok key h))

  pub handle_packet-opens :
      (s : Server) (key : List ℕ) (addr : Addr) (buffer : List ℕ) (size : ℕ) (turn : Turn)
      → handle_packet shuffle nw_encrypt stat vols env key s addr buffer size ≡ some turn
      → OpensAnswered s buffer turn
  unfolding handle_packet
  handle_packet-opens s key addr buffer size turn h =
      if-result (OpensAnswered s buffer) (ltb size 6) _ _ (same none)
        (λ t e.
          let (sessionid, e1, f) = >>=-eq-some (two_at buffer 2) _ e in
          let (command, _, g) = >>=-eq-some (two_at buffer 4) _ f in
          if-result (OpensAnswered s buffer) (get_be16 sessionid == 0xffff) _ _
            (λ t.
              if-result (OpensAnswered s buffer) (get_be16 command == cmd_hello) _ _
                (λ t e. opens_none s buffer t (handle_hello-keeps s 0xffff addr key t e))
                (same (send_reply addr 0xffff badsess [])))
            (in_session-opens sessionid (get_be16 command) e1) g)
        h
    where
      same : (r : Option Reply) (t : Turn) → some (just s r) ≡ some t → OpensAnswered s buffer t
      same r t e =
          opens_none s buffer t
            (keeps-OpensNone s t (sym (ap (λ (t : Turn). t.server.sessions) (some-injective e))))

      in_session-opens :
          (sessionid : Two) (command : ℕ)
          → two_at buffer 2 ≡ some sessionid
          → (t : Turn)
          → in_session shuffle nw_encrypt stat vols env s addr
              (get_be16 sessionid)
              command
              (drop 6 buffer)
              (size - 6)
            ≡ some t
          → OpensAnswered s buffer t
      in_session-opens sessionid command e t h =
          let (session, _, f) = >>=-eq-some (get_elem? s.sessions (get_be16 sessionid)) _ h in
          if-result (OpensAnswered s buffer) (session.status == status_connected) _ _
            (λ t.
              if-result (OpensAnswered s buffer) (command == cmd_auth) _ _
                (λ t g. handle_auth-opens s buffer sessionid (size - 6) t e g)
                (same (send_reply addr (get_be16 sessionid) notauth [])))
            (λ t g. opens_none s buffer t (
              run_command-keeps shuffle nw_encrypt stat vols env s addr (get_be16 sessionid) command
                (drop 6 buffer) (size - 6) t g))
            f

  -- The runs of the server from its start on, and the packets that they have met, the last one first.
  pub data Reach : List (List ℕ) → Server → Type 0 where
    start :
        (conns : List Station)
        → Reach [] (record { sessions = init; conns = conns; running = true })
    step :
        {history : List (List ℕ)} {s : Server} (key : List ℕ) (addr : Addr) (buffer : List ℕ)
        (size : ℕ) (turn : Turn)
        → Reach history s
        → s.running ≡ true
        → handle_packet shuffle nw_encrypt stat vols env key s addr buffer size ≡ some turn
        → Reach (buffer ∷ history) turn.server

  -- In every run of the console server from its start on, a session that is authenticated is one
  -- for which a packet of the run carried an answer that the bindery accepts for the key of the
  -- session.
  pub authenticated_answered :
      {history : List (List ℕ)} {s : Server} (i : ℕ) (session : Session)
      → Reach history s
      → get_elem? s.sessions i ≡ some session
      → session.status ≡ status_auth
      → (buffer : List ℕ) × Mem buffer history × Answers buffer i session.key
  unfolding init
  authenticated_answered i session (start conns) g a =
      let lt : i < max_sessions = get_elem?-lt init i g in
      let same : zero_session ≡ session =
        some-injective (sym (get_elem?-replicate max_sessions i zero_session lt) ∙ g) in
      let unused : status_unused ≡ status_auth = ap Session.status same ∙ a in absurd (omega arith)
  authenticated_answered i session (step {history} {s} key addr buffer size turn r up h) g a =
      elim (handle_packet-opens s key addr buffer size turn h i session g a) [
        | inr answers ↦ (buffer, mem-cons_self, answers)
        | inl before ↦
            let (b, m, answers) = authenticated_answered i session r before a in
            (b, mem-cons_of_mem buffer m, answers)
      ]
