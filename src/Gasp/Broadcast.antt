-- ===== src/Gasp/Broadcast.antt =====
-- src/src/server/gasp_server.c: the broadcast of a message to the connections.
use frommel.Base.{
  ℕ, zero, suc, ◌+◌, ◌-◌, ◌≤◌, ◌<◌, ◌≡◌, refl, ap, ◌∙◌, arith, true, false, not, ◌||◌, none, some,
  List, [], ◌∷◌, ◌++◌, get_elem?, take, replicate, if◌then◌else◌, ltb, leb, slice, Str, Bool-cases,
  length-take, inl, inr, length, some-injective, has_nul, c_string,
}
use frommel.Station.{Station, in_use, max_msg_len}
use frommel.Gasp.{Session, Server, Turn, just, send_reply, send_reply_session, ok, datasize}
use frommel.Gasp.Info.{deliver, deliver_all, send_broadcast}

-- A text of less than 128 bytes is delivered to every connection that is in use.
deliver_lem :
    (text : Str) (ks : List Station)
    → length text < max_msg_len
    → (ks' : List Station) × (deliver text ks ≡ some ks')
      × (length ks' ≡ length ks)
      × ((j : ℕ) (k : Station)
          → get_elem? ks j ≡ some k
          → get_elem? ks' j ≡ some (if in_use k then record k { message = text } else k))
unfolding deliver
deliver_lem text [] h = ([], refl, refl, λ j k g. cc)
deliver_lem text (k ∷ ks) h =
    let (ks', e, l, f) = deliver_lem text ks h in
    let k' : Station = if in_use k then record k { message = text } else k in
    let fits : (not (in_use k) || ltb (length text) max_msg_len) ≡ true = ground arith in
    (k' ∷ ks', rw (fits, e) refl, ap suc l, at_each k' ks' refl f)
  where
    at_each :
        (k' : Station) (ks' : List Station)
        → k' ≡ (if in_use k then record k { message = text } else k)
        → ((j : ℕ) (x : Station)
            → get_elem? ks j ≡ some x
            → get_elem? ks' j ≡ some (if in_use x then record x { message = text } else x))
        → (j : ℕ) (x : Station) → get_elem? (k ∷ ks) j ≡ some x
        → get_elem? (k' ∷ ks') j ≡ some (if in_use x then record x { message = text } else x)
    at_each k' ks' e f zero x g = ap some (
        e
        ∙ ap (λ (y : Station). if in_use y then record y { message = text } else y)
            (some-injective g))
    at_each k' ks' e f (suc j) x g = f j x g

-- A longer one runs over the message of the first of them.
deliver-overflow :
    (text : Str) (ks : List Station) (j : ℕ) {k : Station}
    → max_msg_len ≤ length text
    → get_elem? ks j ≡ some k
    → in_use k ≡ true
    → deliver text ks ≡ none
unfolding deliver
deliver-overflow text [] j h g u = cc
deliver-overflow text (x ∷ ks) zero {k} h g u =
    let used = ap in_use (some-injective g) ∙ u in
    let long : ltb (length text) max_msg_len ≡ false = ground arith in rw (used, long) refl
deliver-overflow text (x ∷ ks) (suc j) {k} h g u =
    let rest = deliver-overflow text ks j {k = k} h g u in
    elim (Bool-cases (not (in_use x) || ltb (length text) max_msg_len)) [
      | inl t ↦ rw (t, rest) refl
      | inr f ↦ rw f refl
    ]

deliver_all-overflow :
    (text : Str) (conns : List Station) (c : ℕ) {k : Station}
    → max_msg_len ≤ length text
    → 0 < c
    → get_elem? conns c ≡ some k
    → in_use k ≡ true
    → deliver_all text conns ≡ none
unfolding deliver_all
deliver_all-overflow text [] c h pos g u = cc
deliver_all-overflow text (spare ∷ ks) zero h pos g u = absurd (omega arith)
deliver_all-overflow text (spare ∷ ks) (suc j) {k} h pos g u =
    rw (deliver-overflow text ks j {k = k} h g u) refl

pub has_nul-padded : (xs : List ℕ) (n : ℕ) → 0 < n → has_nul (xs ++ replicate n 0) ≡ true
has_nul-padded [] zero h = absurd (omega arith)
has_nul-padded [] (suc n) h = refl
has_nul-padded (x ∷ xs) n h = ground (arith, has_nul-padded xs n h)

pub c_string-padded : (xs : List ℕ) (n : ℕ) → length (c_string (xs ++ replicate n 0)) ≤ length xs
c_string-padded [] zero = omega arith
c_string-padded [] (suc n) = omega arith
c_string-padded (x ∷ xs) n = ground (arith, c_string-padded xs n)

-- The text that is sent: the bytes of the request, and zeros behind them.
abbrev pub message_of : List ℕ → ℕ → Str
message_of body size = c_string (take size body ++ replicate (datasize - size) 0)

-- A broadcast of less than 128 bytes, which the packet holds, on a session of the table goes
-- through without a fault: every connection from number 1 on that is in use gets the text before
-- the first 0, and nothing else of the server changes.
pub send_broadcast_lem :
    (s : Server) (sessionid : ℕ) (body : List ℕ) (size : ℕ) (session : Session) (spare : Station)
    (ks : List Station)
    → size < max_msg_len
    → size ≤ length body
    → get_elem? s.sessions sessionid ≡ some session
    → s.conns ≡ spare ∷ ks
    → (turn : Turn) × (ks' : List Station) × (send_broadcast s sessionid body size ≡ some turn)
      × (turn.server ≡ record s { conns = spare ∷ ks' })
      × (length ks' ≡ length ks)
      × ((j : ℕ) (k : Station)
          → get_elem? ks j ≡ some k
          → get_elem? ks' j
            ≡ some (if in_use k then record k { message = message_of body size } else k))
unfolding send_broadcast deliver_all slice send_reply_session
send_broadcast_lem s sessionid body size session spare ks short enough g e =
    let text = message_of body size in
    let fits : leb size datasize ≡ true = ground arith in
    let there : leb (0 + size) (length body) ≡ true = ground arith in
    let ended = has_nul-padded (take size body) (datasize - size) (omega arith) in
    let small : length text < max_msg_len =
      omega (arith, c_string-padded (take size body) (datasize - size), length-take size body) in
    let (ks', d, l, f) = deliver_lem text ks small in
    (
      just (record s { conns = spare ∷ ks' }) (send_reply session.addr sessionid ok []),
      ks',
      rw (fits, there, ended, e, d, g) refl,
      refl,
      l,
      f,
    )

-- A broadcast whose text has 128 bytes or more never goes through without a fault, if some
-- connection from number 1 on is in use.
pub send_broadcast-overflow :
    (s : Server) (sessionid : ℕ) (body : List ℕ) (size c : ℕ) {k : Station}
    → 0 < c
    → get_elem? s.conns c ≡ some k
    → in_use k ≡ true
    → max_msg_len ≤ length (message_of body size)
    → send_broadcast s sessionid body size ≡ none
unfolding send_broadcast deliver_all slice
send_broadcast-overflow s sessionid body size c {k} pos g u h =
    elim (Bool-cases (leb size datasize)) [
      | inr f ↦ rw f refl
      | inl t ↦ elim (Bool-cases (leb (0 + size) (length body))) [
        | inr f ↦ rw (t, f) refl
        | inl t' ↦
            let msg = take size body ++ replicate (datasize - size) 0 in
            let lost = deliver_all-overflow (c_string msg) s.conns c {k = k} h pos g u in
            elim (Bool-cases (has_nul msg)) [
              | inr f ↦ rw (t, t', f) refl
              | inl n ↦ rw (t, t', n, lost) refl
            ]
      ]
    ]
