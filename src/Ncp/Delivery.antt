-- ===== src/Ncp/Delivery.antt =====
-- src/src/server/ncp_21.c and gasp_server.c: how messages reach the clients.
use frommel.Base.{
  ℕ, zero, suc, ◌+◌, ◌-◌, ◌≤◌, ◌<◌, ◌≡◌, refl, sym, ap, ◌∙◌, arith, Bool, true, false, some, List,
  [], ◌∷◌, ◌++◌, get_elem?, get_elem?-append_at, take, take-all, replicate, if◌then◌else◌, ltb, leb,
  u8, slice, slice-here, slice-append_at, Str, length, length-append, length-take, c_string, bit_or,
}
use frommel.Station.{Station, in_use, max_msg_len}
use frommel.Gasp.{Session, Server, Turn, datasize}
use frommel.Gasp.Info.{send_broadcast}
use frommel.Gasp.Broadcast.{send_broadcast_lem, message_of, has_nul-padded, c_string-padded}
use frommel.Ncp.{answer, conn_stat, is_empty}
use frommel.Ncp.Messages.{handle_getmsg, send_bcast_old, copy_to_sender}

pub c_string-pad : (xs : List ℕ) (n : ℕ) → c_string (xs ++ replicate n 0) ≡ c_string xs
c_string-pad [] zero = refl
c_string-pad [] (suc n) = refl
c_string-pad (x ∷ xs) n = ground (arith, c_string-pad xs n)

-- A waiting message is handed out whole, and is not waiting any more.
pub handle_getmsg_lem :
    (k : Station)
    → length k.message < max_msg_len
    → handle_getmsg k 1 ≡ some (answer (record k { message = [] }) 0 (length k.message ∷ k.message))
unfolding handle_getmsg slice
handle_getmsg_lem k h =
    let byte : u8 (length k.message) ≡ length k.message = omega arith in
    let there : leb (0 + length k.message) (length k.message) ≡ true = ground arith in
    rw (byte, there, take-all (length k.message) k.message (omega arith)) refl

-- A broadcast of a remote console of less than 128 bytes, which the packet holds, on a session of
-- the table, reaches each connection from number 1 on that is in use: its next replies carry the
-- flag of a waiting message, if the text is not empty and the server stays up; NCP 21 11 hands out
-- the text before the first 0 and its length; and after that the flag is gone.
pub broadcast_received :
    (s : Server) (sessionid : ℕ) (body : List ℕ) (size : ℕ) (session : Session) (spare : Station)
    (ks : List Station) (j : ℕ) (k : Station)
    → size < max_msg_len
    → size ≤ length body
    → get_elem? s.sessions sessionid ≡ some session
    → s.conns ≡ spare ∷ ks
    → get_elem? ks j ≡ some k
    → in_use k ≡ true
    → (turn : Turn) × (ks' : List Station) × (k' : Station) × (send_broadcast s sessionid body size
        ≡ some turn)
      × (turn.server.conns ≡ spare ∷ ks')
      × (get_elem? ks' j ≡ some k')
      × (conn_stat false k' ≡ (if is_empty (message_of body size) then 0 else 0x40))
      × (handle_getmsg k' 1
          ≡ some (
              answer
                (record k { message = [] })
                0
                (length (message_of body size) ∷ message_of body size)))
      × (conn_stat false (record k { message = [] }) ≡ 0)
unfolding conn_stat
broadcast_received s sessionid body size session spare ks j k short enough g e gk used =
    let text = message_of body size in
    let small : length text < max_msg_len =
      omega (arith, c_string-padded (take size body) (datasize - size), length-take size body) in
    let (turn, ks', h, same, l, f) =
      send_broadcast_lem s sessionid body size session spare ks short enough g e in
    let k' : Station = record k { message = text } in
    (
      turn,
      ks',
      k',
      h,
      ap Server.conns same,
      f j k gk ∙ ap (λ (b : Bool). some (if b then k' else k)) used,
      zero_or (is_empty text),
      handle_getmsg_lem k' small,
      refl,
    )
  where
    zero_or : (b : Bool) → bit_or 0 (if b then 0 else 0x40) ≡ (if b then 0 else 0x40)
    zero_or true = refl
    zero_or false = refl

copy_to_sender_lem :
    (n : ℕ) (text : Str) (k : Station)
    → 0 < n
    → copy_to_sender n text k ≡ record k { message = text }
copy_to_sender_lem zero text k h = absurd (omega arith)
copy_to_sender_lem (suc zero) text k h = refl
copy_to_sender_lem (suc (suc n)) text k h =
    copy_to_sender_lem (suc n) text (record k { message = text }) (omega arith)

-- The bytes of the request.
abbrev pub bcast_request : List ℕ → List ℕ → List ℕ → List ℕ
bcast_request stations text after = length stations ∷ (stations ++ (length text ∷ (text ++ after)))

-- NCP 21 0 with a text of less than 128 bytes for one station or more puts the text before the
-- first 0 into the message of the sender itself, as often as there are stations, and reports
-- success for each of them.
pub send_bcast_old-sender :
    (k : Station) (stations text after : List ℕ) (size : ℕ)
    → 3 ≤ size
    → 0 < length stations
    → length text < max_msg_len
    → send_bcast_old k (bcast_request stations text after) size
      ≡ some (
          answer
            (record k { message = c_string text })
            0
            (length stations ∷ replicate (length stations) 0))
unfolding send_bcast_old
send_bcast_old-sender k stations text after size long some_named short =
    let n = length stations in
    let body = bcast_request stations text after in
    let tail = length text ∷ (text ++ after) in
    let enough : ltb size 3 ≡ false = ground arith in
    let inside : leb (1 + n) (length body) ≡ true = ground (arith, length-append stations tail) in
    let place : 1 + n + 0 ≡ 1 + n = omega arith in
    let next : 2 + n ≡ 1 + n + 1 = omega arith in
    let at_len : get_elem? body (1 + n) ≡ some (length text) =
      ap (get_elem? body) (sym place)
      ∙ get_elem?-append_at (n ∷ stations) tail (1 + n) 0 (omega arith) in
    let at_text : slice body (2 + n) (length text) ≡ some text =
      ap (λ (i : ℕ). slice body i (length text)) next
      ∙ (slice-append_at (n ∷ stations) tail (1 + n) 1 (length text) (omega arith)
          ∙ (slice-append_at (length text ∷ []) (text ++ after) 1 0 (length text) refl
              ∙ slice-here text after (length text) refl)) in
    let fits : leb (length text) max_msg_len ≡ true = ground arith in
    let ended = has_nul-padded text (max_msg_len - length text) (omega arith) in
    rw
      (
        enough,
        inside,
        at_len,
        fits,
        at_text,
        ended,
        c_string-pad text (max_msg_len - length text),
        copy_to_sender_lem n (c_string text) k some_named,
      )
      refl
