-- ===== src/Link/Greeting.antt =====
-- src/src/server/link.c: who gets an answer to its greeting.
use frommel.Base.{
  ℕ, suc, zero, ◌-◌, ◌≡◌, ◌<◌, refl, ap, ◌∙◌, arith, ◌==◌, true, none, some, List, [], ◌∷◌, ◌++◌,
  get_elem?, length, replicate, if◌then◌else◌, get_be16, u8, bit_and, ◌>>>◌, two_at, text_at, Str,
  has_nul, c_string, append_assoc, drop, take-all,
}
use frommel.Station.{Addr}
use frommel.BinderyIo.Found.{IsText}
use frommel.Link.{Linked, scan_server, hello, send_response, handle_hello, handle_packet}

has_nul-text : (s : Str) (n : ℕ) (ys : List ℕ) → 0 < n → has_nul (s ++ (replicate n 0 ++ ys)) ≡ true
has_nul-text [] zero ys h = absurd (omega arith)
has_nul-text [] (suc n) ys h = refl
has_nul-text (c ∷ s) n ys h = ground (arith, has_nul-text s n ys h)

c_string-text :
    (s : Str) (n : ℕ) (ys : List ℕ) → IsText s → 0 < n → c_string (s ++ (replicate n 0 ++ ys)) ≡ s
c_string-text [] zero ys t h = absurd (omega arith)
c_string-text [] (suc n) ys t h = refl
c_string-text (c ∷ s) n ys t h = ground (arith, c_string-text s n ys t.1 h)

abbrev key_bytes : ℕ → List ℕ
key_bytes key = u8 (key >>> 24) ∷ u8 (key >>> 16) ∷ u8 (key >>> 8) ∷ bit_and key 0xff ∷ []

hello-tail :
    (name : Str) (key : ℕ) (rest : List ℕ)
    → length name < 48
    → drop 6 (hello name key ++ rest)
      ≡ name ++ (replicate (48 - length name) 0 ++ (key_bytes key ++ rest))
unfolding hello
hello-tail name key rest h =
    let zeros : List ℕ = replicate (48 - length name) 0 in
    ap (λ (s : Str). (s ++ (zeros ++ key_bytes key)) ++ rest) (take-all 48 name (omega arith))
    ∙ append_assoc name (zeros ++ key_bytes key) rest
    ∙ ap (λ (xs : List ℕ). name ++ xs) (append_assoc zeros (key_bytes key) rest)

-- The name in a greeting is read as it was written.
name_read :
    (name : Str) (key : ℕ) (rest : List ℕ)
    → IsText name
    → length name < 48
    → text_at (hello name key ++ rest) 6 ≡ some name
name_read name key rest t h =
    let ys = key_bytes key ++ rest in
    let pos : 0 < 48 - length name = omega arith in
    rw
      (
        hello-tail name key rest h,
        has_nul-text name (48 - length name) ys pos,
        c_string-text name (48 - length name) ys t pos,
      )
      refl

header0 :
    (name : Str) (key : ℕ) (rest : List ℕ)
    → two_at (hello name key ++ rest) 0 ≡ some (record { b0 = 0x88; b1 = 0x88 })
unfolding hello two_at
header0 name key rest = refl

header2 :
    (name : Str) (key : ℕ) (rest : List ℕ)
    → two_at (hello name key ++ rest) 2 ≡ some (record { b0 = 0xff; b1 = 0xff })
unfolding hello two_at
header2 name key rest = refl

header4 :
    (name : Str) (key : ℕ) (rest : List ℕ)
    → two_at (hello name key ++ rest) 4 ≡ some (record { b0 = 0; b1 = 0 })
unfolding hello two_at
header4 name key rest = refl

-- If the first linked server of a name of fewer than 48 bytes is that at index i, a greeting with
-- this name is answered with the session id 0xffff and the status OK if it comes from the node of
-- that server, and is not answered otherwise: the key that it carries plays no part.
pub handle_packet-hello :
    (servers : List Linked) (name : Str) (key : ℕ) (rest : List ℕ) (addr : Addr) (i : ℕ)
    (server : Linked)
    → IsText name
    → length name < 48
    → scan_server servers name ≡ some i
    → get_elem? servers i ≡ some server
    → handle_packet servers (hello name key ++ rest) 58 addr
      ≡ some (
          if server.host == addr.host
          then some (record { to = addr; bytes = 0x99 ∷ 0x99 ∷ 0xff ∷ 0xff ∷ 0 ∷ [] })
          else none)
unfolding handle_packet handle_hello send_response get_be16
handle_packet-hello servers name key rest addr i server t h f g =
    rw
      (
        header0 name key rest,
        header2 name key rest,
        header4 name key rest,
        name_read name key rest t h,
        f,
        g,
      )
      refl
