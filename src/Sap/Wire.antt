-- ===== src/Sap/Wire.antt =====
-- src/src/server/sap.c: the bytes of a service packet as they are sent, and as they are read.
use frommel.Base.{
  ℕ, zero, suc, ◌+◌, ◌*◌, ◌^◌, ◌<◌, ◌≡◌, refl, ap, ◌∙◌, arith, some, List, [], ◌∷◌, ◌++◌, map,
  length, length-append, append_assoc, get_elem?, two_at, slice, slice-here, slice-append_at,
  two_at-append, two_at-append_from, slice-append_from, put_be16, get_be16-put_be16, some-injective,
  subst, u8, bit_and, ◌>>>◌,
}
use frommel.Sap.{Entry, Packet, packet_at, packet_size, entry_of, answer, join}

-- The arrays have their sizes, and the numbers fit 16 bits.
abbrev pub IsShaped : Entry → Type 0
IsShaped e =
    (e.service_type < 2 ^ 16)
    × (length e.server_name ≡ 48)
    × (length e.net_addr ≡ 4)
    × (length e.node_addr ≡ 6)
    × (e.socket_addr < 2 ^ 16)
    × (e.hops < 2 ^ 16)

abbrev pub AllShaped : List Entry → Type 0
AllShaped services = (i : ℕ) (e : Entry) → get_elem? services i ≡ some e → IsShaped e

abbrev pub fields : ℕ → Entry → Packet
fields operation e = record {
  operation = put_be16 (operation + 1);
  service_type = put_be16 e.service_type;
  server_name = e.server_name;
  net_addr = e.net_addr;
  node_addr = e.node_addr;
  socket_addr = put_be16 e.socket_addr;
  hops = put_be16 e.hops;
}

-- The bytes of an answer from its socket on, and those that follow.
abbrev ending : Entry → List ℕ → List ℕ
ending e rest =
    u8 (e.socket_addr >>> 8)
    ∷ bit_and e.socket_addr 0xff
    ∷ u8 (e.hops >>> 8)
    ∷ bit_and e.hops 0xff
    ∷ rest

-- The bytes of an answer from its name on.
abbrev names : Entry → List ℕ → List ℕ
names e rest = e.server_name ++ (e.net_addr ++ (e.node_addr ++ ending e rest))

pub length-answer :
    (operation : ℕ) (e : Entry) → IsShaped e → length (answer operation e) ≡ packet_size
unfolding answer
length-answer operation e (t, n, a, h, s, p) = omega (
  arith,
  length-append e.server_name (e.net_addr ++ (e.node_addr ++ ending e [])),
  length-append e.net_addr (e.node_addr ++ ending e []),
  length-append e.node_addr (ending e []),
)

names-append : (e : Entry) (rest : List ℕ) → names e [] ++ rest ≡ names e rest
names-append e rest =
    append_assoc e.server_name (e.net_addr ++ (e.node_addr ++ ending e [])) rest
    ∙ ap (◌++◌ e.server_name) (
        append_assoc e.net_addr (e.node_addr ++ ending e []) rest
        ∙ ap (◌++◌ e.net_addr) (append_assoc e.node_addr (ending e []) rest))

pub names_at :
    (e : Entry) (rest : List ℕ)
    → IsShaped e
    → (slice (names e rest) 0 48 ≡ some e.server_name)
      × (slice (names e rest) 48 4 ≡ some e.net_addr)
      × (slice (names e rest) 52 6 ≡ some e.node_addr)
names_at e rest (t, n, a, h, s, p) =
    let nodes = e.node_addr ++ ending e rest in
    let nets = e.net_addr ++ nodes in
    (
      slice-here e.server_name nets 48 n,
      slice-append_at e.server_name nets 48 0 4 n ∙ slice-here e.net_addr nodes 4 a,
      slice-append_at e.server_name nets 48 4 6 n
          ∙ (slice-append_at e.net_addr nodes 4 0 6 a ∙ slice-here e.node_addr (ending e rest) 6 h),
    )

two_of :
    (e : Entry) (rest : List ℕ) (i : ℕ)
    → IsShaped e
    → two_at (names e rest) (58 + i) ≡ two_at (ending e rest) i
two_of e rest i (t, n, a, h, s, p) =
    let nodes = e.node_addr ++ ending e rest in
    let nets = e.net_addr ++ nodes in
    let e1 : 58 + i ≡ 48 + (10 + i) = omega arith in
    let e2 : 10 + i ≡ 4 + (6 + i) = omega arith in
    ap (two_at (names e rest)) e1
    ∙ (two_at-append e.server_name nets 48 (10 + i) n
        ∙ (ap (two_at nets) e2
            ∙ (two_at-append e.net_addr nodes 4 (6 + i) a
                ∙ two_at-append e.node_addr (ending e rest) 6 i h)))

-- The first packet of a list that an answer stands at the front of.
packet-answer :
    (operation : ℕ) (e : Entry) (rest : List ℕ)
    → IsShaped e
    → packet_at (answer operation e ++ rest) 0 ≡ some (fields operation e)
unfolding packet_at answer put_be16 two_at
packet-answer operation e rest w =
    let head =
      u8 ((operation + 1) >>> 8)
      ∷ bit_and (operation + 1) 0xff
      ∷ u8 (e.service_type >>> 8)
      ∷ bit_and e.service_type 0xff
      ∷ [] in
    let (n, a, h) = names_at e rest w in
    rw
      (
        names-append e rest,
        slice-append_at head (names e rest) 4 0 48 refl ∙ n,
        slice-append_at head (names e rest) 4 48 4 refl ∙ a,
        slice-append_at head (names e rest) 4 52 6 refl ∙ h,
        two_at-append head (names e rest) 4 58 refl ∙ two_of e rest 0 w,
        two_at-append head (names e rest) 4 60 refl ∙ two_of e rest 2 w,
      )
      refl

-- A packet behind bytes of known number.
packet_at-append :
    (xs ys : List ℕ) (n i : ℕ) → length xs ≡ n → packet_at (xs ++ ys) (n + i) ≡ packet_at ys i
unfolding packet_at
packet_at-append xs ys n i h =
    rw
      (
        two_at-append xs ys n i h,
        two_at-append_from xs ys n i 2 h,
        slice-append_from xs ys n i 4 48 h,
        slice-append_from xs ys n i 52 4 h,
        slice-append_from xs ys n i 56 6 h,
        two_at-append_from xs ys n i 62 h,
        two_at-append_from xs ys n i 64 h,
      )
      refl

pub AllShaped-tail : (x : Entry) (xs : List Entry) → AllShaped (x ∷ xs) → AllShaped xs
AllShaped-tail x xs w = λ i e g. w (suc i) e g

pub AllShaped-cons : (x : Entry) (xs : List Entry) → IsShaped x → AllShaped xs → AllShaped (x ∷ xs)
AllShaped-cons x xs h w zero e g = subst IsShaped (some-injective g) h
AllShaped-cons x xs h w (suc i) e g = w i e g

abbrev pub packets : ℕ → List Entry → List ℕ
packets operation es = join (map (answer operation) es)

pub length-packets :
    (operation : ℕ) (es : List Entry)
    → AllShaped es
    → length (packets operation es) ≡ length es * packet_size
length-packets operation [] w = refl
length-packets operation (e ∷ es) w = omega (
  arith,
  length-append (answer operation e) (packets operation es),
  length-answer operation e (w 0 e refl),
  length-packets operation es (AllShaped-tail e es w),
)

pub packet_at-packets :
    (operation : ℕ) (es : List Entry) (k : ℕ) {e : Entry}
    → AllShaped es
    → get_elem? es k ≡ some e
    → packet_at (packets operation es) (k * packet_size) ≡ some (fields operation e)
packet_at-packets operation [] k w g = cc
packet_at-packets operation (x ∷ es) zero {e} w g =
    packet-answer operation x (packets operation es) (w 0 x refl)
    ∙ ap (λ (y : Entry). some (fields operation y)) (some-injective g)
packet_at-packets operation (x ∷ es) (suc k) {e} w g =
    let next : suc k * packet_size ≡ packet_size + k * packet_size = omega arith in
    let first = answer operation x in
    ap (packet_at (packets operation (x ∷ es))) next
    ∙ (packet_at-append first (packets operation es) packet_size (k * packet_size)
          (length-answer operation x (w 0 x refl))
        ∙ packet_at-packets operation es k {e = e} (AllShaped-tail x es w) g)

pub entry_of-fields :
    (operation now : ℕ) (e : Entry)
    → IsShaped e
    → entry_of (fields operation e) now ≡ record e { last_update = now }
unfolding entry_of
entry_of-fields operation now e (t, n, a, h, s, p) =
    rw
      (
        get_be16-put_be16 e.service_type t,
        get_be16-put_be16 e.socket_addr s,
        get_be16-put_be16 e.hops p,
      )
      refl
