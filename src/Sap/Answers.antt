-- ===== src/Sap/Answers.antt =====
-- src/src/server/sap.c: what `sap_handle_genserv` answers with, read as `sap_handle_response` of another
-- server reads it.
use frommel.Base.{
  ℕ, suc, ◌+◌, ◌*◌, ◌%◌, ◌^◌, ◌≤◌, ◌≡◌, refl, arith, some, List, [], ◌∷◌, length, get_elem?, ltb,
  ◌==◌, if◌then◌else◌, two_at, get_be16, get_be16-put_be16_mod, >>=-eq-some, some-injective,
  none≢some, subst, Two, Bool-cases, inl, inr,
}
use frommel.Sap.{
  Entry, Packet, packet_at, packet_size, packet_maxlen, entry_of, collect, handle_genserv,
}
use frommel.Sap.Wire.{
  AllShaped, AllShaped-tail, AllShaped-cons, fields, packets, length-packets, packet_at-packets,
  entry_of-fields,
}

-- The services of a type, in the order of the table.
abbrev pub requested : ℕ → List Entry → List Entry
requested type [] = []
requested type (e ∷ es) =
    if e.service_type == type then e ∷ requested type es else requested type es

-- As long as the services that are counted already and those of the table are at most 31, the loop
-- of sap_handle_genserv takes exactly the services of the type, in the order of the table: it
-- never stops early.
pub collect-requested :
    (type k : ℕ) (es : List Entry) → k + length es ≤ 31 → collect type k es ≡ requested type es
unfolding collect
collect-requested type k [] h = refl
collect-requested type k (e ∷ []) h = ground arith
collect-requested type k (e ∷ e' ∷ es) h =
    ground (arith, collect-requested type k (e' ∷ es), collect-requested type (suc k) (e' ∷ es))

pub collect-length :
    (type k : ℕ) (es : List Entry)
    → suc k * packet_size ≤ packet_maxlen
    → (k + length (collect type k es)) * packet_size ≤ packet_maxlen
unfolding collect
collect-length type k [] h = omega arith
collect-length type k (e ∷ es) h =
    ground (arith, collect-length type k es, collect-length type (suc k) es)

pub requested-AllShaped :
    (type : ℕ) (es : List Entry) → AllShaped es → AllShaped (requested type es)
requested-AllShaped type [] w = w
requested-AllShaped type (e ∷ es) w =
    let rest = requested-AllShaped type es (AllShaped-tail e es w) in
    elim (Bool-cases (e.service_type == type)) [
      | inl t ↦ rw t (AllShaped-cons e (requested type es) (w 0 e refl) rest)
      | inr f ↦ rw f rest
    ]

collect-cons :
    (type k : ℕ) (e : Entry) (es : List Entry)
    → collect type k (e ∷ es) ≡ (
        if e.service_type == type
        then (if ltb packet_maxlen ((k + 2) * packet_size)
            then e ∷ []
            else e ∷ collect type (suc k) es)
        else collect type k es)
unfolding collect
collect-cons type k e es = ground arith

collect-AllShaped : (type k : ℕ) (es : List Entry) → AllShaped es → AllShaped (collect type k es)
unfolding collect
collect-AllShaped type k [] w = w
collect-AllShaped type k (e ∷ es) w =
    let rest = collect-AllShaped type k es (AllShaped-tail e es w) in
    let more = collect-AllShaped type (suc k) es (AllShaped-tail e es w) in
    elim (Bool-cases (e.service_type == type)) [
      | inr f ↦ rw (collect-cons type k e es, f) rest
      | inl t ↦ elim (Bool-cases (ltb packet_maxlen ((k + 2) * packet_size))) [
        | inl f ↦
            rw (collect-cons type k e es, t, f) (AllShaped-cons e [] (w 0 e refl) (λ i x g. cc))
        | inr f ↦
            rw (collect-cons type k e es, t, f)
              (AllShaped-cons e (collect type (suc k) es) (w 0 e refl) more)
      ]
    ]

-- Whatever the request and however many services the table has, if their fields have their sizes
-- then an answer that is sent has at most 2048 bytes.
pub handle_genserv-fits :
    (services : List Entry) (buffer : List ℕ) (size : ℕ) {reply : List ℕ}
    → AllShaped services
    → handle_genserv services buffer size ≡ some (some reply)
    → length reply ≤ packet_maxlen
unfolding handle_genserv
handle_genserv-fits services buffer size {reply} w h = elim (Bool-cases (size == 4)) [
  | inr f ↦ absurd (none≢some reply (some-injective (rw f at h)))
  | inl t ↦
      let (o, _, h1) = >>=-eq-some (two_at buffer 0) _ (rw t at h) in
      let (ty, _, h2) = >>=-eq-some (two_at buffer 2) _ h1 in
      let chosen = collect (get_be16 ty) 0 services in
      let same : packets (get_be16 o) chosen ≡ reply = some-injective (some-injective h2) in
      subst (λ (r : List ℕ). length r ≤ packet_maxlen) same
        (omega (
          arith,
          length-packets (get_be16 o) chosen (collect-AllShaped (get_be16 ty) 0 services w),
          collect-length (get_be16 ty) 0 services (omega arith),
        ))
]

-- On a table of at most 31 services whose fields have their sizes, a request of 4 bytes is
-- answered with one packet for each service of the requested type, in the order of the table. The
-- packet says the operation of the request plus 1, modulo 2^16, and whoever stores it has the
-- entry of the service, with the time of arrival as its last update.
pub handle_genserv-answers :
    (services : List Entry) (buffer : List ℕ) (now k : ℕ) {operation type : Two} {e : Entry}
    → AllShaped services
    → length services ≤ 31
    → two_at buffer 0 ≡ some operation
    → two_at buffer 2 ≡ some type
    → get_elem? (requested (get_be16 type) services) k ≡ some e
    → (reply : List ℕ) × (p : Packet) × (handle_genserv services buffer 4 ≡ some (some reply))
      × (length reply ≡ length (requested (get_be16 type) services) * packet_size)
      × (packet_at reply (k * packet_size) ≡ some p)
      × (get_be16 p.operation ≡ (get_be16 operation + 1) % 2 ^ 16)
      × (entry_of p now ≡ record e { last_update = now })
unfolding handle_genserv
handle_genserv-answers services buffer now k {operation} {type} {e} w l o t g =
    let chosen = requested (get_be16 type) services in
    let shaped = requested-AllShaped (get_be16 type) services w in
    (
      packets (get_be16 operation) chosen,
      fields (get_be16 operation) e,
      rw (o, t, collect-requested (get_be16 type) 0 services (omega arith)) refl,
      length-packets (get_be16 operation) chosen shaped,
      packet_at-packets (get_be16 operation) chosen k shaped g,
      get_be16-put_be16_mod (get_be16 operation + 1),
      entry_of-fields (get_be16 operation) now e (shaped k e g),
    )
