-- ===== src/Sap/Services.antt =====
-- src/src/server/sap.c: the table of services as a whole, while answers of other servers come in and
-- silent services are removed.
use native.Mathlib.Decide.{ℕ_discrete}
use frommel.Base.{
  ℕ, ◌+◌, ◌<◌, ◌≡◌, ◌≢◌, sym, ap, ◌∙◌, subst, arith, true, some, List, length, get_elem?, set,
  length-set, get_elem?-set_self, get_elem?-set_ne, get_elem?-lt, find_from, find_from_entry,
  find_from-none, find_from_bounds, two_at, slice, length-slice, get_be16, Option-cases, inl, inr,
  str_eq_refl, str_eq→eq, some-injective, >>=-eq-some,
}
use frommel.Sap.{
  Entry, Packet, packet_at, folded, is_service, is_free, scan_service, scan_freeserviceno, slot_for,
  entry_of,
}
use frommel.Sap.Wire.{IsShaped, AllShaped}

-- No two used slots have the same name, case aside, and the same type.
abbrev pub IsUnique : List Entry → Type 0
IsUnique services =
    (i j : ℕ) (e e' : Entry)
    → get_elem? services i ≡ some e
    → get_elem? services j ≡ some e'
    → e.service_type ≢ 0
    → e.service_type ≡ e'.service_type
    → folded e.server_name ≡ folded e'.server_name
    → i ≡ j

pub is_service-true :
    (name : List ℕ) (type : ℕ) (e : Entry)
    → is_service name type e ≡ true
    → (folded name ≡ folded e.server_name) × (e.service_type ≡ type)
is_service-true name type e h =
    (str_eq→eq (folded name) (folded e.server_name) (ground arith), ground arith)

is_service-made :
    (name : List ℕ) (type : ℕ) (e : Entry)
    → folded name ≡ folded e.server_name
    → e.service_type ≡ type
    → is_service name type e ≡ true
is_service-made name type e h t = rw h (ground (arith, str_eq_refl (folded e.server_name)))

-- The slot is one of the table, and a service of that name and type stands in no other.
slot_for-only :
    (services : List Entry) (name : List ℕ) (type i j : ℕ) (e : Entry)
    → IsUnique services
    → type ≢ 0
    → slot_for services name type ≡ some i
    → get_elem? services j ≡ some e
    → folded name ≡ folded e.server_name
    → e.service_type ≡ type
    → i ≡ j
unfolding slot_for scan_service
slot_for-only services name type i j e u nz h g n t =
    elim (Option-cases (find_from (is_service name type) 0 services)) [
      | inl f ↦
          let missing = find_from-none (is_service name type) 0 services j f g in
          absurd (ground (arith, is_service-made name type e n t))
      | inr (k, f) ↦
          let (e1, g1, p1) = find_from_entry (is_service name type) services f in
          let (n1, t1) = is_service-true name type e1 p1 in
          let same : k ≡ i = ground arith in
          sym same ∙ u k j e1 e g1 g (λ z. nz (sym t1 ∙ z)) (t1 ∙ sym t) (sym n1 ∙ n)
    ]

slot_for-lt :
    (services : List Entry) (name : List ℕ) (type i : ℕ)
    → slot_for services name type ≡ some i
    → i < length services
unfolding slot_for scan_service scan_freeserviceno
slot_for-lt services name type i h =
    elim (Option-cases (find_from (is_service name type) 0 services)) [
      | inl f ↦ omega (arith, find_from_bounds is_free 0 services {j = i} (ground arith))
      | inr (k, f) ↦
          let same : k ≡ i = ground arith in
          omega (arith, find_from_bounds (is_service name type) 0 services {j = k} f)
    ]

IsUnique-set :
    (services : List Entry) (i : ℕ) (e : Entry)
    → i < length services
    → IsUnique services
    → ((j : ℕ) (e' : Entry)
        → get_elem? services j ≡ some e'
        → e.service_type ≢ 0
        → e.service_type ≡ e'.service_type
        → folded e.server_name ≡ folded e'.server_name
        → i ≡ j)
    → IsUnique (set services i e)
IsUnique-set services i e lt u other j k a b ga gb nz t n = elim (ℕ_discrete i j) [
  | yes p ↦ elim (ℕ_discrete i k) [
    | yes q ↦ sym p ∙ q
    | no q ↦
        let same = written j a p ga in
        let gb' = sym (get_elem?-set_ne services i k e q) ∙ gb in
        absurd (
          q (
            other k b gb' (λ z. nz (sym (ap Entry.service_type same) ∙ z))
              (ap Entry.service_type same ∙ t) (ap (λ (x : Entry). folded x.server_name) same ∙ n)))
  ]
  | no p ↦
      let ga' = sym (get_elem?-set_ne services i j e p) ∙ ga in
      elim (ℕ_discrete i k) [
        | yes q ↦
            let same = written k b q gb in
            let t' = ap Entry.service_type same ∙ sym t in
            absurd (
              p (
                other j a ga' (λ z. nz (sym t' ∙ z)) t'
                  (ap (λ (x : Entry). folded x.server_name) same ∙ sym n)))
        | no q ↦ u j k a b ga' (sym (get_elem?-set_ne services i k e q) ∙ gb) nz t n
      ]
]
  where
    written : (k : ℕ) (b : Entry) → i ≡ k → get_elem? (set services i e) k ≡ some b → e ≡ b
    written k b q gb =
        some-injective
          (sym (get_elem?-set_self services i e lt) ∙ (ap (get_elem? (set services i e)) q ∙ gb))

AllShaped-set :
    (services : List Entry) (i : ℕ) (e : Entry)
    → IsShaped e
    → AllShaped services
    → AllShaped (set services i e)
AllShaped-set services i e h w j a g = elim (ℕ_discrete i j) [
  | no p ↦ w j a (sym (get_elem?-set_ne services i j e p) ∙ g)
  | yes p ↦
      let lt : j < length services =
        omega (arith, get_elem?-lt (set services i e) j g, length-set services i e) in
      let here = get_elem?-set_self services i e (omega arith) in
      subst IsShaped (some-injective (sym here ∙ (ap (get_elem? (set services i e)) p ∙ g))) h
]

packet_at-IsShaped :
    (buffer : List ℕ) (i now : ℕ) {p : Packet}
    → packet_at buffer i ≡ some p
    → IsShaped (entry_of p now)
unfolding packet_at entry_of get_be16
packet_at-IsShaped buffer i now {p} h =
    let (_, _, h1) = >>=-eq-some (two_at buffer i) _ h in
    let (_, _, h2) = >>=-eq-some (two_at buffer (i + 2)) _ h1 in
    let (n, en, h3) = >>=-eq-some (slice buffer (i + 4) 48) _ h2 in
    let (a, ea, h4) = >>=-eq-some (slice buffer (i + 52) 4) _ h3 in
    let (d, ed, h5) = >>=-eq-some (slice buffer (i + 56) 6) _ h4 in
    let (_, _, h6) = >>=-eq-some (two_at buffer (i + 62)) _ h5 in
    let (_, _, h7) = >>=-eq-some (two_at buffer (i + 64)) _ h6 in
    let same = some-injective h7 in
    (
      omega arith,
      ap (λ (q : Packet). length q.server_name) (sym same) ∙ length-slice buffer (i + 4) 48 en,
      ap (λ (q : Packet). length q.net_addr) (sym same) ∙ length-slice buffer (i + 52) 4 ea,
      ap (λ (q : Packet). length q.node_addr) (sym same) ∙ length-slice buffer (i + 56) 6 ed,
      omega arith,
      omega arith,
    )

abbrev pub IsSound : List Entry → Type 0
IsSound services = AllShaped services × IsUnique services

pub store-IsSound :
    (services : List Entry) (buffer : List ℕ) (at now slot : ℕ) {p : Packet}
    → IsSound services
    → packet_at buffer at ≡ some p
    → slot_for services p.server_name (get_be16 p.service_type) ≡ some slot
    → IsSound (set services slot (entry_of p now))
unfolding entry_of
store-IsSound services buffer at now slot {p} (w, u) h g =
    let type = get_be16 p.service_type in
    (
      AllShaped-set services slot (entry_of p now) (packet_at-IsShaped buffer at now h) w,
      IsUnique-set services slot (entry_of p now) (slot_for-lt services p.server_name type slot g) u
          (λ j e ge nz t n. slot_for-only services p.server_name type slot j e u nz g ge n (sym t)),
    )
