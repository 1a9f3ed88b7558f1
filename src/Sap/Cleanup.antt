-- ===== src/Sap/Cleanup.antt =====
-- src/src/server/sap.c: silent services are removed.
use native.Mathlib.Decide.{ℕ_discrete}
use frommel.Base.{
  find_from_passes, if-same, ℕ, zero, suc, ◌+◌, ◌≡◌, ◌≢◌, refl, sym, ap, ◌∙◌, subst, arith, Bool,
  true, false, none, some, List, [], ◌∷◌, get_elem?, find_from, ltb, if◌then◌else◌, Bool-cases, inl,
  inr, some-injective,
}
use frommel.Sap.{Entry, is_service, scan_service, age, cleanup, timeout_length}
use frommel.Sap.Services.{IsUnique, is_service-true}

abbrev is_silent : ℕ → Entry → Bool
is_silent now e = ltb (e.last_update + timeout_length) now

is_service-age :
    (now : ℕ) (name : List ℕ) (type : ℕ) (e : Entry)
    → type ≢ 0
    → is_service name type (age now e) ≡ (if is_silent now e then false else is_service name type e)
is_service-age now name type e nz = elim (Bool-cases (is_silent now e)) [
  | inr f ↦ ground arith
  | inl t ↦ elim (ℕ_discrete e.service_type 0) [ yes z ↦ ground arith | no z ↦ ground arith ]
]

find_from-aged_none :
    (now : ℕ) (name : List ℕ) (type k : ℕ) (es : List Entry)
    → type ≢ 0
    → ((j : ℕ) (e : Entry) → get_elem? es j ≡ some e → is_service name type e ≡ false)
    → find_from (is_service name type) k (cleanup now es) ≡ none
unfolding cleanup
find_from-aged_none now name type k [] nz h = refl
find_from-aged_none now name type k (e ∷ es) nz h =
    let here : is_service name type (age now e) ≡ false =
      is_service-age now name type e nz ∙ (rw (h 0 e refl) (if-same (is_silent now e))) in
    rw here (find_from-aged_none now name type (suc k) es nz (λ j x g. h (suc j) x g))

find_from-aged :
    (now : ℕ) (name : List ℕ) (type k : ℕ) (es : List Entry) (m : ℕ) (e : Entry)
    → type ≢ 0
    → get_elem? es m ≡ some e
    → is_service name type e ≡ true
    → ((j : ℕ) (x : Entry) → j ≢ m → get_elem? es j ≡ some x → is_service name type x ≡ false)
    → find_from (is_service name type) k (cleanup now es)
      ≡ (if is_silent now e then none else some (k + m))
unfolding cleanup
find_from-aged now name type k [] m e nz g p h = cc
find_from-aged now name type k (x ∷ es) zero e nz g p h =
    let same : x ≡ e = some-injective g in
    let none_later =
      find_from-aged_none now name type (suc k) es nz
        (λ j y gy. h (suc j) y (λ q. omega arith) gy) in
    let px = ap (is_service name type) same ∙ p in
    subst
      (λ (y : Entry).
        find_from (is_service name type) k (cleanup now (x ∷ es))
        ≡ (if is_silent now y then none else some (k + 0)))
      same
      (elim (Bool-cases (is_silent now x)) [
        | inl t ↦ rw (is_service-age now name type x nz, t) none_later
        | inr f ↦ rw (is_service-age now name type x nz, f, px) (ap some (omega arith))
      ])
find_from-aged now name type k (x ∷ es) (suc m) e nz g p h =
    let here : is_service name type (age now x) ≡ false =
      is_service-age now name type x nz
      ∙ (rw (h 0 x (λ q. omega arith) refl) (if-same (is_silent now x))) in
    let next : suc k + m ≡ k + suc m = omega arith in
    rw here (
      find_from-aged now name type (suc k) es m e nz g p
        (λ j y nj gy. h (suc j) y (λ q. nj (omega arith)) gy)
      ∙ ap (λ (t : ℕ). if is_silent now e then none else some t) next)

-- If no two used slots have the same type and the same name, case aside, a service of a type other
-- than 0 that stood in some slot before sap_cleanup is found in that slot after it, unless it has
-- been silent for more than 150 seconds: then it is not found at all.
pub scan_service-cleanup :
    (now : ℕ) (services : List Entry) (name : List ℕ) (type i : ℕ) (e : Entry)
    → IsUnique services
    → type ≢ 0
    → scan_service services name type ≡ some i
    → get_elem? services i ≡ some e
    → scan_service (cleanup now services) name type
      ≡ (if ltb (e.last_update + timeout_length) now then none else some i)
unfolding scan_service
scan_service-cleanup now services name type i e u nz h g =
    let p = find_from_passes (is_service name type) 0 services i (ground arith) g in
    let (n, t) = is_service-true name type e p in
    find_from-aged now name type 0 services i e nz g p (λ j x nj gx.
      elim (Bool-cases (is_service name type x)) [
        | inr f ↦ f
        | inl b ↦
            let (n', t') = is_service-true name type x b in
            absurd (nj (sym (u i j e x g gx (λ z. nz (sym t ∙ z)) (t ∙ sym t') (sym n ∙ n'))))
      ])
    ∙ ap (λ (k : ℕ). if is_silent now e then none else some k) (omega arith)
