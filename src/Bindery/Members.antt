-- ===== src/Bindery/Members.antt =====
-- src/src/server/bindery.c: an object that was added to a set is found in it.
use native.Mathlib.Decide.{ℕ_discrete}
use frommel.Base.{
  ℕ, zero, suc, ◌+◌, ◌<◌, ◌^◌, ◌≡◌, ◌==◌, refl, ap, ◌∙◌, arith, Bool, true, false, some, List, inl,
  inr, >>=-eq-some, Bool-cases, Four, window, join32, join32-put_be32, put_be32, get_elem?,
  get_elem?-lt, get_elem?-some, get_elem?-set_self, get_elem?-set_ne, set, length, length-set,
  if◌then◌else◌,
}
use frommel.Bindery.{has_member, add_member, write_entry}
use frommel.Bindery.Sets.{has_member_at}

get_elem?-set :
    (xs : List ℕ) (i v j : ℕ)
    → i < length xs
    → get_elem? (set xs i v) j ≡ (if i == j then some v else get_elem? xs j)
get_elem?-set xs i v j h = elim (ℕ_discrete i j) [
  | yes e ↦ ground (arith, e, get_elem?-set_self xs i v h)
  | no ne ↦ ground (arith, get_elem?-set_ne xs i j v ne)
]

window-lt : (bytes : List ℕ) (m : ℕ) {w : ℕ} → window bytes m ≡ some w → m + 3 < length bytes
window-lt bytes m h =
    let (b0, e0, f0) = >>=-eq-some (get_elem? bytes m) _ h in
    let (b1, e1, f1) = >>=-eq-some (get_elem? bytes (m + 1)) _ f0 in
    let (b2, e2, f2) = >>=-eq-some (get_elem? bytes (m + 2)) _ f1 in
    let (b3, e3, f3) = >>=-eq-some (get_elem? bytes (m + 3)) _ f2 in
    get_elem?-lt bytes (m + 3) {a = b3} e3

window-of :
    (xs : List ℕ) (m : ℕ) (f : Four)
    → get_elem? xs m ≡ some f.b0
    → get_elem? xs (m + 1) ≡ some f.b1
    → get_elem? xs (m + 2) ≡ some f.b2
    → get_elem? xs (m + 3) ≡ some f.b3
    → window xs m ≡ some (join32 f)
window-of xs m f e0 e1 e2 e3 = rw (e0, e1, e2, e3) refl

window-some : (bytes : List ℕ) (m : ℕ) → m + 3 < length bytes → (w : ℕ) × (window bytes m ≡ some w)
window-some bytes m h =
    let (b0, e0) = get_elem?-some bytes m (omega arith) in
    let (b1, e1) = get_elem?-some bytes (m + 1) (omega arith) in
    let (b2, e2) = get_elem?-some bytes (m + 2) (omega arith) in
    let (b3, e3) = get_elem?-some bytes (m + 3) (omega arith) in
    (
      join32 (record { b0 = b0; b1 = b1; b2 = b2; b3 = b3 }),
      window-of bytes m (record { b0 = b0; b1 = b1; b2 = b2; b3 = b3 }) e0 e1 e2 e3,
    )

length-write_entry :
    (bytes : List ℕ) (m : ℕ) (f : Four) → length (write_entry bytes m f) ≡ length bytes
length-write_entry bytes m f =
    length-set (set (set (set bytes m f.b0) (m + 1) f.b1) (m + 2) f.b2) (m + 3) f.b3
    ∙ length-set (set (set bytes m f.b0) (m + 1) f.b1) (m + 2) f.b2
    ∙ length-set (set bytes m f.b0) (m + 1) f.b1
    ∙ length-set bytes m f.b0

get-write_entry :
    (bytes : List ℕ) (m j : ℕ) (f : Four)
    → m + 3 < length bytes
    → get_elem? (write_entry bytes m f) j ≡ (
        if m + 3 == j
        then some f.b3
        else if m + 2 == j
        then some f.b2
        else if m + 1 == j
        then some f.b1
        else if m == j
        then some f.b0
        else get_elem? bytes j)
get-write_entry bytes m j f h =
    let s0 = set bytes m f.b0 in
    let s1 = set s0 (m + 1) f.b1 in
    let s2 = set s1 (m + 2) f.b2 in
    let l0 = length-set bytes m f.b0 in
    let l1 = length-set s0 (m + 1) f.b1 in
    let l2 = length-set s1 (m + 2) f.b2 in
    let g0 = get_elem?-set bytes m f.b0 j (omega arith) in
    let g1 = get_elem?-set s0 (m + 1) f.b1 j (omega (arith, l0)) in
    let g2 = get_elem?-set s1 (m + 2) f.b2 j (omega (arith, l0, l1)) in
    let g3 = get_elem?-set s2 (m + 3) f.b3 j (omega (arith, l0, l1, l2)) in rw (g3, g2, g1, g0) refl

add_done :
    (n i id : ℕ) (bytes : List ℕ) {out : List ℕ} {done : Bool}
    → add_member n i id bytes true ≡ some (some (out, done))
    → out ≡ bytes
unfolding add_member
add_done zero i id bytes h = ground (arith, h)
add_done (suc n) i id bytes {out} {done} h =
    let (w, q, f) = >>=-eq-some (window bytes i) _ h in
    elim (Bool-cases (w == id)) [
      | inl e ↦ elim (Bool-cases (w == 0)) [
        | inl z ↦ add_done n (suc i) id bytes {out = out} {done = done} (ground (arith, f, e, z))
        | inr z ↦ add_done n (suc i) id bytes {out = out} {done = done} (ground (arith, f, e, z))
      ]
      | inr e ↦ elim (Bool-cases (w == 0)) [
        | inl z ↦ add_done n (suc i) id bytes {out = out} {done = done} (ground (arith, f, e, z))
        | inr z ↦ add_done n (suc i) id bytes {out = out} {done = done} (ground (arith, f, e, z))
      ]
    ]

add_at :
    (n i id : ℕ) (bytes : List ℕ) {out : List ℕ}
    → add_member n i id bytes false ≡ some (some (out, true))
    → (j : ℕ) × (j < n)
      × (out ≡ write_entry bytes (j + i) (put_be32 id))
      × (i + j + 3 < length bytes)
unfolding add_member
add_at zero i id bytes h = ground (arith, h)
add_at (suc n) i id bytes {out} h =
    let (w, q, f) = >>=-eq-some (window bytes i) _ h in
    elim (Bool-cases (w == id)) [
      | inl e ↦ ground (arith, f, e)
      | inr e ↦ elim (Bool-cases (w == 0)) [
        | inl z ↦
            let same =
              add_done n (suc i) id (write_entry bytes i (put_be32 id)) {out = out} {done = true}
                (ground (arith, f, e, z)) in
            (
              0,
              omega arith,
              same ∙ ap (λ m. write_entry bytes m (put_be32 id)) (omega arith),
              omega (arith, window-lt bytes i {w = w} q),
            )
        | inr z ↦
            let (j, lt, same, inside) =
              add_at n (suc i) id bytes {out = out} (ground (arith, f, e, z)) in
            (
              suc j,
              omega arith,
              same ∙ ap (λ m. write_entry bytes m (put_be32 id)) (omega arith),
              omega (arith, inside),
            )
      ]
    ]

window-write_entry :
    (bytes : List ℕ) (m : ℕ) (f : Four)
    → m + 3 < length bytes
    → window (write_entry bytes m f) m ≡ some (join32 f)
window-write_entry bytes m f h =
    let out = write_entry bytes m f in
    let e0 : get_elem? out m ≡ some f.b0 = ground (arith, get-write_entry bytes m m f h) in
    let e1 : get_elem? out (m + 1) ≡ some f.b1 =
      ground (arith, get-write_entry bytes m (m + 1) f h) in
    let e2 : get_elem? out (m + 2) ≡ some f.b2 =
      ground (arith, get-write_entry bytes m (m + 2) f h) in
    let e3 : get_elem? out (m + 3) ≡ some f.b3 =
      ground (arith, get-write_entry bytes m (m + 3) f h) in
    window-of out m f e0 e1 e2 e3

-- The loop keeps the length of the set.
pub add_member-length :
    (id : ℕ) (bytes : List ℕ) {out : List ℕ}
    → add_member 32 0 id bytes false ≡ some (some (out, true))
    → length out ≡ length bytes
add_member-length id bytes {out} h =
    let (j, lt, same, inside) = add_at 32 0 id bytes {out = out} h in
    ap length same ∙ length-write_entry bytes (j + 0) (put_be32 id)

-- Where the loop that adds an object, with an id of 32 bits, to a set has done something, the loop of
-- `bind_is_objinset` finds the object in the new set.
pub has_member-add_member :
    (id : ℕ) (bytes : List ℕ) {out : List ℕ}
    → id < 2 ^ 32
    → add_member 32 0 id bytes false ≡ some (some (out, true))
    → has_member 32 0 out id ≡ some true
has_member-add_member id bytes {out} hid h =
    let (j, lt, same, inside) = add_at 32 0 id bytes {out = out} h in
    let len : length out ≡ length bytes =
      ap length same ∙ length-write_entry bytes (j + 0) (put_be32 id) in
    has_member_at 32 0 j out id lt (λ k lt'. window-some out (k + 0) (omega (arith, len)))
      (ap (λ bs. window bs (j + 0)) same
        ∙ window-write_entry bytes (j + 0) (put_be32 id) (omega arith)
        ∙ ap some (join32-put_be32 id hid))
