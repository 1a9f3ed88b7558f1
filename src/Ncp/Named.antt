-- ===== src/Ncp/Named.antt =====
-- src/src/server/ncp_23.c: an object that a client creates is found by the next that asks for it.
use frommel.Base.{
  ℕ, zero, suc, ◌+◌, ◌-◌, ◌^◌, ◌≤◌, ◌<◌, ◌≡◌, refl, ap, ◌∙◌, arith, ◌==◌, true, false, some, List,
  [], ◌∷◌, ◌++◌, set, take, replicate, length, Str, ltb, >>=-eq-some, take-all, length-append,
  length-replicate, append_assoc, some-injective, be16, be32, put_be16, get_be16, get_be16-put_be16,
  slice-append_at, slice-here, Bool-cases, inl, inr, two_at, Option-cases, u8,
}
use frommel.Station.{Station}
use frommel.BinderyIo.{Bindery, name_array, scan_object}
use frommel.BinderyIo.Store.{Io, Made, add_object, new_object}
use frommel.BinderyIo.Found.{IsText, c_string-IsText, add_object-found}
use frommel.Ncp.Fields.{Site, be16_at, text_field}
use frommel.Ncp.Objects.{handle_getobjid, handle_createobj, made_code}

-- A field of a request: the length of the name, and the name.
abbrev pub counted : Str → List ℕ → List ℕ
counted name rest = length name ∷ (name ++ rest)

pub text_field-counted :
    (front : List ℕ) (i : ℕ) (name : Str) (rest : List ℕ)
    → length front ≡ i
    → IsText name
    → text_field (front ++ (length name ∷ (name ++ rest))) (i + 1) (length name) ≡ some name
text_field-counted front i name rest h t =
    rw
      (
        slice-append_at front (length name ∷ (name ++ rest)) i 1 (length name) h,
        slice-append_at (length name ∷ []) (name ++ rest) 1 0 (length name) refl,
        slice-here name rest (length name) refl,
        c_string-IsText name t,
      )
      refl

pub be16_at-be16 : (n : ℕ) (rest : List ℕ) → n < 2 ^ 16 → be16_at (be16 n ++ rest) 0 ≡ some n
unfolding two_at
be16_at-be16 n rest h = rw (get_be16-put_be16 n h) refl

abbrev pub zeros : ℕ → List ℕ
zeros n = replicate n 0

zeros_end : (n : ℕ) → zeros n ++ 0 ∷ [] ≡ zeros (suc n)
zeros_end zero = refl
zeros_end (suc n) = ap (λ (xs : List ℕ). 0 ∷ xs) (zeros_end n)

take-zeros : (n m : ℕ) → n ≤ m → take n (zeros m) ≡ zeros n
take-zeros zero zero h = refl
take-zeros zero (suc m) h = refl
take-zeros (suc n) zero h = elim h [ ]
take-zeros (suc n) (suc m) h = ap (λ (xs : List ℕ). 0 ∷ xs) (take-zeros n m (omega arith))

take-padded :
    (s : Str) (n m : ℕ) → length s ≤ n → n ≤ m → take n (s ++ zeros m) ≡ s ++ zeros (n - length s)
take-padded [] n m h g = take-zeros n m g ∙ ap (λ (j : ℕ). zeros j) (omega arith)
take-padded (c ∷ s) zero m h g = elim h [ ]
take-padded (c ∷ s) (suc n) m h g =
    ap (λ (xs : List ℕ). c ∷ xs)
      (take-padded s n m (omega arith) (omega arith) ∙ ap (λ (j : ℕ). s ++ zeros j) (omega arith))

set-zero : (s : Str) (n : ℕ) → set (s ++ zeros n) (length s) 0 ≡ s ++ zeros n
set-zero [] zero = refl
set-zero [] (suc n) = refl
set-zero (c ∷ s) n = ap (λ (xs : List ℕ). c ∷ xs) (set-zero s n)

-- The array of a new object holds its name, and zeros.
name_array-new_object :
    (name : Str) (type flags security id : ℕ)
    → length name < 48
    → name_array (new_object name type flags security id) ≡ name ++ zeros (48 - length name)
name_array-new_object name type flags security id h =
    let pad = 47 - length name in
    let whole : take 47 (take 47 (name ++ zeros 47)) ≡ name ++ zeros pad =
      ap (take 47) (take-padded name 47 47 (omega arith) (omega arith))
      ∙ take-all 47 (name ++ zeros pad)
          (omega (arith, length-append name (zeros pad), length-replicate {A = ℕ} pad 0)) in
    let one : suc pad ≡ 48 - length name = omega arith in
    let full : (name ++ zeros pad) ++ 0 ∷ [] ≡ name ++ zeros (48 - length name) =
      append_assoc name (zeros pad) (0 ∷ [])
      ∙ ap (λ (xs : List ℕ). name ++ xs) (zeros_end pad)
      ∙ ap (λ (j : ℕ). name ++ zeros j) one in
    let at : u8 (length name) ≡ length name = omega arith in
    rw (whole, full, at) (set-zero name (48 - length name))

-- What the client sends to create an object, and to ask for its id.
abbrev pub create_request : ℕ → ℕ → ℕ → Str → List ℕ → List ℕ
create_request flags security type name rest = flags ∷ security ∷ (be16 type ++ counted name rest)

abbrev pub id_request : ℕ → Str → List ℕ → List ℕ
id_request type name rest = be16 type ++ counted name rest

-- A code of `bindio_add_object` that is 0 comes with an id.
made_code-zero :
    (io : Io) (b : Bindery) (objname : Str) (type flags security id : ℕ) (made : Made)
    {b' : Bindery}
    → add_object io b objname type flags security id 0 ≡ some made
    → made_code made ≡ (0, b')
    → made ≡ (some id, 0, b')
unfolding add_object
made_code-zero io b objname type flags security id made {b'} h e =
    let (hit, q, f) = >>=-eq-some (scan_object b.objs objname type) _ h in
    elim (Option-cases hit) [
      | inl n ↦ elim (Bool-cases (ltb (u8 (length objname)) 48)) [
        | inl l ↦ elim (Bool-cases io.write_objs) [
          | inl w ↦ ground (arith, n, f, l, w, e)
          | inr w ↦ ground (arith, n, f, l, w, e)
        ]
        | inr l ↦ ground (arith, n, f, l)
      ]
      | inr (hit', n) ↦ ground (arith, n, f, e)
    ]

-- If NCP 23 50 has answered 0 to a request for a name of less than 48 bytes, none of them 0, with
-- a type of 16 bits, and the id that was drawn has 32 bits, then NCP 23 53 answers to the same
-- type and name with that id, the type, and the name filled up with zeros.
pub getobjid-createobj :
    (env : Site) (b : Bindery) (k : Station) (flags security type : ℕ) (name : Str)
    (rest rest' : List ℕ) (size : ℕ) {b' : Bindery}
    → IsText name
    → length name < 48
    → type < 2 ^ 16
    → env.new_id < 2 ^ 32
    → 6 ≤ size
    → handle_createobj env b k (create_request flags security type name rest) size ≡ some (0, b')
    → handle_getobjid b' (id_request type name rest') (4 + length name)
      ≡ some (0, be32 env.new_id ++ (be16 type ++ (name ++ zeros (48 - length name))))
unfolding handle_createobj handle_getobjid two_at
getobjid-createobj env b k flags security type name rest rest' size {b'} text short ht hid long h =
    let fits : ltb size 6 ≡ false = ground arith in
    let fits' : ltb (4 + length name) 4 ≡ false = ground arith in
    let exact : (4 + length name == 4 + length name) ≡ true = ground arith in
    let two = put_be16 type in
    let typed : get_be16 (record { b0 = two.b0; b1 = two.b1 }) ≡ type = get_be16-put_be16 type ht in
    let named : text_field (create_request flags security type name rest) 5 (length name)
        ≡ some name =
      text_field-counted (flags ∷ security ∷ two.b0 ∷ two.b1 ∷ []) 4 name rest refl text in
    let named' : text_field (id_request type name rest') 3 (length name) ≡ some name =
      text_field-counted (two.b0 ∷ two.b1 ∷ []) 2 name rest' refl text in
    elim (Bool-cases (k.object_supervisor == 0)) [
      | inl low ↦ absurd (ground (arith, (rw (fits, named, typed, low) at h)))
      | inr high ↦
          let (made, e, f) =
            >>=-eq-some (add_object env.io b name type flags security env.new_id 0) _
              (rw (fits, named, typed, high) at h) in
          let g =
            made_code-zero env.io b name type flags security env.new_id made {b' = b'} e
              (some-injective f) in
          let (_, found, _) =
            add_object-found env.io b name type flags security env.new_id 0 {b' = b'} text short ht
              hid (e ∙ ap some g) in
          rw
            (
              fits',
              exact,
              named',
              typed,
              found,
              name_array-new_object name type flags security env.new_id short,
            )
            refl
    ]
