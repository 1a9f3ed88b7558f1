-- ===== src/BinderyIo/Found.antt =====
-- src/src/server/binderyio.c: what was added or written to the bindery is found again.
use frommel.Base.{
  c_string, ℕ, zero, suc, ◌+◌, ◌-◌, ◌^◌, ◌<◌, ◌≤◌, ◌≡◌, ◌≢◌, inl, inr, refl, ap, ◌∙◌, arith, ◌==◌,
  ◌&&◌, Bool, true, Option, none, some, List, [], ◌∷◌, ◌++◌, set, take, replicate, length, ◌>>=◌,
  >>=-eq-some, Str, str_eq_refl, Bool-cases, Option-cases, ltb, u8, join32-put_be32,
  join16-put_be16,
}
use frommel.BinderyIo.{
  NetProp, NetVal, Obj, Prop, Val, Bindery, no_id, conv_object, conv_val, scan_records, scan_object,
  scan_prop, scan_val, same_start,
}
use frommel.BinderyIo.Store.{
  Io, ok, add_object, new_object, read_prop, write_prop, overwrite, obj_exists, field,
}

module _ {R C : Type 0} (conv : R → Option C) (test : C → Bool) where
  -- A record that replaces a hit is hit.
  scan_records-set :
      (i : ℕ) (xs : List R) {n : ℕ} {r : R} {c : C} (r' : R) (c' : C)
      → scan_records conv test i xs ≡ some (some (n, r, c))
      → conv r' ≡ some c'
      → test c' ≡ true
      → (i ≤ n) × (scan_records conv test i (set xs (n - i) r') ≡ some (some (n, r', c')))
  scan_records-set i [] r' c' h e t = ground arith
  scan_records-set i (x ∷ xs) {n} {r} {c} r' c' h e t =
      let (d, q, f) = >>=-eq-some (conv x) _ h in
      elim (Bool-cases (test d)) [
        | inl b ↦
            let here : i ≡ n = ground (arith, b, f) in
            let first : n - i ≡ 0 = omega (arith, here) in
            let front : set (x ∷ xs) (n - i) r' ≡ r' ∷ xs = ap (λ m. set (x ∷ xs) m r') first in
            (omega (arith, here), rw (front) (ground (arith, e, t, here)))
        | inr b ↦
            let later : scan_records conv test (suc i) xs ≡ some (some (n, r, c)) =
              ground (arith, b, f) in
            let (le, rest) = scan_records-set (suc i) xs r' c' later e t in
            let next : n - i ≡ suc (n - suc i) = omega (arith, le) in
            let back : set (x ∷ xs) (n - i) r' ≡ x ∷ set xs (n - suc i) r' =
              ap (λ m. set (x ∷ xs) m r') next in
            (omega (arith, le), rw (back) (ground (arith, q, b, rest)))
      ]

  -- A hit passes the test.
  pub scan_records-hit :
      (i : ℕ) (xs : List R) {n : ℕ} {r : R} {c : C}
      → scan_records conv test i xs ≡ some (some (n, r, c))
      → (conv r ≡ some c) × (test c ≡ true)
  scan_records-hit i [] h = ground arith
  scan_records-hit i (x ∷ xs) {n} {r} {c} h =
      let (d, q, f) = >>=-eq-some (conv x) _ h in
      elim (Bool-cases (test d)) [
        | inl b ↦ (ground (arith, q, f, b), ground (arith, q, f, b))
        | inr b ↦ scan_records-hit (suc i) xs {n = n} {r = r} {c = c} (ground (arith, b, f))
      ]

  -- A record behind those that are no hit is hit.
  scan_records-append :
      (i : ℕ) (xs : List R) (r : R) (c : C)
      → scan_records conv test i xs ≡ some none
      → conv r ≡ some c
      → test c ≡ true
      → scan_records conv test i (xs ++ r ∷ []) ≡ some (some (i + length xs, r, c))
  scan_records-append i [] r c h e t = ground (arith, e, t)
  scan_records-append i (x ∷ xs) r c h e t =
      let (d, q, f) = >>=-eq-some (conv x) _ h in
      elim (Bool-cases (test d)) [
        | inl b ↦ ground (arith, b, f)
        | inr b ↦ ground (arith, q, b, f, scan_records-append (suc i) xs r c)
      ]

-- No byte of the text is 0.
abbrev pub IsText : Str → Type 0
IsText [] = Unit {0}
IsText (c ∷ s) = (c ≢ 0) × IsText s

pub c_string-IsText : (s : Str) → IsText s → c_string s ≡ s
c_string-IsText [] h = refl
c_string-IsText (c ∷ s) h = ground (arith, c_string-IsText s h.1)

pub take-field :
    (n : ℕ) (s : Str) (z : List ℕ) → length s ≤ n → take (length s) (take n (s ++ z)) ≡ s
take-field n [] z h = refl
take-field zero (c ∷ s) z h = absurd (omega arith)
take-field (suc n) (c ∷ s) z h = ap (◌∷◌ c) (take-field n s z (omega arith))

-- What a new object record converts to.
conv_object-new_object :
    (objname : Str) (type flags security id : ℕ)
    → IsText objname
    → length objname < 48
    → type < 2 ^ 16
    → id < 2 ^ 32
    → conv_object (new_object objname type flags security id)
      ≡ some (record {
        id = id;
        type = type;
        name = objname;
        flags = flags;
        security = security;
        prop_id = no_id;
      })
unfolding conv_object
conv_object-new_object objname type flags security id text short ht hid =
    let short8 : u8 (length objname) ≡ length objname = omega arith in
    let name : c_string (take (length objname) (field 47 objname)) ≡ objname =
      ap c_string (take-field 47 objname (replicate 47 0) (omega arith))
      ∙ c_string-IsText objname text in
    ground (
      arith,
      short8,
      name,
      join32-put_be32 id hid,
      join16-put_be16 type ht,
      join32-put_be32 no_id (omega arith),
    )

-- What `bindio_add_object` does if it returns an id.
added :
    (io : Io) (b : Bindery) (objname : Str) (type flags security id errcode : ℕ) {made errcode' : ℕ}
    {b' : Bindery}
    → add_object io b objname type flags security id errcode ≡ some (some made, errcode', b')
    → (made ≡ id)
      × (scan_object b.objs objname type ≡ some none)
      × (b'.objs ≡ b.objs ++ new_object objname type flags security id ∷ [])
unfolding add_object
added io b objname type flags security id errcode {made} {errcode'} {b'} h =
    let (hit, e, f) = >>=-eq-some (scan_object b.objs objname type) _ h in
    elim (Option-cases hit) [
      | inl q ↦ elim (Bool-cases (ltb (u8 (length objname)) 48)) [
        | inl l ↦ elim (Bool-cases io.write_objs) [
          | inl w ↦ (ground (arith, q, f, l, w), ground (arith, e, q), ground (arith, q, f, l, w))
          | inr w ↦ ground (arith, q, f, l, w)
        ]
        | inr l ↦ ground (arith, q, f, l)
      ]
      | inr (hit', q) ↦ ground (arith, q, f)
    ]

-- Once `bindio_add_object` has returned an id, of 32 bits, for a name of less than 48 bytes, none of
-- them 0, and a type of 16 bits, the new object is found under its name and type, with
-- that id and without properties; adding it again fails with OBJEXISTS.
pub add_object-found :
    (io : Io) (b : Bindery) (objname : Str) (type flags security id errcode : ℕ) {made errcode' : ℕ}
    {b' : Bindery}
    → IsText objname
    → length objname < 48
    → type < 2 ^ 16
    → id < 2 ^ 32
    → add_object io b objname type flags security id errcode ≡ some (some made, errcode', b')
    → (made ≡ id)
      × (scan_object b'.objs objname type
          ≡ some (
              some (
                length b.objs,
                new_object objname type flags security id,
                record {
                  id = id;
                  type = type;
                  name = objname;
                  flags = flags;
                  security = security;
                  prop_id = no_id;
                },
              )))
      × ((again : ℕ)
          → add_object io b' objname type flags security again errcode
            ≡ some (none, obj_exists, b'))
unfolding add_object scan_object
add_object-found io b objname type flags security id errcode {made} {errcode'} {b'} text short ht
      hid h =
    let (same, missing, objs) =
      added io b objname type flags security id errcode {made = made} {errcode' = errcode'}
        {b' = b'} h in
    let found =
      scan_records-append conv_object (λ o. same_start 48 objname o.name && o.type == type) 0 b.objs
        (new_object objname type flags security id) _ missing
        (conv_object-new_object objname type flags security id text short ht hid)
        (ground (arith, str_eq_refl (take 48 objname))) in
    let shown : Obj = record {
      id = id;
      type = type;
      name = objname;
      flags = flags;
      security = security;
      prop_id = no_id;
    } in
    let there =
      ap (scan_records conv_object (λ o. same_start 48 objname o.name && o.type == type) 0) objs
      ∙ found
      ∙ ap (λ m. some (some (m, new_object objname type flags security id, shown))) (omega arith) in
    (same, there, λ again. rw (there) refl)

-- What `bindio_write_prop` does if it returns OK.
pub written :
    (io : Io) (b : Bindery) (objid : ℕ) (propname : Str) (segno more : ℕ) (bytes : List ℕ)
    {b' : Bindery}
    → write_prop io b objid propname segno more bytes ≡ some (ok, b')
    → (i : ℕ) × (r : NetProp) × (p : Prop) × (j : ℕ) × (s : NetVal) × (v : Val) × (scan_prop b.props
          objid propname
        ≡ some (some (i, r, p)))
      × (scan_val b.vals p.value_id ≡ some (some (j, s, v)))
      × (b'.props ≡ b.props)
      × (b'.vals ≡ set b.vals j (record s { bytes = take 128 bytes }))
      × (b'.objs ≡ b.objs)
unfolding write_prop
written io b objid propname segno more bytes {b'} h =
    let (hit, e, f) = >>=-eq-some (scan_prop b.props objid propname) _ h in
    elim (Option-cases hit) [
      | inl q ↦ ground (arith, q, f)
      | inr ((i, r, p), q) ↦ elim (Bool-cases (segno == 1)) [
        | inl sg ↦ elim (Bool-cases (more == 0)) [
          | inl mo ↦
              let g : (scan_val b.vals p.value_id >>= λ value. some (overwrite io b value bytes))
                  ≡ some (ok, b') =
                ground (arith, q, f, sg, mo) in
              let (value, ev, fv) = >>=-eq-some (scan_val b.vals p.value_id) _ g in
              elim (Option-cases value) [
                | inl z ↦ ground (arith, z, fv)
                | inr ((j, s, v), z) ↦ elim (Bool-cases io.write_vals) [
                  | inl w ↦ (
                    i,
                    r,
                    p,
                    j,
                    s,
                    v,
                    ground (arith, e, q),
                    ground (arith, ev, z),
                    ground (arith, z, fv, w),
                    ground (arith, z, fv, w),
                    ground (arith, z, fv, w),
                  )
                  | inr w ↦ ground (arith, z, fv, w)
                ]
              ]
          | inr mo ↦ ground (arith, q, f, sg, mo)
        ]
        | inr sg ↦ ground (arith, q, f, sg)
      ]
    ]

pub read_back :
    (b : Bindery) (objid : ℕ) (propname : Str) (segno : ℕ) {i j : ℕ} {r : NetProp} {p : Prop}
    {s : NetVal} {v : Val}
    → scan_prop b.props objid propname ≡ some (some (i, r, p))
    → scan_val b.vals p.value_id ≡ some (some (j, s, v))
    → read_prop b objid propname segno ≡ some (ok, some (v, p))
unfolding read_prop
read_back b objid propname segno ep ev = rw (ep, ev) refl

pub rewrite_val :
    (vals : List NetVal) (valid : ℕ) (bytes : List ℕ) {j : ℕ} {s : NetVal} {v : Val}
    → scan_val vals valid ≡ some (some (j, s, v))
    → scan_val (set vals j (record s { bytes = bytes })) valid
      ≡ some (some (j, record s { bytes = bytes }, conv_val (record s { bytes = bytes })))
unfolding scan_val conv_val
rewrite_val vals valid bytes {j} {s} {v} h =
    let (c, t) = scan_records-hit (λ r. some (conv_val r)) (λ v. v.id == valid) 0 vals h in
    let (le, again) =
      scan_records-set (λ r. some (conv_val r)) (λ v. v.id == valid) 0 vals
        (record s { bytes = bytes }) (conv_val (record s { bytes = bytes })) h refl
        (ground (arith, c, t)) in
    ap
      (λ m.
        scan_records (λ r. some (conv_val r)) (λ v. v.id == valid) 0
          (set vals m (record s { bytes = bytes })))
      {x = j} {y = j - 0} (omega arith)
    ∙ again

-- Once `bindio_write_prop` has returned OK, `bindio_read_prop` gives the 128 bytes that were written,
-- whatever segment is asked for.
pub read_prop-write_prop :
    (io : Io) (b : Bindery) (objid : ℕ) (propname : Str) (segno more any_segno : ℕ) (bytes : List ℕ)
    {b' : Bindery}
    → write_prop io b objid propname segno more bytes ≡ some (ok, b')
    → (v : Val) × (p : Prop) × (read_prop b' objid propname any_segno ≡ some (ok, some (v, p)))
      × (v.bytes ≡ take 128 bytes)
unfolding conv_val
read_prop-write_prop io b objid propname segno more any_segno bytes {b'} h =
    let (i, r, p, j, s, v, ep, ev, props, vals, objs) =
      written io b objid propname segno more bytes {b' = b'} h in
    (
      conv_val (record s { bytes = take 128 bytes }),
      p,
      read_back b' objid propname any_segno (ap (λ x. scan_prop x objid propname) props ∙ ep) (
          ap (λ x. scan_val x p.value_id) vals ∙ rewrite_val b.vals p.value_id (take 128 bytes) ev),
      refl,
    )
