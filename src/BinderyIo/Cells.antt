-- ===== src/BinderyIo/Cells.antt =====
-- src/src/server/binderyio.c: the values of the bindery as a map from value ids to bytes.
use native.Mathlib.Decide.{ℕ_discrete}
use frommel.Base.{
  ℕ, zero, suc, ◌+◌, ◌≡◌, refl, sym, ap, ◌∙◌, arith, ◌==◌, Bool, true, false, Option, none, some,
  List, [], ◌∷◌, set, take, get_elem?, ◌>>=◌, >>=-eq-some, some-injective, Str, Bool-cases,
  Option-cases, inl, inr, if◌then◌else◌,
}
use frommel.BinderyIo.{
  NetProp, NetVal, Prop, Val, Bindery, conv_val, scan_records, scan_prop, scan_val,
}
use frommel.BinderyIo.Store.{Io, ok, read_prop, write_prop}
use frommel.BinderyIo.Found.{written, rewrite_val, scan_records-hit}

module _ {R C : Type 0} (conv : R → Option C) (test : C → Bool) where
  -- Writing a record that is no hit over one that is none does not change the scan.
  scan_records-set_miss :
      (i : ℕ) (xs : List R) (m : ℕ) {r : R} {c : C} (r' : R) (c' : C)
      → get_elem? xs m ≡ some r
      → conv r ≡ some c
      → test c ≡ false
      → conv r' ≡ some c'
      → test c' ≡ false
      → scan_records conv test i (set xs m r') ≡ scan_records conv test i xs
  scan_records-set_miss i [] m r' c' g e t e' t' = refl
  scan_records-set_miss i (x ∷ xs) zero {r} {c} r' c' g e t e' t' =
      let ex = ap conv (some-injective g) ∙ e in rw (ex, e', t, t') refl
  scan_records-set_miss i (x ∷ xs) (suc m) {r} {c} r' c' g e t e' t' =
      let rest = scan_records-set_miss (suc i) xs m {r = r} {c = c} r' c' g e t e' t' in
      elim (Option-cases (conv x)) [
        | inl n ↦ rw n refl
        | inr (d, q) ↦ elim (Bool-cases (test d)) [
          | inl b ↦ rw (q, b) refl
          | inr b ↦ rw (q, b) rest
        ]
      ]

  -- A hit is at its position.
  scan_records-place :
      (i : ℕ) (xs : List R) {n : ℕ} {r : R} {c : C}
      → scan_records conv test i xs ≡ some (some (n, r, c))
      → (m : ℕ) × (n ≡ i + m) × (get_elem? xs m ≡ some r)
  scan_records-place i [] h = ground arith
  scan_records-place i (x ∷ xs) {n} {r} {c} h =
      let (d, q, f) = >>=-eq-some (conv x) _ h in
      elim (Bool-cases (test d)) [
        | inl b ↦ (0, ground (arith, b, f), ground (arith, b, f))
        | inr b ↦
            let (m, e, g) =
              scan_records-place (suc i) xs {n = n} {r = r} {c = c} (ground (arith, b, f)) in
            (suc m, omega (arith, e), g)
      ]

-- The abstract bindery: the value id of each property, and the bytes of each value. The outer `none` is
-- a fault, the inner one a property or a value that is not there.
abbrev pub Ids : Type 0
Ids = ℕ → Str → Option (Option ℕ)

abbrev pub Bytes : Type 0
Bytes = ℕ → Option (List ℕ)

abbrev pub look : Ids → Bytes → ℕ → Str → Option (Option (List ℕ))
look ids bytes objid propname = do
  id ← ids objid propname
  some (elim id [ none ↦ none | some n ↦ bytes n ])

abbrev pub update : Bytes → ℕ → List ℕ → Bytes
update bytes n new m = if n == m then some new else bytes m

-- What a bindery stands for.
abbrev pub ids_of : Bindery → Ids
ids_of b objid propname = do
  hit ← scan_prop b.props objid propname
  some (elim hit [ none ↦ none | some (i, r, p) ↦ some p.value_id ])

abbrev of_hit : Option (Option (ℕ × NetVal × Val)) → Option (List ℕ)
of_hit none = none
of_hit (some none) = none
of_hit (some (some (j, s, v))) = some v.bytes

abbrev pub bytes_of : Bindery → Bytes
bytes_of b n = of_hit (scan_val b.vals n)

-- What `bindio_read_prop` gives to its caller.
abbrev pub bytes_read : ℕ × Option (Val × Prop) → Option (List ℕ)
bytes_read (code, none) = none
bytes_read (code, some (v, p)) = some v.bytes

scan_val-total :
    (vals : List NetVal) (n : ℕ) → (hit : Option (ℕ × NetVal × Val)) × (scan_val vals n ≡ some hit)
unfolding scan_val
scan_val-total vals n = go 0 vals
  where
    go :
        (i : ℕ) (xs : List NetVal)
        → (hit : Option (ℕ × NetVal × Val)) × (scan_records
              (λ r. some (conv_val r))
              (λ v. v.id == n)
              i
              xs
            ≡ some hit)
    go i [] = (none, refl)
    go i (x ∷ xs) =
        let (hit, e) = go (suc i) xs in
        elim (Bool-cases ((conv_val x).id == n)) [
          | inl b ↦ (some (i, x, conv_val x), ground (arith, b))
          | inr b ↦ (hit, ground (arith, b, e))
        ]

read_prop-look :
    (b : Bindery) (objid : ℕ) (propname : Str) (segno : ℕ)
    → (read_prop b objid propname segno >>= λ r. some (bytes_read r))
      ≡ look (ids_of b) (bytes_of b) objid propname
unfolding read_prop
read_prop-look b objid propname segno = elim (Option-cases (scan_prop b.props objid propname)) [
  | inl f ↦ rw f refl
  | inr (none, f) ↦ rw f refl
  | inr (some (i, r, p), f) ↦
      let (hit, e) = scan_val-total b.vals p.value_id in
      elim (Option-cases hit) [ inl z ↦ rw (f, e, z) refl | inr ((j, s, v), z) ↦ rw (f, e, z) refl ]
]

bytes_of-set :
    (b b' : Bindery) (n j : ℕ) (bytes : List ℕ) {s : NetVal} {v : Val}
    → scan_val b.vals n ≡ some (some (j, s, v))
    → b'.vals ≡ set b.vals j (record s { bytes = bytes })
    → bytes_of b' ≡ update (bytes_of b) n bytes
unfolding scan_val conv_val
bytes_of-set b b' n j bytes {s} {v} h e = λ t m. at_each m t
  where
    new : NetVal
    new = record s { bytes = bytes }

    at_each : (m : ℕ) → bytes_of b' m ≡ update (bytes_of b) n bytes m
    at_each m = elim (ℕ_discrete n m) [
      | yes q ↦
          let hit_now : (n == m) ≡ true = ground arith in
          ap (bytes_of b') (sym q)
          ∙ (ap (λ (vals : List NetVal). of_hit (scan_val vals n)) e
              ∙ (ap of_hit (rewrite_val b.vals n bytes h)
                  ∙ ap (λ (c : Bool). if c then some bytes else bytes_of b m) (sym hit_now)))
      | no q ↦
          let miss : (n == m) ≡ false = ground arith in
          let (c, t) = scan_records-hit (λ r. some (conv_val r)) (λ v. v.id == n) 0 b.vals h in
          let (k, place, g) =
            scan_records-place (λ r. some (conv_val r)) (λ v. v.id == n) 0 b.vals h in
          let other : ((conv_val s).id == m) ≡ false = ground (arith, c, t) in
          let same =
            scan_records-set_miss (λ r. some (conv_val r)) (λ v. v.id == m) 0 b.vals k new
              (conv_val new) g refl other refl other in
          let at_j : set b.vals j new ≡ set b.vals k new =
            ap (λ (i : ℕ). set b.vals i new) (omega (arith, place)) in
          ap (λ (vals : List NetVal). of_hit (scan_val vals m)) (e ∙ at_j)
          ∙ (ap of_hit same ∙ ap (λ (c : Bool). if c then some bytes else bytes_of b m) (sym miss))
    ]

-- The bindery is a map from properties to value ids, and one from value ids to bytes. Once
-- bindio_write_prop has returned OK, what bindio_read_prop gives for every property, of every
-- object and for every segment number, is what these maps give after the bytes of one value, that
-- of the written property, have become the first 128 bytes that were written.
pub write_prop-update :
    (io : Io) (b : Bindery) (objid : ℕ) (propname : Str) (segno more : ℕ) (bytes : List ℕ)
    {b' : Bindery}
    → write_prop io b objid propname segno more bytes ≡ some (ok, b')
    → (n : ℕ) × (ids_of b objid propname ≡ some (some n))
      × ((objid2 : ℕ) (propname2 : Str) (segno2 : ℕ)
          → (read_prop b' objid2 propname2 segno2 >>= λ r. some (bytes_read r))
            ≡ look (ids_of b) (update (bytes_of b) n (take 128 bytes)) objid2 propname2)
write_prop-update io b objid propname segno more bytes {b'} h =
    let (i, r, p, j, s, v, ep, ev, props, vals, objs) =
      written io b objid propname segno more bytes {b' = b'} h in
    let ids : ids_of b' ≡ ids_of b =
      ap (λ (props : List NetProp). ids_of (record b { props = props })) props in
    let cells = bytes_of-set b b' p.value_id j (take 128 bytes) ev vals in
    (
      p.value_id,
      rw ep refl,
      λ objid2 propname2 segno2.
          read_prop-look b' objid2 propname2 segno2
          ∙ (ap (λ (f : Ids). look f (bytes_of b') objid2 propname2) ids
              ∙ ap (λ (g : Bytes). look (ids_of b) g objid2 propname2) cells),
    )
