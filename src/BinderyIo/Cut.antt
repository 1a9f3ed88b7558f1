-- ===== src/BinderyIo/Cut.antt =====
-- src/src/server/binderyio.c: what `bindio_delete_prop` does to the files.
use frommel.Base.{
  ℕ, ◌-◌, ◌≡◌, ◌≢◌, inl, inr, refl, sym, ap, ◌∙◌, arith, ◌==◌, true, false, Option, none, some,
  List, [], ◌∷◌, take, length, get_elem?, ◌>>=◌, >>=-eq-some, Bool-cases, Option-cases, remove_at,
}
use frommel.BinderyIo.{
  NetObj, NetProp, NetVal, Prop, Val, Obj, Bindery, scan_propid, scan_prop_nextid, scan_val,
  scan_object_by_id, dump, conv_prop,
}
use frommel.BinderyIo.Store.{Io, ok, no_such_property}
use frommel.BinderyIo.Found.{scan_records-hit}
use frommel.BinderyIo.Delete.{
  drop_val, drop_prop, rec_pos, unlink_prop, delete_found, delete_prop, relink,
}

relink-props :
    (io : Io) (b : Bindery) (junk_obj : NetObj) (propid nextid : ℕ)
    (obj : Option (ℕ × NetObj × Obj))
    → (relink io b junk_obj propid nextid obj).1.props ≡ b.props
relink-props io b junk_obj propid nextid none = refl
relink-props io b junk_obj propid nextid (some (k, r, o)) =
    elim (Bool-cases (o.prop_id == propid)) [
      | inl e ↦ elim (Bool-cases io.write_objs) [
        | inl w ↦ ground (arith, e, w)
        | inr w ↦ ground (arith, e, w)
      ]
      | inr e ↦ ground (arith, e)
    ]

unlinked :
    (io : Io) (b : Bindery) (junk_obj : NetObj) (junk_prop : NetProp) (propid nextid objid : ℕ)
    {code : ℕ} {b' : Bindery}
    → unlink_prop io b junk_obj junk_prop propid nextid objid ≡ some (code, b')
    → scan_prop_nextid b.props propid ≡ some none
    → b'.props ≡ b.props
unfolding unlink_prop
unlinked io b junk_obj junk_prop propid nextid objid {code} {b'} h s =
    let (hit, e, f) = >>=-eq-some (scan_prop_nextid b.props propid) _ h in
    elim (Option-cases hit) [
      | inl q ↦
          let g : (dump b.props b.objs >>= λ d.
          scan_object_by_id b.objs objid >>= λ obj. some (relink io b junk_obj propid nextid obj))
              ≡ some (code, b') =
            ground (arith, q, f) in
          let (d, ed, fd) = >>=-eq-some (dump b.props b.objs) _ g in
          let (obj, eo, fo) = >>=-eq-some (scan_object_by_id b.objs objid) _ fd in
          ground (arith, fo, relink-props io b junk_obj propid nextid obj)
      | inr (found, q) ↦ ground (arith, e, q, s)
    ]

dropped_val :
    (io : Io) (b : Bindery) (k : ℕ) {b1 : Bindery} → drop_val io b k ≡ some b1 → b1.props ≡ b.props
dropped_val io b k {b1} h = elim (Bool-cases (k == length b.vals - 1)) [
  | inl e ↦ elim (Bool-cases io.cut_vals) [
    | inl w ↦ ground (arith, e, w, h)
    | inr w ↦ ground (arith, e, w, h)
  ]
  | inr e ↦ elim (Bool-cases io.write_vals) [
    | inl w ↦ elim (Option-cases (get_elem? b.vals (length b.vals - 1))) [
      | inl n ↦ ground (arith, e, w, n, h)
      | inr (l, n) ↦ ground (arith, e, w, n, h)
    ]
    | inr w ↦ ground (arith, e, w, h)
  ]
]

dropped_prop :
    (io : Io) (b : Bindery) {b2 : Bindery}
    → drop_prop io b (length b.props - 1) ≡ (ok, b2)
    → b2.props ≡ take (length b.props - 1) b.props
unfolding remove_at
dropped_prop io b {b2} h = elim (Bool-cases io.cut_props) [
  | inl w ↦ ground (arith, w, h)
  | inr w ↦ ground (arith, w, h)
]

-- The end of `bindio_delete_prop`, once the property file has been cut.
abbrev goes_on : Io → NetObj → NetProp → Prop → ℕ × Bindery → Option (ℕ × Bindery)
goes_on io junk_obj junk_prop p (code, b) = elim (code == ok) [
  | false ↦ some (code, b)
  | true ↦ unlink_prop io b junk_obj junk_prop p.id p.next_id p.object_id
]

went_on :
    (io : Io) (junk_obj : NetObj) (junk_prop : NetProp) (p : Prop) (r : ℕ × Bindery) {b' : Bindery}
    → goes_on io junk_obj junk_prop p r ≡ some (ok, b')
    → (r.0 ≡ ok)
      × (unlink_prop io r.1 junk_obj junk_prop p.id p.next_id p.object_id ≡ some (ok, b'))
went_on io junk_obj junk_prop p (code, b) {b'} h = elim (Bool-cases (code == ok)) [
  | inl e ↦ (ground (arith, e), ground (arith, e, h))
  | inr e ↦ ground (arith, e, h)
]

found_deleted :
    (io : Io) (b : Bindery) (junk_obj : NetObj) (junk_prop : NetProp) (i : ℕ) (p : Prop) (k : ℕ)
    {b' : Bindery}
    → delete_found io b junk_obj junk_prop i p k ≡ some (ok, b')
    → rec_pos b i ≡ length b.props - 1
    → scan_prop_nextid (take (length b.props - 1) b.props) p.id ≡ some none
    → b'.props ≡ take (length b.props - 1) b.props
unfolding delete_found
found_deleted io b junk_obj junk_prop i p k {b'} h at s = elim (Option-cases (drop_val io b k)) [
  | inl e ↦ ground (arith, e, h)
  | inr (b1, e) ↦
      let same = dropped_val io b k {b1 = b1} e in
      let g : goes_on io junk_obj junk_prop p (drop_prop io b1 (rec_pos b i)) ≡ some (ok, b') =
        ground (arith, e, h) in
      let (code, rest) = went_on io junk_obj junk_prop p (drop_prop io b1 (rec_pos b i)) g in
      let last : rec_pos b i ≡ length b1.props - 1 = at ∙ ap (λ ps. length ps - 1) (sym same) in
      let b2 : Bindery = (drop_prop io b1 (rec_pos b i)).1 in
      let cut : b2.props ≡ take (length b.props - 1) b.props =
        dropped_prop io b1 {b2 = b2} (ap (drop_prop io b1) (sym last) ∙ ap (λ c. (c, b2)) code)
        ∙ ap (λ ps. take (length ps - 1) ps) same in
      unlinked io b2 junk_obj junk_prop p.id p.next_id p.object_id {code = ok} {b' = b'} rest
        (ap (λ ps. scan_prop_nextid ps p.id) cut ∙ s)
      ∙ cut
]

pos_end :
    (objs : List NetObj) (b : Bindery) (i : ℕ)
    → length objs ≢ 0
    → elim objs as (λ o. ℕ) [ [] ↦ i | r ∷ rs ↦ length b.props - 1 ] ≡ length b.props - 1
pos_end [] b i ne = absurd (ne refl)
pos_end (o ∷ os) b i ne = refl

at_end : (b : Bindery) (i : ℕ) → length b.objs ≢ 0 → rec_pos b i ≡ length b.props - 1
at_end b i ne = pos_end b.objs b i ne

asked :
    (props : List NetProp) (propid : ℕ) {i : ℕ} {r : NetProp} {p : Prop}
    → scan_propid props propid ≡ some (some (i, r, p))
    → p.id ≡ propid
unfolding scan_propid
asked props propid {i} {r} {p} h =
    let (c, t) =
      scan_records-hit conv_prop (λ p. p.id == propid) 0 props {n = i} {r = r} {c = p} h in
    ground (arith, t)

abbrev at_value :
    Io → Bindery → NetObj → NetProp → ℕ → Prop → Option (ℕ × NetVal × Val) → Option (ℕ × Bindery)
at_value io b junk_obj junk_prop i p none = some (no_such_property, b)
at_value io b junk_obj junk_prop i p (some (k, s, v)) = delete_found io b junk_obj junk_prop i p k

-- On a bindery that has an object, if `bindio_delete_prop` returns OK and no property is left that refers to
-- the deleted one, the last property of the file is gone, whichever was asked for.
pub delete_prop_cuts_last :
    (io : Io) (b : Bindery) (junk_obj : NetObj) (junk_prop : NetProp) (propid : ℕ) {b' : Bindery}
    → length b.objs ≢ 0
    → delete_prop io b junk_obj junk_prop propid ≡ some (ok, b')
    → scan_prop_nextid (take (length b.props - 1) b.props) propid ≡ some none
    → b'.props ≡ take (length b.props - 1) b.props
unfolding delete_prop
delete_prop_cuts_last io b junk_obj junk_prop propid {b'} ne h s =
    let (hit, e, f) = >>=-eq-some (scan_propid b.props propid) _ h in
    elim (Option-cases hit) [
      | inl q ↦ ground (arith, q, f)
      | inr ((i, r, p), q) ↦
          let g : (dump b.props b.objs >>= λ d.
          scan_val b.vals p.value_id >>= λ value. at_value io b junk_obj junk_prop i p value)
              ≡ some (ok, b') =
            ground (arith, q, f) in
          let (d, ed, fd) = >>=-eq-some (dump b.props b.objs) _ g in
          let (value, ev, fv) = >>=-eq-some (scan_val b.vals p.value_id) _ fd in
          let id : p.id ≡ propid = asked b.props propid (e ∙ ap some q) in
          elim (Option-cases value) [
            | inl z ↦ ground (arith, z, fv)
            | inr ((k, w, v), z) ↦
                found_deleted io b junk_obj junk_prop i p k {b' = b'} (ground (arith, z, fv))
                  (at_end b i ne) (ap (scan_prop_nextid (take (length b.props - 1) b.props)) id ∙ s)
          ]
    ]
