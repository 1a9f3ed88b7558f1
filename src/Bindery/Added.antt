-- ===== src/Bindery/Added.antt =====
-- src/src/server/bindery.c: `bind_add_remove_objfromset`, then `bind_is_objinset`.
use frommel.Base.{
  ℕ, ◌<◌, ◌^◌, ◌≡◌, ◌≢◌, refl, sym, ap, subst, ◌∙◌, arith, ◌==◌, ◌&&◌, Bool, true, false, Option,
  none, some, List, take, take-all, length, >>=-eq-some, some-injective, Str, Option-cases, inl,
  inr, ltb, in_bounds, join32, join32-lt,
}
use frommel.BinderyIo.{
  NetObj, NetProp, NetVal, Obj, Prop, Val, Bindery, conv_object, conv_val, scan_object, scan_prop,
  scan_val, same_start,
}
use frommel.BinderyIo.Store.{Io, ok, no_such_property, no_such_object, io_error, write_prop}
use frommel.BinderyIo.Found.{written, rewrite_val, scan_records-hit}
use frommel.Bindery.{
  Found, object_id_of, find_set, find_value, with_member, with_prop, with_object, edit_set,
  is_objinset, objinset_with, add_member, has_member, store_set, add_remove_objfromset,
}
use frommel.Bindery.Members.{has_member-add_member, add_member-length}

-- An object that is found has an id of 32 bits.
object_id_of-lt :
    (b : Bindery) (type : ℕ) (name : Str) {id : ℕ}
    → object_id_of b type (some name) 0 ≡ some (some id)
    → id < 2 ^ 32
unfolding scan_object conv_object
object_id_of-lt b type name {id} h =
    let (hit, e, f) = >>=-eq-some (scan_object b.objs name type) _ h in
    elim (Option-cases hit) [
      | inl z ↦ ground (arith, z, f)
      | inr ((i, r, o), z) ↦
          let found = e ∙ ap some z in
          let (c, t) =
            scan_records-hit conv_object (λ o. same_start 48 name o.name && o.type == type) 0 b.objs
              found in
          let (u, _, made) = >>=-eq-some (in_bounds (ltb r.namelen 48)) _ c in
          let same : o.id ≡ join32 r.object_id =
            ap (λ (x : Obj). x.id) (sym (some-injective made)) in
          let this : o.id ≡ id = ground (arith, z, f) in
          omega (arith, same, this, join32-lt r.object_id)
    ]

-- What the search for a set has found, where it has found one; its error codes are not OK.
abbrev pub Sought : Bindery → ℕ → Str → Str → ℕ → Str → Found → Type 0
Sought b obj_type obj_name prop_name mem_type mem_name (inl code) = code ≢ ok
Sought b obj_type obj_name prop_name mem_type mem_name (inr (id, mem, v)) =
    (i : ℕ) × (r : NetProp) × (p : Prop) × (j : ℕ) × (s : NetVal) × (object_id_of b obj_type
        (some obj_name) 0
      ≡ some (some id))
    × (scan_prop b.props id prop_name ≡ some (some (i, r, p)))
    × (object_id_of b mem_type (some mem_name) 0 ≡ some (some mem))
    × (scan_val b.vals p.value_id ≡ some (some (j, s, v)))

find_set-Sought :
    (b : Bindery) (obj_type : ℕ) (obj_name prop_name : Str) (mem_type : ℕ) (mem_name : Str)
    (found : Found)
    → find_set none b obj_type obj_name prop_name mem_type mem_name ≡ some found
    → Sought b obj_type obj_name prop_name mem_type mem_name found
unfolding find_set
find_set-Sought b obj_type obj_name prop_name mem_type mem_name found h =
    let (obj, eo, h1) = >>=-eq-some (object_id_of b obj_type (some obj_name) 0) _ h in
    by_object obj eo h1
  where
    failed :
        (code : ℕ) (o : Option Found)
        → code ≢ ok
        → o ≡ some (inl code)
        → o ≡ some found
        → Sought b obj_type obj_name prop_name mem_type mem_name found
    failed code o ne e h =
        subst (Sought b obj_type obj_name prop_name mem_type mem_name) (some-injective (sym e ∙ h))
          ne

    by_value :
        (id mem i : ℕ) (r : NetProp) (p : Prop) (hit : Option (ℕ × NetVal × Val))
        → object_id_of b obj_type (some obj_name) 0 ≡ some (some id)
        → scan_prop b.props id prop_name ≡ some (some (i, r, p))
        → object_id_of b mem_type (some mem_name) 0 ≡ some (some mem)
        → scan_val b.vals p.value_id ≡ some hit
        → find_value b id mem hit ≡ some found
        → Sought b obj_type obj_name prop_name mem_type mem_name found
    by_value id mem i r p none eo ep em ev h = failed no_such_property _ (λ q. omega arith) refl h
    by_value id mem i r p (some (j, s, v)) eo ep em ev h =
        subst (Sought b obj_type obj_name prop_name mem_type mem_name) (some-injective h)
          (i, r, p, j, s, eo, ep, em, ev)

    by_member :
        (id i : ℕ) (r : NetProp) (p : Prop) (mem : Option ℕ)
        → object_id_of b obj_type (some obj_name) 0 ≡ some (some id)
        → scan_prop b.props id prop_name ≡ some (some (i, r, p))
        → object_id_of b mem_type (some mem_name) 0 ≡ some mem
        → with_member b id p mem ≡ some found
        → Sought b obj_type obj_name prop_name mem_type mem_name found
    by_member id i r p none eo ep em h = failed no_such_object _ (λ q. omega arith) refl h
    by_member id i r p (some m) eo ep em h =
        let (hit, ev, h1) = >>=-eq-some (scan_val b.vals p.value_id) _ h in
        by_value id m i r p hit eo ep em ev h1

    by_prop :
        (id : ℕ) (hit : Option (ℕ × NetProp × Prop))
        → object_id_of b obj_type (some obj_name) 0 ≡ some (some id)
        → scan_prop b.props id prop_name ≡ some hit
        → with_prop none b id mem_type mem_name hit ≡ some found
        → Sought b obj_type obj_name prop_name mem_type mem_name found
    by_prop id none eo ep h = failed no_such_property _ (λ q. omega arith) refl h
    by_prop id (some (i, r, p)) eo ep h =
        let (mem, em, h1) = >>=-eq-some (object_id_of b mem_type (some mem_name) 0) _ h in
        by_member id i r p mem eo ep em h1

    by_object :
        (obj : Option ℕ)
        → object_id_of b obj_type (some obj_name) 0 ≡ some obj
        → with_object none b prop_name mem_type mem_name obj ≡ some found
        → Sought b obj_type obj_name prop_name mem_type mem_name found
    by_object none eo h = failed no_such_object _ (λ q. omega arith) refl h
    by_object (some id) eo h =
        let (hit, ep, h1) = >>=-eq-some (scan_prop b.props id prop_name) _ h in
        by_prop id hit eo ep h1

-- The values of the bindery have their 128 bytes.
abbrev pub HasArrays : Bindery → Type 0
HasArrays b =
    (n j : ℕ) (s : NetVal) (v : Val)
    → scan_val b.vals n ≡ some (some (j, s, v))
    → length v.bytes ≡ 128

io_error-fails :
    (b b' : Bindery) → ◌≢◌ {A = Option (ℕ × Bindery)} (some (io_error, b)) (some (ok, b'))
io_error-fails b b' h =
    let codes : io_error ≡ ok = ap (λ (x : ℕ × Bindery). x.0) (some-injective h) in
    absurd (omega (arith, codes))

-- What `bind_add_remove_objfromset` does if it adds and returns OK.
stored :
    (io : Io) (b : Bindery) (prop_name : Str) (found : Found) {b' : Bindery}
    → ((code : ℕ) → found ≡ inl code → code ≢ ok)
    → edit_set io b prop_name true found ≡ some (ok, b')
    → (id : ℕ) × (mem : ℕ) × (v : Val) × (out : List ℕ) × (found ≡ inr (id, mem, v))
      × (add_member 32 0 mem v.bytes false ≡ some (some (out, true)))
      × (write_prop io b id prop_name 1 0 out ≡ some (ok, b'))
stored io b prop_name (inl code) {b'} ne h =
    absurd (ne code refl (ap (λ (x : ℕ × Bindery). x.0) (some-injective h)))
stored io b prop_name (inr (id, mem, v)) {b'} ne h =
    let (edited, ea, h1) = >>=-eq-some (add_member 32 0 mem v.bytes false) _ h in
    by_edit edited ea h1
  where
    by_edit :
        (edited : Option (List ℕ × Bool))
        → add_member 32 0 mem v.bytes false ≡ some edited
        → store_set io b id prop_name edited ≡ some (ok, b')
        → (id' : ℕ) × (mem' : ℕ) × (v' : Val) × (out : List ℕ) × (◌≡◌ {A = Found}
            (inr (id, mem, v))
            (inr (id', mem', v')))
          × (add_member 32 0 mem' v'.bytes false ≡ some (some (out, true)))
          × (write_prop io b id' prop_name 1 0 out ≡ some (ok, b'))
    by_edit none ea h = absurd (io_error-fails b b' h)
    by_edit (some (out, false)) ea h = absurd (io_error-fails b b' h)
    by_edit (some (out, true)) ea h = (id, mem, v, out, refl, ea, h)

-- On a bindery whose values have 128 bytes, once bind_add_remove_objfromset, for no connection,
-- has added a member to a set and returned OK, bind_is_objinset finds the member in the set, by
-- the same names and types.
pub is_objinset-added :
    (io : Io) (b : Bindery) (obj_type : ℕ) (obj_name prop_name : Str) (mem_type : ℕ)
    (mem_name : Str) {b' : Bindery}
    → HasArrays b
    → add_remove_objfromset io none b obj_type obj_name prop_name mem_type mem_name 0
      ≡ some (ok, b')
    → is_objinset none b' obj_type (some obj_name) 0 prop_name mem_type (some mem_name) 0 ≡ some ok
unfolding add_remove_objfromset is_objinset objinset_with conv_val
is_objinset-added io b obj_type obj_name prop_name mem_type mem_name {b'} arrays h =
    let (found, ef, h1) =
      >>=-eq-some (find_set none b obj_type obj_name prop_name mem_type mem_name) _ h in
    let sought = find_set-Sought b obj_type obj_name prop_name mem_type mem_name found ef in
    let S = Sought b obj_type obj_name prop_name mem_type mem_name in
    let (id, mem, v, out, same, ea, hw) =
      stored io b prop_name found {b' = b'} (λ code e. subst S e sought) h1 in
    let (i, r, p, j, s, eo, ep, em, ev) = subst S same sought in
    let (i2, r2, p2, j2, s2, v2, ep2, ev2, props, vals, objs) =
      written io b id prop_name 1 0 out {b' = b'} hw in
    let len = add_member-length mem v.bytes {out = out} ea in
    let whole : take 128 out ≡ out =
      take-all 128 out (omega (arith, len, arrays p.value_id j s v ev)) in
    let objs_at = λ (name : Str) (type : ℕ).
      ap (λ (os : List NetObj). object_id_of (record b { objs = os }) type (some name) 0) objs in
    let prop_at = ap (λ (ps : List NetProp). scan_prop ps id prop_name) props ∙ ep2 in
    let val_at =
      ap (λ (vs : List NetVal). scan_val vs p2.value_id) vals
      ∙ rewrite_val b.vals p2.value_id (take 128 out) ev2 in
    let found_in =
      ap (λ (bs : List ℕ). has_member 32 0 bs mem) whole
      ∙ has_member-add_member mem v.bytes {out = out} (object_id_of-lt b mem_type mem_name em) ea in
    rw (objs_at obj_name obj_type ∙ eo, prop_at, objs_at mem_name mem_type ∙ em, val_at, found_in)
      refl
