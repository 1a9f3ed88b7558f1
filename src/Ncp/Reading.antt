-- ===== src/Ncp/Reading.antt =====
-- src/src/server/ncp_23.c: a value is read only with the permission of its property.
use frommel.Base.{
  ℕ, ◌+◌, ◌≡◌, ◌≢◌, ==_iff, refl, sym, ap, ◌∙◌, arith, ◌==◌, true, not, Option, none, some, List,
  [], ◌∷◌, ◌++◌, get_elem?, Str, ltb, >>=-eq-some, some-injective, Bool-cases, inl, inr, if-result,
}
use frommel.Station.{Station}
use frommel.BinderyIo.{Bindery, NetObj, Obj, Prop, Val, scan_object}
use frommel.BinderyIo.Store.{read_prop, no_such_property}
use frommel.Bindery.{check_access}
use frommel.Ncp.Fields.{Reply, be16_at, text_field, complete}
use frommel.Ncp.Values.{show_value, read_of, wanted, handle_readprop}

-- Without a value there is no code 0.
read_prop-none :
    (b : Bindery) (id : ℕ) (name : Str) (segno code : ℕ)
    → read_prop b id name segno ≡ some (code, none)
    → code ≡ no_such_property
unfolding read_prop
read_prop-none b id name segno code h = ground arith

read_prop-some :
    (b : Bindery) (id : ℕ) (name : Str) (segno code : ℕ) (v : Val) (p : Prop)
    → read_prop b id name segno ≡ some (code, some (v, p))
    → code ≡ 0
unfolding read_prop
read_prop-some b id name segno code v p h = ground arith

-- What the reply of NCP 23 61 rests on.
abbrev pub Permitted : Bindery → Station → List ℕ → Type 0
Permitted b k bytes =
    (o : Obj) × (v : Val) × (p : Prop) × (name : Str) × (read_prop b o.id name 1
      ≡ some (0, some (v, p)))
    × (check_access k b o.id p.security 0 ≡ some true)
    × (bytes ≡ v.bytes ++ 0 ∷ 0 ∷ [])

abbrev Granted : Bindery → Station → Reply → Type 0
Granted b k reply = reply.0 ≡ 0 → Permitted b k reply.1

module _ (b : Bindery) (k : Station) where
  show_value-Granted :
      (o : Obj) (name : Str) (found : ℕ × Option (Val × Prop)) (reply : Reply)
      → read_prop b o.id name 1 ≡ some found
      → show_value b k o.id found ≡ some reply
      → Granted b k reply
  show_value-Granted o name (code, none) reply r h z =
      let c = read_prop-none b o.id name 1 code r in
      absurd (ground (arith, c, ap (λ (q : Reply). q.0) (some-injective h)))
  show_value-Granted o name (code, some (v, p)) reply r h z =
      let (allowed, a, f) = >>=-eq-some (check_access k b o.id p.security 0) _ h in
      elim (Bool-cases allowed) [
        | inr n ↦ absurd (ground (arith, ap (λ (q : Reply). q.0) (some-injective (rw n at f))))
        | inl y ↦ (
          o,
          v,
          p,
          name,
          r ∙ ap some (ap (λ (n : ℕ). (n, some (v, p))) (read_prop-some b o.id name 1 code v p r)),
          a ∙ ap some y,
          sym (ap (λ (q : Reply). q.1) (some-injective (rw y at f))),
        )
      ]

  refused :
      (code : ℕ)
      → code ≢ 0
      → (reply : Reply) → some (complete code) ≡ some reply
      → Granted b k reply
  refused code n reply e z = absurd (n (ap (λ (q : Reply). q.0) (some-injective e) ∙ z))

  of_object :
      (hit : Option (ℕ × NetObj × Obj)) (name : Str) (seg_no : ℕ)
      → seg_no ≡ 1
      → (reply : Reply) → read_of b k name seg_no hit ≡ some reply
      → Granted b k reply
  of_object none name seg_no one reply g = refused 0xfc (λ z. omega arith) reply g
  of_object (some (i, r, o)) name seg_no one reply g =
      let (found, q, l) = >>=-eq-some (read_prop b o.id name seg_no) _ g in
      show_value-Granted o name found reply (ap (λ (n : ℕ). read_prop b o.id name n) (sym one) ∙ q)
        l

  wanted-Granted :
      (obj_type : ℕ) (obj_name : Str) (seg_no : ℕ) (name : Str) (reply : Reply)
      → wanted b k obj_type obj_name seg_no name ≡ some reply
      → Granted b k reply
  wanted-Granted obj_type obj_name seg_no name reply e = elim (Bool-cases (seg_no == 1)) [
    | inl one ↦
        let (hit, _, g) = >>=-eq-some (scan_object b.objs obj_name obj_type) _ (rw one at e) in
        of_object hit name seg_no ((==_iff seg_no 1).0 one) reply g
    | inr other ↦ refused no_such_property (λ z. omega arith) reply (rw other at e)
  ]

  -- If NCP 23 61 answers with the code 0, the data is the value of a property that
  -- bindio_read_prop has found, followed by two zeros, and bind_check_access lets the connection
  -- read that property.
  pub handle_readprop-Permitted :
      (body : List ℕ) (size : ℕ) {bytes : List ℕ}
      → handle_readprop b k body size ≡ some (0, bytes)
      → Permitted b k bytes
  unfolding handle_readprop
  handle_readprop-Permitted body size h =
      if-result (Granted b k) (not (ltb size 6)) _ _
        (λ reply e.
          let (obj_type, _, f1) = >>=-eq-some (be16_at body 0) _ e in
          let (obj_len, _, f2) = >>=-eq-some (get_elem? body 2) _ f1 in
          let (obj_name, _, f3) = >>=-eq-some (text_field body 3 obj_len) _ f2 in
          let (seg_no, _, f4) = >>=-eq-some (get_elem? body (3 + obj_len)) _ f3 in
          let (prop_len, _, f5) = >>=-eq-some (get_elem? body (4 + obj_len)) _ f4 in
          let (name, _, f6) = >>=-eq-some (text_field body (5 + obj_len) prop_len) _ f5 in
          if-result (Granted b k) (size == 6 + prop_len + obj_len) _ _
            (wanted-Granted obj_type obj_name seg_no name) (refused 0xff (λ z. omega arith)) f6)
        (refused 0xff (λ z. omega arith)) h refl
