-- ===== src/BinderyIo.antt =====
-- src/src/server/binderyio.c and src/include/bindery.h: the records of the three bindery files and the
-- scans over them. A scan answers with the position of the record, the record and what it converts to;
-- the outer `none` is an access out of bounds.
pub mod Store
pub mod Delete
pub mod Found
pub mod Cells
pub mod Cut
use frommel.Base.{
  c_string, ℕ, zero, suc, ◌==◌, ◌&&◌, ◌||◌, Bool, true, false, Option, none, some, List, [], ◌∷◌,
  set, ◌++◌, take, drop, if◌then◌else◌, ◌>>=◌, ◌>>◌, in_bounds, ltb, Str, codes, str_eq, Two, Four,
  join16, join32, length,
}

-- `NETOBJ_RECORD`; its last field is never used.
pub record NetObj : Type 0 where
  pub object_id : Four
  pub object_type : Two
  pub namelen : ℕ
  pub name : List ℕ
  pub flags : ℕ
  pub security : ℕ
  pub prop_id : Four

-- `NETPROP_RECORD`
pub record NetProp : Type 0 where
  pub prop_id : Four
  pub namelen : ℕ
  pub name : List ℕ
  pub flag : ℕ
  pub security : ℕ
  pub objid : Four
  pub valueid : Four
  pub nextid : Four

-- `NETVAL_RECORD`
pub record NetVal : Type 0 where
  pub val_id : Four
  pub propid : Four
  pub nextid : Four
  pub size : Two
  pub bytes : List ℕ

-- `BINDERY_OBJ`
pub record Obj : Type 0 where
  pub id : ℕ
  pub type : ℕ
  pub name : Str
  pub flags : ℕ
  pub security : ℕ
  pub prop_id : ℕ

-- `BINDERY_PROP`
pub record Prop : Type 0 where
  pub id : ℕ
  pub name : Str
  pub flags : ℕ
  pub security : ℕ
  pub object_id : ℕ
  pub value_id : ℕ
  pub next_id : ℕ

-- `BINDERY_VAL`
pub record Val : Type 0 where
  pub id : ℕ
  pub prop_id : ℕ
  pub next_id : ℕ
  pub size : ℕ
  pub bytes : List ℕ

-- the three files
pub record Bindery : Type 0 where
  pub objs : List NetObj
  pub props : List NetProp
  pub vals : List NetVal

-- no object, property or value
abbrev pub no_id : ℕ
no_id = 0xffffffff

-- The byte behind the name is cleared: a fault if that is past the array of 48.
unfoldable pub conv_object : NetObj → Option Obj
conv_object r = do
  in_bounds (ltb r.namelen 48)
  some (record {
    id = join32 r.object_id;
    type = join16 r.object_type;
    name = c_string (take r.namelen r.name);
    flags = r.flags;
    security = r.security;
    prop_id = join32 r.prop_id;
  })

unfoldable pub conv_prop : NetProp → Option Prop
conv_prop r = do
  in_bounds (ltb r.namelen 16)
  some (record {
    id = join32 r.prop_id;
    name = c_string (take r.namelen r.name);
    flags = r.flag;
    security = r.security;
    object_id = join32 r.objid;
    value_id = join32 r.valueid;
    next_id = join32 r.nextid;
  })

unfoldable pub conv_val : NetVal → Val
conv_val r = record {
  id = join32 r.val_id;
  prop_id = join32 r.propid;
  next_id = join32 r.nextid;
  size = join16 r.size;
  bytes = r.bytes;
}

-- The array `name` of the `BINDERY_OBJ` that a record converts to.
abbrev pub name_array : NetObj → List ℕ
name_array r = set (take 47 r.name ++ 0 ∷ []) r.namelen 0

-- The loop of every scan: read a record, convert it, test it. Positions are counted from `i`.
abbrev pub scan_records :
    {R C : Type 0} → (R → Option C) → (C → Bool) → ℕ → List R → Option (Option (ℕ × R × C))
scan_records conv test i [] = some none
scan_records conv test i (r ∷ rs) = do
  c ← conv r
  elim (test c) [ true ↦ some (some (i, r, c)) | false ↦ scan_records conv test (suc i) rs ]

-- `strncmp (a, b, n) == 0`
abbrev pub same_start : ℕ → Str → Str → Bool
same_start n a b = str_eq (take n a) (take n b)

unfoldable pub scan_object : List NetObj → Str → ℕ → Option (Option (ℕ × NetObj × Obj))
scan_object objs objname type =
    scan_records conv_object (λ o. same_start 48 objname o.name && o.type == type) 0 objs

unfoldable pub scan_object_by_id : List NetObj → ℕ → Option (Option (ℕ × NetObj × Obj))
scan_object_by_id objs objid = scan_records conv_object (λ o. o.id == objid) 0 objs

unfoldable pub scan_propid : List NetProp → ℕ → Option (Option (ℕ × NetProp × Prop))
scan_propid props propid = scan_records conv_prop (λ p. p.id == propid) 0 props

unfoldable pub scan_prop_nextid : List NetProp → ℕ → Option (Option (ℕ × NetProp × Prop))
scan_prop_nextid props propid = scan_records conv_prop (λ p. p.next_id == propid) 0 props

unfoldable pub scan_prop : List NetProp → ℕ → Str → Option (Option (ℕ × NetProp × Prop))
scan_prop props objid propname =
    scan_records conv_prop (λ p. p.object_id == objid && same_start 15 p.name propname) 0 props

unfoldable pub scan_val : List NetVal → ℕ → Option (Option (ℕ × NetVal × Val))
scan_val vals valid = scan_records (λ r. some (conv_val r)) (λ v. v.id == valid) 0 vals

-- The result 0 is `true`.
unfoldable pub match_bind : Str → Str → ℕ → Bool
match_bind source dest len =
    str_eq source (codes "*") || str_eq dest (codes "*") || same_start len source dest

abbrev wild : Str → ℕ → ℕ → List NetObj → Option (Option (ℕ × NetObj × Obj))
wild objname type i objs =
    scan_records conv_object
      (λ o. (o.type == type || type == 0xffff) && match_bind o.name objname 47) i objs

-- The scan goes on behind the object `last_obj`.
unfoldable pub scan_object_wild : List NetObj → Str → ℕ → ℕ → Option (Option (ℕ × NetObj × Obj))
scan_object_wild objs objname type last_obj =
    let continued : Option (Option (ℕ × NetObj × Obj)) = do
      last ← scan_object_by_id objs last_obj
      elim last [
        | none ↦ some none
        | some (i, r, o) ↦ wild objname type (suc i) (drop (suc i) objs)
      ]
    in if last_obj == no_id then wild objname type 0 objs else continued

-- The loop over the properties of an object in `bindio_dump`: `none` if it never ends.
unfoldable pub dump_chain : ℕ → List NetProp → ℕ → Option (Unit {0})
dump_chain zero props propid = none
dump_chain (suc fuel) props propid = do
  hit ← scan_propid props propid
  elim hit [ none ↦ some tt | some (i, r, p) ↦ dump_chain fuel props p.next_id ]

-- `bindio_dump` changes nothing but the positions in the files: it leaves the property file at its end,
-- if there is an object.
unfoldable pub dump : List NetProp → List NetObj → Option (Unit {0})
dump props [] = some tt
dump props (r ∷ rs) = do
  o ← conv_object r
  ended ← dump_chain (suc (length props)) props o.prop_id
  dump props rs
