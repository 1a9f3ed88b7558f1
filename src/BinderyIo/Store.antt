-- ===== src/BinderyIo/Store.antt =====
-- src/src/server/binderyio.c: the operations that add to the bindery, read it and change it. `Io` says
-- which of the files the kernel lets the server write and cut.
use frommel.Base.{
  ℕ, zero, suc, ◌-◌, ◌==◌, Bool, true, false, Option, none, some, List, [], ◌∷◌, ◌++◌, get_elem?,
  set, take, drop, if◌then◌else◌, ◌>>=◌, ◌>>◌, in_bounds, ltb, Str, length, replicate, put_be16,
  put_be32, u8,
}
use frommel.BinderyIo.{
  NetObj, NetProp, NetVal, Obj, Prop, Val, Bindery, no_id, scan_object, scan_object_by_id,
  scan_propid, scan_prop, scan_val,
}

-- `BINDERY_ERROR_xxx`
abbrev pub ok : ℕ
ok = 0

abbrev pub prop_exists : ℕ
prop_exists = 0xed

abbrev pub obj_exists : ℕ
obj_exists = 0xee

abbrev pub no_such_property : ℕ
no_such_property = 0xfb

abbrev pub no_such_object : ℕ
no_such_object = 0xfc

abbrev pub io_error : ℕ
io_error = 0xff

-- All writes to one file during an operation succeed, or none does.
pub record Io : Type 0 where
  pub write_objs : Bool
  pub write_props : Bool
  pub write_vals : Bool
  pub cut_objs : Bool
  pub cut_props : Bool
  pub cut_vals : Bool

-- `n` bytes of a cleared array, with `s` at its front
abbrev pub field : ℕ → Str → List ℕ
field n s = take n (s ++ replicate n 0)

abbrev pub new_object : Str → ℕ → ℕ → ℕ → ℕ → NetObj
new_object objname type flags security id = record {
  object_id = put_be32 id;
  object_type = put_be16 type;
  namelen = u8 (length objname);
  name = field 47 objname;
  flags = flags;
  security = security;
  prop_id = put_be32 no_id;
}

-- The id, or `none` for -1, the error code, which a success leaves as it was, and the bindery.
abbrev pub Made : Type 0
Made = Option ℕ × ℕ × Bindery

-- `id` is what `random` gave. A name of more than 47 bytes is copied past its array.
unfoldable pub add_object : Io → Bindery → Str → ℕ → ℕ → ℕ → ℕ → ℕ → Option Made
add_object io b objname type flags security id errcode = do
  hit ← scan_object b.objs objname type
  elim hit [
    | some found ↦ some (none, obj_exists, b)
    | none ↦ do
      in_bounds (ltb (u8 (length objname)) 48)
      some (
          if io.write_objs
          then (
            some id,
            errcode,
            record b { objs = b.objs ++ new_object objname type flags security id ∷ [] },
          )
          else (none, io_error, b))
  ]

abbrev pub new_prop : ℕ → Str → ℕ → ℕ → ℕ → ℕ → NetProp
new_prop objid propname flags security propid valid = record {
  prop_id = put_be32 propid;
  namelen = u8 (length propname);
  name = field 15 propname;
  flag = flags;
  security = security;
  objid = put_be32 objid;
  valueid = put_be32 valid;
  nextid = put_be32 no_id;
}

-- A value without data is all zeros.
abbrev pub new_val : ℕ → ℕ → Option (List ℕ) → NetVal
new_val propid valid bytes = record {
  val_id = put_be32 valid;
  propid = put_be32 propid;
  nextid = put_be32 no_id;
  size = record { b0 = 1; b1 = 0 };
  bytes = elim bytes [ none ↦ replicate 128 0 | some bs ↦ take 128 bs ];
}

-- The last record of a file and its position.
abbrev pub last_record : {A : Type 0} → List A → Option (ℕ × A)
last_record xs = do x ← get_elem? xs (length xs - 1); some (length xs - 1, x)

-- The walk to the end of an object's chain: the record that gets the new property behind it. On a chain
-- that is broken it is the last of the file; `none` if the walk never ends.
unfoldable pub last_in_chain : ℕ → List NetProp → ℕ → Option (ℕ × NetProp)
last_in_chain zero props nextid = none
last_in_chain (suc fuel) props nextid = do
  hit ← scan_propid props nextid
  elim hit [
    | none ↦ last_record props
    | some (i, r, p) ↦ elim (p.next_id == no_id) [
      | true ↦ some (i, r)
      | false ↦ last_in_chain fuel props p.next_id
    ]
  ]

-- The end of `bindio_add_prop`: the object at position `p`, or the end of its chain, refers to the new
-- property.
unfoldable pub link_prop : Io → Bindery → ℕ → NetObj → Obj → ℕ → ℕ → Option Made
link_prop io b p r o propid errcode =
    let chained : Option Made = do
      (i, last) ← last_in_chain (suc (length b.props)) b.props o.prop_id
      some (
          if io.write_props
          then (
            some propid,
            errcode,
            record b { props = set b.props i (record last { nextid = put_be32 propid }) },
          )
          else (none, io_error, b))
    in if o.prop_id == no_id
      then some (
          if io.write_objs
          then (
            some propid,
            errcode,
            record b { objs = set b.objs p (record r { prop_id = put_be32 propid }) },
          )
          else (none, io_error, b))
      else chained

-- `valid` and `propid` are what `random` gave.
unfoldable pub add_prop : Io → Bindery → ℕ → Str → ℕ → ℕ → Option (List ℕ) → ℕ → ℕ → ℕ → Option Made
add_prop io b objid propname flags security bytes valid propid errcode = do
  obj ← scan_object_by_id b.objs objid
  elim obj [
    | none ↦ some (none, no_such_object, b)
    | some (p, r, o) ↦ do
      hit ← scan_prop b.props objid propname
      elim hit [
        | some found ↦ some (none, prop_exists, b)
        | none ↦ do
          in_bounds (ltb (u8 (length propname)) 16)
          let b1 = record b {
            props = b.props ++ new_prop objid propname flags security propid valid ∷ [];
          }
          let b2 = record b1 { vals = b.vals ++ new_val propid valid bytes ∷ [] }
          elim (io.write_props) [
            | false ↦ some (none, io_error, b)
            | true ↦ elim (io.write_vals) [
              | false ↦ some (none, io_error, b1)
              | true ↦ link_prop io b2 p r o propid errcode
            ]
          ]
      ]
  ]

-- The code, and the value and the property where it is OK. The segment number is not used.
unfoldable pub read_prop : Bindery → ℕ → Str → ℕ → Option (ℕ × Option (Val × Prop))
read_prop b objid propname segno = do
  hit ← scan_prop b.props objid propname
  elim hit [
    | none ↦ some (no_such_property, none)
    | some (i, r, p) ↦ do
      value ← scan_val b.vals p.value_id
      some (elim value [ none ↦ (no_such_property, none) | some (j, s, v) ↦ (ok, some (v, p)) ])
  ]

abbrev pub overwrite : Io → Bindery → Option (ℕ × NetVal × Val) → List ℕ → ℕ × Bindery
overwrite io b none bytes = (no_such_property, b)
overwrite io b (some (j, s, v)) bytes =
    if io.write_vals
    then (ok, record b { vals = set b.vals j (record s { bytes = take 128 bytes }) })
    else (io_error, b)

unfoldable pub write_prop : Io → Bindery → ℕ → Str → ℕ → ℕ → List ℕ → Option (ℕ × Bindery)
write_prop io b objid propname segno more bytes = do
  hit ← scan_prop b.props objid propname
  elim hit [
    | none ↦ some (no_such_property, b)
    | some (i, r, p) ↦
        let written : Option (ℕ × Bindery) = do
          value ← scan_val b.vals p.value_id
          some (overwrite io b value bytes)
        in if segno == 1
          then (if more == 0 then written else some (io_error, b))
          else some (io_error, b)
  ]

abbrev new_id : ℕ → NetObj → NetObj
new_id id r = if id == no_id then r else record r { object_id = put_be32 id }

-- `strncpy (object_name, new_name, 46)`: the array keeps its byte 46, and the length is not changed.
abbrev rename : Option Str → NetObj → NetObj
rename none r = r
rename (some s) r = record r { name = field 46 s ++ drop 46 r.name }

unfoldable pub change_object : Io → Bindery → ℕ → ℕ → Option Str → Option (ℕ × Bindery)
change_object io b objid new_objid new_name = do
  hit ← scan_object_by_id b.objs objid
  some (elim hit [
    | none ↦ (no_such_object, b)
    | some (i, r, o) ↦
        if io.write_objs
        then (ok, record b { objs = set b.objs i (rename new_name (new_id new_objid r)) })
        else (io_error, b)
  ])
