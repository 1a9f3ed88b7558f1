-- ===== src/Ncp/Values.antt =====
-- src/src/server/ncp_23.c: properties of objects, created, read and written.
use frommel.Base.{
  ℕ, ◌+◌, ◌==◌, not, Option, none, some, List, [], ◌∷◌, ◌++◌, get_elem?, if◌then◌else◌, ◌>>=◌, ltb,
  Str, slice,
}
use frommel.Station.{Station}
use frommel.BinderyIo.{Bindery, NetObj, NetProp, Obj, Prop, Val, scan_object, scan_prop}
use frommel.BinderyIo.Store.{no_such_object, no_such_property, add_prop, read_prop, write_prop}
use frommel.Bindery.{check_access, security_error}
use frommel.Ncp.{error_wrong_length}
use frommel.Ncp.Fields.{Reply, Site, complete, require, wrong_length, be16_at, be32_at, text_field}
use frommel.Ncp.Objects.{made_code}

-- The property is added to the object that was found, if the connection may write it.
abbrev pub add_to :
    Site → Bindery → Station → Str → ℕ → ℕ → Option (ℕ × NetObj × Obj) → Option (ℕ × Bindery)
add_to env b k prop_name flags security none = some (no_such_object, b)
add_to env b k prop_name flags security (some (i, r, o)) =
    check_access k b o.id o.security 1 >>= λ allowed.
    if allowed
    then (add_prop env.io b o.id prop_name flags security none env.new_valid env.new_id 0
        >>= λ made. some (made_code made))
    else some (security_error, b)

unfoldable pub handle_createprop : Site → Bindery → Station → List ℕ → ℕ → Option (ℕ × Bindery)
handle_createprop env b k body size =
    let created : Option (ℕ × Bindery) = do
      obj_type ← be16_at body 0
      obj_len ← get_elem? body 2
      obj_name ← text_field body 3 obj_len
      flags ← get_elem? body (3 + obj_len)
      security ← get_elem? body (4 + obj_len)
      prop_len ← get_elem? body (5 + obj_len)
      prop_name ← text_field body (6 + obj_len) prop_len
      scan_object b.objs obj_name obj_type >>= add_to env b k prop_name flags security
    in require (not (ltb size 9)) (error_wrong_length, b) created

-- The request is only logged.
unfoldable pub handle_scanproperty : List ℕ → ℕ → Option Reply
handle_scanproperty body size =
    let logged : Option Reply = do
      obj_type ← be16_at body 0
      obj_len ← get_elem? body 2
      obj_name ← text_field body 3 obj_len
      inst ← be32_at body (3 + obj_len)
      prop_len ← get_elem? body (7 + obj_len)
      prop_name ← text_field body (8 + obj_len) prop_len
      some (complete 0xff)
    in require (not (ltb size 11)) wrong_length logged

-- `NCP_READPROP`, for what `bindio_read_prop` gave, if the connection may read it.
abbrev pub show_value : Bindery → Station → ℕ → ℕ × Option (Val × Prop) → Option Reply
show_value b k id (code, none) = some (complete code)
show_value b k id (code, some (v, p)) = check_access k b id p.security 0 >>= λ allowed.
    some (if allowed then (0, v.bytes ++ 0 ∷ 0 ∷ []) else complete security_error)

abbrev pub read_of : Bindery → Station → Str → ℕ → Option (ℕ × NetObj × Obj) → Option Reply
read_of b k prop_name seg_no none = some (complete no_such_object)
read_of b k prop_name seg_no (some (i, r, o)) =
    read_prop b o.id prop_name seg_no >>= show_value b k o.id

abbrev pub wanted : Bindery → Station → ℕ → Str → ℕ → Str → Option Reply
wanted b k obj_type obj_name seg_no prop_name =
    if seg_no == 1
    then (scan_object b.objs obj_name obj_type >>= read_of b k prop_name seg_no)
    else some (complete no_such_property)

unfoldable pub handle_readprop : Bindery → Station → List ℕ → ℕ → Option Reply
handle_readprop b k body size =
    let parsed : Option Reply = do
      obj_type ← be16_at body 0
      obj_len ← get_elem? body 2
      obj_name ← text_field body 3 obj_len
      seg_no ← get_elem? body (3 + obj_len)
      prop_len ← get_elem? body (4 + obj_len)
      prop_name ← text_field body (5 + obj_len) prop_len
      require (size == 6 + prop_len + obj_len) wrong_length
          (wanted b k obj_type obj_name seg_no prop_name)
    in require (not (ltb size 6)) wrong_length parsed

-- The value of the property that was found is written, if the connection may.
abbrev pub write_found :
    Site
    → Bindery
    → Station
    → ℕ
    → Str
    → ℕ
    → ℕ
    → List ℕ
    → Option (ℕ × NetProp × Prop)
    → Option (ℕ × Bindery)
write_found env b k id prop_name seg_no more value none = some (no_such_property, b)
write_found env b k id prop_name seg_no more value (some (i, r, p)) =
    check_access k b id p.security 1 >>= λ allowed.
    if allowed then write_prop env.io b id prop_name seg_no more value else some (security_error, b)

abbrev pub write_of :
    Site
    → Bindery
    → Station
    → Str
    → ℕ
    → ℕ
    → List ℕ
    → Option (ℕ × NetObj × Obj)
    → Option (ℕ × Bindery)
write_of env b k prop_name seg_no more value none = some (no_such_object, b)
write_of env b k prop_name seg_no more value (some (i, r, o)) =
    scan_prop b.props o.id prop_name >>= write_found env b k o.id prop_name seg_no more value

unfoldable pub handle_writeprop : Site → Bindery → Station → List ℕ → ℕ → Option (ℕ × Bindery)
handle_writeprop env b k body size =
    let parsed : Option (ℕ × Bindery) = do
      obj_type ← be16_at body 0
      obj_len ← get_elem? body 2
      obj_name ← text_field body 3 obj_len
      seg_no ← get_elem? body (3 + obj_len)
      more ← get_elem? body (4 + obj_len)
      prop_len ← get_elem? body (5 + obj_len)
      prop_name ← text_field body (6 + obj_len) prop_len
      value ← slice body (6 + obj_len + prop_len) 128
      require (size == 135 + prop_len + obj_len) (error_wrong_length, b)
          (scan_object b.objs obj_name obj_type >>= write_of env b k prop_name seg_no more value)
    in require (not (ltb size 135)) (error_wrong_length, b) parsed
