-- ===== src/Ncp/Objects.antt =====
-- src/src/server/ncp_23.c: objects of the bindery by name and id, scanned, created and deleted.
use frommel.Base.{
  ℕ, ◌+◌, ◌==◌, not, Option, none, some, List, [], ◌∷◌, ◌++◌, get_elem?, if◌then◌else◌, ◌>>=◌, ltb,
  be16, be32,
}
use frommel.Station.{Station}
use frommel.BinderyIo.{
  Bindery, NetObj, Obj, name_array, scan_object, scan_object_by_id, scan_object_wild,
}
use frommel.BinderyIo.Store.{Made, no_such_object, add_object}
use frommel.BinderyIo.Delete.{delete_obj}
use frommel.Bindery.{check_access, security_error}
use frommel.Ncp.{error_wrong_length}
use frommel.Ncp.Fields.{Reply, Site, complete, require, wrong_length, be16_at, be32_at, text_field}

-- `NCP_OBJID`; the name is sent with what stands in the array behind its end.
abbrev pub object_reply : ℕ × NetObj × Obj → List ℕ
object_reply (i, r, o) = be32 o.id ++ (be16 o.type ++ name_array r)

unfoldable pub handle_getobjid : Bindery → List ℕ → ℕ → Option Reply
handle_getobjid b body size =
    let named : ℕ → ℕ → Option Reply = λ obj_type obj_len. do
      obj_name ← text_field body 3 obj_len
      hit ← scan_object b.objs obj_name obj_type
      some (elim hit [ none ↦ complete no_such_object | some found ↦ (0, object_reply found) ])
    in let sized : Option Reply = do
      obj_type ← be16_at body 0
      obj_len ← get_elem? body 2
      require (size == 4 + obj_len) wrong_length (named obj_type obj_len)
      in require (not (ltb size 4)) wrong_length sized

unfoldable pub handle_getobjname : Bindery → Station → List ℕ → ℕ → Option Reply
handle_getobjname b k body size =
    let shown : ℕ × NetObj × Obj → Option Reply = λ found. do
      allowed ← check_access k b found.2.id found.2.security 0
      some (if allowed then (0, object_reply found) else complete security_error)
    in let looked_up : Option Reply = do
      obj_id ← be32_at body 0
      hit ← scan_object_by_id b.objs obj_id
      elim hit [ none ↦ some (complete no_such_object) | some found ↦ shown found ]
      in require (size == 5) wrong_length looked_up

-- `NCP_SCANOBJ`
abbrev pub scan_reply : ℕ × NetObj × Obj → List ℕ
scan_reply (i, r, o) = object_reply (i, r, o) ++ o.flags ∷ o.security ∷ 1 ∷ []

unfoldable pub handle_scanobj : Bindery → List ℕ → ℕ → Option Reply
handle_scanobj b body size =
    let scanned : Option Reply = do
      last_obj ← be32_at body 0
      obj_type ← be16_at body 4
      obj_len ← get_elem? body 6
      obj_name ← text_field body 7 obj_len
      hit ← scan_object_wild b.objs obj_name obj_type last_obj
      some (elim hit [ none ↦ complete no_such_object | some found ↦ (0, scan_reply found) ])
    in require (not (ltb size 8)) wrong_length scanned

-- The code of `bindio_add_object`: 0 if it has not returned -1.
abbrev pub made_code : Made → ℕ × Bindery
made_code (none, error, b) = (error, b)
made_code (some id, error, b) = (0, b)

unfoldable pub handle_createobj : Site → Bindery → Station → List ℕ → ℕ → Option (ℕ × Bindery)
handle_createobj env b k body size =
    let created : Option (ℕ × Bindery) = do
      flags ← get_elem? body 0
      security ← get_elem? body 1
      obj_type ← be16_at body 2
      name_len ← get_elem? body 4
      obj_name ← text_field body 5 name_len
      (if k.object_supervisor == 0 then some (security_error, b) else do
        made ← add_object env.io b obj_name obj_type flags security env.new_id 0
        some (made_code made))
    in require (not (ltb size 6)) (error_wrong_length, b) created

unfoldable pub handle_deleteobj : Site → Bindery → Station → List ℕ → ℕ → Option (ℕ × Bindery)
handle_deleteobj env b k body size =
    let found : Option (ℕ × NetObj × Obj) → Option (ℕ × Bindery) = λ hit. elim hit [
      | none ↦ some (no_such_object, b)
      | some (i, r, o) ↦ delete_obj env.io b env.junk_obj env.junk_prop o.id
    ] in
    let deleted : Option (ℕ × Bindery) = do
      obj_type ← be16_at body 0
      obj_len ← get_elem? body 2
      obj_name ← text_field body 3 obj_len
      (if k.object_supervisor == 0
          then some (security_error, b)
          else (scan_object b.objs obj_name obj_type >>= found))
    in require (not (ltb size 5)) (error_wrong_length, b) deleted
