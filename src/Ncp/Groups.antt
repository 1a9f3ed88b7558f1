-- ===== src/Ncp/Groups.antt =====
-- src/src/server/ncp_23.c: sets of objects, and what the connection may do in the bindery.
use frommel.Base.{
  ℕ, ◌+◌, ◌==◌, not, Option, none, some, List, [], ◌∷◌, get_elem?, if◌then◌else◌, ◌>>=◌, Str, codes,
  be32,
}
use frommel.Station.{Station}
use frommel.Conn.{get_bind_accesslevel, no_object}
use frommel.BinderyIo.{Bindery}
use frommel.BinderyIo.Store.{ok}
use frommel.Bindery.{add_remove_objfromset, is_objinset, is_manager, is_operator, security_error}
use frommel.Ncp.Fields.{Reply, Site, complete, require, wrong_length, be16_at, be32_at, text_field}

-- A set, by object and property, and a member.
pub record Membership : Type 0 where
  pub obj_type : ℕ
  pub obj_name : Str
  pub prop_name : Str
  pub mem_type : ℕ
  pub mem_name : Str

-- The request of the three functions on sets; its length is not checked.
abbrev pub membership_at : List ℕ → Option Membership
membership_at body = do
  obj_type ← be16_at body 0
  obj_len ← get_elem? body 2
  obj_name ← text_field body 3 obj_len
  prop_len ← get_elem? body (3 + obj_len)
  prop_name ← text_field body (4 + obj_len) prop_len
  mem_type ← be16_at body (4 + obj_len + prop_len)
  mem_len ← get_elem? body (6 + obj_len + prop_len)
  mem_name ← text_field body (7 + obj_len + prop_len) mem_len
  some (record {
    obj_type = obj_type;
    obj_name = obj_name;
    prop_name = prop_name;
    mem_type = mem_type;
    mem_name = mem_name;
  })

unfoldable pub handle_addobjtoset : Site → Bindery → Station → List ℕ → Option (ℕ × Bindery)
handle_addobjtoset env b k body = do
  m ← membership_at body
  add_remove_objfromset env.io (some k) b m.obj_type m.obj_name m.prop_name m.mem_type m.mem_name 0

unfoldable pub handle_deleteobjfromset : Site → Bindery → Station → List ℕ → Option (ℕ × Bindery)
handle_deleteobjfromset env b k body = do
  m ← membership_at body
  add_remove_objfromset env.io (some k) b m.obj_type m.obj_name m.prop_name m.mem_type m.mem_name 1

unfoldable pub handle_isobjinset : Bindery → Station → List ℕ → Option Reply
handle_isobjinset b k body = do
  m ← membership_at body
  code ←
      is_objinset (some k) b m.obj_type (some m.obj_name) 0 m.prop_name m.mem_type (some m.mem_name)
        0
  some (complete code)

-- `NCP_ACCESSLEVEL`
unfoldable pub handle_accesslevel : Station → ℕ → Option Reply
handle_accesslevel k size =
    require (size == 1) wrong_length (some (0, get_bind_accesslevel k ∷ be32 k.object_id))

-- The level of a connection that is neither a supervisor nor the object itself.
abbrev pub other_level : Bindery → Station → ℕ → Option ℕ
other_level b k obj_id = do
  code ← is_objinset none b 0 none obj_id (codes "OBJ_SUPERVISORS") 1 none k.object_id
  some (if code == ok then 0x33 else if k.object_id == no_object then 0x00 else 0x11)

abbrev pub level_to : Bindery → Station → ℕ → Option ℕ
level_to b k obj_id =
    if not (k.object_supervisor == 0)
    then some 0x33
    else if k.object_id == obj_id
    then some 0x22
    else other_level b k obj_id

unfoldable pub handle_objaccesslevel : Bindery → Station → List ℕ → ℕ → Option Reply
handle_objaccesslevel b k body size =
    let levelled : Option Reply = do
      obj_id ← be32_at body 0
      level ← level_to b k obj_id
      some (0, level ∷ [])
    in require (size == 5) wrong_length levelled

-- The result of conn_is_manager is cut to a byte: -1 is sent as 0xff.
unfoldable pub handle_ismanager : Bindery → Station → ℕ → Option Reply
handle_ismanager b k size =
    let told : Option Reply = do
      manager ← is_manager b k
      some (complete (if manager then 0 else 0xff))
    in require (size == 1) wrong_length told

unfoldable pub handle_consoleprivs : Site → Bindery → Station → ℕ → Option Reply
handle_consoleprivs env b k size =
    let told : Option Reply = do
      operator ← is_operator b env.servername k
      some (complete (if operator then 0 else 0xc6))
    in require (size == 1) wrong_length told

-- `ncp_handle_closebindery` and `ncp_handle_openbindery` are the same.
unfoldable pub handle_openbindery : Station → ℕ → Option Reply
handle_openbindery k size =
    require (size == 1) wrong_length
      (some (complete (if k.object_supervisor == 0 then 0xff else 0)))

-- Whoever passes the checks is told that it failed.
unfoldable pub handle_scanobjtrusteepaths : Bindery → Station → List ℕ → ℕ → Option Reply
handle_scanobjtrusteepaths b k body size =
    let equal_to : ℕ → Option Reply = λ objid. do
      code ← is_objinset none b 0 none k.object_id (codes "SECURITY_EQUALS") 0 none objid
      some (
          complete (
            if code == ok then 0xff else if k.object_supervisor == 0 then security_error else 0xff))
    in let checked : Option Reply = do
      volno ← get_elem? body 0
      seqno ← be16_at body 1
      objid ← be32_at body 3
      (if objid == k.object_id then some (complete 0xff) else equal_to objid)
      in require (size == 8) wrong_length checked
