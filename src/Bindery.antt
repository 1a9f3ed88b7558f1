-- ===== src/Bindery.antt =====
-- src/src/server/bindery.c, over the bindery files: sets of objects, access checks and passwords.
pub mod Login
pub mod Sets
pub mod Members
pub mod Added
use frommel.Base.{
  ℕ, zero, suc, ◌+◌, ◌==◌, ◌&&◌, ◌||◌, Bool, true, false, not, Option, none, some, List, [], ◌∷◌,
  ◌++◌, get_elem?, set, take, if◌then◌else◌, ◌>>=◌, ◌⊎◌, inl, inr, Str, codes, str_eq, length, Four,
  window, put_be32, bit_and, ◌>>>◌,
}
use frommel.Station.{Station}
use frommel.Conn.{no_object}
use frommel.BinderyIo.{Bindery, NetProp, NetVal, Obj, Prop, Val, scan_object, scan_prop, scan_val}
use frommel.BinderyIo.Store.{
  Io, ok, no_such_property, no_such_object, io_error, read_prop, write_prop,
}

abbrev pub no_such_member : ℕ
no_such_member = 0xea

abbrev pub security_error : ℕ
security_error = 0xf1

-- Four bytes written from byte `i` on.
abbrev pub write_entry : List ℕ → ℕ → Four → List ℕ
write_entry bytes i f = set (set (set (set bytes i f.b0) (i + 1) f.b1) (i + 2) f.b2) (i + 3) f.b3

-- The loop of `bind_is_objinset`, `n` rounds from `i` on: the index counts bytes, not entries.
unfoldable pub has_member : ℕ → ℕ → List ℕ → ℕ → Option Bool
has_member zero i bytes id = some false
has_member (suc n) i bytes id = do
  member ← window bytes i
  elim (member == id) [ true ↦ some true | false ↦ has_member n (suc i) bytes id ]

-- The loop that deletes an object from a set: the bytes, and whether something was done.
unfoldable pub delete_member : ℕ → ℕ → ℕ → List ℕ → Bool → Option (List ℕ × Bool)
delete_member zero i id bytes done = some (bytes, done)
delete_member (suc n) i id bytes done = do
  member ← window bytes i
  elim (member == id) [
    | true ↦
        delete_member n (suc i) id (write_entry bytes i (record { b0 = 0; b1 = 0; b2 = 0; b3 = 0 }))
          true
    | false ↦ delete_member n (suc i) id bytes done
  ]

-- The loop that adds one; the inner `none` is the return where the object is there already. Once
-- something is done, the rounds that are left change nothing.
unfoldable pub add_member : ℕ → ℕ → ℕ → List ℕ → Bool → Option (Option (List ℕ × Bool))
add_member zero i id bytes done = some (some (bytes, done))
add_member (suc n) i id bytes done = do
  member ← window bytes i
  elim (member == id && not done) [
    | true ↦ some none
    | false ↦ elim (member == 0 && not done) [
      | true ↦ add_member n (suc i) id (write_entry bytes i (put_be32 id)) true
      | false ↦ add_member n (suc i) id bytes done
    ]
  ]

-- An object by its name, or, without a name, the id that was passed.
abbrev pub object_id_of : Bindery → ℕ → Option Str → ℕ → Option (Option ℕ)
object_id_of b type none id = some (some id)
object_id_of b type (some name) id = do
  hit ← scan_object b.objs name type
  some (elim hit [ none ↦ none | some (i, r, o) ↦ some o.id ])

-- The end of `bind_is_objinset`, for the value of the set.
abbrev pub find_member : Bindery → ℕ → ℕ → Option ℕ
find_member b value_id mem_id = do
  hit ← scan_val b.vals value_id
  elim hit [
    | none ↦ some no_such_property
    | some (i, r, v) ↦ do
      found ← has_member 32 0 v.bytes mem_id
      some (if found then ok else no_such_member)
  ]

-- `bind_is_objinset`, where `check` stands for the access check: object, security mask.
unfoldable pub objinset_with :
    (ℕ → ℕ → Option Bool) → Bindery → ℕ → Option Str → ℕ → Str → ℕ → Option Str → ℕ → Option ℕ
objinset_with check b obj_type obj_name obj_id prop_name mem_type mem_name mem_id = do
  obj ← object_id_of b obj_type obj_name obj_id
  elim obj [
    | none ↦ some no_such_object
    | some id ↦ do
      hit ← scan_prop b.props id prop_name
      elim hit [
        | none ↦ some no_such_property
        | some (i, r, p) ↦ do
          allowed ← check id p.security
          elim allowed [
            | false ↦ some security_error
            | true ↦ do
              mem ← object_id_of b mem_type mem_name mem_id
              elim mem [ none ↦ some no_such_object | some m ↦ find_member b p.value_id m ]
          ]
      ]
  ]

abbrev pub unchecked : ℕ → ℕ → Option Bool
unchecked id security = some true

-- By the nibble of the mask: anyone, logged in, the object itself, supervisors, the OS; nothing else.
abbrev pub grants : Station → ℕ → ℕ → Bool
grants k objid mask =
    if mask == 0
    then true
    else if mask == 1
    then not (k.object_id == no_object)
    else if mask == 2
    then not (k.object_supervisor == 0) || k.object_id == objid
    else if mask == 3
    then not (k.object_supervisor == 0)
    else mask == 4

-- `true` is the result 0; `rw` is 0 for reading.
unfoldable pub check_access : Station → Bindery → ℕ → ℕ → ℕ → Option Bool
check_access k b objid security rw = do
  code ← objinset_with unchecked b 0 none objid (codes "OBJ_SUPERVISORS") 1 none k.object_id
  some (
      if code == ok
      then true
      else grants k objid (if rw == 0 then bit_and security 0xf else security >>> 4))

-- With a connection, its permission to read is checked.
unfoldable pub is_objinset :
    Option Station → Bindery → ℕ → Option Str → ℕ → Str → ℕ → Option Str → ℕ → Option ℕ
is_objinset none b obj_type obj_name obj_id prop_name mem_type mem_name mem_id =
    objinset_with unchecked b obj_type obj_name obj_id prop_name mem_type mem_name mem_id
is_objinset (some k) b obj_type obj_name obj_id prop_name mem_type mem_name mem_id =
    objinset_with (λ id security. check_access k b id security 0) b obj_type obj_name obj_id
      prop_name mem_type mem_name mem_id

-- `true` is the result 0.
unfoldable pub obj_is_supervisor : Bindery → ℕ → Option Bool
obj_is_supervisor b objid =
    let listed : Option Bool = do
      code ← is_objinset none b 0 none objid (codes "SECURITY_EQUALS") 0 none 1
      some (code == ok)
    in if objid == 1 then some true else listed

-- The search for the set of `bind_add_remove_objfromset`, and the checks before it is edited: an error,
-- or the object, the member and the value.
abbrev pub Found : Type 0
Found = ℕ ⊎ (ℕ × ℕ × Val)

abbrev pub find_value : Bindery → ℕ → ℕ → Option (ℕ × NetVal × Val) → Option Found
find_value b id mem none = some (inl no_such_property)
find_value b id mem (some (i, r, v)) = some (inr (id, mem, v))

abbrev pub with_member : Bindery → ℕ → Prop → Option ℕ → Option Found
with_member b id p none = some (inl no_such_object)
with_member b id p (some m) = scan_val b.vals p.value_id >>= find_value b id m

abbrev pub if_allowed : Bindery → ℕ → Prop → ℕ → Str → Bool → Option Found
if_allowed b id p mem_type mem_name false = some (inl security_error)
if_allowed b id p mem_type mem_name true =
    object_id_of b mem_type (some mem_name) 0 >>= with_member b id p

-- Without a connection nothing is checked.
abbrev pub may_write : Option Station → Bindery → ℕ → Prop → Option Bool
may_write none b id p = some true
may_write (some k) b id p = check_access k b id p.security 1

abbrev pub with_prop :
    Option Station → Bindery → ℕ → ℕ → Str → Option (ℕ × NetProp × Prop) → Option Found
with_prop c b id mem_type mem_name none = some (inl no_such_property)
with_prop c b id mem_type mem_name (some (i, r, p)) =
    may_write c b id p >>= if_allowed b id p mem_type mem_name

abbrev pub with_object : Option Station → Bindery → Str → ℕ → Str → Option ℕ → Option Found
with_object c b prop_name mem_type mem_name none = some (inl no_such_object)
with_object c b prop_name mem_type mem_name (some id) =
    scan_prop b.props id prop_name >>= with_prop c b id mem_type mem_name

unfoldable pub find_set : Option Station → Bindery → ℕ → Str → Str → ℕ → Str → Option Found
find_set c b obj_type obj_name prop_name mem_type mem_name =
    object_id_of b obj_type (some obj_name) 0 >>= with_object c b prop_name mem_type mem_name

-- Where nothing was done, the set is full, or the object not in it.
abbrev pub store_set : Io → Bindery → ℕ → Str → Option (List ℕ × Bool) → Option (ℕ × Bindery)
store_set io b id prop_name none = some (io_error, b)
store_set io b id prop_name (some (bytes, done)) =
    if done then write_prop io b id prop_name 1 0 bytes else some (io_error, b)

abbrev pub edit_set : Io → Bindery → Str → Bool → Found → Option (ℕ × Bindery)
edit_set io b prop_name add (inl code) = some (code, b)
edit_set io b prop_name true (inr (id, mem, v)) =
    add_member 32 0 mem v.bytes false >>= store_set io b id prop_name
edit_set io b prop_name false (inr (id, mem, v)) =
    delete_member 32 0 mem v.bytes false >>= λ edited. store_set io b id prop_name (some edited)

-- `add_del` is 0 to add.
unfoldable pub add_remove_objfromset :
    Io → Option Station → Bindery → ℕ → Str → Str → ℕ → Str → ℕ → Option (ℕ × Bindery)
add_remove_objfromset io c b obj_type obj_name prop_name mem_type mem_name add_del =
    find_set c b obj_type obj_name prop_name mem_type mem_name
    >>= edit_set io b prop_name (add_del == 0)

-- `true` is the result 0.
unfoldable pub is_manager : Bindery → Station → Option Bool
is_manager b k =
    let listed : Option Bool = do
      code ← is_objinset none b 0 none k.object_id (codes "MANAGERS") 0 none 1
      some (code == ok)
    in if not (k.object_supervisor == 0) then some true else listed

unfoldable pub is_operator : Bindery → Str → Station → Option Bool
is_operator b servername k =
    let listed : Option Bool = do
      code ← is_objinset none b 4 (some servername) 0 (codes "OPERATORS") 0 none k.object_id
      some (code == ok)
    in if not (k.object_supervisor == 0) then some true else listed

abbrev pub id_bytes : ℕ → List ℕ
id_bytes id = let f = put_be32 id in f.b0 ∷ f.b1 ∷ f.b2 ∷ f.b3 ∷ []

-- `shuffle id pwd` are the 16 bytes of the hash, `nw_encrypt key hash` the 8 bytes of the answer, which
-- depends on 16 bytes of the value; both are of src/src/lib/crypt.c.
module _ (shuffle : List ℕ → Str → List ℕ) (nw_encrypt : List ℕ → List ℕ → List ℕ) where
  -- `junk` is what stood in the 112 bytes behind the hash. `true` is the result 0.
  unfoldable pub set_pwd : Io → Bindery → ℕ → Str → List ℕ → Option (Bool × Bindery)
  set_pwd io b obj_id pwd junk = do
    (code, b') ←
        write_prop io b obj_id (codes "PASSWORD") 1 0 (shuffle (id_bytes obj_id) pwd ++ junk)
    some (code == ok, b')

  unfoldable pub verify_pwd : Bindery → ℕ → List ℕ → List ℕ → Option Bool
  verify_pwd b obj_id pwd key = do
    (code, found) ← read_prop b obj_id (codes "PASSWORD") 1
    some (elim found [
      | none ↦ false
      | some (v, p) ↦ str_eq (take 8 pwd) (take 8 (nw_encrypt key (take 16 v.bytes)))
    ])
