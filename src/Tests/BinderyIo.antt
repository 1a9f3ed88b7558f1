-- ===== src/Tests/BinderyIo.antt =====
-- A bindery of one object with two properties.
use frommel.Base.{
  ◌>>=◌, Str, ℕ, ◌-◌, ◌≡◌, refl, none, some, List, [], ◌∷◌, arith, codes, replicate, true, take,
  length, put_be32, put_be16, join32, join16, remove_at,
}
use frommel.BinderyIo.{
  NetObj, NetProp, Bindery, scan_object, scan_prop, scan_propid, scan_prop_nextid, scan_val,
  conv_object, conv_prop, conv_val, dump, dump_chain, scan_object_by_id,
}
use frommel.BinderyIo.Store.{
  Io, ok, new_object, new_prop, new_val, add_object, read_prop, write_prop,
}
use frommel.BinderyIo.Delete.{delete_prop, delete_found, unlink_prop}
use frommel.BinderyIo.Found.{IsText}
use frommel.BinderyIo.Cells.{write_prop-update, ids_of, bytes_of, look, update, bytes_read}
use frommel.BinderyIo.Cut.{delete_prop_cuts_last}

abbrev io : Io
io = record {
  write_objs = true;
  write_props = true;
  write_vals = true;
  cut_objs = true;
  cut_props = true;
  cut_vals = true;
}

abbrev empty : Bindery
empty = record { objs = []; props = []; vals = [] }

abbrev guest : NetObj
guest = new_object (codes "GUEST") 1 0 0x31 7

abbrev with_guest : Bindery
with_guest = record empty { objs = guest ∷ [] }

adds : add_object io empty (codes "GUEST") 1 0 0x31 7 0 ≡ some (some 7, 0, with_guest)
unfolding add_object scan_object
adds = refl

guest-IsText : IsText (codes "GUEST")
guest-IsText = (
  λ e. omega arith,
  (λ e. omega arith, (λ e. omega arith, (λ e. omega arith, (λ e. omega arith, tt)))),
)

-- Property 21 of the object refers to property 22.
abbrev first : NetProp
first = record (new_prop 7 (codes "PASSWORD") 0 0x44 21 31) { nextid = put_be32 22 }

abbrev second : NetProp
second = new_prop 7 (codes "FULL_NAME") 0 0x31 22 32

abbrev full : Bindery
full = record {
  objs = record guest { prop_id = put_be32 21 } ∷ [];
  props = first ∷ second ∷ [];
  vals = new_val 21 31 none ∷ new_val 22 32 none ∷ [];
}

abbrev secret : List ℕ
secret = 1 ∷ 2 ∷ 3 ∷ replicate 125 0

abbrev changed : Bindery
changed = record full { vals = new_val 21 31 (some secret) ∷ new_val 22 32 none ∷ [] }

writes : write_prop io full 7 (codes "PASSWORD") 1 0 secret ≡ some (ok, changed)
unfolding write_prop scan_prop conv_prop scan_val conv_val join32 join16 put_be32 put_be16
writes = refl

write_prop-update_example :
    (n : ℕ) × (ids_of full 7 (codes "PASSWORD") ≡ some (some n))
    × ((objid2 : ℕ) (propname2 : Str) (segno2 : ℕ)
        → (read_prop changed objid2 propname2 segno2 >>= λ r. some (bytes_read r))
          ≡ look (ids_of full) (update (bytes_of full) n (take 128 secret)) objid2 propname2)
write_prop-update_example =
    write_prop-update io full 7 (codes "PASSWORD") 1 0 secret {b' = changed} writes

-- Property 21 is deleted, and the file keeps it, while property 22 is gone.
abbrev after : Bindery
after = record {
  objs = record guest { prop_id = put_be32 22 } ∷ [];
  props = first ∷ [];
  vals = new_val 22 32 none ∷ new_val 22 32 none ∷ [];
}

deletes : delete_prop io full guest first 21 ≡ some (ok, after)
unfolding delete_prop delete_found unlink_prop scan_propid scan_prop_nextid scan_val
    scan_object_by_id conv_object conv_prop conv_val dump dump_chain join32 join16 put_be32 put_be16
    remove_at
deletes = refl

none_left : scan_prop_nextid (take 1 full.props) 21 ≡ some none
unfolding scan_prop_nextid conv_prop join32 put_be32
none_left = refl

delete_prop_cuts_last_example : (first ∷ []) ≡ take (length full.props - 1) full.props
delete_prop_cuts_last_example =
    delete_prop_cuts_last io full guest first 21 (λ e. omega arith) deletes none_left
