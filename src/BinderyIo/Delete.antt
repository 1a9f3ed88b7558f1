-- ===== src/BinderyIo/Delete.antt =====
-- src/src/server/binderyio.c: deleting a property, an object, and everything.
use frommel.Base.{
  ℕ, zero, suc, ◌-◌, ◌==◌, true, false, Option, none, some, List, [], ◌∷◌, get_elem?, set,
  if◌then◌else◌, ◌>>=◌, length, put_be32, remove_at,
}
use frommel.BinderyIo.{
  NetObj, NetProp, Obj, Prop, Bindery, no_id, dump, scan_object_by_id, scan_propid,
  scan_prop_nextid, scan_val,
}
use frommel.BinderyIo.Store.{Io, ok, no_such_property, no_such_object, io_error}

-- The value file loses its last record if that is value `p`. Otherwise the last record is written over it, and
-- the file keeps its length. `none` is a write that fails.
abbrev pub drop_val : Io → Bindery → ℕ → Option Bindery
drop_val io b p =
    if p == length b.vals - 1
    then (if io.cut_vals then some (record b { vals = remove_at b.vals p }) else none)
    else if io.write_vals
    then (do
      last ← get_elem? b.vals (length b.vals - 1)
      some (record b { vals = set b.vals p last }))
    else none

-- The record that the property file is positioned behind, once `bindio_dump` has run: the last one, or,
-- if there is no object, still record `i`.
abbrev pub rec_pos : Bindery → ℕ → ℕ
rec_pos b i = elim b.objs [ [] ↦ i | r ∷ rs ↦ length b.props - 1 ]

-- The code is OK if the file has been cut; after a failed cut the last record may stand twice.
abbrev pub drop_prop : Io → Bindery → ℕ → ℕ × Bindery
drop_prop io b q =
    let last : List NetProp = elim (get_elem? b.props (length b.props - 1)) [
      | none ↦ b.props
      | some r ↦ set b.props q r
    ] in
    if q == length b.props - 1
    then (if io.cut_props then (ok, record b { props = remove_at b.props q }) else (io_error, b))
    else if io.write_props
    then (if io.cut_props
        then (ok, record b { props = remove_at b.props q })
        else (io_error, record b { props = last }))
    else (io_error, b)

-- The object that refers to the property, if it is the one that was found.
abbrev pub relink : Io → Bindery → NetObj → ℕ → ℕ → Option (ℕ × NetObj × Obj) → ℕ × Bindery
relink io b junk_obj propid nextid none = (no_such_object, b)
relink io b junk_obj propid nextid (some (k, r, o)) =
    if o.prop_id == propid
    then (if io.write_objs
        then (ok, record b { objs = set b.objs k (record junk_obj { prop_id = put_be32 nextid }) })
        else (io_error, b))
    else (ok, b)

-- What refers to the property is written again: as `junk_prop` or `junk_obj`, the memory of records
-- that have never been filled, but for the field that is set.
unfoldable pub unlink_prop : Io → Bindery → NetObj → NetProp → ℕ → ℕ → ℕ → Option (ℕ × Bindery)
unlink_prop io b junk_obj junk_prop propid nextid objid = do
  hit ← scan_prop_nextid b.props propid
  elim hit [
    | some (j, r, p) ↦ some (
        if io.write_props
        then (
          ok,
          record b { props = set b.props j (record junk_prop { nextid = put_be32 nextid }) },
        )
        else (io_error, b))
    | none ↦ do
      dumped ← dump b.props b.objs
      obj ← scan_object_by_id b.objs objid
      some (relink io b junk_obj propid nextid obj)
  ]

-- From the value at position `k` on, for property `p` at position `i`.
unfoldable pub delete_found : Io → Bindery → NetObj → NetProp → ℕ → Prop → ℕ → Option (ℕ × Bindery)
delete_found io b junk_obj junk_prop i p k = elim (drop_val io b k) [
  | none ↦ some (io_error, b)
  | some b1 ↦
      let (code, b2) = drop_prop io b1 (rec_pos b i) in
      elim (code == ok) [
        | false ↦ some (code, b2)
        | true ↦ unlink_prop io b2 junk_obj junk_prop p.id p.next_id p.object_id
      ]
]

unfoldable pub delete_prop : Io → Bindery → NetObj → NetProp → ℕ → Option (ℕ × Bindery)
delete_prop io b junk_obj junk_prop propid = do
  hit ← scan_propid b.props propid
  elim hit [
    | none ↦ some (no_such_property, b)
    | some (i, r, p) ↦ do
      dumped ← dump b.props b.objs
      value ← scan_val b.vals p.value_id
      elim value [
        | none ↦ some (no_such_property, b)
        | some (k, s, v) ↦ delete_found io b junk_obj junk_prop i p k
      ]
  ]

-- The loop of `bindio_delete_obj`. Each round that goes on has cut the property file by a record, so as many
-- rounds as it has records, and one more, are enough.
unfoldable pub delete_chain : ℕ → Io → Bindery → NetObj → NetProp → ℕ → Option (ℕ × Bindery)
delete_chain zero io b junk_obj junk_prop propid = none
delete_chain (suc fuel) io b junk_obj junk_prop propid = elim (propid == no_id) [
  | true ↦ some (ok, b)
  | false ↦ do
    hit ← scan_propid b.props propid
    elim hit [
      | none ↦ some (ok, b)
      | some (i, r, p) ↦ do
        (code, b') ← delete_prop io b junk_obj junk_prop propid
        elim (code == ok) [
          | false ↦ some (code, b')
          | true ↦ delete_chain fuel io b' junk_obj junk_prop p.next_id
        ]
    ]
]

abbrev drop_obj : Io → Bindery → ℕ → ℕ × Bindery
drop_obj io b q =
    let last : List NetObj = elim (get_elem? b.objs (length b.objs - 1)) [
      | none ↦ b.objs
      | some r ↦ set b.objs q r
    ] in
    if q == length b.objs - 1
    then (if io.cut_objs then (ok, record b { objs = remove_at b.objs q }) else (io_error, b))
    else if io.write_objs
    then (if io.cut_objs
        then (ok, record b { objs = remove_at b.objs q })
        else (io_error, record b { objs = last }))
    else (io_error, b)

unfoldable pub delete_obj : Io → Bindery → NetObj → NetProp → ℕ → Option (ℕ × Bindery)
delete_obj io b junk_obj junk_prop objid = do
  hit ← scan_object_by_id b.objs objid
  elim hit [
    | none ↦ some (no_such_object, b)
    | some (i, r, o) ↦ do
      (code, b') ← delete_chain (suc (length b.props)) io b junk_obj junk_prop o.prop_id
      some (if code == ok then drop_obj io b' i else (code, b'))
  ]

-- `bindio_truncate`
unfoldable pub truncate : Bindery → Bindery
truncate b = record { objs = []; props = []; vals = [] }
