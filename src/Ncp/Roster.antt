-- ===== src/Ncp/Roster.antt =====
-- src/src/server/ncp_23.c: the list of connections of an object, and broadcasts to all connections.
use frommel.Base.{
  ℕ, suc, ◌⊎◌, ◌≢◌, ◌++◌, ◌+◌, ◌-◌, ◌^◌, ◌≤◌, ◌<◌, ◌≡◌, refl, ap, ◌∙◌, arith, ◌==◌, Bool, true,
  false, some, List, [], ◌∷◌, get_elem?, drop, length, Str, ltb, u32, count, min, length-take,
}
use frommel.Station.{Station}
use frommel.BinderyIo.{Bindery, NetObj, Obj, scan_object}
use frommel.Ncp.{answer}
use frommel.Ncp.Messages.{handle_getmsg}
use frommel.Ncp.Fields.{be16_at, be32_at, text_field}
use frommel.Ncp.Stations.{numbers_of, le32_times, handle_getobjconnlist}

numbers_of-count :
    (test : Station → Bool) (i : ℕ) (ks : List Station)
    → length (numbers_of test i ks) ≡ count test ks
unfolding numbers_of
numbers_of-count test i [] = refl
numbers_of-count test i (k ∷ ks) = ground (arith, numbers_of-count test (suc i) ks)

-- NCP 23 27 answers with the number of connections behind the given one that have the object, 30
-- at most, and then, as often, with the id of the object itself: nowhere with the number of a
-- connection.
pub getobjconnlist_ids :
    (conns : List Station) (b : Bindery) (body : List ℕ) (size con_no obj_type obj_len i : ℕ)
    (obj_name : Str) (r : NetObj) (o : Obj)
    → 8 ≤ size
    → be32_at body 0 ≡ some con_no
    → be16_at body 4 ≡ some obj_type
    → get_elem? body 6 ≡ some obj_len
    → text_field body 7 obj_len ≡ some obj_name
    → scan_object b.objs obj_name obj_type ≡ some (some (i, r, o))
    → con_no < 2 ^ 31 - 1
    → let n = min 30 (count (λ k. k.object_id == o.id) (drop (con_no + 1) conns)) in
      handle_getobjconnlist conns b body size ≡ some (0, n ∷ le32_times n o.id)
unfolding handle_getobjconnlist
getobjconnlist_ids conns b body size con_no obj_type obj_len i obj_name r o long e1 e2 e3 e4 found
      small =
    let fits : ltb size 8 ≡ false = ground arith in
    let start : u32 (con_no + 1) ≡ con_no + 1 = omega arith in
    let near : ltb (con_no + 1) (2 ^ 31) ≡ true = ground arith in
    let ks = drop (con_no + 1) conns in
    let n =
      length-take 30 (numbers_of (λ k. k.object_id == o.id) (con_no + 1) ks)
      ∙ ap (min 30) (numbers_of-count (λ k. k.object_id == o.id) (con_no + 1) ks) in
    rw (fits, e1, e2, e3, e4, found, start, near, n) refl

-- What the sender of a text to all connections brings about, and its code.
pub data Announced (operator : Bool) (sender : Station) (text : Str) (conns : List Station)
    : List Station → ℕ → Type 0 where
  refused : operator ≡ false → Announced operator sender text conns conns 0xc6
  muted :
      operator ≡ true
      → (sender.status ≡ 0) ⊎ (sender.message_ok ≡ 0)
      → Announced operator sender text conns conns 0
  heard :
      (conns' : List Station)
      → operator ≡ true
      → sender.status ≢ 0
      → sender.message_ok ≢ 0
      → length conns' ≡ length conns
      → ((j : ℕ) (k : Station)
          → get_elem? conns j ≡ some k
          → (k' : Station) × (get_elem? conns' j ≡ some k')
            × (k' ≡ record k { message = text })
            × (handle_getmsg k' 1
                ≡ some (answer (record k { message = [] }) 0 (length text ∷ text))))
      → Announced operator sender text conns conns' 0

-- The request: no station is named, and the text stands behind its length.
abbrev pub request_to_all : List ℕ → List ℕ → List ℕ
request_to_all text rest = 0 ∷ length text ∷ (text ++ rest)
