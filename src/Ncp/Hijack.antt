-- ===== src/Ncp/Hijack.antt =====
-- src/src/server/ncp.c: requests reach the connection of their sender, and no other.
use frommel.Base.{
  ℕ, ◌-◌, ◌≡◌, ◌≢◌, refl, sym, ap, ◌∙◌, arith, ◌==◌, ◌||◌, Bool, true, false, Option, none, some,
  List, true≢false, get_elem?, set, get_elem?-set_ne, drop, if◌then◌else◌, ltb, join16, Str,
  Bool-cases, inl, inr, if-result, >>=-eq-some, some-injective,
}
use frommel.Volume.{Volume}
use frommel.Station.{Station, Addr, zero_station}
use frommel.Ncp.{Request, Answer, request_at}
use frommel.Ncp.Handle.{
  Outcome, Setting, Functions, same_addr, destroy_conn, own_function, run, handle_request,
  is_file_request, refused, from_client, handle_packet,
}

-- The functions on a connection alone.
abbrev pub is_own : ℕ → Bool
is_own func_no =
    func_no == 20
    || (func_no == 21
        || (func_no == 24
            || (func_no == 25
                || (func_no == 33
                    || (func_no == 34
                        || (func_no == 66
                            || (func_no == 87 || (func_no == 97 || func_no == 101))))))))

-- Only connection `c` may differ.
abbrev KeepsOthers : List Station → ℕ → Outcome → Type 0
KeepsOthers conns c o = (j : ℕ) → c ≢ j → get_elem? o.conns j ≡ get_elem? conns j

-- The connections of other addresses are as they were.
abbrev pub Spares : Addr → List Station → Outcome → Type 0
Spares from conns o =
    (j : ℕ) (k : Station)
    → get_elem? conns j ≡ some k
    → same_addr from k.addr ≡ false
    → get_elem? o.conns j ≡ some k

module _ (stat : Str → Bool) (vols : List Volume) (serve : Functions) (env : Setting) where
  own_function-none :
      (func_no : ℕ) (k : Station) (body : List ℕ) (size : ℕ)
      → own_function stat vols serve env func_no k body size ≡ none
      → is_own func_no ≡ false
  own_function-none func_no k body size h = ground arith

  run-keeps :
      (conns : List Station) (c func_no : ℕ) (body : List ℕ) (size : ℕ)
      (own : Option (Option Answer)) {o : Outcome}
      → own ≢ none
      → run stat vols serve env conns c func_no body size own ≡ some o
      → KeepsOthers conns c o
  run-keeps conns c func_no body size none n h j ne = absurd (n refl)
  run-keeps conns c func_no body size (some handled) n h j ne =
      let (a, _, e) = >>=-eq-some handled _ h in
      ap (λ (o : Outcome). get_elem? o.conns j) (sym (some-injective e))
      ∙ get_elem?-set_ne conns c j a.station ne

  handle_request-keeps :
      (conns : List Station) (c func_no : ℕ) (body : List ℕ) (size : ℕ) {o : Outcome}
      → is_own func_no ≡ true
      → handle_request stat vols serve env conns c func_no body size ≡ some o
      → KeepsOthers conns c o
  unfolding handle_request
  handle_request-keeps conns c func_no body size own h =
      let (k, _, e) = >>=-eq-some (get_elem? conns c) _ h in
      run-keeps conns c func_no body size (own_function stat vols serve env func_no k body size)
        (λ q. true≢false (sym own ∙ own_function-none func_no k body size q)) e

  destroy_conn-keeps :
      (conns : List Station) (c : ℕ) (from : Addr) {o : Outcome}
      → destroy_conn conns c from ≡ some o
      → KeepsOthers conns c o
  unfolding destroy_conn
  destroy_conn-keeps conns c from h j ne =
      let (k, _, e) = >>=-eq-some (get_elem? conns c) _ h in
      ap (λ (o : Outcome). get_elem? o.conns j) (sym (some-injective e))
      ∙ get_elem?-set_ne conns c j zero_station ne

  from_client-Spares :
      (conns : List Station) (c : ℕ) (r : Request) (from : Addr) (body : List ℕ) (size now : ℕ)
      {o : Outcome}
      → (join16 r.req_type == 0x5555 || is_own r.req_code) ≡ true
      → is_file_request (join16 r.req_type) ≡ true
      → from_client stat vols serve env conns c r from body size now ≡ some o
      → Spares from conns o
  from_client-Spares conns c r from body size now own file h =
      if-result (Spares from conns) (ltb env.nofconns c) _ _ no_change
        (λ o e.
          let (k, g, f) = >>=-eq-some (get_elem? conns c) _ e in
          elim (Bool-cases (same_addr from k.addr)) [
            | inr n ↦ no_change o (rw n at f)
            | inl y ↦ λ j x gx nx.
                let ne = λ (q : c ≡ j). true≢false (
                  sym y
                  ∙ (ap (λ (z : Station). same_addr from z.addr)
                        (some-injective (sym g ∙ (ap (get_elem? conns) q ∙ gx)))
                      ∙ nx)) in
                let k' = record k { task_no = r.task_no; seq_no = r.seq_no; last_time = now } in
                changed k k' o (rw y at f) j ne ∙ (get_elem?-set_ne conns c j k' ne ∙ gx)
          ])
        h
    where
      no_change : (o : Outcome) → some (refused conns c r from) ≡ some o → Spares from conns o
      no_change o e j x gx nx =
          ap (λ (o : Outcome). get_elem? o.conns j) (sym (some-injective e)) ∙ gx

      changed :
          (k k' : Station) (o : Outcome)
          → (if join16 r.req_type == 0x2222
              then handle_request stat vols serve env (set conns c k') c r.req_code body size
              else destroy_conn (set conns c k') c from)
            ≡ some o
          → KeepsOthers (set conns c k') c o
      changed k k' o e = elim (Bool-cases (join16 r.req_type == 0x2222)) [
        | inl t ↦
            handle_request-keeps (set conns c k') c r.req_code body size (ground arith) (rw t at e)
        | inr f ↦ destroy_conn-keeps (set conns c k') c from (rw f at e)
      ]

  -- A request to a connection, or to destroy one, that is handled without a fault changes no
  -- connection whose address is not that of its sender, if it asks for one of the functions 20,
  -- 21, 24, 25, 33, 34, 66, 87, 97 and 101: whatever connection number it names.
  pub handle_packet-Spares :
      (conns : List Station) (packet : List ℕ) (size : ℕ) (from : Addr) (now : ℕ) (r : Request)
      {o : Outcome}
      → request_at packet ≡ some r
      → is_file_request (join16 r.req_type) ≡ true
      → (join16 r.req_type == 0x5555 || is_own r.req_code) ≡ true
      → handle_packet stat vols serve env conns packet size from now ≡ some o
      → Spares from conns o
  unfolding handle_packet
  handle_packet-Spares conns packet size from now r {o} e file own h =
      if-result (Spares from conns) (ltb size 7) _ _
        (λ o q j x gx nx. ap (λ (o : Outcome). get_elem? o.conns j) (sym (some-injective q)) ∙ gx)
        (λ o q.
          from_client-Spares conns (join16 (record { b0 = r.reserved; b1 = r.con_no })) r from
            (drop 7 packet) (size - 7) now own file (rw (e, file) at q))
        h
