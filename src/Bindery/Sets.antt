-- ===== src/Bindery/Sets.antt =====
-- src/src/server/bindery.c: what the sets of objects hold, as the loops read them.
use frommel.Base.{
  ℕ, zero, suc, ◌+◌, ◌<◌, ◌≡◌, ◌==◌, refl, sym, ap, ◌∙◌, arith, true, none, some, List, ◌∷◌, inl,
  inr, Bool-cases, Str, codes, window, join32,
}
use frommel.BinderyIo.{Bindery, NetProp, NetVal, Prop, Val, scan_prop, scan_val}
use frommel.BinderyIo.Store.{ok}
use frommel.Bindery.{has_member, obj_is_supervisor, is_objinset, objinset_with}

-- A set has the members that stand in the windows the loop reads.
pub has_member_at :
    (n i j : ℕ) (bytes : List ℕ) (id : ℕ)
    → j < n
    → ((k : ℕ) → k < j → (w : ℕ) × (window bytes (k + i) ≡ some w))
    → window bytes (j + i) ≡ some id
    → has_member n i bytes id ≡ some true
unfolding has_member
has_member_at zero i j bytes id lt before h = absurd (omega arith)
has_member_at (suc n) i zero bytes id lt before h =
    let here : window bytes i ≡ some id = ap (window bytes) (omega arith) ∙ h in
    ground (arith, here)
has_member_at (suc n) i (suc j) bytes id lt before h =
    let (w, e) = before 0 (omega arith) in
    let here : window bytes i ≡ some w = ap (window bytes) (omega arith) ∙ e in
    let shift : (k : ℕ) → window bytes (suc k + i) ≡ window bytes (k + suc i) =
      λ k. ap (window bytes) (omega arith) in
    let rest =
      has_member_at n (suc i) j bytes id (omega arith)
        (λ k lt'. let (v, g) = before (suc k) (omega arith) in (v, sym (shift k) ∙ g))
        (sym (shift j) ∙ h) in
    ground (arith, here, rest)

overlap : (x : ℕ) (rest : List ℕ) → has_member 32 0 (x ∷ 0 ∷ 0 ∷ 0 ∷ 1 ∷ rest) 1 ≡ some true
unfolding join32
overlap x rest =
    has_member_at 32 0 1 (x ∷ 0 ∷ 0 ∷ 0 ∷ 1 ∷ rest) 1 (omega arith) (λ k lt. first k (omega arith))
      refl
  where
    first : (k : ℕ) → k ≡ 0 → (w : ℕ) × (window (x ∷ 0 ∷ 0 ∷ 0 ∷ 1 ∷ rest) (k + 0) ≡ some w)
    first k e = (
      join32 (record { b0 = x; b1 = 0; b2 = 0; b3 = 0 }),
      ap (λ m. window (x ∷ 0 ∷ 0 ∷ 0 ∷ 1 ∷ rest) (m + 0)) e,
    )

in_set :
    (b : Bindery) (objid : ℕ) (name : Str) (mem : ℕ) {i j : ℕ} {r : NetProp} {p : Prop} {s : NetVal}
    {v : Val}
    → scan_prop b.props objid name ≡ some (some (i, r, p))
    → scan_val b.vals p.value_id ≡ some (some (j, s, v))
    → has_member 32 0 v.bytes mem ≡ some true
    → is_objinset none b 0 none objid name 0 none mem ≡ some ok
unfolding is_objinset objinset_with
in_set b objid name mem ep ev h = rw (ep, ev, h) refl

-- An object whose SECURITY_EQUALS holds 4 bytes that end in three zeros, and behind them an id that begins
-- with the byte 1, is taken for a supervisor.
pub overlap_makes_supervisor :
    (b : Bindery) (objid x : ℕ) (rest : List ℕ) {i j : ℕ} {r : NetProp} {p : Prop} {s : NetVal}
    {v : Val}
    → scan_prop b.props objid (codes "SECURITY_EQUALS") ≡ some (some (i, r, p))
    → scan_val b.vals p.value_id ≡ some (some (j, s, v))
    → v.bytes ≡ x ∷ 0 ∷ 0 ∷ 0 ∷ 1 ∷ rest
    → obj_is_supervisor b objid ≡ some true
unfolding obj_is_supervisor
overlap_makes_supervisor b objid x rest {i} {j} {r} {p} {s} {v} ep ev e =
    let found =
      in_set b objid (codes "SECURITY_EQUALS") 1 ep ev
        (ap (λ bs. has_member 32 0 bs 1) e ∙ overlap x rest) in
    elim (Bool-cases (objid == 1)) [ inl q ↦ rw (q) refl | inr q ↦ rw (q, found) refl ]
