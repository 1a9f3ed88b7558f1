-- ===== src/Ncp/Pointwise.antt =====
-- Relations between the connections before and after a call, number by number.
use frommel.Base.{
  ℕ, zero, suc, ◌≡◌, refl, sym, ap, ◌∙◌, arith, ◌==◌, ==_iff, some, List, [], ◌∷◌, get_elem?, set,
  map, some-injective, get_elem?-set_ne, get_elem?-set_self, get_elem?-lt, subst, Bool-cases, inl,
  inr, >>=-eq-some, true≢false, not, ◌&&◌, Str,
}
use frommel.Station.{Station, in_use}
use frommel.Ncp.Stations.{message_to, message_to_all, put_message}

-- Whatever connection there was is there still, and the two are related.
abbrev pub Pointwise : (ℕ → Station → Station → Type 0) → List Station → List Station → Type 0
Pointwise R before after =
    (j : ℕ) (x : Station)
    → get_elem? before j ≡ some x
    → (y : Station) × (get_elem? after j ≡ some y) × R j x y

module _ (R : ℕ → Station → Station → Type 0) (still : (j : ℕ) (x : Station) → R j x x) where
  pub Pointwise-same : (conns : List Station) → Pointwise R conns conns
  Pointwise-same conns j x h = (x, h, still j x)

  pub Pointwise-set :
      (conns : List Station) (c : ℕ) (k k' : Station)
      → get_elem? conns c ≡ some k
      → R c k k'
      → Pointwise R conns (set conns c k')
  Pointwise-set conns c k k' g r j x h = elim (Bool-cases (c == j)) [
    | inl same ↦
        let e : c ≡ j = (==_iff c j).0 same in
        let at : get_elem? conns c ≡ some x = rw e h in
        (
          k',
          rw (← e) (get_elem?-set_self conns c k' (get_elem?-lt conns c g)),
          subst (λ (i : ℕ). R i x k') e
              (subst (λ (z : Station). R c z k') (some-injective (sym g ∙ at)) r),
        )
    | inr other ↦ (
      x,
      get_elem?-set_ne conns c j k' (λ e. true≢false (sym ((==_iff c j).1 e) ∙ other)) ∙ h,
      still j x,
    )
  ]

  pub Pointwise-map :
      (f : Station → Station) (conns : List Station)
      → ((j : ℕ) (x : Station) → R j x (f x))
      → Pointwise R conns (map f conns)
  Pointwise-map f conns r j x h = (f x, get_elem?-map conns j h, r j x)
    where
      get_elem?-map :
          (ks : List Station) (i : ℕ)
          → get_elem? ks i ≡ some x
          → get_elem? (map f ks) i ≡ some (f x)
      get_elem?-map [] i g = ground arith
      get_elem?-map (k ∷ ks) zero g = ap (λ (z : Station). some (f z)) (some-injective g)
      get_elem?-map (k ∷ ks) (suc i) g = get_elem?-map ks i g

-- Both the object and whether it is a supervisor are as they were.
abbrev pub SameRights : ℕ → Station → Station → Type 0
SameRights j x y = (y.object_id ≡ x.object_id) × (y.object_supervisor ≡ x.object_supervisor)

pub same_rights : (j : ℕ) (x : Station) → SameRights j x x
same_rights j x = (refl, refl)

-- Messages change nobody's rights.
pub message_to-SameRights :
    (text : Str) (stations : List ℕ) (conns : List Station) {conns' : List Station}
    → message_to text stations conns ≡ some conns'
    → Pointwise SameRights conns conns'
unfolding message_to
message_to-SameRights text [] conns h j x g =
    (x, ap (λ (ks : List Station). get_elem? ks j) (sym (some-injective h)) ∙ g, (refl, refl))
message_to-SameRights text (st ∷ sts) conns h j x g =
    let (k, e, f) = >>=-eq-some (get_elem? conns st) _ h in
    let (y, gy, r) =
      Pointwise-set SameRights same_rights conns st k (put_message text k) e (refl, refl) j x g in
    let (z, gz, s) =
      message_to-SameRights text sts (set conns st (record k { message = text })) f j y gy in
    (z, gz, (s.0 ∙ r.0, s.1 ∙ r.1))

tail-SameRights :
    (text : Str) (spare : Station) (ks : List Station)
    → Pointwise SameRights (spare ∷ ks) (spare ∷ map (put_message text) ks)
tail-SameRights text spare ks zero x g = (spare, refl, same_rights_of (some-injective g))
  where
    same_rights_of : spare ≡ x → SameRights 0 x spare
    same_rights_of e =
        (ap (λ (z : Station). z.object_id) e, ap (λ (z : Station). z.object_supervisor) e)
tail-SameRights text spare ks (suc j) x g =
    Pointwise-map SameRights same_rights (put_message text) ks (λ i y. (refl, refl)) j x g

pub message_to_all-SameRights :
    (text : Str) (k : Station) (conns : List Station)
    → Pointwise SameRights conns (message_to_all text k conns)
message_to_all-SameRights text k [] = Pointwise-same SameRights same_rights []
message_to_all-SameRights text k (spare ∷ ks) =
    elim (Bool-cases (in_use k && not (k.message_ok == 0))) [
      | inl e ↦ rw e (tail-SameRights text spare ks)
      | inr e ↦ rw e (Pointwise-same SameRights same_rights (spare ∷ ks))
    ]
