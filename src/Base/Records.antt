-- ===== src/Base/Records.antt =====
-- Files of fixed-size records, seen as lists. A record is found by a key, the first one first; one is
-- deleted by moving the last record over it and cutting the file.
use native.Mathlib.Decide.{ℕ_discrete}
use Prim.Native.Nat.{ℕ, zero, suc, ◌-◌, ◌≤◌, ◌<◌}
use mathlib.Core.Path.{◌≡◌, refl, sym, ◌∙◌}
use mathlib.Core.Logic.{◌≢◌, inl, inr}
use mathlib.Core.List.{List, [], ◌∷◌}
use mathlib.Core.Option.{Option, none, some}
use native.Mathlib.Omega.{arith}
use frommel.Base.Tests.{if◌then◌else◌, ◌==◌, leb, leb, Option-cases}
use frommel.Base.Lists.{
  length, get_elem?, set, take, get_elem?-lt, get_elem?-some, get_elem?-set_self, get_elem?-set_ne,
}

module _ {A : Type 0} where
  -- The last record is read, written over record `p`, and cut off.
  abbrev pub move_last : List A → ℕ → Option A → List A
  move_last xs p none = xs
  move_last xs p (some last) = take (length xs - 1) (set xs p last)

  -- If record `p` is the last, the file is cut at it.
  unfoldable pub remove_at : List A → ℕ → List A
  remove_at xs p =
      if p == length xs - 1 then take p xs else move_last xs p (get_elem? xs (length xs - 1))

  get_elem?-take : (n i : ℕ) (xs : List A) → i < n → get_elem? (take n xs) i ≡ get_elem? xs i
  get_elem?-take zero i xs h = elim h [ ]
  get_elem?-take (suc n) i [] h = refl
  get_elem?-take (suc n) zero (x ∷ xs) h = refl
  get_elem?-take (suc n) (suc i) (x ∷ xs) h = get_elem?-take n i xs (omega arith)

  get_elem?-take_beyond : (n i : ℕ) (xs : List A) → n ≤ i → get_elem? (take n xs) i ≡ none
  get_elem?-take_beyond zero i xs h = refl
  get_elem?-take_beyond (suc n) i [] h = refl
  get_elem?-take_beyond (suc n) zero (x ∷ xs) h = absurd (omega arith)
  get_elem?-take_beyond (suc n) (suc i) (x ∷ xs) h = get_elem?-take_beyond n i xs (omega arith)

  remove_at_entry :
      (xs : List A) (p i : ℕ) {last : A}
      → p < length xs
      → get_elem? xs (length xs - 1) ≡ some last
      → get_elem? (remove_at xs p) i
        ≡ (if leb (length xs - 1) i then none else if i == p then some last else get_elem? xs i)
  unfolding remove_at
  remove_at_entry xs p i {last} h e = rw (e) (
      ground (
        arith,
        get_elem?-take (length xs - 1) i (set xs p last),
        get_elem?-take_beyond (length xs - 1) i (set xs p last),
        get_elem?-set_self xs p last,
        get_elem?-set_ne xs p i last,
        get_elem?-take p i xs,
        get_elem?-take_beyond p i xs,
      ))

  -- Where the entries of the shorter file come from.
  pub get_elem?-remove_at :
      (xs : List A) (p i : ℕ)
      → p < length xs
      → get_elem? (remove_at xs p) i ≡ (
          if leb (length xs - 1) i
          then none
          else if i == p
          then get_elem? xs (length xs - 1)
          else get_elem? xs i)
  get_elem?-remove_at xs p i h =
      let (last, e) = get_elem?-some xs (length xs - 1) (omega arith) in
      ground (arith, remove_at_entry xs p i h e, e)

  -- An entry of the shorter file is one of the file, and not the deleted one.
  pub remove_at_source :
      (xs : List A) (p i : ℕ) {x : A}
      → p < length xs
      → get_elem? (remove_at xs p) i ≡ some x
      → (j : ℕ) × (get_elem? xs j ≡ some x) × (j ≢ p) × (j ≡ (if i == p then length xs - 1 else i))
  remove_at_source xs p i {x} h g = elim (ℕ_discrete i p) [
    | yes e ↦ (
      length xs - 1,
      ground (arith, get_elem?-remove_at xs p i h),
      λ q. ground (arith, get_elem?-remove_at xs p i h),
      ground arith,
    )
    | no ne ↦ (i, ground (arith, get_elem?-remove_at xs p i h), ne, ground arith)
  ]

module _ {A : Type 0} (key : A → ℕ) where
  -- The first record under the key.
  abbrev pub lookup : ℕ → List A → Option A
  lookup k [] = none
  lookup k (x ∷ xs) = if key x == k then some x else lookup k xs

  -- No two records share a key.
  pub record IsUnique (xs : List A) : Type 0 where
    pub same :
        (i j : ℕ) (x y : A)
        → get_elem? xs i ≡ some x
        → get_elem? xs j ≡ some y
        → key x ≡ key y
        → i ≡ j

  pub lookup_entry :
      (k : ℕ) (xs : List A) {x : A}
      → lookup k xs ≡ some x
      → (i : ℕ) × (get_elem? xs i ≡ some x) × (key x ≡ k)
  lookup_entry k [] h = cc
  lookup_entry k (y ∷ xs) {x} h = elim (ℕ_discrete (key y) k) [
    | yes e ↦ (0, ground arith, ground arith)
    | no ne ↦ let (i, g, q) = lookup_entry k xs {x = x} (ground arith) in (suc i, g, q)
  ]

  pub lookup-none :
      (k : ℕ) (xs : List A) (i : ℕ) {x : A}
      → lookup k xs ≡ none
      → get_elem? xs i ≡ some x
      → key x ≢ k
  lookup-none k [] i h g = cc
  lookup-none k (y ∷ xs) zero h g = ground arith
  lookup-none k (y ∷ xs) (suc i) {x} h g = ground (arith, lookup-none k xs i {x = x})

  pub lookup-all :
      (k : ℕ) (xs : List A)
      → ((i : ℕ) (x : A) → get_elem? xs i ≡ some x → key x ≢ k)
      → lookup k xs ≡ none
  lookup-all k [] h = refl
  lookup-all k (x ∷ xs) h = ground (arith, h 0 x refl, lookup-all k xs (λ i y g. h (suc i) y g))

  -- Among records with distinct keys each is found under its own.
  pub lookup-IsUnique :
      (xs : List A) (i : ℕ) {x : A}
      → IsUnique xs
      → get_elem? xs i ≡ some x
      → lookup (key x) xs ≡ some x
  lookup-IsUnique xs i {x} u g = elim (Option-cases (lookup (key x) xs)) [
    | inl e ↦ absurd (lookup-none (key x) xs i {x = x} e g refl)
    | inr (y, e) ↦
        let (j, gj, q) = lookup_entry (key x) xs {x = y} e in
        let same = u.same i j x y g gj (sym q) in ground (arith, same)
  ]

  pub remove_at-IsUnique :
      (xs : List A) (p : ℕ) → p < length xs → IsUnique xs → IsUnique (remove_at xs p)
  remove_at-IsUnique xs p h u = record {
    same = λ i j x y gi gj q.
        let (i', gi', ni, ei) = remove_at_source xs p i {x = x} h gi in
        let (j', gj', nj, ej) = remove_at_source xs p j {x = y} h gj in
        let same = u.same i' j' x y gi' gj' q in
        ground (arith, get_elem?-remove_at xs p i h, get_elem?-remove_at xs p j h);
  }

  -- The deleted record's key is gone.
  pub lookup-remove_at :
      (xs : List A) (p : ℕ) {x : A}
      → IsUnique xs
      → get_elem? xs p ≡ some x
      → lookup (key x) (remove_at xs p) ≡ none
  lookup-remove_at xs p {x} u g = lookup-all (key x) (remove_at xs p) (λ i y gi q.
      let (j, gj, ne, e) = remove_at_source xs p i {x = y} (get_elem?-lt xs p g) gi in
      ne (u.same j p y x gj g q))

  kept :
      (xs : List A) (p i : ℕ) {y : A}
      → p < length xs
      → i ≢ p
      → get_elem? xs i ≡ some y
      → (j : ℕ) × (get_elem? (remove_at xs p) j ≡ some y)
  kept xs p i {y} h ne g = elim (ℕ_discrete i (length xs - 1)) [
    | yes e ↦ (p, ground (arith, get_elem?-remove_at xs p p h))
    | no n ↦ (i, ground (arith, get_elem?-remove_at xs p i h, get_elem?-lt xs i g))
  ]

  -- Every other key is found as before.
  pub lookup-remove_at_other :
      (xs : List A) (p k : ℕ) {x : A}
      → IsUnique xs
      → get_elem? xs p ≡ some x
      → key x ≢ k
      → lookup k (remove_at xs p) ≡ lookup k xs
  lookup-remove_at_other xs p k {x} u g ne = elim (Option-cases (lookup k xs)) [
    | inl e ↦
        lookup-all k (remove_at xs p) (λ i y gi.
          let (j, gj, nj, ej) = remove_at_source xs p i {x = y} (get_elem?-lt xs p g) gi in
          lookup-none k xs j e gj)
        ∙ sym e
    | inr (y, e) ↦
        let (i, gi, q) = lookup_entry k xs {x = y} e in
        let ni : i ≢ p = λ r. ground arith in
        let (j, gj) = kept xs p i {y = y} (get_elem?-lt xs p g) ni gi in
        let found =
          lookup-IsUnique (remove_at xs p) j (remove_at-IsUnique xs p (get_elem?-lt xs p g) u) gj in
        ground arith
  ]

  tail-IsUnique : (x : A) (xs : List A) → IsUnique (x ∷ xs) → IsUnique xs
  tail-IsUnique x xs u = record {
    same = λ i j y z gi gj q. let e = u.same (suc i) (suc j) y z gi gj q in omega (arith, e);
  }

  -- The first record under key `k` is changed by `f`; if there is none, `x` is appended.
  abbrev pub amend : ℕ → (A → A) → A → List A → List A
  amend k f x [] = x ∷ []
  amend k f x (y ∷ ys) = if key y == k then f y ∷ ys else y ∷ amend k f x ys

  -- What `amend` leaves under the key.
  abbrev pub amended : (A → A) → A → Option A → A
  amended f x none = x
  amended f x (some y) = f y

  module _ (k : ℕ) (f : A → A) (x : A) (new : key x ≡ k)
      (changed : (y : A) → key y ≡ k → key (f y) ≡ k) where
    pub lookup-amend : (xs : List A) → lookup k (amend k f x xs) ≡ some (amended f x (lookup k xs))
    lookup-amend [] = ground arith
    lookup-amend (y ∷ ys) = ground (arith, lookup-amend ys, changed y)

    pub lookup-amend_other : (xs : List A) (l : ℕ) → k ≢ l → lookup l (amend k f x xs) ≡ lookup l xs
    lookup-amend_other [] l ne = ground arith
    lookup-amend_other (y ∷ ys) l ne = ground (arith, lookup-amend_other ys l, changed y)

    -- The place that `amend` writes.
    place : List A → ℕ
    place [] = 0
    place (y ∷ ys) = if key y == k then 0 else suc (place ys)

    amend-same :
        (xs : List A) (i : ℕ) {y : A}
        → IsUnique xs
        → get_elem? (amend k f x xs) i ≡ some y
        → key y ≡ k
        → i ≡ place xs
    unfolding place
    amend-same [] zero u g q = refl
    amend-same [] (suc i) u g q = cc
    amend-same (z ∷ zs) zero u g q = ground arith
    amend-same (z ∷ zs) (suc i) {y} u g q =
        ground (arith, amend-same zs i {y = y} (tail-IsUnique z zs u), u.same (suc i) 0 y z)

    amend-other :
        (xs : List A) (i : ℕ) {y : A}
        → get_elem? (amend k f x xs) i ≡ some y
        → key y ≢ k
        → get_elem? xs i ≡ some y
    amend-other [] zero g q = ground arith
    amend-other [] (suc i) g q = cc
    amend-other (z ∷ zs) zero g q = ground (arith, changed z)
    amend-other (z ∷ zs) (suc i) {y} g q = ground (arith, amend-other zs i {y = y})

    pub amend-IsUnique : (xs : List A) → IsUnique xs → IsUnique (amend k f x xs)
    amend-IsUnique xs u = record {
      same = λ i j y z gi gj q. elim (ℕ_discrete (key y) k) [
        | yes e ↦ amend-same xs i {y = y} u gi e ∙ sym (amend-same xs j {y = z} u gj (sym q ∙ e))
        | no ne ↦
            u.same i j y z (amend-other xs i {y = y} gi ne)
              (amend-other xs j {y = z} gj (λ e. ne (q ∙ e))) q
      ];
    }
