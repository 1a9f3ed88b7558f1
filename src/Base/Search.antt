-- ===== src/Base/Search.antt =====
-- The loops `for (i = from; i < n; i++) if (p (a[i])) return i;` and the counting loops.
use Prim.Native.Nat.{ℕ, zero, suc, ◌+◌, ◌≤◌, ◌<◌}
use mathlib.Core.Path.{◌≡◌, refl}
use mathlib.Core.Bool.{Bool, true, false}
use mathlib.Core.List.{List, [], ◌∷◌}
use mathlib.Core.Option.{Option, none, some}
use native.Mathlib.Omega.{arith}
use frommel.Base.Tests.{if◌then◌else◌}
use frommel.Base.Lists.{length, get_elem?, get_elem?-some, set}

module _ {ℓ} {A : Type ℓ} (p : A → Bool) where
  -- The first index, counted from `i`, whose entry passes the test.
  abbrev pub find_from : ℕ → List A → Option ℕ
  find_from i [] = none
  find_from i (x ∷ xs) = if p x then some i else find_from (suc i) xs

  abbrev pub count : List A → ℕ
  count [] = 0
  count (x ∷ xs) = if p x then suc (count xs) else count xs

  pub find_from_bounds :
      (i : ℕ) (xs : List A) {j : ℕ} → find_from i xs ≡ some j → (i ≤ j) × (j < i + length xs)
  find_from_bounds i [] h = cc
  find_from_bounds i (x ∷ xs) {j} h = ground (arith, find_from_bounds (suc i) xs {j = j})

  pub find_from_passes :
      (i : ℕ) (xs : List A) (k : ℕ) {x : A}
      → find_from i xs ≡ some (i + k)
      → get_elem? xs k ≡ some x
      → p x ≡ true
  find_from_passes i [] k h g = cc
  find_from_passes i (y ∷ xs) zero h g = ground (arith, find_from_bounds (suc i) xs {j = i + zero})
  find_from_passes i (y ∷ xs) (suc k) {x} h g =
      ground (arith, find_from_passes (suc i) xs k {x = x})

  pub find_from_earlier :
      (i : ℕ) (xs : List A) (k : ℕ) {j : ℕ} {x : A}
      → find_from i xs ≡ some j
      → i + k < j
      → get_elem? xs k ≡ some x
      → p x ≡ false
  find_from_earlier i [] k h lt g = cc
  find_from_earlier i (y ∷ xs) zero h lt g = ground arith
  find_from_earlier i (y ∷ xs) (suc k) {j} {x} h lt g =
      ground (arith, find_from_earlier (suc i) xs k {j = j} {x = x})

  pub find_from-none :
      (i : ℕ) (xs : List A) (k : ℕ) {x : A}
      → find_from i xs ≡ none
      → get_elem? xs k ≡ some x
      → p x ≡ false
  find_from-none i [] k h g = cc
  find_from-none i (y ∷ xs) zero h g = ground arith
  find_from-none i (y ∷ xs) (suc k) {x} h g = ground (arith, find_from-none (suc i) xs k {x = x})

  pub find_from-all :
      (i : ℕ) (xs : List A)
      → ((k : ℕ) (x : A) → get_elem? xs k ≡ some x → p x ≡ false)
      → find_from i xs ≡ none
  find_from-all i [] h = refl
  find_from-all i (x ∷ xs) h =
      ground (arith, h 0 x refl, find_from-all (suc i) xs (λ k y g. h (suc k) y g))

  -- The search meets the written slot first if no slot matched before.
  pub find_from-set :
      (i : ℕ) (xs : List A) (k : ℕ) (y : A)
      → find_from i xs ≡ none
      → k < length xs
      → p y ≡ true
      → find_from i (set xs k y) ≡ some (i + k)
  find_from-set i [] k y h lt e = elim lt [ ]
  find_from-set i (x ∷ xs) zero y h lt e = ground arith
  find_from-set i (x ∷ xs) (suc k) y h lt e = ground (arith, find_from-set (suc i) xs k y)

  -- The entry that a search stops at.
  pub find_from_entry :
      (xs : List A) {j : ℕ}
      → find_from 0 xs ≡ some j
      → (x : A) × (get_elem? xs j ≡ some x) × (p x ≡ true)
  find_from_entry xs {j} h =
      let (x, e) = get_elem?-some xs j (omega (arith, find_from_bounds 0 xs {j = j} h)) in
      (x, e, find_from_passes 0 xs j (ground arith) e)

  -- Writing an entry that passes where the old one did not adds one to the count.
  pub count-set :
      (xs : List A) (k : ℕ) {x : A} (y : A)
      → get_elem? xs k ≡ some x
      → p x ≡ false
      → p y ≡ true
      → count (set xs k y) ≡ suc (count xs)
  count-set [] k y g px py = cc
  count-set (z ∷ xs) zero y g px py = ground arith
  count-set (z ∷ xs) (suc k) y g px py = ground (arith, count-set xs k y g px py)

  pub count-set_same :
      (xs : List A) (k : ℕ) {x : A} (y : A)
      → get_elem? xs k ≡ some x
      → p y ≡ p x
      → count (set xs k y) ≡ count xs
  count-set_same [] k y g e = cc
  count-set_same (z ∷ xs) zero y g e = ground arith
  count-set_same (z ∷ xs) (suc k) y g e = ground (arith, count-set_same xs k y g e)
