-- ===== src/Base/Buffer.antt =====
-- Received packets: a buffer of bytes, whose first `size` bytes have been received. What stands behind
-- these is left from earlier packets; a read past the buffer is a fault.
use Prim.Native.Nat.{ℕ, ◌+◌}
use mathlib.Core.Bool.{Bool, true, false}
use mathlib.Core.List.{List, [], ◌∷◌, ◌++◌}
use mathlib.Core.Option.{Option, some}
use frommel.Base.Tests.{◌==◌, >>=-eq-some, ◌>>=◌, ◌>>◌, in_bounds, leb, if◌then◌else◌}
use native.Mathlib.Omega.{arith}
use mathlib.Core.Path.{◌≡◌, refl, ap, ◌∙◌}
use frommel.Base.Lists.{
  length, get_elem?, take, drop, length-append, length-take, length-drop, take-append_all,
  drop-append_at, get_elem?-append_at,
}
use frommel.Base.Text.{Str}
use frommel.Base.Bytes.{Two, Four}

-- The bytes before the first 0.
abbrev pub c_string : List ℕ → Str
c_string [] = []
c_string (c ∷ s) = if c == 0 then [] else c ∷ c_string s

abbrev pub has_nul : List ℕ → Bool
has_nul [] = false
has_nul (c ∷ s) = if c == 0 then true else has_nul s

-- The C string at byte `i`: a fault if the buffer ends before it does.
abbrev pub text_at : List ℕ → ℕ → Option Str
text_at buffer i = do in_bounds (has_nul (drop i buffer)); some (c_string (drop i buffer))

-- `n` bytes from byte `i` on.
unfoldable pub slice : List ℕ → ℕ → ℕ → Option (List ℕ)
slice buffer i n = do in_bounds (leb (i + n) (length buffer)); some (take n (drop i buffer))

unfoldable pub two_at : List ℕ → ℕ → Option Two
two_at buffer i = do
  b0 ← get_elem? buffer i
  b1 ← get_elem? buffer (i + 1)
  some (record { b0 = b0; b1 = b1 })

unfoldable pub four_at : List ℕ → ℕ → Option Four
four_at buffer i = do
  b0 ← get_elem? buffer i
  b1 ← get_elem? buffer (i + 1)
  b2 ← get_elem? buffer (i + 2)
  b3 ← get_elem? buffer (i + 3)
  some (record { b0 = b0; b1 = b1; b2 = b2; b3 = b3 })

pub slice-here : (xs ys : List ℕ) (n : ℕ) → length xs ≡ n → slice (xs ++ ys) 0 n ≡ some xs
unfolding slice
slice-here xs ys n h = rw (take-append_all xs ys n h) (ground (arith, length-append xs ys))

pub slice-append_at :
    (xs ys : List ℕ) (n i m : ℕ) → length xs ≡ n → slice (xs ++ ys) (n + i) m ≡ slice ys i m
unfolding slice
slice-append_at xs ys n i m h =
    rw (drop-append_at xs ys n i h) (ground (arith, length-append xs ys))

pub slice-append_from :
    (xs ys : List ℕ) (n i k m : ℕ)
    → length xs ≡ n
    → slice (xs ++ ys) (n + i + k) m ≡ slice ys (i + k) m
slice-append_from xs ys n i k m h =
    let e : n + i + k ≡ n + (i + k) = omega arith in
    ap (λ (j : ℕ). slice (xs ++ ys) j m) e ∙ slice-append_at xs ys n (i + k) m h

pub two_at-append :
    (xs ys : List ℕ) (n i : ℕ) → length xs ≡ n → two_at (xs ++ ys) (n + i) ≡ two_at ys i
unfolding two_at
two_at-append xs ys n i h =
    let e : n + i + 1 ≡ n + (i + 1) = omega arith in
    rw (e, get_elem?-append_at xs ys n i h, get_elem?-append_at xs ys n (i + 1) h) refl

pub two_at-append_from :
    (xs ys : List ℕ) (n i k : ℕ) → length xs ≡ n → two_at (xs ++ ys) (n + i + k) ≡ two_at ys (i + k)
two_at-append_from xs ys n i k h =
    let e : n + i + k ≡ n + (i + k) = omega arith in
    ap (two_at (xs ++ ys)) e ∙ two_at-append xs ys n (i + k) h

pub length-slice :
    (buffer : List ℕ) (i n : ℕ) {s : List ℕ} → slice buffer i n ≡ some s → length s ≡ n
unfolding slice
length-slice buffer i n {s} h =
    let (u, e, f) = >>=-eq-some (in_bounds (leb (i + n) (length buffer))) _ h in
    ground (arith, length-take n (drop i buffer), length-drop i buffer)
