-- ===== src/Base/Text.antt =====
-- C strings: the bytes before the terminator. A character array is the list of the bytes that stand
-- in it before the terminator, or all of them if there is none.
use Prim.Native.Nat.{ℕ, ◌+◌, ◌-◌, ◌<◌, ◌≤◌}
use Prim.Native.Char.{code}
use Prim.Native.String.{String}
use mathlib.Core.Path.{◌≡◌, refl}
use mathlib.Core.Bool.{Bool, true, false, ◌&&◌}
use mathlib.Core.List.{List, [], ◌∷◌, ◌++◌}
use mathlib.Core.Option.{Option, none, some}
use native.Mathlib.Omega.{arith}
use frommel.Base.Tests.{ltb, leb, ◌==◌, if◌then◌else◌, ◌>>◌, in_bounds}
use frommel.Base.Lists.{length, take, take-all, length-append, length-take}

abbrev pub Str : Type 0
Str = List ℕ

abbrev pub codes : String → Str
codes String.[] = []
codes (String.◌∷◌ c s) = code c ∷ codes s

-- `strcmp (a, b) == 0`
abbrev pub str_eq : Str → Str → Bool
str_eq [] [] = true
str_eq [] (b ∷ bs) = false
str_eq (a ∷ as') [] = false
str_eq (a ∷ as') (b ∷ bs) = (a == b) && str_eq as' bs

pub str_eq_refl : (s : Str) → str_eq s s ≡ true
str_eq_refl [] = refl
str_eq_refl (a ∷ s) = ground (arith, str_eq_refl s)

pub str_eq→eq : (s t : Str) → str_eq s t ≡ true → s ≡ t
str_eq→eq [] [] h = refl
str_eq→eq [] (b ∷ t) h = cc
str_eq→eq (a ∷ s) [] h = cc
str_eq→eq (a ∷ s) (b ∷ t) h = ground (arith, str_eq→eq s t)

-- `strncpy (array, s, n)`: no terminator is written if `s` has `n` bytes or more.
abbrev pub strncpy : Str → ℕ → Str
strncpy s n = take n s

-- `strncat (dest, s, n)` on an array of `size` bytes: it appends `n` bytes at most, and always a
-- terminator. A fault if the array has no terminator, or none of the room that is written.
abbrev pub strncat : ℕ → Str → Str → ℕ → Option Str
strncat size dest s n = do
  in_bounds (ltb (length dest) size)
  in_bounds (ltb (length (dest ++ take n s)) size)
  some (dest ++ take n s)

-- `toupper` in the C locale
abbrev pub to_upper : ℕ → ℕ
to_upper c = if leb b'a' c && leb c b'z' then c - 32 else c

-- `tolower` in the C locale
abbrev pub to_lower : ℕ → ℕ
to_lower c = if leb b'A' c && leb c b'Z' then c + 32 else c

-- `strncat` appends a text that fits.
pub strncat-fits :
    (size : ℕ) (dest s : Str) (n : ℕ)
    → length dest + length s < size
    → length s ≤ n
    → strncat size dest s n ≡ some (dest ++ s)
strncat-fits size dest s n h m = rw (take-all n s m) (ground (arith, length-append dest s))

-- It writes past the array where the text and the terminator do not fit.
pub strncat-overflow :
    (size : ℕ) (dest s : Str) (n : ℕ)
    → size ≤ length dest + length s
    → size ≤ length dest + n
    → strncat size dest s n ≡ none
strncat-overflow size dest s n h m = ground (arith, length-append dest (take n s), length-take n s)
