-- ===== src/Ncp/Wildcards.antt =====
-- `match_fn` of src/src/lib/misc.c: names and patterns.
use frommel.Base.{ℕ, ◌==◌, ◌&&◌, ◌||◌, Bool, true, false, [], ◌∷◌, if◌then◌else◌, Str, to_lower}
use frommel.Ncp.{is_empty}

-- What one character of the pattern makes of a name: the answer, or what is left to match.
pub data Match : Type 0 where
  settled : Bool → Match
  left : Str → Match

abbrev pub is_one : ℕ → Bool
is_one d = d == 0xbf || d == b'?'

abbrev pub is_any : ℕ → Bool
is_any d = d == 0xaa || d == b'*'

abbrev pub is_dot : ℕ → Bool
is_dot d = d == 0xae || d == b'.'

abbrev pub skip_one : Str → Str
skip_one [] = []
skip_one (c ∷ s) = if c == b'.' then c ∷ s else s

abbrev pub to_dot : Str → Str
to_dot [] = []
to_dot (c ∷ s) = let rest = to_dot s in if c == b'.' then c ∷ s else rest

abbrev pub after_dot : Str → Match
after_dot [] = left []
after_dot (c ∷ s) = if c == b'.' then left s else settled false

abbrev pub after_char : Str → ℕ → Match
after_char [] d = settled false
after_char (c ∷ s) d = if to_lower c == to_lower d then left s else settled false

-- `d` is the last character of the pattern, or not. An asterisk that is last matches all; that of the
-- DOS clients, 0xaa, never goes past a dot.
unfoldable pub match_one : Str → ℕ → Bool → Match
match_one s d last =
    if is_one d
    then left (skip_one s)
    else if is_any d
    then (if last && d == b'*' then settled true else left (to_dot s))
    else if is_dot d
    then after_dot s
    else if d == 0xff
    then left s
    else after_char s d

unfoldable pub match_fn : Str → Str → Bool
match_fn s [] = is_empty s
match_fn s (d ∷ ds) = elim (match_one s d (is_empty ds)) [
  | settled found ↦ found
  | left s' ↦ match_fn s' ds
]
