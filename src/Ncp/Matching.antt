-- ===== src/Ncp/Matching.antt =====
-- `match_fn` of src/src/lib/misc.c on patterns without wildcards.
use frommel.Base.{
  ℕ, zero, suc, ◌==◌, ◌||◌, ◌≡◌, ◌↔◌, inl, inr, refl, sym, ◌∙◌, true≢false, arith, Bool, true,
  false, [], ◌∷◌, ◌++◌, map, replicate, if◌then◌else◌, Bool-cases, Str, to_lower,
}
use frommel.Ncp.Wildcards.{is_one, is_any, after_dot, after_char, match_one, match_fn}

abbrev pub is_special : ℕ → Bool
is_special d = is_one d || is_any d || d == 0xae || d == 0xff

-- No character of the pattern stands for others; dots are dots.
abbrev pub Literal : Str → Type 0
Literal [] = Unit {0}
Literal (d ∷ ds) = (is_special d ≡ false) × Literal ds

both : (b : Bool) {c : Bool} → (if b then c else false) ≡ true → (b ≡ true) × (c ≡ true)
both true h = (refl, h)
both false h = cc

match_one-literal :
    (s : Str) (d : ℕ) (last : Bool)
    → is_special d ≡ false
    → match_one s d last ≡ (if d == b'.' then after_dot s else after_char s d)
unfolding match_one
match_one-literal s d last h = ground arith

-- The pattern has ended.
at-end : match_fn [] [] ≡ true
unfolding match_fn
at-end = refl

at-char : (c : ℕ) (s : Str) → match_fn (c ∷ s) [] ≡ false
unfolding match_fn
at-char c s = refl

-- A dot of the pattern, where the name has ended, and where it has not.
dot_at-end : (d : ℕ) (ds : Str) → (d == b'.') ≡ true → match_fn [] (d ∷ ds) ≡ match_fn [] ds
unfolding match_fn match_one
dot_at-end d ds y = ground (arith, y)

dot_at-char :
    (c d : ℕ) (s ds : Str)
    → (d == b'.') ≡ true
    → match_fn (c ∷ s) (d ∷ ds) ≡ (if c == b'.' then match_fn s ds else false)
unfolding match_fn match_one
dot_at-char c d s ds y = ground (arith, y)

-- Any other character of the pattern.
char_at-end :
    (d : ℕ) (ds : Str) → is_special d ≡ false → (d == b'.') ≡ false → match_fn [] (d ∷ ds) ≡ false
unfolding match_fn match_one
char_at-end d ds h n = ground (arith, h, n)

char_at-char :
    (c d : ℕ) (s ds : Str)
    → is_special d ≡ false
    → (d == b'.') ≡ false
    → match_fn (c ∷ s) (d ∷ ds) ≡ (if to_lower c == to_lower d then match_fn s ds else false)
unfolding match_fn match_one
char_at-char c d s ds h n = ground (arith, h, n)

-- The pattern is the name, case aside, with dots behind it.
abbrev pub Dotted : Str → Str → Type 0
Dotted s p = (n : ℕ) × (map to_lower p ≡ map to_lower s ++ replicate n b'.')

match_fn_sound : (p s : Str) → Literal p → match_fn s p ≡ true → Dotted s p
match_fn_sound [] [] l h = (0, refl)
match_fn_sound [] (c ∷ s) l h = absurd (true≢false (sym h ∙ at-char c s))
match_fn_sound (d ∷ ds) [] l h = elim (Bool-cases (d == b'.')) [
  | inl y ↦
      let (n, e) = match_fn_sound ds [] l.1 (sym (dot_at-end d ds y) ∙ h) in
      (suc n, ground (arith, e, y))
  | inr n ↦ absurd (true≢false (sym h ∙ char_at-end d ds l.0 n))
]
match_fn_sound (d ∷ ds) (c ∷ s) l h = elim (Bool-cases (d == b'.')) [
  | inl y ↦
      let (q, r) = both (c == b'.') (sym (dot_at-char c d s ds y) ∙ h) in
      let (n, e) = match_fn_sound ds s l.1 r in (n, ground (arith, e, y, q))
  | inr n ↦
      let (q, r) = both (to_lower c == to_lower d) (sym (char_at-char c d s ds l.0 n) ∙ h) in
      let (m, e) = match_fn_sound ds s l.1 r in (m, ground (arith, e, q))
]

match_fn_complete : (p s : Str) → Literal p → Dotted s p → match_fn s p ≡ true
match_fn_complete [] [] l (n, e) = at-end
match_fn_complete [] (c ∷ s) l (n, e) = cc
match_fn_complete (d ∷ ds) [] l (zero, e) = cc
match_fn_complete (d ∷ ds) [] l (suc n, e) =
    let rest : map to_lower ds ≡ replicate n b'.' = cc in
    let first : to_lower d ≡ b'.' = cc in
    dot_at-end d ds (ground (arith, first)) ∙ match_fn_complete ds [] l.1 (n, rest)
match_fn_complete (d ∷ ds) (c ∷ s) l (n, e) =
    let rest : map to_lower ds ≡ map to_lower s ++ replicate n b'.' = cc in
    let first : to_lower d ≡ to_lower c = cc in
    let matched = match_fn_complete ds s l.1 (n, rest) in
    elim (Bool-cases (d == b'.')) [
      | inl y ↦
          let dot : (c == b'.') ≡ true = ground (arith, first, y) in
          dot_at-char c d s ds y ∙ ground (arith, dot, matched)
      | inr m ↦
          let same : (to_lower c == to_lower d) ≡ true = ground (arith, first) in
          char_at-char c d s ds l.0 m ∙ ground (arith, same, matched)
    ]

-- A pattern without wildcards, and without the bytes 0xae and 0xff, matches a name exactly if,
-- case aside, it is the name with any number of dots behind it.
pub match_fn-Literal : (p s : Str) → Literal p → (match_fn s p ≡ true) ↔ Dotted s p
match_fn-Literal p s l = (match_fn_sound p s l, match_fn_complete p s l)
