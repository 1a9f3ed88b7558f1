-- ===== src/Ncp/Wanted.antt =====
-- The entries that the scan of a directory counts, for src/src/server/ncp_22.c.
use frommel.Base.{
  ℕ, ◌==◌, ◌&&◌, ◌||◌, ◌≡◌, ◌≢◌, ◌↔◌, ◌⊎◌, inl, inr, refl, sym, ◌∙◌, arith, Bool, true, false, not,
  if◌then◌else◌, Bool-cases, ==_iff, Str, codes, str_eq, str_eq_refl, str_eq→eq, true≢false,
  bit_and, ap,
}
use frommel.Ncp.Wildcards.{match_fn}
use frommel.Ncp.Scandir.{Dirent, is_wanted}

-- What the client asks for: the name matches the pattern, or is the pattern; it is not that of a trustee
-- file; and it is a file, or a directory other than the two dots, as the bit 0x10 of `attr` says.
abbrev pub IsListed : Str → ℕ → Dirent → Type 0
IsListed pattern attr e =
    ((match_fn e.name pattern ≡ true) ⊎ (e.name ≡ pattern))
    × (e.name ≢ codes "$TRUSTEE.SYS")
    × (((bit_and e.type 4 ≡ 0) × (bit_and attr 0x10 ≡ 0))
        ⊎ ((bit_and e.type 4 ≢ 0)
            × (bit_and attr 0x10 ≢ 0)
            × (e.name ≢ codes ".")
            × (e.name ≢ codes "..")))

both : (a b : Bool) → (a && b) ≡ true → (a ≡ true) × (b ≡ true)
both true b h = (refl, h)
both false b h = cc

either : (a b : Bool) → (a || b) ≡ true → (a ≡ true) ⊎ (b ≡ true)
either true b h = inl refl
either false b h = inr h

false_of_not : (a : Bool) → not a ≡ true → a ≡ false
false_of_not true h = cc
false_of_not false h = refl

differs : (s t : Str) → str_eq s t ≡ false → s ≢ t
differs s t h e = true≢false (sym (str_eq_refl s) ∙ (ap (str_eq s) e ∙ h))

equal_not : (s t : Str) → s ≢ t → str_eq s t ≡ false
equal_not s t ne = elim (Bool-cases (str_eq s t)) [
  | inl y ↦ absurd (ne (str_eq→eq s t y))
  | inr n ↦ n
]

equal_zero_not : (n : ℕ) → n ≢ 0 → (n == 0) ≡ false
equal_zero_not n ne = ground arith

listed_kind :
    (t a dot dots : Bool)
    → (if not t then not a && (not dot && not dots) else not (not a)) ≡ true
    → ((t ≡ true) × (a ≡ true)) ⊎ ((t ≡ false) × (a ≡ false) × (dot ≡ false) × (dots ≡ false))
listed_kind true true dot dots h = inl (refl, refl)
listed_kind true false dot dots h = cc
listed_kind false true dot dots h = cc
listed_kind false false true dots h = cc
listed_kind false false false true h = cc
listed_kind false false false false h = inr (refl, refl, refl, refl)

is_wanted-IsListed :
    (pattern : Str) (attr : ℕ) (e : Dirent)
    → is_wanted pattern attr e ≡ true
    → IsListed pattern attr e
unfolding is_wanted
is_wanted-IsListed pattern attr e h =
    let (front, kind) = both _ _ h in
    let (named, plain) = both _ _ front in
    let zero_type = bit_and e.type 4 == 0 in
    let zero_attr = bit_and attr 0x10 == 0 in
    (
      elim (either _ _ named) [ inl m ↦ inl m | inr q ↦ inr (str_eq→eq e.name pattern q) ],
      differs e.name _ (false_of_not _ plain),
      elim (listed_kind zero_type zero_attr (str_eq e.name (codes ".")) (str_eq e.name (codes ".."))
          kind) [
            | inl (t, a) ↦ inl ((==_iff _ _).0 t, (==_iff _ _).0 a)
            | inr (t, a, d, dd) ↦ inr (
              λ q. true≢false (sym ((==_iff _ _).1 q) ∙ t),
              λ q. true≢false (sym ((==_iff _ _).1 q) ∙ a),
              differs e.name (codes ".") d,
              differs e.name (codes "..") dd,
            )
          ],
    )

IsListed-is_wanted :
    (pattern : Str) (attr : ℕ) (e : Dirent)
    → IsListed pattern attr e
    → is_wanted pattern attr e ≡ true
unfolding is_wanted
IsListed-is_wanted pattern attr e (named, plain, kind) =
    let s = equal_not e.name (codes "$TRUSTEE.SYS") plain in
    let front : (match_fn e.name pattern || str_eq e.name pattern) ≡ true = elim named [
      | inl m ↦ rw m refl
      | inr q ↦ elim (Bool-cases (match_fn e.name pattern)) [
        | inl m ↦ rw m refl
        | inr m ↦ rw m (ap (str_eq e.name) (sym q) ∙ str_eq_refl e.name)
      ]
    ] in
    elim kind [
      | inl (t, a) ↦
          rw (front, s, (==_iff (bit_and e.type 4) 0).1 t, (==_iff (bit_and attr 0x10) 0).1 a) refl
      | inr (t, a, d, dd) ↦
          rw
            (
              front,
              s,
              equal_zero_not (bit_and e.type 4) t,
              equal_zero_not (bit_and attr 0x10) a,
              equal_not e.name (codes ".") d,
              equal_not e.name (codes "..") dd,
            )
            refl
    ]

pub is_wanted_iff :
    (pattern : Str) (attr : ℕ) (e : Dirent)
    → (is_wanted pattern attr e ≡ true) ↔ IsListed pattern attr e
is_wanted_iff pattern attr e =
    (is_wanted-IsListed pattern attr e, IsListed-is_wanted pattern attr e)
