-- ===== src/Ncp/Scale.antt =====
-- NCP_VOLINFO of src/src/server/ncp.c: the scale that makes the number of blocks fit two bytes.
use frommel.Base.{
  ℕ, zero, suc, ◌+◌, ◌-◌, ◌*◌, ◌/◌, ◌^◌, ◌==◌, ◌≡◌, ◌<◌, ◌≤◌, ◌⊎◌, inl, inr, refl, arith, some,
  List, [], ◌∷◌, ◌++◌, if◌then◌else◌, Bool-cases, leb, be16, bit_and, two_at, get_be16-put_be16,
}
use native.Mathlib.Nat.{div-le_of_le-mul, le-div_iff_mul-le, div-lt_iff_lt-mul}
use frommel.Volume.{Volume}
use frommel.Ncp.Fields.{be16_at}
use frommel.Ncp.Machine.{Statfs}
use frommel.Ncp.Space.{scale_from, send_volinfo, name_bytes, flag_removable}

-- From `scale` on the loop ends with fuel for the rest of the blocks, at the first scale that fits.
scale_from-fits :
    (fuel blocks scale : ℕ)
    → 1 ≤ scale
    → blocks ≤ scale + fuel
    → (s : ℕ) × (scale_from (suc fuel) blocks scale ≡ some s)
      × (blocks / s < 2 ^ 16)
      × (1 ≤ s)
      × ((s ≡ scale) ⊎ (2 ^ 16 ≤ blocks / (s - 2)))
unfolding scale_from
scale_from-fits zero blocks scale h f =
    let one : blocks / scale ≤ 1 = div-le_of_le-mul scale (omega arith) in
    (scale, ground (arith, one), omega (arith, one), h, inl refl)
scale_from-fits (suc fuel) blocks scale h f = elim (Bool-cases (leb (blocks / scale) 0xffff)) [
  | inl y ↦ (scale, ground (arith, y), ground (arith, y), h, inl refl)
  | inr n ↦
      let (s, e, fits, pos, least) =
        scale_from-fits fuel blocks (scale + 2) (omega arith) (omega arith) in
      (
        s,
        ground (arith, n, e),
        fits,
        pos,
        inr (elim least [
          | inl q ↦ let back : s - 2 ≡ scale = omega (arith, q) in rw (back) (ground (arith, n))
          | inr more ↦ more
        ]),
      )
]

scale_small :
    (blocks s : ℕ)
    → blocks < 65534 * 2 ^ 16
    → 1 ≤ s
    → (s ≡ 1) ⊎ (2 ^ 16 ≤ blocks / (s - 2))
    → s < 2 ^ 16
scale_small blocks s small pos (inl q) = omega (arith, q)
scale_small blocks s small pos (inr more) = elim (Bool-cases (leb s 2)) [
  | inl y ↦ ground (arith, y)
  | inr n ↦
      let much =
        (le-div_iff_mul-le {k = s - 2} {x = 2 ^ 16} {y = blocks} (ground (arith, n))).0 more in
      ground (arith, much, n)
]

bavail_small :
    (blocks bavail s : ℕ) → 1 ≤ s → bavail ≤ blocks → blocks / s < 2 ^ 16 → bavail / s < 2 ^ 16
bavail_small blocks bavail s pos avail fits =
    let most = (div-lt_iff_lt-mul pos).0 fits in (div-lt_iff_lt-mul pos).1 (omega (arith, most))

-- The first six bytes of the answer.
head-be16 :
    (a b c : ℕ) (rest : List ℕ)
    → a < 2 ^ 16
    → b < 2 ^ 16
    → c < 2 ^ 16
    → let reply = be16 a ++ (be16 b ++ (be16 c ++ rest)) in
      (be16_at reply 0 ≡ some a) × (be16_at reply 2 ≡ some b) × (be16_at reply 4 ≡ some c)
unfolding two_at
head-be16 a b c rest ha hb hc = (
  rw (get_be16-put_be16 a ha) refl,
  rw (get_be16-put_be16 b hb) refl,
  rw (get_be16-put_be16 c hc) refl,
)

-- What follows them.
abbrev behind : Volume → Statfs → List ℕ
behind v st =
    be16 st.files
    ++ (be16 st.ffree
        ++ (name_bytes v
            ++ (if bit_and v.flags flag_removable == 0 then 0 ∷ 0 ∷ [] else 0xff ∷ 0xff ∷ [])))

-- On fewer than 65534 * 2^16 blocks, with no more free ones than there are, the loop of
-- ncp_send_volinfo ends, and a reader of its answer finds the scale, and the numbers of blocks and
-- of free blocks divided by it, uncut in two bytes each. The scale is 1, or the one before it had
-- left 2^16 or more.
pub send_volinfo-fits :
    (v : Volume) (st : Statfs)
    → st.blocks < 65534 * 2 ^ 16
    → st.bavail ≤ st.blocks
    → (s : ℕ) × (reply : List ℕ) × (send_volinfo v st ≡ some (0, reply))
      × (be16_at reply 0 ≡ some s)
      × (be16_at reply 2 ≡ some (st.blocks / s))
      × (be16_at reply 4 ≡ some (st.bavail / s))
      × ((s ≡ 1) ⊎ (2 ^ 16 ≤ st.blocks / (s - 2)))
unfolding send_volinfo
send_volinfo-fits v st small avail =
    let (s, e, fits, pos, least) =
      scale_from-fits st.blocks st.blocks 1 (omega arith) (omega arith) in
    let below : s < 2 ^ 16 = scale_small st.blocks s small pos least in
    let free : st.bavail / s < 2 ^ 16 = bavail_small st.blocks st.bavail s pos avail fits in
    let (h0, h2, h4) = head-be16 s (st.blocks / s) (st.bavail / s) (behind v st) below fits free in
    let numbers = be16 s ++ (be16 (st.blocks / s) ++ be16 (st.bavail / s)) in
    (s, numbers ++ behind v st, rw (e) refl, h0, h2, h4, least)
