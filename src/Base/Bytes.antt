-- ===== src/Base/Bytes.antt =====
-- The big-endian byte fields of packets and disk records: GET_BE16 and GET_BE32 of
-- src/include/misc.h, and the stores that are written out wherever a record is filled.
use Prim.Native.Nat.{ℕ, ◌+◌, ◌*◌, ◌/◌, ◌%◌, ◌^◌, ◌<◌, bit_and, bit_or}
use mathlib.Core.Path.{◌≡◌}
use mathlib.Core.List.{List, [], ◌∷◌}
use mathlib.Core.Option.{Option, some}
use native.Mathlib.Omega.{arith}
use frommel.Base.Tests.{◌>>=◌}
use frommel.Base.Lists.{get_elem?}
use frommel.Base.Bits.{◌<<<◌, ◌>>>◌, u8, u16, u32, bit_or_fields, bit_or_low_field, bit_and_mask}

-- `uint8 [2]`
pub record Two : Type 0 where
  pub b0 : ℕ
  pub b1 : ℕ

-- `uint8 [4]`
pub record Four : Type 0 where
  pub b0 : ℕ
  pub b1 : ℕ
  pub b2 : ℕ
  pub b3 : ℕ

unfoldable pub get_be16 : Two → ℕ
get_be16 f = u16 (bit_or f.b1 (f.b0 <<< 8))

unfoldable pub get_be32 : Four → ℕ
get_be32 f = u32 (bit_or (bit_or (bit_or f.b3 (f.b2 <<< 8)) (f.b1 <<< 16)) (f.b0 <<< 24))

-- `(b[0] << 24) | (b[1] << 16) | (b[2] << 8) | b[3]`, as the bindery and the sets write it
unfoldable pub join32 : Four → ℕ
join32 f = u32 (bit_or (bit_or (bit_or (f.b0 <<< 24) (f.b1 <<< 16)) (f.b2 <<< 8)) f.b3)

-- `(b[0] << 8) | b[1]`
unfoldable pub join16 : Two → ℕ
join16 f = u16 (bit_or (f.b0 <<< 8) f.b1)

-- Four bytes of an array from byte `i` on, joined; a fault past its end.
abbrev pub window : List ℕ → ℕ → Option ℕ
window bytes i = do
  b0 ← get_elem? bytes i
  b1 ← get_elem? bytes (i + 1)
  b2 ← get_elem? bytes (i + 2)
  b3 ← get_elem? bytes (i + 3)
  some (join32 (record { b0 = b0; b1 = b1; b2 = b2; b3 = b3 }))

unfoldable pub put_be16 : ℕ → Two
put_be16 n = record { b0 = u8 (n >>> 8); b1 = bit_and n 0xff }

unfoldable pub put_be32 : ℕ → Four
put_be32 n = record {
  b0 = u8 (n >>> 24);
  b1 = u8 (n >>> 16);
  b2 = u8 (n >>> 8);
  b3 = bit_and n 0xff;
}

-- Numbers as they stand in the memory of a little-endian machine.
abbrev pub le16 : ℕ → List ℕ
le16 n = n % 256 ∷ n / 256 % 256 ∷ []

abbrev pub le32 : ℕ → List ℕ
le32 n = n % 256 ∷ n / 256 % 256 ∷ n / 65536 % 256 ∷ n / 16777216 % 256 ∷ []

abbrev pub be16 : ℕ → List ℕ
be16 n = (put_be16 n).b0 ∷ (put_be16 n).b1 ∷ []

abbrev pub be32 : ℕ → List ℕ
be32 n = (put_be32 n).b0 ∷ (put_be32 n).b1 ∷ (put_be32 n).b2 ∷ (put_be32 n).b3 ∷ []

pub low_byte : (n : ℕ) → bit_and n 0xff ≡ n % 256
low_byte n = ground (arith, bit_and_mask 8 (n / 256) (n % 256))

-- All four are bytes.
abbrev pub IsBytes : Four → Type 0
IsBytes f = (f.b0 < 256) × (f.b1 < 256) × (f.b2 < 256) × (f.b3 < 256)

abbrev sum32 : Four → ℕ
sum32 f = f.b0 * 2 ^ 24 + f.b1 * 2 ^ 16 + f.b2 * 2 ^ 8 + f.b3

pub join32_sum : (f : Four) → IsBytes f → join32 f ≡ sum32 f
unfolding join32
join32_sum f h = ground (
  arith,
  bit_or_fields 24 f.b0 (f.b1 * 2 ^ 16),
  bit_or_fields 16 (f.b0 * 2 ^ 8 + f.b1) (f.b2 * 2 ^ 8),
  bit_or_fields 8 (f.b0 * 2 ^ 16 + f.b1 * 2 ^ 8 + f.b2) f.b3,
)

pub get_be32_sum : (f : Four) → IsBytes f → get_be32 f ≡ sum32 f
unfolding get_be32
get_be32_sum f h = ground (
  arith,
  bit_or_low_field 8 f.b2 f.b3,
  bit_or_low_field 16 f.b1 (f.b2 * 2 ^ 8 + f.b3),
  bit_or_low_field 24 f.b0 (f.b1 * 2 ^ 16 + f.b2 * 2 ^ 8 + f.b3),
)

pub get_be16-put_be16 : (n : ℕ) → n < 2 ^ 16 → get_be16 (put_be16 n) ≡ n
unfolding get_be16 put_be16
get_be16-put_be16 n h = ground (arith, low_byte n, bit_or_low_field 8 (n / 256 % 256) (n % 256))

pub get_be16-put_be16_mod : (n : ℕ) → get_be16 (put_be16 n) ≡ n % 2 ^ 16
unfolding get_be16 put_be16
get_be16-put_be16_mod n = ground (arith, low_byte n, bit_or_low_field 8 (n / 256 % 256) (n % 256))

pub join16-put_be16 : (n : ℕ) → n < 2 ^ 16 → join16 (put_be16 n) ≡ n
unfolding join16 put_be16
join16-put_be16 n h = ground (arith, low_byte n, bit_or_fields 8 (n / 256 % 256) (n % 256))

pub put_be32-IsBytes : (n : ℕ) → IsBytes (put_be32 n)
unfolding put_be32
put_be32-IsBytes n = omega (arith, low_byte n)

-- What is stored in four bytes is read back.
pub get_be32-put_be32 : (n : ℕ) → n < 2 ^ 32 → get_be32 (put_be32 n) ≡ n
unfolding put_be32
get_be32-put_be32 n h = omega (arith, get_be32_sum (put_be32 n) (put_be32-IsBytes n), low_byte n)

pub join32-put_be32 : (n : ℕ) → n < 2 ^ 32 → join32 (put_be32 n) ≡ n
unfolding put_be32
join32-put_be32 n h = omega (arith, join32_sum (put_be32 n) (put_be32-IsBytes n), low_byte n)

pub join32-lt : (f : Four) → join32 f < 2 ^ 32
unfolding join32
join32-lt f = omega arith
