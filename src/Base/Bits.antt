-- ===== src/Base/Bits.antt =====
-- The bit operations in terms of the lowest digit, and the fields that `|` and `&` put together.
use Prim.Native.Nat.{
  ℕ, zero, suc, ◌+◌, ◌*◌, ◌/◌, ◌%◌, ◌^◌, ◌-◌, ◌≤◌, ◌<◌, min, max, digits, bitwise, bit_and, bit_or,
  bit_and-bitwise, bit_or-bitwise,
}
use mathlib.Core.Path.{◌≡◌, refl, ap, ◌∙◌}
use native.Mathlib.Nat.{pow-suc, one-le-pow}
use native.Mathlib.Omega.{arith}

infixl 75 ◌<<<◌ ◌>>>◌
abbrev pub ◌<<<◌ : ℕ → ℕ → ℕ
x <<< k = x * 2 ^ k

abbrev pub ◌>>>◌ : ℕ → ℕ → ℕ
x >>> k = x / 2 ^ k

-- `(uint8)`, `(uint16)` and `(uint32)`
abbrev pub u8 : ℕ → ℕ
u8 n = n % 2 ^ 8

abbrev pub u16 : ℕ → ℕ
u16 n = n % 2 ^ 16

abbrev pub u32 : ℕ → ℕ
u32 n = n % 2 ^ 32

-- The definition of `&` and `|` by digits, with fuel; fuel beyond the first operand is not used.
module _ (tail : ℕ → ℕ) (digit : ℕ → ℕ → ℕ) where
  same_fuel : (f g x y : ℕ) → x ≤ f → x ≤ g → digits tail digit f x y ≡ digits tail digit g x y
  same_fuel zero zero x y p q = refl
  same_fuel zero (suc g) zero y p q = refl
  same_fuel zero (suc g) (suc x) y p q = elim p [ ]
  same_fuel (suc f) zero zero y p q = refl
  same_fuel (suc f) zero (suc x) y p q = elim q [ ]
  same_fuel (suc f) (suc g) zero y p q = refl
  same_fuel (suc f) (suc g) (suc x) y p q =
      rw (same_fuel f g (suc x / 2) (y / 2) (omega arith) (omega arith))

  lowest_digit :
      (x y : ℕ)
      → bitwise tail digit (suc x) y
        ≡ bitwise tail digit (suc x / 2) (y / 2) * 2 + digit (suc x % 2) (y % 2)
  lowest_digit x y = rw (same_fuel x (suc x / 2) (suc x / 2) (y / 2) (omega arith) (omega arith))

pub bit_or_step : (a b : ℕ) → bit_or a b ≡ bit_or (a / 2) (b / 2) * 2 + max (a % 2) (b % 2)
bit_or_step zero b = rw (bit_or-bitwise, bit_or-bitwise) (omega arith)
bit_or_step (suc a) b = rw (bit_or-bitwise, bit_or-bitwise) (lowest_digit _ max a b)

pub bit_and_step : (a b : ℕ) → bit_and a b ≡ bit_and (a / 2) (b / 2) * 2 + min (a % 2) (b % 2)
bit_and_step zero b = rw (bit_and-bitwise, bit_and-bitwise) (omega arith)
bit_and_step (suc a) b = rw (bit_and-bitwise, bit_and-bitwise) (lowest_digit _ min a b)

or_zero_to : (n a : ℕ) → a ≤ n → bit_or a 0 ≡ a
or_zero_to n zero h = refl
or_zero_to zero (suc a) h = elim h [ ]
or_zero_to (suc n) (suc a) h =
    omega (arith, bit_or_step (suc a) 0, or_zero_to n (suc a / 2) (omega arith))

and_zero_to : (n a : ℕ) → a ≤ n → bit_and a 0 ≡ 0
and_zero_to n zero h = refl
and_zero_to zero (suc a) h = elim h [ ]
and_zero_to (suc n) (suc a) h =
    omega (arith, bit_and_step (suc a) 0, and_zero_to n (suc a / 2) (omega arith))

pub bit_or-zero : (a : ℕ) → bit_or a 0 ≡ a
bit_or-zero a = or_zero_to a a (omega arith)

pub bit_and-zero : (a : ℕ) → bit_and a 0 ≡ 0
bit_and-zero a = and_zero_to a a (omega arith)

double_shift : (q k : ℕ) → q * 2 ^ suc k ≡ q * 2 ^ k * 2
double_shift q k = omega (arith, ap (λ (t : ℕ). q * t) (pow-suc 2 k))

-- `|` with a value below `2 ^ k` of a value with `k` low zeros is their sum.
pub bit_or_fields : (k q r : ℕ) → r < 2 ^ k → bit_or (q * 2 ^ k) r ≡ q * 2 ^ k + r
bit_or_fields zero q zero h = rw bit_or-zero (omega arith)
bit_or_fields zero q (suc r) h = absurd (omega arith)
bit_or_fields (suc k) q r h =
    let half : r / 2 < 2 ^ k = omega (arith, pow-suc 2 k) in
    rw (double_shift q k)
      (ground (arith, bit_or_step (q * 2 ^ k * 2) r, bit_or_fields k q (r / 2) half))

-- `&` with `2 ^ k - 1` is the remainder.
pub bit_and_mask : (k q r : ℕ) → r < 2 ^ k → bit_and (q * 2 ^ k + r) (2 ^ k - 1) ≡ r
bit_and_mask zero q r h = rw bit_and-zero (omega arith)
bit_and_mask (suc k) q r h =
    let half : r / 2 < 2 ^ k = omega (arith, pow-suc 2 k) in
    ground (
      arith,
      bit_and_step (q * 2 ^ suc k + r) (2 ^ suc k - 1),
      double_shift q k,
      pow-suc 2 k,
      one-le-pow k 2,
      bit_and_mask k q (r / 2) half,
    )

-- `x | 1` is not zero.
pub bit_or-one_pos : (a : ℕ) → 0 < bit_or a 1
bit_or-one_pos a = omega (arith, bit_or_step a 1)

or_comm_to : (n a b : ℕ) → a ≤ n → b ≤ n → bit_or a b ≡ bit_or b a
or_comm_to n zero b h k = rw (bit_or-zero b) (zero-or b)
  where
    zero-or : (b : ℕ) → bit_or 0 b ≡ b
    zero-or b = rw bit_or-bitwise
or_comm_to zero (suc a) b h k = elim h [ ]
or_comm_to (suc n) (suc a) b h k = omega (
  arith,
  bit_or_step (suc a) b,
  bit_or_step b (suc a),
  or_comm_to n (suc a / 2) (b / 2) (omega arith) (omega arith),
)

-- The same with the low field first.
pub bit_or_low_field : (k q r : ℕ) → r < 2 ^ k → bit_or r (q * 2 ^ k) ≡ q * 2 ^ k + r
bit_or_low_field k q r h =
    or_comm_to (q * 2 ^ k + r) r (q * 2 ^ k) (omega arith) (omega arith) ∙ bit_or_fields k q r h
