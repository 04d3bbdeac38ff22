-- ===== src/Prelude/Bits/Fields.antt =====
-- Shifts and masks of fields as arithmetic.
use Prim.Native.Nat.{ℕ, zero, suc, ◌+◌, ◌-◌, ◌*◌, ◌/◌, ◌%◌, ◌^◌, ◌≤◌, ◌<◌}
use Prim.Native.Nat.{bit_and, bit_or, bit_and-bitwise, bit_or-bitwise}
use mathlib.Core.Path.{◌≡◌, refl, ap}
use native.Mathlib.Nat.{pow-suc, one-le-pow}
use native.Mathlib.Omega.{arith}
use lish.Prelude.Bits.Step.{bit_and_step, bit_or_step}

or-zero_fuel : (n a : ℕ) → a ≤ n → bit_or a 0 ≡ a
or-zero_fuel n zero h = refl
or-zero_fuel zero (suc a) h = absurd (omega arith)
or-zero_fuel (suc n) (suc a) h =
    omega (arith, bit_or_step (suc a) 0, or-zero_fuel n (suc a / 2) (omega arith))

pub or-zero : (a : ℕ) → bit_or a 0 ≡ a
or-zero a = or-zero_fuel a a (omega arith)

and-zero_fuel : (n a : ℕ) → a ≤ n → bit_and a 0 ≡ 0
and-zero_fuel n zero h = refl
and-zero_fuel zero (suc a) h = absurd (omega arith)
and-zero_fuel (suc n) (suc a) h =
    omega (arith, bit_and_step (suc a) 0, and-zero_fuel n (suc a / 2) (omega arith))

pub and-zero : (a : ℕ) → bit_and a 0 ≡ 0
and-zero a = and-zero_fuel a a (omega arith)

double_pow : (q k : ℕ) → q * 2 ^ suc k ≡ 2 * (q * 2 ^ k)
double_pow q k = omega (arith, ap (λ (t : ℕ). q * t) (pow-suc 2 k))

-- A disjunction of two fields that do not overlap is their sum.
pub or_fields : (k q r : ℕ) → r < 2 ^ k → bit_or r (q * 2 ^ k) ≡ r + q * 2 ^ k
or_fields zero q r h = ground (arith, zero_or q)
  where
    zero_or : (b : ℕ) → bit_or 0 b ≡ b
    zero_or b = simp bit_or-bitwise (omega arith)
or_fields (suc k) q r h =
    ground
      (arith, bit_or_step r (q * 2 ^ suc k), double_pow q k, or_fields k q (r / 2) (omega arith))

keep_low : (k q r : ℕ) → r < 2 ^ k → bit_and (q * 2 ^ k + r) (2 ^ k - 1) ≡ r
keep_low zero q r h = rw and-zero (omega arith)
keep_low (suc k) q r h = ground (
  arith,
  bit_and_step (q * 2 ^ suc k + r) (2 ^ suc k - 1),
  double_pow q k,
  pow-suc 2 k,
  keep_low k q (r / 2) (omega arith),
)

-- A mask of k low ones is the remainder by 2 ^ k.
pub and_mask : (k a : ℕ) → bit_and a (2 ^ k - 1) ≡ a % 2 ^ k
and_mask k a = ground (arith, one-le-pow k 2, keep_low k (a / 2 ^ k) (a % 2 ^ k))

and-le_fuel : (n a b : ℕ) → a ≤ n → bit_and a b ≤ a
and-le_fuel n zero b h = omega (arith, bit_and_step 0 b, zero_and b)
  where
    zero_and : (b : ℕ) → bit_and 0 b ≡ 0
    zero_and b = simp bit_and-bitwise (omega arith)
and-le_fuel zero (suc a) b h = absurd (omega arith)
and-le_fuel (suc n) (suc a) b h =
    omega (arith, bit_and_step (suc a) b, and-le_fuel n (suc a / 2) (b / 2) (omega arith))

-- A mask never makes a number larger.
pub and-le : (a b : ℕ) → bit_and a b ≤ a
and-le a b = and-le_fuel a a b (omega arith)

-- Nor does `|` leave the width of its operands.
pub or-lt : (k a b : ℕ) → a < 2 ^ k → b < 2 ^ k → bit_or a b < 2 ^ k
or-lt zero a b h g = omega (arith, ap (λ (t : ℕ). bit_or t b) (zero_of a h), zero_or b)
  where
    zero_of : (a : ℕ) → a < 1 → a ≡ 0
    zero_of a h = omega arith

    zero_or : (b : ℕ) → bit_or 0 b ≡ b
    zero_or b = simp bit_or-bitwise (omega arith)
or-lt (suc k) a b h g = omega (
  arith,
  pow-suc 2 k,
  bit_or_step a b,
  or-lt k (a / 2) (b / 2) (omega (arith, pow-suc 2 k)) (omega (arith, pow-suc 2 k)),
)

and_scale : (k q r m : ℕ) → r < 2 ^ k → bit_and (q * 2 ^ k + r) (m * 2 ^ k) ≡ bit_and q m * 2 ^ k
and_scale zero q r m h = ground (arith, same q r m h)
  where
    same : (q r m : ℕ) → r < 1 → bit_and (q * 1 + r) (m * 1) ≡ bit_and q m * 1
    same q r m h = omega (
      arith,
      ap (λ (t : ℕ). bit_and t (m * 1)) (left q r h),
      ap (λ (t : ℕ). bit_and q t) (right m),
    )
      where
        left : (q r : ℕ) → r < 1 → q * 1 + r ≡ q
        left q r h = omega arith

        right : (m : ℕ) → m * 1 ≡ m
        right m = omega arith
and_scale (suc k) q r m h = ground (
  arith,
  bit_and_step (q * 2 ^ suc k + r) (m * 2 ^ suc k),
  double_pow q k,
  double_pow m k,
  double_pow (bit_and q m) k,
  pow-suc 2 k,
  and_scale k q (r / 2) m (omega arith),
)

-- A mask whose k low digits are clear acts on the digits above them.
pub and_high : (k a m : ℕ) → bit_and a (m * 2 ^ k) ≡ bit_and (a / 2 ^ k) m * 2 ^ k
and_high k a m = ground (arith, one-le-pow k 2, and_scale k (a / 2 ^ k) (a % 2 ^ k) m)
