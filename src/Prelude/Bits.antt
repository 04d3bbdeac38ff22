-- ===== src/Prelude/Bits.antt =====
-- The laws of `&` and `|` at variables, digit by digit.
pub mod Step
pub mod Fields
pub mod Lowest
pub mod Shift
use Prim.Native.Nat.{ℕ, zero, suc, ◌+◌, ◌-◌, ◌*◌, ◌/◌, ◌%◌, ◌^◌, ◌≤◌, ◌<◌, min, max}
use Prim.Native.Nat.{bit_and, bit_or}
use mathlib.Core.Path.{◌≡◌, refl, ap, ◌∙◌}
use native.Mathlib.Nat.{pow-suc, one-le-pow}
use native.Mathlib.Omega.{arith}
use lish.Prelude.Tests.{◌==◌, if◌then◌else◌}
use lish.Prelude.Word.{bit}
use Step.{bit_and_step, bit_or_step}

pub pow_lt : (j w : ℕ) → j < w → 2 ^ j < 2 ^ w
pow_lt j zero lt = absurd (omega arith)
pow_lt zero (suc w) lt = omega (arith, pow-suc 2 w, one-le-pow w 2)
pow_lt (suc j) (suc w) lt = omega (arith, pow-suc 2 w, pow-suc 2 j, pow_lt j w (omega arith))

pub bit-lt : (k x : ℕ) → bit k x < 2
unfolding bit
bit-lt zero x = omega arith
bit-lt (suc k) x = bit-lt k (x / 2)

pub bit-zero : (k : ℕ) → bit k 0 ≡ 0
unfolding bit
bit-zero zero = refl
bit-zero (suc k) = bit-zero k

-- Digit k of a conjunction.
pub bit-and : (k a b : ℕ) → bit k (bit_and a b) ≡ min (bit k a) (bit k b)
unfolding bit
bit-and zero a b = omega (arith, bit_and_step a b)
bit-and (suc k) a b = ap (bit k) (omega (arith, bit_and_step a b)) ∙ bit-and k (a / 2) (b / 2)

-- Digit k of a disjunction.
pub bit-or : (k a b : ℕ) → bit k (bit_or a b) ≡ max (bit k a) (bit k b)
unfolding bit
bit-or zero a b = omega (arith, bit_or_step a b)
bit-or (suc k) a b = ap (bit k) (omega (arith, bit_or_step a b)) ∙ bit-or k (a / 2) (b / 2)

-- Two numbers with the same digits are the same.
bit_ext_fuel : (n a b : ℕ) → a ≤ n → b ≤ n → ((k : ℕ) → bit k a ≡ bit k b) → a ≡ b
unfolding bit
bit_ext_fuel zero a b p q h = omega arith
bit_ext_fuel (suc n) a b p q h =
    omega (arith, bit_ext_fuel n (a / 2) (b / 2) (omega arith) (omega arith) (λ k. h (suc k)), h 0)

pub bit_ext : (a b : ℕ) → ((k : ℕ) → bit k a ≡ bit k b) → a ≡ b
bit_ext a b h = bit_ext_fuel (a + b) a b (omega arith) (omega arith) h

-- A number below 2 ^ k has no digit from k on.
pub bit-of_lt : (k j x : ℕ) → x < 2 ^ k → k ≤ j → bit j x ≡ 0
unfolding bit
bit-of_lt zero j x h le = ap (bit j) (omega arith) ∙ bit-zero j
bit-of_lt (suc k) zero x h le = absurd (omega arith)
bit-of_lt (suc k) (suc j) x h le = bit-of_lt k j (x / 2) (omega (arith, pow-suc 2 k)) (omega arith)

-- The complement at width w flips the digits below w.
pub bit-complement : (w k x : ℕ) → x < 2 ^ w → k < w → bit k (2 ^ w - 1 - x) ≡ 1 - bit k x
unfolding bit
bit-complement zero k x h lt = absurd (omega arith)
bit-complement (suc w) zero x h lt = omega (arith, pow-suc 2 w)
bit-complement (suc w) (suc k) x h lt =
    ap (bit k) (omega (arith, pow-suc 2 w))
    ∙ bit-complement w k (x / 2) (omega (arith, pow-suc 2 w)) (omega arith)

-- The digits of a power of two.
pub bit-pow : (j k : ℕ) → bit k (2 ^ j) ≡ (if k == j then 1 else 0)
unfolding bit
bit-pow zero zero = refl
bit-pow zero (suc k) = bit-zero k ∙ ground arith
bit-pow (suc j) zero = ground (arith, pow-suc 2 j)
bit-pow (suc j) (suc k) = ap (bit k) (omega (arith, pow-suc 2 j)) ∙ bit-pow j k ∙ ground arith

-- `|` does not depend on the order of its operands.
pub or_comm : (a b : ℕ) → bit_or a b ≡ bit_or b a
or_comm a b = bit_ext _ _ λ k. omega (arith, bit-or k a b, bit-or k b a)
