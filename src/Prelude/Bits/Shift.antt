-- ===== src/Prelude/Bits/Shift.antt =====
-- The digits of shifted numbers, and of a word whose single digits are cleared or put in place.
use Prim.Native.Nat.{ℕ, zero, suc, ◌+◌, ◌-◌, ◌*◌, ◌/◌, ◌^◌, ◌<◌, min, bit_and, bit_or}
use mathlib.Core.Path.{◌≡◌, sym, ap, ◌∙◌}
use native.Mathlib.Nat.{one-le-pow, pow-suc, mul_comm, div-div-eq-div-mul}
use native.Mathlib.Omega.{arith}
use lish.Prelude.Tests.{ltb, ◌==◌, ◌!=◌, if◌then◌else◌}
use lish.Prelude.Word.{bit, shl, shr, not64}
use lish.Prelude.Bits.{bit-zero, bit-pow, bit-lt, bit-and, bit-or, bit-complement}
use lish.Prelude.Bits.Fields.{and_mask, and_high}

scale_suc : (n j : ℕ) → n * 2 ^ suc j ≡ 2 * (n * 2 ^ j)
scale_suc n j = omega (arith, ap (λ (t : ℕ). n * t) (pow-suc 2 j))

pub bit-shl : (j k n : ℕ) → bit k (shl n j) ≡ (if ltb k j then 0 else bit (k - j) n)
unfolding bit
bit-shl zero k n =
    let e : n * 1 ≡ n = omega arith in
    let f : k - 0 ≡ k = omega arith in ground (arith, ap (bit k) e, ap (λ i. bit i n) f)
bit-shl (suc j) zero n = ground (arith, scale_suc n j)
bit-shl (suc j) (suc k) n =
    let e : n * 2 ^ suc j / 2 ≡ shl n j = omega (arith, scale_suc n j) in
    let f : k - j ≡ suc k - suc j = omega arith in
    ground (arith, ap (bit k) e, bit-shl j k n, ap (λ i. bit i n) f)

pub bit-shr : (j k n : ℕ) → bit k (shr n j) ≡ bit (j + k) n
unfolding bit
bit-shr zero k n =
    let e : n / 1 ≡ n = omega arith in
    let f : 0 + k ≡ k = omega arith in ground (arith, ap (bit k) e, ap (λ i. bit i n) f)
bit-shr (suc j) k n =
    let e : n / 2 ^ suc j ≡ n / 2 / 2 ^ j =
      rw (div-div-eq-div-mul n 2 (2 ^ j))
        (ap (λ (t : ℕ). n / t) (pow-suc 2 j ∙ mul_comm (2 ^ j) 2)) in
    let f : suc j + k ≡ suc (j + k) = omega arith in
    ground (arith, ap (bit k) e, bit-shr j k (n / 2), ap (λ i. bit i n) f)

-- `(m >> i) & 1` is the digit.
pub digit_lem : (i m : ℕ) → bit_and (shr m i) 1 ≡ bit i m
unfolding bit
digit_lem i m =
    let f : i + 0 ≡ i = omega arith in
    ground (arith, and_mask 1 (shr m i), bit-shr i 0 m, ap (λ k. bit k m) f)

-- A digit moved to place j.
pub bit-place :
    (i j k m : ℕ) → bit k (shl (bit_and (shr m i) 1) j) ≡ (if k == j then bit i m else 0)
bit-place i j k m = place (bit i m) (bit-lt i m) (digit_lem i m)
  where
    place :
        (d : ℕ)
        → d < 2
        → bit_and (shr m i) 1 ≡ d
        → bit k (shl (bit_and (shr m i) 1) j) ≡ (if k == j then d else 0)
    place zero lt e = ap (λ t. bit k (shl t j)) e ∙ zero_shl
      where
        zero_shl : bit k (shl 0 j) ≡ (if k == j then 0 else 0)
        zero_shl = let z : 0 * 2 ^ j ≡ 0 = omega arith in ground (arith, ap (bit k) z, bit-zero k)
    place (suc zero) lt e = ap (λ t. bit k (shl t j)) e ∙ one_shl
      where
        one_shl : bit k (shl 1 j) ≡ (if k == j then 1 else 0)
        one_shl =
            let z : 1 * 2 ^ j ≡ 2 ^ j = omega arith in ground (arith, ap (bit k) z, bit-pow j k)
    place (suc (suc d)) lt e = absurd (omega arith)

-- Clearing a set of digits, given as a mask.
pub bit-clear :
    (m mask k : ℕ)
    → mask < 2 ^ 64
    → k < 64
    → bit k (bit_and m (not64 mask)) ≡ min (bit k m) (1 - bit k mask)
bit-clear m mask k fits lt =
    omega (arith, bit-and k m (not64 mask), bit-complement 64 k mask fits lt)

-- The digits of a mask of three, and of one of four.
pub bit-mask_3 :
    (a b c k : ℕ)
    → bit k (bit_or (bit_or (2 ^ a) (2 ^ b)) (2 ^ c))
      ≡ (if k == a then 1 else if k == b then 1 else if k == c then 1 else 0)
bit-mask_3 a b c k = ground (
  arith,
  bit-or k (bit_or (2 ^ a) (2 ^ b)) (2 ^ c),
  bit-or k (2 ^ a) (2 ^ b),
  bit-pow a k,
  bit-pow b k,
  bit-pow c k,
)

pub bit-mask_4 :
    (a b c d k : ℕ)
    → bit k (bit_or (bit_or (bit_or (2 ^ a) (2 ^ b)) (2 ^ c)) (2 ^ d))
      ≡ (if k == a then 1 else if k == b then 1 else if k == c then 1 else if k == d then 1 else 0)
bit-mask_4 a b c d k = ground (
  arith,
  bit-or k (bit_or (bit_or (2 ^ a) (2 ^ b)) (2 ^ c)) (2 ^ d),
  bit-mask_3 a b c k,
  bit-pow d k,
)

-- A test of one digit by a mask.
pub test_lem : (m k : ℕ) → (bit_and m (2 ^ k) != 0) ≡ (bit k m == 1)
test_lem m k =
    let one : 1 * 2 ^ k ≡ 2 ^ k = omega arith in
    let masked : bit_and m (2 ^ k) ≡ bit k m * 2 ^ k =
      ap (bit_and m) (sym one) ∙ and_high k m 1 ∙ ap (λ (t : ℕ). t * 2 ^ k) (digit_lem k m) in
    ap (λ (t : ℕ). t != 0) masked ∙ single (bit k m) (bit-lt k m)
  where
    single : (d : ℕ) → d < 2 → (d * 2 ^ k != 0) ≡ (d == 1)
    single zero h = ground arith
    single (suc zero) h = ground (arith, one-le-pow k 2)
    single (suc (suc d)) h = absurd (omega arith)
