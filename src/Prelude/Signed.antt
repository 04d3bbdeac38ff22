-- ===== src/Prelude/Signed.antt =====
-- Signed words: the integer that a w-bit pattern stands for, and the signed operations.
use lish.Prelude.Int.{ℤ, pos, negsuc, pos_part, neg_part, sub_ℕ, ◌+ℤ◌}
use Prim.Native.Nat.{ℕ, zero, suc, ◌+◌, ◌-◌, ◌*◌, ◌/◌, ◌%◌, ◌^◌, ◌<◌}
use mathlib.Core.Path.{◌≡◌, refl}
use mathlib.Core.Bool.{Bool, true, false}
use native.Mathlib.Nat.{div-add-mod, mod-lt}
use native.Mathlib.Omega.{arith}
use lish.Prelude.Tests.{ltb, if◌then◌else◌}

-- `x as i64` at a width of w bits, for x below 2 ^ w.
abbrev pub signed_of : ℕ → ℕ → ℤ
signed_of w x = if ltb x (2 ^ (w - 1)) then pos x else negsuc (2 ^ w - 1 - x)

-- `z as u64` at a width of w bits.
abbrev pub unsigned_of : ℕ → ℤ → ℕ
unsigned_of w (pos n) = n % 2 ^ w
unsigned_of w (negsuc n) = 2 ^ w - 1 - n % 2 ^ w

abbrev pub ltb_ℤ : ℤ → ℤ → Bool
ltb_ℤ (pos a) (pos b) = ltb a b
ltb_ℤ (pos a) (negsuc b) = false
ltb_ℤ (negsuc a) (pos b) = true
ltb_ℤ (negsuc a) (negsuc b) = ltb b a

infixl 70 ◌*ℤ◌
abbrev pub ◌*ℤ◌ : ℤ → ℤ → ℤ
a *ℤ b =
    sub_ℕ (pos_part a * pos_part b + neg_part a * neg_part b)
      (pos_part a * neg_part b + neg_part a * pos_part b)

-- The magnitude, and a sign put back on it.
abbrev pub magnitude : ℤ → ℕ
magnitude (pos n) = n
magnitude (negsuc n) = suc n

abbrev pub neg_of : ℕ → ℤ
neg_of zero = pos 0
neg_of (suc n) = negsuc n

-- Division towards zero, `a / b` on signed integers, and its remainder.
abbrev pub quot : ℤ → ℤ → ℤ
quot (pos a) (pos b) = pos (a / b)
quot (pos a) (negsuc b) = neg_of (a / suc b)
quot (negsuc a) (pos b) = neg_of (suc a / b)
quot (negsuc a) (negsuc b) = pos (suc a / suc b)

abbrev pub rem : ℤ → ℤ → ℤ
rem (pos a) b = pos (a % magnitude b)
rem (negsuc a) b = neg_of (suc a % magnitude b)

-- `z >> k` on signed integers.
abbrev pub shr_ℤ : ℤ → ℕ → ℤ
shr_ℤ (pos n) k = pos (n / 2 ^ k)
shr_ℤ (negsuc n) k = negsuc (n / 2 ^ k)

pub unsigned_of-signed_of : (x : ℕ) → x < 2 ^ 64 → unsigned_of 64 (signed_of 64 x) ≡ x
unsigned_of-signed_of x h = ground arith

neg_of-pos_part : (n : ℕ) → pos_part (neg_of n) ≡ 0
neg_of-pos_part zero = refl
neg_of-pos_part (suc n) = refl

neg_of-neg_part : (n : ℕ) → neg_part (neg_of n) ≡ n
neg_of-neg_part zero = refl
neg_of-neg_part (suc n) = refl

neg_of-magnitude : (n : ℕ) → magnitude (neg_of n) ≡ n
neg_of-magnitude zero = refl
neg_of-magnitude (suc n) = refl

-- The quotient times the divisor, plus the remainder, is the dividend.
pub quot-rem :
    (a b : ℤ)
    → 0 < magnitude b
    → (quot a b *ℤ b +ℤ rem a b ≡ a) × (magnitude (rem a b) < magnitude b)
unfolding ◌+ℤ◌
quot-rem (pos a) (pos b) h = (ground (arith, div-add-mod a b), ground (arith, mod-lt a h))
quot-rem (pos a) (negsuc b) h =
    let q = a / suc b in
    (
      ground (arith, div-add-mod a (suc b), neg_of-pos_part q, neg_of-neg_part q),
      ground (arith, mod-lt a h),
    )
quot-rem (negsuc a) (pos b) h =
    let q = suc a / b in
    let r = suc a % b in
    (
      ground (
        arith,
        div-add-mod (suc a) b,
        neg_of-pos_part q,
        neg_of-neg_part q,
        neg_of-pos_part r,
        neg_of-neg_part r,
      ),
      ground (arith, mod-lt (suc a) h, neg_of-magnitude r),
    )
quot-rem (negsuc a) (negsuc b) h =
    let q = suc a / suc b in
    let r = suc a % suc b in
    (
      ground (arith, div-add-mod (suc a) (suc b), neg_of-pos_part r, neg_of-neg_part r),
      ground (arith, mod-lt (suc a) h, neg_of-magnitude r),
    )
