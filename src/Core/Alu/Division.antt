-- ===== src/Core/Alu/Division.antt =====
-- Division: crates/rv64-core/src/cpu.rs, the M extension in `execute_decoded`.
use lish.Prelude.{
  ℕ, zero, suc, ◌+◌, ◌-◌, ◌*◌, ◌/◌, ◌%◌, ◌^◌, ◌≤◌, ◌<◌, ◌≡◌, refl, ap, arith, Bool, true, false,
  some, ltb, u64_mod, ◌⊎◌,
}
use lish.Prelude.Signed.{signed_of, unsigned_of, quot, rem, magnitude, neg_of}
use native.Mathlib.Nat.{div-add-mod, div-le_self, mod-lt}
use lish.Core.Alu.{mul_div}

-- Products with complements.
pub complement_left : (n p x y : ℕ) → p + x ≡ n → p * y + x * y ≡ n * y
complement_left n p x y e = omega (arith, ap (λ t. t * y) e)

pub complement_both : (n p x q y : ℕ) → p + x ≡ n → q + y ≡ n → p * q + (x + y) * n ≡ n * n + x * y
complement_both n p x q y e f =
    omega (arith, ap (λ t. t * q) e, ap (λ t. x * t) f, ap (λ t. n * t) f)

unsigned_neg : (n : ℕ) → n ≤ 2 ^ 63 → unsigned_of 64 (neg_of n) ≡ (u64_mod - n) % u64_mod
unsigned_neg zero h = omega arith
unsigned_neg (suc n) h = ground arith

-- The four cases of the signs, on the magnitudes n and d.
module _ (n d : ℕ) (n_fits : n ≤ 2 ^ 63) (d_fits : d ≤ 2 ^ 63) (nonzero : 0 < d) where
  law : n / d * d + n % d ≡ n
  law = omega (arith, div-add-mod n d)

  quot-le : n / d ≤ 2 ^ 63
  quot-le = omega (arith, div-le_self n d)

  rem-le : n % d ≤ 2 ^ 63
  rem-le = omega (arith, mod-lt n nonzero)

  negated :
      ((u64_mod - n / d) % u64_mod * d + (u64_mod - n % d) % u64_mod) % u64_mod
      ≡ (u64_mod - n) % u64_mod
  negated = ground (
    arith,
    law,
    quot-le,
    rem-le,
    complement_left u64_mod (u64_mod - n / d) (n / d) d (omega (arith, quot-le)),
  )

  divisor_negated : ((u64_mod - n / d) % u64_mod * (u64_mod - d) + n % d) % u64_mod ≡ n
  divisor_negated = ground (
    arith,
    law,
    quot-le,
    rem-le,
    complement_both u64_mod (u64_mod - n / d) (n / d) (u64_mod - d) d (omega (arith, quot-le))
        (omega arith),
  )

  both_negated :
      (n / d * (u64_mod - d) + (u64_mod - n % d) % u64_mod) % u64_mod ≡ (u64_mod - n) % u64_mod
  both_negated =
      ground
        (arith, law, quot-le, rem-le, complement_left u64_mod (u64_mod - d) d (n / d) (omega arith))

-- A signed quotient and remainder, as patterns, by the signs.
signed_law :
    (a b : ℕ) (sa sb : Bool)
    → a < u64_mod
    → b < u64_mod
    → 0 < b
    → ltb a (2 ^ 63) ≡ sa
    → ltb b (2 ^ 63) ≡ sb
    → (unsigned_of 64 (quot (signed_of 64 a) (signed_of 64 b)) * b
          + unsigned_of 64 (rem (signed_of 64 a) (signed_of 64 b)))
        % u64_mod
      ≡ a
signed_law a b true true ha hb hz e f = ground (
  arith,
  law a b (ground arith) (ground arith) hz,
  quot-le a b (ground arith) (ground arith) hz,
  rem-le a b (ground arith) (ground arith) hz,
)
signed_law a b true false ha hb hz e f =
    let d = u64_mod - b in
    ground (
      arith,
      divisor_negated a d (ground arith) (ground arith) (ground arith),
      rem-le a d (ground arith) (ground arith) (ground arith),
      unsigned_neg (a / d) (quot-le a d (ground arith) (ground arith) (ground arith)),
    )
signed_law a b false true ha hb hz e f =
    let n = u64_mod - a in
    ground (
      arith,
      negated n b (ground arith) (ground arith) hz,
      unsigned_neg (n / b) (quot-le n b (ground arith) (ground arith) hz),
      unsigned_neg (n % b) (rem-le n b (ground arith) (ground arith) hz),
    )
signed_law a b false false ha hb hz e f =
    let n = u64_mod - a in
    let d = u64_mod - b in
    ground (
      arith,
      both_negated n d (ground arith) (ground arith) (ground arith),
      quot-le n d (ground arith) (ground arith) (ground arith),
      unsigned_neg (n % d) (rem-le n d (ground arith) (ground arith) (ground arith)),
    )

-- The quotient of DIV times the divisor, plus the remainder of REM, is the dividend in 64 bits, for
-- every pair of words: zero divisors and the overflow of the least number by minus one are among
-- them. The same holds of DIVU and REMU.
pub div_rem :
    (a b q r qu ru : ℕ)
    → a < u64_mod
    → b < u64_mod
    → mul_div 4 a b ≡ some q
    → mul_div 6 a b ≡ some r
    → mul_div 5 a b ≡ some qu
    → mul_div 7 a b ≡ some ru
    → ((q * b + r) % u64_mod ≡ a) × ((qu * b + ru) % u64_mod ≡ a)
unfolding mul_div
div_rem a zero q r qu ru ha hb eq er equ eru = ground arith
div_rem a (suc b) q r qu ru ha hb eq er equ eru = ground (
  arith,
  signed_law a (suc b) (ltb a (2 ^ 63)) (ltb (suc b) (2 ^ 63)) ha hb (omega arith) refl refl,
  div-add-mod a (suc b),
)

neg_word : (n : ℕ) → n ≤ 2 ^ 63 → magnitude (signed_of 64 (unsigned_of 64 (neg_of n))) ≡ n
neg_word zero h = refl
neg_word (suc n) h = ground arith

-- The remainder of REM is smaller in magnitude than the divisor, and is not of the sign opposite to
-- the dividend, if the divisor is not zero.
rem_smaller :
    (a b r : ℕ)
    → a < u64_mod
    → b < u64_mod
    → 0 < b
    → mul_div 6 a b ≡ some r
    → (magnitude (signed_of 64 r) < magnitude (signed_of 64 b))
      × ((r ≡ 0) ⊎ (ltb r (2 ^ 63) ≡ ltb a (2 ^ 63)))
unfolding mul_div
rem_smaller a b r ha hb hz e =
    let n = magnitude (signed_of 64 a) in
    let d = magnitude (signed_of 64 b) in
    let d_pos : 0 < d = ground arith in
    ground (
      arith,
      mod-lt n d_pos,
      neg_word (n % d) (rem-le n d (ground arith) (ground arith) d_pos),
      rem-le n d (ground arith) (ground arith) d_pos,
      unsigned_neg (n % d) (rem-le n d (ground arith) (ground arith) d_pos),
    )
