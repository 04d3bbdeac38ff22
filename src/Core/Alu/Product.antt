-- ===== src/Core/Alu/Product.antt =====
-- Multiplication: crates/rv64-core/src/cpu.rs, the M extension in `execute_decoded`.
use lish.Prelude.{
  ℕ, ◌+◌, ◌-◌, ◌*◌, ◌%◌, ◌^◌, ◌≤◌, ◌<◌, ◌≡◌, refl, subst, ◌∙◌, arith, Bool, true, false, some, ltb,
  u64_mod,
}
use lish.Prelude.Int.{ℤ, pos, negsuc, ◌+ℤ◌}
use lish.Prelude.Signed.{signed_of, unsigned_of, ◌*ℤ◌, shr_ℤ, magnitude}
use native.Mathlib.Nat.{mul-le-mul_right}
use lish.Core.Alu.{mul_div}
use lish.Core.Alu.Division.{complement_left, complement_both}

-- The high and the low half of an integer.
halves :
    (z : ℤ)
    → magnitude z ≤ 2 ^ 126
    → signed_of 64 (unsigned_of 64 (shr_ℤ z 64)) *ℤ pos u64_mod +ℤ pos (unsigned_of 64 z) ≡ z
unfolding ◌+ℤ◌
halves (pos n) h = ground arith
halves (negsuc n) h = ground arith

halves_at :
    (z : ℤ) (low high : ℕ)
    → magnitude z ≤ 2 ^ 126
    → unsigned_of 64 z ≡ low
    → unsigned_of 64 (shr_ℤ z 64) ≡ high
    → signed_of 64 high *ℤ pos u64_mod +ℤ pos low ≡ z
halves_at z low high h e f =
    subst (λ l. signed_of 64 high *ℤ pos u64_mod +ℤ pos l ≡ z) e
      (subst (λ k. signed_of 64 k *ℤ pos u64_mod +ℤ pos (unsigned_of 64 z) ≡ z) f (halves z h))

some_eq : {x y : ℕ} → some x ≡ some y → x ≡ y
some_eq e = ground (arith, e)

small_product : (x y : ℕ) → x ≤ 2 ^ 63 → y ≤ 2 ^ 63 → x * y ≤ 2 ^ 126
small_product x y hx hy = omega (arith, mul-le-mul_right y hx, hy)

-- The product of two signed words, by the signs: it fits, and its low half is that of the product
-- of the patterns.
signed_product :
    (a b : ℕ) (sa sb : Bool)
    → a < u64_mod
    → b < u64_mod
    → ltb a (2 ^ 63) ≡ sa
    → ltb b (2 ^ 63) ≡ sb
    → (magnitude (signed_of 64 a *ℤ signed_of 64 b) ≤ 2 ^ 126)
      × (unsigned_of 64 (signed_of 64 a *ℤ signed_of 64 b) ≡ a * b % u64_mod)
signed_product a b true true ha hb e f =
    ground (arith, small_product a b (ground arith) (ground arith))
signed_product a b true false ha hb e f =
    let d = u64_mod - b in
    ground (
      arith,
      small_product a d (ground arith) (ground arith),
      complement_left u64_mod b d a (ground arith),
    )
signed_product a b false true ha hb e f =
    let n = u64_mod - a in
    ground (
      arith,
      small_product n b (ground arith) (ground arith),
      complement_left u64_mod a n b (ground arith),
    )
signed_product a b false false ha hb e f =
    let n = u64_mod - a in
    let d = u64_mod - b in
    ground (
      arith,
      small_product n d (ground arith) (ground arith),
      complement_both u64_mod a n b d (ground arith) (ground arith),
    )

-- MULH and MUL give the two halves of the product of the signed words, and MULHU and MUL those of
-- the product of the words.
mul_halves :
    (a b low high high_u : ℕ)
    → a < u64_mod
    → b < u64_mod
    → mul_div 0 a b ≡ some low
    → mul_div 1 a b ≡ some high
    → mul_div 3 a b ≡ some high_u
    → (signed_of 64 high *ℤ pos u64_mod +ℤ pos low ≡ signed_of 64 a *ℤ signed_of 64 b)
      × (high_u * u64_mod + low ≡ a * b)
unfolding mul_div
mul_halves a b low high high_u ha hb el eh eu =
    let p = signed_product a b (ltb a (2 ^ 63)) (ltb b (2 ^ 63)) ha hb refl refl in
    (
      halves_at _ low high p.0 (p.1 ∙ some_eq el) (some_eq eh),
      ground (arith, some_eq el, some_eq eu),
    )
