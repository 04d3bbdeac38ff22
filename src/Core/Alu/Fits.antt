-- ===== src/Core/Alu/Fits.antt =====
-- The results of crates/rv64-core/src/cpu.rs, OP and OP-32, are words.
use lish.Prelude.{ℕ, ◌^◌, ◌<◌, ◌≡◌, arith, some, u64_mod, u32_mod, shr, bit_and}
use lish.Prelude.Int.{ℤ, pos, negsuc}
use lish.Prelude.Signed.{signed_of, unsigned_of, quot, rem}
use native.Mathlib.Nat.{div-le_self, mod-le}
use lish.Core.Alu.{mul_div_32, op_32, widen, sra32}

unsigned_of-lt_32 : (z : ℤ) → unsigned_of 32 z < u32_mod
unsigned_of-lt_32 (pos n) = omega arith
unsigned_of-lt_32 (negsuc n) = omega arith

mul_div_32-lt :
    (f3 a b v : ℕ) → a < u32_mod → b < u32_mod → mul_div_32 f3 a b ≡ some v → v < u32_mod
unfolding mul_div_32
mul_div_32-lt f3 a b v ha hb e = ground (
  arith,
  unsigned_of-lt_32 (quot (signed_of 32 a) (signed_of 32 b)),
  unsigned_of-lt_32 (rem (signed_of 32 a) (signed_of 32 b)),
  div-le_self a b,
  mod-le a b,
)

shift_right-lt : (a k : ℕ) → a < u32_mod → shr a k < u32_mod
shift_right-lt a k h = omega (arith, div-le_self a (2 ^ k))

sra32-lt : (a k : ℕ) → a < u32_mod → sra32 a k < u32_mod
sra32-lt a k h = ground (arith, shift_right-lt a k h)

widen_lem : (v : ℕ) → v < u32_mod → (widen v < u64_mod) × (signed_of 64 (widen v) ≡ signed_of 32 v)
widen_lem v h = ground arith

-- The value that an instruction of OP-32 computes from the low words of two registers is a word of
-- 32 bits, and what the register gets is the 64-bit pattern of the same signed number.
op_32-widen :
    (f7 f3 a b v : ℕ)
    → a < u32_mod
    → b < u32_mod
    → op_32 f7 f3 a b ≡ some v
    → (v < u32_mod) × (widen v < u64_mod) × (signed_of 64 (widen v) ≡ signed_of 32 v)
unfolding op_32
op_32-widen f7 f3 a b v ha hb e = (fits, (widen_lem v fits).0, (widen_lem v fits).1)
  where
    fits : v < u32_mod
    fits = ground (
      arith,
      mul_div_32-lt f3 a b v ha hb,
      shift_right-lt a (bit_and b 0x1f) ha,
      sra32-lt a (bit_and b 0x1f) ha,
    )
