-- ===== src/Core/Alu.antt =====
-- The integer arithmetic of `execute_decoded`, crates/rv64-core/src/cpu.rs: the value that each
-- instruction of OP-IMM, OP-IMM-32, OP and OP-32 computes, and whether a branch is taken. `none` is
-- an illegal instruction. Words are numbers below 2 ^ 64 or 2 ^ 32.
mod Tests
pub mod Division
pub mod Fits
pub mod Product
use lish.Prelude.{
  ℕ, ◌+◌, ◌-◌, ◌*◌, ◌/◌, ◌%◌, ◌^◌, Bool, not, Option, none, some, ltb, leb, ◌==◌, ◌!=◌,
  if◌then◌else◌, u64_mod, u32_mod, add64, sub64, not32, bit_and, bit_or, bit_xor, shl, shr,
}
use lish.Prelude.Int.{pos}
use lish.Prelude.Signed.{signed_of, unsigned_of, ltb_ℤ, ◌*ℤ◌, quot, rem, shr_ℤ}
use lish.Core.Decode.{sra64}

-- `(a as i64) < (b as i64)`.
abbrev pub slt64 : ℕ → ℕ → Bool
slt64 a b = ltb_ℤ (signed_of 64 a) (signed_of 64 b)

abbrev bool_word : Bool → ℕ
bool_word b = if b then 1 else 0

-- `a << k` on u64 and on u32.
abbrev pub sll64 : ℕ → ℕ → ℕ
sll64 a k = shl a k % u64_mod

abbrev pub sll32 : ℕ → ℕ → ℕ
sll32 a k = shl a k % u32_mod

-- `((a as i32) >> k) as u32`.
abbrev pub sra32 : ℕ → ℕ → ℕ
sra32 a k = if ltb a (2 ^ 31) then shr a k else not32 (shr (not32 a) k)

-- `val32 as i32 as i64 as u64`.
abbrev pub widen : ℕ → ℕ
widen v = if ltb v (2 ^ 31) then v else v + (u64_mod - u32_mod)

-- The low w bits of a word, sign-extended: `v as i8 as i64 as u64` and the like.
abbrev pub sext_word : ℕ → ℕ → ℕ
sext_word w v =
    let low = v % 2 ^ w in if ltb low (2 ^ (w - 1)) then low else low + (u64_mod - 2 ^ w)

unfoldable pub branch_taken : ℕ → ℕ → ℕ → Option Bool
branch_taken f3 a b =
    if f3 == 0
    then some (a == b)
    else if f3 == 1
    then some (a != b)
    else if f3 == 4
    then some (slt64 a b)
    else if f3 == 5
    then some (not (slt64 a b))
    else if f3 == 6
    then some (ltb a b)
    else if f3 == 7
    then some (leb b a)
    else none

-- The immediate and the whole word, of which the upper six digits tell SRAI from SRLI. The three
-- digits of `f3` leave no other case.
unfoldable pub op_imm : ℕ → ℕ → ℕ → ℕ → ℕ
op_imm insn f3 a imm =
    let shamt = bit_and imm 0x3f in
    if f3 == 0
    then add64 a imm
    else if f3 == 1
    then sll64 a shamt
    else if f3 == 2
    then bool_word (slt64 a imm)
    else if f3 == 3
    then bool_word (ltb a imm)
    else if f3 == 4
    then bit_xor a imm
    else if f3 == 5
    then (if shr insn 26 == 0x10 then sra64 a shamt else shr a shamt)
    else if f3 == 6
    then bit_or a imm
    else bit_and a imm

-- `a` is the low word of the register.
unfoldable pub op_imm_32 : ℕ → ℕ → ℕ → ℕ → Option ℕ
op_imm_32 f7 f3 a imm =
    let shamt = bit_and imm 0x1f in
    if f3 == 0
    then some ((a + imm % u32_mod) % u32_mod)
    else if f3 == 1
    then some (sll32 a shamt)
    else if f3 == 5
    then some (if f7 == 0x20 then sra32 a shamt else shr a shamt)
    else none

-- The M extension at 64 bits.
unfoldable pub mul_div : ℕ → ℕ → ℕ → Option ℕ
mul_div f3 a b =
    if f3 == 0
    then some (a * b % u64_mod)
    else if f3 == 1
    then some (unsigned_of 64 (shr_ℤ (signed_of 64 a *ℤ signed_of 64 b) 64))
    else if f3 == 2
    then some (unsigned_of 64 (shr_ℤ (signed_of 64 a *ℤ pos b) 64))
    else if f3 == 3
    then some (shr (a * b) 64)
    else if f3 == 4
    then some (
        if b == 0
        then 0xffff_ffff_ffff_ffff
        else unsigned_of 64 (quot (signed_of 64 a) (signed_of 64 b)))
    else if f3 == 5
    then some (if b == 0 then 0xffff_ffff_ffff_ffff else a / b)
    else if f3 == 6
    then some (if b == 0 then a else unsigned_of 64 (rem (signed_of 64 a) (signed_of 64 b)))
    else if f3 == 7
    then some (if b == 0 then a else a % b)
    else none

unfoldable pub op_base : ℕ → ℕ → ℕ → Option ℕ
op_base f3 a b =
    let shamt = bit_and b 0x3f in
    if f3 == 0
    then some (add64 a b)
    else if f3 == 1
    then some (sll64 a shamt)
    else if f3 == 2
    then some (bool_word (slt64 a b))
    else if f3 == 3
    then some (bool_word (ltb a b))
    else if f3 == 4
    then some (bit_xor a b)
    else if f3 == 5
    then some (shr a shamt)
    else if f3 == 6
    then some (bit_or a b)
    else if f3 == 7
    then some (bit_and a b)
    else none

unfoldable pub op : ℕ → ℕ → ℕ → ℕ → Option ℕ
op f7 f3 a b =
    if f7 == 0
    then op_base f3 a b
    else if f7 == 0x20
    then (if f3 == 0
        then some (sub64 a b)
        else if f3 == 5
        then some (sra64 a (bit_and b 0x3f))
        else none)
    else if f7 == 1
    then mul_div f3 a b
    else none

-- The M extension at 32 bits.
unfoldable pub mul_div_32 : ℕ → ℕ → ℕ → Option ℕ
mul_div_32 f3 a b =
    if f3 == 0
    then some (a * b % u32_mod)
    else if f3 == 4
    then some
        (if b == 0 then 0xffff_ffff else unsigned_of 32 (quot (signed_of 32 a) (signed_of 32 b)))
    else if f3 == 5
    then some (if b == 0 then 0xffff_ffff else a / b)
    else if f3 == 6
    then some (if b == 0 then a else unsigned_of 32 (rem (signed_of 32 a) (signed_of 32 b)))
    else if f3 == 7
    then some (if b == 0 then a else a % b)
    else none

-- `a` and `b` are the low words of the registers.
unfoldable pub op_32 : ℕ → ℕ → ℕ → ℕ → Option ℕ
op_32 f7 f3 a b =
    let shamt = bit_and b 0x1f in
    if f7 == 0
    then (if f3 == 0
        then some ((a + b) % u32_mod)
        else if f3 == 1
        then some (sll32 a shamt)
        else if f3 == 5
        then some (shr a shamt)
        else none)
    else if f7 == 0x20
    then (if f3 == 0
        then some ((a + u32_mod - b) % u32_mod)
        else if f3 == 5
        then some (sra32 a shamt)
        else none)
    else if f7 == 1
    then mul_div_32 f3 a b
    else none
