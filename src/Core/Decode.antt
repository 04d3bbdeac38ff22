-- ===== src/Core/Decode.antt =====
-- The fields of a 32-bit instruction: crates/rv64-core/src/decode.rs. A signed immediate is the
-- 64-bit pattern of its value.
pub mod Formats
use lish.Prelude.{ℕ, ◌+◌, ◌-◌, ◌*◌, ◌/◌, ◌^◌, ltb, if◌then◌else◌, bit_and, bit_or, shr, shl, not64}

-- `insn as i32 as i64`.
unfoldable pub sign_extend_32 : ℕ → ℕ
sign_extend_32 insn = if ltb insn (2 ^ 31) then insn else insn + (2 ^ 64 - 2 ^ 32)

-- `x >> k` on an i64.
unfoldable pub sra64 : ℕ → ℕ → ℕ
sra64 x k = if ltb x (2 ^ 63) then shr x k else not64 (shr (not64 x) k)

unfoldable pub opcode : ℕ → ℕ
opcode insn = bit_and insn 0x7f

unfoldable pub rd : ℕ → ℕ
rd insn = bit_and (shr insn 7) 0x1f

unfoldable pub rs1 : ℕ → ℕ
rs1 insn = bit_and (shr insn 15) 0x1f

unfoldable pub rs2 : ℕ → ℕ
rs2 insn = bit_and (shr insn 20) 0x1f

unfoldable pub funct3 : ℕ → ℕ
funct3 insn = bit_and (shr insn 12) 7

unfoldable pub funct7 : ℕ → ℕ
funct7 insn = shr insn 25

unfoldable pub imm_i : ℕ → ℕ
imm_i insn = sra64 (sign_extend_32 insn) 20

unfoldable pub imm_s : ℕ → ℕ
imm_s insn =
    bit_or (sra64 (sign_extend_32 (bit_and insn 0xfe00_0000)) 20) (bit_and (shr insn 7) 0x1f)

unfoldable pub imm_b : ℕ → ℕ
imm_b insn =
    bit_or
      (bit_or
        (bit_or (sra64 (sign_extend_32 (bit_and insn 0x8000_0000)) 19) (shl (bit_and insn 0x80) 4))
        (bit_and (shr insn 20) 0x7e0))
      (bit_and (shr insn 7) 0x1e)

unfoldable pub imm_u : ℕ → ℕ
imm_u insn = sign_extend_32 (bit_and insn 0xffff_f000)

unfoldable pub imm_j : ℕ → ℕ
imm_j insn =
    bit_or
      (bit_or (bit_or (sra64 (sign_extend_32 (bit_and insn 0x8000_0000)) 11) (bit_and insn 0xff000))
        (bit_and (shr insn 9) 0x800))
      (bit_and (shr insn 20) 0x7fe)
