-- ===== src/Core/Decode/Formats.antt =====
-- The decoded fields against the encoded ones, in each of the six instruction formats:
-- crates/rv64-core/src/decode.rs against the encoders of crates/rv64-core/src/compressed.rs.
use lish.Prelude.{
  ℕ, ◌+◌, ◌-◌, ◌*◌, ◌/◌, ◌%◌, ◌^◌, ◌<◌, ◌≡◌, ◌∙◌, ap, arith, bit_and, bit_or, shr, ltb,
  if◌then◌else◌,
}
use lish.Prelude.Bits.{or_comm}
use lish.Prelude.Bits.Fields.{or_fields, and_mask, and_high}
use lish.Core.Decode.{
  sign_extend_32, sra64, opcode, rd, rs1, rs2, funct3, funct7, imm_i, imm_s, imm_b, imm_u, imm_j,
}
use lish.Core.Compressed.{enc_r, enc_i, enc_s, enc_b, enc_u, enc_j}
use lish.Core.Compressed.Encode.{enc_r_sum, enc_i_sum, enc_s_sum, enc_b_sum, enc_u_sum, enc_j_sum}

-- The low w bits of a number, as a signed value in 64 bits.
abbrev pub signed : ℕ → ℕ → ℕ
signed w v = if ltb (v % 2 ^ w) (2 ^ (w - 1)) then v % 2 ^ w else v % 2 ^ w + (2 ^ 64 - 2 ^ w)

-- A register-immediate instruction, encoded from an opcode below 128, a function below 8 and
-- registers below 32, has these fields, and its immediate is the low 12 bits given with their
-- sign.
pub decode_i :
    (o d f s imm : ℕ)
    → o < 128
    → d < 32
    → f < 8
    → s < 32
    → let insn = enc_i o d f s imm in
      (opcode insn ≡ o)
      × (rd insn ≡ d)
      × (funct3 insn ≡ f)
      × (rs1 insn ≡ s)
      × (imm_i insn ≡ signed 12 imm)
unfolding opcode rd funct3 rs1 imm_i sign_extend_32 sra64
decode_i o d f s imm a b c e =
    let insn = enc_i o d f s imm in
    let sum = enc_i_sum o d f s a b c e imm in
    (
      omega (arith, sum, and_mask 7 insn),
      omega (arith, sum, and_mask 5 (shr insn 7)),
      omega (arith, sum, and_mask 3 (shr insn 12)),
      omega (arith, sum, and_mask 5 (shr insn 15)),
      ground (arith, sum),
    )

-- A register-register instruction, encoded from an opcode below 128, a function below 8, registers
-- below 32 and a second function, has these fields.
pub decode_r :
    (o d f s t g : ℕ)
    → o < 128
    → d < 32
    → f < 8
    → s < 32
    → t < 32
    → let insn = enc_r o d f s t g in
      (opcode insn ≡ o)
      × (rd insn ≡ d)
      × (funct3 insn ≡ f)
      × (rs1 insn ≡ s)
      × (rs2 insn ≡ t)
      × (funct7 insn ≡ g)
unfolding opcode rd funct3 rs1 rs2 funct7
decode_r o d f s t g a b c e h =
    let insn = enc_r o d f s t g in
    let sum = enc_r_sum o d f s a b c e t g h in
    (
      omega (arith, sum, and_mask 7 insn),
      omega (arith, sum, and_mask 5 (shr insn 7)),
      omega (arith, sum, and_mask 3 (shr insn 12)),
      omega (arith, sum, and_mask 5 (shr insn 15)),
      omega (arith, sum, and_mask 5 (shr insn 20)),
      omega (arith, sum),
    )

-- Two fields given with the upper one first.
or_upper :
    (k q : ℕ) {upper lower : ℕ}
    → upper ≡ q * 2 ^ k
    → lower < 2 ^ k
    → bit_or upper lower ≡ lower + q * 2 ^ k
or_upper k q {upper = upper} {lower = lower} e h =
    ap (λ (t : ℕ). bit_or t lower) e ∙ or_comm (q * 2 ^ k) lower ∙ or_fields k q lower h

-- A store, encoded from an opcode below 128, a function below 8 and registers below 32, has these
-- fields, and its immediate is the low 12 bits given with their sign.
pub decode_s :
    (o f s t imm : ℕ)
    → o < 128
    → f < 8
    → s < 32
    → t < 32
    → let insn = enc_s o f s t imm in
      (opcode insn ≡ o)
      × (funct3 insn ≡ f)
      × (rs1 insn ≡ s)
      × (rs2 insn ≡ t)
      × (imm_s insn ≡ signed 12 imm)
unfolding opcode funct3 rs1 rs2 imm_s sign_extend_32 sra64
decode_s o f s t imm a c e h =
    let insn = enc_s o f s t imm in
    let sum = enc_s_sum o f s t a c e h imm in
    let low = and_mask 5 (shr insn 7) in
    let high : bit_and insn 0xfe00_0000 ≡ imm / 2 ^ 5 % 2 ^ 7 * 2 ^ 25 =
      omega (arith, sum, and_high 25 insn 127, and_mask 7 (insn / 2 ^ 25)) in
    let q = signed 12 imm / 2 ^ 5 in
    (
      omega (arith, sum, and_mask 7 insn),
      omega (arith, sum, and_mask 3 (shr insn 12)),
      omega (arith, sum, and_mask 5 (shr insn 15)),
      omega (arith, sum, and_mask 5 (shr insn 20)),
      or_upper 5 q (ground (arith, high)) (omega (arith, low)) ∙ ground (arith, sum, low),
    )

-- An upper-immediate instruction, encoded from an opcode below 128, a register below 32 and 20
-- bits, has these fields, and its immediate is the 20 bits above 12 zeros, with their sign.
pub decode_u :
    (o d imm20 : ℕ)
    → o < 128
    → d < 32
    → imm20 < 2 ^ 20
    → let insn = enc_u o d imm20 in
      (opcode insn ≡ o) × (rd insn ≡ d) × (imm_u insn ≡ signed 32 (imm20 * 2 ^ 12))
unfolding opcode rd imm_u sign_extend_32
decode_u o d imm20 a b h =
    let insn = enc_u o d imm20 in
    let sum = enc_u_sum o d a b imm20 in
    let high : bit_and insn 0xffff_f000 ≡ imm20 * 2 ^ 12 =
      omega (arith, sum, and_high 12 insn (2 ^ 20 - 1), and_mask 20 (insn / 2 ^ 12)) in
    (
      omega (arith, sum, and_mask 7 insn),
      omega (arith, sum, and_mask 5 (shr insn 7)),
      ground (arith, high),
    )

-- A branch, encoded from an opcode below 128, a function below 8 and registers below 32, has these
-- fields, and its offset is the low 13 bits given, made even, with their sign.
decode_b :
    (o f s t imm : ℕ)
    → o < 128
    → f < 8
    → s < 32
    → t < 32
    → let insn = enc_b o f s t imm in
      (opcode insn ≡ o)
      × (funct3 insn ≡ f)
      × (rs1 insn ≡ s)
      × (rs2 insn ≡ t)
      × (imm_b insn ≡ signed 13 (imm / 2 * 2))
unfolding opcode funct3 rs1 rs2 imm_b sign_extend_32 sra64
decode_b o f s t imm a c e h =
    let insn = enc_b o f s t imm in
    let sum = enc_b_sum o f s t a c e h imm in
    let b12 : bit_and insn 0x8000_0000 ≡ imm / 2 ^ 12 % 2 * 2 ^ 31 =
      omega (arith, sum, and_high 31 insn 1, and_mask 1 (insn / 2 ^ 31)) in
    let b11 : bit_and insn 0x80 ≡ imm / 2 ^ 11 % 2 * 2 ^ 7 =
      omega (arith, sum, and_high 7 insn 1, and_mask 1 (insn / 2 ^ 7)) in
    let b5 : bit_and (shr insn 20) 0x7e0 ≡ imm / 2 ^ 5 % 2 ^ 6 * 2 ^ 5 =
      omega (arith, sum, and_high 5 (shr insn 20) 63, and_mask 6 (shr insn 20 / 2 ^ 5)) in
    let b1 : bit_and (shr insn 7) 0x1e ≡ imm / 2 % 2 ^ 4 * 2 =
      omega (arith, sum, and_high 1 (shr insn 7) 15, and_mask 4 (shr insn 7 / 2)) in
    let v = signed 13 (imm / 2 * 2) in
    let e1 = or_upper 12 (v / 2 ^ 12) (ground (arith, b12)) (omega (arith, b11)) in
    let e2 = or_upper 11 (v / 2 ^ 11) (e1 ∙ ground (arith, b11)) (omega (arith, b5)) in
    let e3 = or_upper 5 (v / 2 ^ 5) (e2 ∙ ground (arith, b5)) (omega (arith, b1)) in
    (
      omega (arith, sum, and_mask 7 insn),
      omega (arith, sum, and_mask 3 (shr insn 12)),
      omega (arith, sum, and_mask 5 (shr insn 15)),
      omega (arith, sum, and_mask 5 (shr insn 20)),
      e3 ∙ ground (arith, b1),
    )

-- A jump, encoded from an opcode below 128 and a register below 32, has these fields, and its
-- offset is the low 21 bits given, made even, with their sign.
pub decode_j :
    (o d imm : ℕ)
    → o < 128
    → d < 32
    → let insn = enc_j o d imm in
      (opcode insn ≡ o) × (rd insn ≡ d) × (imm_j insn ≡ signed 21 (imm / 2 * 2))
unfolding opcode rd imm_j sign_extend_32 sra64
decode_j o d imm a b =
    let insn = enc_j o d imm in
    let sum = enc_j_sum o d a b imm in
    let b20 : bit_and insn 0x8000_0000 ≡ imm / 2 ^ 20 % 2 * 2 ^ 31 =
      omega (arith, sum, and_high 31 insn 1, and_mask 1 (insn / 2 ^ 31)) in
    let b12 : bit_and insn 0xff000 ≡ imm / 2 ^ 12 % 2 ^ 8 * 2 ^ 12 =
      omega (arith, sum, and_high 12 insn 255, and_mask 8 (insn / 2 ^ 12)) in
    let b11 : bit_and (shr insn 9) 0x800 ≡ imm / 2 ^ 11 % 2 * 2 ^ 11 =
      omega (arith, sum, and_high 11 (shr insn 9) 1, and_mask 1 (shr insn 9 / 2 ^ 11)) in
    let b1 : bit_and (shr insn 20) 0x7fe ≡ imm / 2 % 2 ^ 10 * 2 =
      omega (arith, sum, and_high 1 (shr insn 20) 1023, and_mask 10 (shr insn 20 / 2)) in
    let v = signed 21 (imm / 2 * 2) in
    let e1 = or_upper 20 (v / 2 ^ 20) (ground (arith, b20)) (omega (arith, b12)) in
    let e2 = or_upper 12 (v / 2 ^ 12) (e1 ∙ ground (arith, b12)) (omega (arith, b11)) in
    let e3 = or_upper 11 (v / 2 ^ 11) (e2 ∙ ground (arith, b11)) (omega (arith, b1)) in
    (
      omega (arith, sum, and_mask 7 insn),
      omega (arith, sum, and_mask 5 (shr insn 7)),
      e3 ∙ ground (arith, b1),
    )
