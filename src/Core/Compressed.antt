-- ===== src/Core/Compressed.antt =====
-- The expander of compressed instructions: crates/rv64-core/src/compressed.rs. A u32 is a number
-- below 2 ^ 32 and an i32 its pattern; no encoder's shift reaches bit 32.
pub mod Encode
pub mod Expand
mod Tests
use lish.Prelude.{
  ℕ, ◌+◌, ◌-◌, ◌*◌, ◌/◌, ◌%◌, ◌^◌, Bool, true, false, not, ◌||◌, Option, none, some, ltb, ◌==◌,
  if◌then◌else◌, bit_and, bit_or, shr, shl, not32,
}
use lish.Core.Decode.{opcode}

unfoldable pub enc_r : ℕ → ℕ → ℕ → ℕ → ℕ → ℕ → ℕ
enc_r op rd f3 rs1 rs2 f7 =
    bit_or (bit_or (bit_or (bit_or (bit_or op (shl rd 7)) (shl f3 12)) (shl rs1 15)) (shl rs2 20))
      (shl f7 25)

unfoldable pub enc_i : ℕ → ℕ → ℕ → ℕ → ℕ → ℕ
enc_i op rd f3 rs1 imm =
    bit_or (bit_or (bit_or (bit_or op (shl rd 7)) (shl f3 12)) (shl rs1 15))
      (shl (bit_and imm 0xfff) 20)

unfoldable pub enc_s : ℕ → ℕ → ℕ → ℕ → ℕ → ℕ
enc_s op f3 rs1 rs2 imm = bit_or op (
    bit_or
      (bit_or (bit_or (bit_or (shl (bit_and imm 0x1f) 7) (shl f3 12)) (shl rs1 15)) (shl rs2 20))
      (shl (bit_and imm 0xfe0) 20))

unfoldable pub enc_b : ℕ → ℕ → ℕ → ℕ → ℕ → ℕ
enc_b op f3 rs1 rs2 imm =
    bit_or
      (bit_or
        (bit_or
          (bit_or
            (bit_or
              (bit_or (bit_or op (shl (bit_and (shr imm 11) 1) 7))
                (shl (bit_and (shr imm 1) 0xf) 8))
              (shl f3 12))
            (shl rs1 15))
          (shl rs2 20))
        (shl (bit_and (shr imm 5) 0x3f) 25))
      (shl (bit_and (shr imm 12) 1) 31)

unfoldable pub enc_u : ℕ → ℕ → ℕ → ℕ
enc_u op rd imm20 = bit_or (bit_or op (shl rd 7)) (shl imm20 12)

unfoldable pub enc_j : ℕ → ℕ → ℕ → ℕ
enc_j op rd imm =
    bit_or
      (bit_or
        (bit_or (bit_or (bit_or op (shl rd 7)) (bit_and imm 0xff000))
          (shl (bit_and (shr imm 11) 1) 20))
        (shl (bit_and (shr imm 1) 0x3ff) 21))
      (shl (bit_and (shr imm 20) 1) 31)

unfoldable pub creg : ℕ → ℕ
creg f = f + 8

-- `(val << (32 - bits)) as i32 >> (32 - bits)`.
unfoldable pub sext : ℕ → ℕ → ℕ
sext val bits =
    let high = shl val (32 - bits) % 2 ^ 32 in
    if ltb high (2 ^ 31) then shr high (32 - bits) else not32 (shr (not32 high) (32 - bits))

abbrev pub op : ℕ
op = 0x33

abbrev pub op32 : ℕ
op32 = 0x3b

abbrev pub opimm : ℕ
opimm = 0x13

abbrev pub opimm32 : ℕ
opimm32 = 0x1b

abbrev pub load : ℕ
load = 0x03

abbrev pub store : ℕ
store = 0x23

abbrev pub loadfp : ℕ
loadfp = 0x07

abbrev pub storefp : ℕ
storefp = 0x27

abbrev pub lui : ℕ
lui = 0x37

abbrev pub jal : ℕ
jal = 0x6f

abbrev pub jalr : ℕ
jalr = 0x67

abbrev pub branch : ℕ
branch = 0x63

-- `(c >> k) & mask`.
abbrev pub field : ℕ → ℕ → ℕ → ℕ
field c k mask = bit_and (shr c k) mask

-- The immediates, before their sign is extended, by the instructions that use them.
unfoldable pub imm_addi4spn : ℕ → ℕ
imm_addi4spn c =
    bit_or (bit_or (bit_or (shl (field c 11 3) 4) (shl (field c 7 0xf) 6)) (shl (field c 6 1) 2))
      (shl (field c 5 1) 3)

unfoldable pub imm_word : ℕ → ℕ
imm_word c = bit_or (bit_or (shl (field c 10 7) 3) (shl (field c 6 1) 2)) (shl (field c 5 1) 6)

unfoldable pub imm_double : ℕ → ℕ
imm_double c = bit_or (shl (field c 10 7) 3) (shl (field c 5 3) 6)

unfoldable pub imm_addi16sp : ℕ → ℕ
imm_addi16sp c =
    bit_or
      (bit_or (bit_or (bit_or (shl (field c 12 1) 9) (shl (field c 6 1) 4)) (shl (field c 5 1) 6))
        (shl (field c 3 3) 7))
      (shl (field c 2 1) 5)

unfoldable pub imm_jump : ℕ → ℕ
imm_jump c =
    bit_or
      (bit_or
        (bit_or
          (bit_or
            (bit_or
              (bit_or (bit_or (shl (field c 12 1) 11) (shl (field c 11 1) 4)) (shl (field c 9 3) 8))
              (shl (field c 8 1) 10))
            (shl (field c 7 1) 6))
          (shl (field c 6 1) 7))
        (shl (field c 3 7) 1))
      (shl (field c 2 1) 5)

unfoldable pub imm_branch : ℕ → ℕ
imm_branch c =
    bit_or
      (bit_or (bit_or (bit_or (shl (field c 12 1) 8) (shl (field c 10 3) 3)) (shl (field c 5 3) 6))
        (shl (field c 3 3) 1))
      (shl (field c 2 1) 5)

unfoldable pub imm_shamt : ℕ → ℕ
imm_shamt c = bit_or (shl (field c 12 1) 5) (field c 2 0x1f)

unfoldable pub imm_lwsp : ℕ → ℕ
imm_lwsp c = bit_or (bit_or (shl (field c 12 1) 5) (shl (field c 4 7) 2)) (shl (field c 2 3) 6)

unfoldable pub imm_ldsp : ℕ → ℕ
imm_ldsp c = bit_or (bit_or (shl (field c 12 1) 5) (shl (field c 5 3) 3)) (shl (field c 2 7) 6)

unfoldable pub imm_swsp : ℕ → ℕ
imm_swsp c = bit_or (shl (field c 9 0xf) 2) (shl (field c 7 3) 6)

unfoldable pub imm_sdsp : ℕ → ℕ
imm_sdsp c = bit_or (shl (field c 10 7) 3) (shl (field c 7 7) 6)

unfoldable pub imm6 : ℕ → ℕ
imm6 c = sext (imm_shamt c) 6

unfoldable pub expand_0 : ℕ → ℕ → Option ℕ
expand_0 c f3 =
    let rd = creg (field c 2 7) in
    let rs1 = creg (field c 7 7) in
    if f3 == 0
    then (if imm_addi4spn c == 0 then none else some (enc_i opimm rd 0 2 (imm_addi4spn c)))
    else if f3 == 2
    then some (enc_i load rd 2 rs1 (imm_word c))
    else if f3 == 3
    then some (enc_i load rd 3 rs1 (imm_double c))
    else if f3 == 6
    then some (enc_s store 2 rs1 rd (imm_word c))
    else if f3 == 7
    then some (enc_s store 3 rs1 rd (imm_double c))
    else if f3 == 1
    then some (enc_i loadfp rd 3 rs1 (imm_double c))
    else if f3 == 5
    then some (enc_s storefp 3 rs1 rd (imm_double c))
    else none

-- The register-register arithmetic of quadrant 1.
unfoldable pub expand_alu : ℕ → ℕ → Option ℕ
expand_alu c rdp =
    let rs2 = creg (field c 2 7) in
    let sel = bit_or (shl (field c 12 1) 2) (field c 5 3) in
    if sel == 0
    then some (enc_r op rdp 0 rdp rs2 0x20)
    else if sel == 1
    then some (enc_r op rdp 4 rdp rs2 0)
    else if sel == 2
    then some (enc_r op rdp 6 rdp rs2 0)
    else if sel == 3
    then some (enc_r op rdp 7 rdp rs2 0)
    else if sel == 4
    then some (enc_r op32 rdp 0 rdp rs2 0x20)
    else if sel == 5
    then some (enc_r op32 rdp 0 rdp rs2 0)
    else none

unfoldable pub expand_arith : ℕ → Option ℕ
expand_arith c =
    let rdp = creg (field c 7 7) in
    let sel = field c 10 3 in
    if sel == 0
    then some (enc_i opimm rdp 5 rdp (imm_shamt c))
    else if sel == 1
    then some (enc_i opimm rdp 5 rdp (bit_or (imm_shamt c) 0x400))
    else if sel == 2
    then some (enc_i opimm rdp 7 rdp (imm6 c))
    else expand_alu c rdp

-- C.ADDI16SP and C.LUI.
unfoldable pub expand_lui : ℕ → ℕ → Option ℕ
expand_lui c rd =
    let imm = sext (imm_addi16sp c) 10 in
    if rd == 2
    then (if imm == 0 then none else some (enc_i opimm 2 0 2 imm))
    else if imm6 c == 0
    then none
    else some (enc_u lui rd (bit_and (imm6 c) 0xfffff))

unfoldable pub expand_1 : ℕ → ℕ → Option ℕ
expand_1 c f3 =
    let rd = field c 7 0x1f in
    if f3 == 0
    then some (enc_i opimm rd 0 rd (imm6 c))
    else if f3 == 1
    then (if rd == 0 then none else some (enc_i opimm32 rd 0 rd (imm6 c)))
    else if f3 == 2
    then some (enc_i opimm rd 0 0 (imm6 c))
    else if f3 == 3
    then expand_lui c rd
    else if f3 == 4
    then expand_arith c
    else if f3 == 5
    then some (enc_j jal 0 (sext (imm_jump c) 12))
    else some
        (enc_b branch (if f3 == 6 then 0 else 1) (creg (field c 7 7)) 0 (sext (imm_branch c) 9))

-- C.JR, C.MV, C.EBREAK, C.JALR and C.ADD.
unfoldable pub expand_jump : ℕ → ℕ → ℕ → Option ℕ
expand_jump c rd rs2 =
    if field c 12 1 == 0
    then (if rd == 0
        then none
        else if rs2 == 0
        then some (enc_i jalr 0 0 rd 0)
        else some (enc_r op rd 0 0 rs2 0))
    else if rs2 == 0
    then (if rd == 0 then some 0x0010_0073 else some (enc_i jalr 1 0 rd 0))
    else some (enc_r op rd 0 rd rs2 0)

unfoldable pub expand_2 : ℕ → ℕ → Option ℕ
expand_2 c f3 =
    let rd = field c 7 0x1f in
    let rs2 = field c 2 0x1f in
    if f3 == 0
    then some (enc_i opimm rd 1 rd (imm_shamt c))
    else if f3 == 2
    then (if rd == 0 then none else some (enc_i load rd 2 2 (imm_lwsp c)))
    else if f3 == 3
    then (if rd == 0 then none else some (enc_i load rd 3 2 (imm_ldsp c)))
    else if f3 == 4
    then expand_jump c rd rs2
    else if f3 == 6
    then some (enc_s store 2 2 rs2 (imm_swsp c))
    else if f3 == 7
    then some (enc_s store 3 2 rs2 (imm_sdsp c))
    else if f3 == 1
    then some (enc_i loadfp rd 3 2 (imm_ldsp c))
    else some (enc_s storefp 3 2 rs2 (imm_sdsp c))

-- The callers have seen that the two low bits are not both set; that case, which panics in the
-- source, is `none` here.
unfoldable pub expand : ℕ → Option ℕ
expand c =
    let f3 = field c 13 7 in
    if c == 0
    then none
    else if bit_and c 3 == 0
    then expand_0 c f3
    else if bit_and c 3 == 1
    then expand_1 c f3
    else if bit_and c 3 == 2
    then expand_2 c f3
    else none

-- `DecodedInsn` of crates/rv64-core/src/cpu.rs.
pub record DecodedInsn : Type 0 where
  pub bits : ℕ
  pub len : ℕ
  pub valid : Bool

unfoldable pub from_word : ℕ → DecodedInsn
from_word word =
    let lo = bit_and word 0xffff in
    if bit_and lo 3 == 3 then record { bits = word; len = 4; valid = true } else elim (expand lo) [
      | some bits ↦ record { bits = bits; len = 2; valid = true }
      | none ↦ record { bits = lo; len = 2; valid = false }
    ]

unfoldable pub ends_basic_block : DecodedInsn → Bool
ends_basic_block d =
    let code = opcode d.bits in
    not d.valid
    || (code == 0x0f || (code == 0x63 || (code == 0x67 || (code == 0x6f || code == 0x73))))
