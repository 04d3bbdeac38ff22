-- ===== src/Core/Compressed/Encode.antt =====
-- Each encoder of crates/rv64-core/src/compressed.rs as the sum of its fields.
use lish.Prelude.{ℕ, ◌+◌, ◌*◌, ◌/◌, ◌%◌, ◌^◌, ◌<◌, ◌≡◌, ◌∙◌, ap, arith, bit_and, bit_or, shr, shl}
use lish.Prelude.Bits.Fields.{or_fields, and_mask, and_high}
use lish.Core.Compressed.{enc_r, enc_i, enc_s, enc_b, enc_u, enc_j}

-- One more field, which begins at bit k, joins a word that is a sum of fields below it.
or_next :
    (k q : ℕ) {word sum : ℕ} → word ≡ sum → sum < 2 ^ k → bit_or word (q * 2 ^ k) ≡ sum + q * 2 ^ k
or_next k q {sum = sum} e h = ap (λ (t : ℕ). bit_or t (q * 2 ^ k)) e ∙ or_fields k q sum h

-- The fields that R, I, S and B instructions share.
abbrev pub low_fields : ℕ → ℕ → ℕ → ℕ → ℕ
low_fields op rd f3 rs1 = op + rd * 2 ^ 7 + f3 * 2 ^ 12 + rs1 * 2 ^ 15

module _ (op rd f3 rs1 : ℕ) (a : op < 128) (b : rd < 32) (c : f3 < 8) (d : rs1 < 32) where
  low : bit_or (bit_or (bit_or op (shl rd 7)) (shl f3 12)) (shl rs1 15) ≡ low_fields op rd f3 rs1
  low = or_next 15 rs1 (or_next 12 f3 (or_fields 7 rd op a) (omega arith)) (omega arith)

  pub enc_i_sum :
      (imm : ℕ) → enc_i op rd f3 rs1 imm ≡ low_fields op rd f3 rs1 + imm % 2 ^ 12 * 2 ^ 20
  unfolding enc_i
  enc_i_sum imm = or_next 20 (bit_and imm 0xfff) low (omega arith) ∙ omega (arith, and_mask 12 imm)

  pub enc_r_sum :
      (rs2 f7 : ℕ)
      → rs2 < 32
      → enc_r op rd f3 rs1 rs2 f7 ≡ low_fields op rd f3 rs1 + rs2 * 2 ^ 20 + f7 * 2 ^ 25
  unfolding enc_r
  enc_r_sum rs2 f7 e = or_next 25 f7 (or_next 20 rs2 low (omega arith)) (omega arith)

module _ (op f3 rs1 rs2 : ℕ) (a : op < 128) (c : f3 < 8) (d : rs1 < 32) (e : rs2 < 32) where
  s_inner : ℕ → ℕ
  s_inner imm = imm % 2 ^ 5 + f3 * 2 ^ 5 + rs1 * 2 ^ 8 + rs2 * 2 ^ 13 + imm / 2 ^ 5 % 2 ^ 7 * 2 ^ 18

  s_upper :
      (imm : ℕ)
      → bit_or
          (bit_or
            (bit_or (bit_or (shl (bit_and imm 0x1f) 7) (shl f3 12)) (shl rs1 15))
            (shl rs2 20))
          (shl (bit_and imm 0xfe0) 20)
        ≡ s_inner imm * 2 ^ 7
  unfolding s_inner
  s_upper imm =
      let m = and_mask 5 imm in
      let high : bit_and imm 0xfe0 * 2 ^ 20 ≡ imm / 2 ^ 5 % 2 ^ 7 * 2 ^ 25 =
        omega (arith, and_high 5 imm 127, and_mask 7 (imm / 2 ^ 5)) in
      let first = or_fields 12 f3 (shl (bit_and imm 0x1f) 7) (omega arith) in
      let third = or_next 20 rs2 (or_next 15 rs1 first (omega arith)) (omega arith) in
      ap
        (bit_or (
          bit_or (bit_or (bit_or (shl (bit_and imm 0x1f) 7) (shl f3 12)) (shl rs1 15))
            (shl rs2 20)))
        high
      ∙ or_next 25 (imm / 2 ^ 5 % 2 ^ 7) third (omega arith)
      ∙ omega (arith, m)

  pub enc_s_sum :
      (imm : ℕ)
      → enc_s op f3 rs1 rs2 imm
        ≡ low_fields op (imm % 2 ^ 5) f3 rs1 + rs2 * 2 ^ 20 + imm / 2 ^ 5 % 2 ^ 7 * 2 ^ 25
  unfolding enc_s s_inner
  enc_s_sum imm = ap (bit_or op) (s_upper imm) ∙ or_fields 7 (s_inner imm) op a ∙ omega arith

  pub enc_b_sum :
      (imm : ℕ)
      → enc_b op f3 rs1 rs2 imm
        ≡ low_fields op (imm / 2 ^ 11 % 2 + imm / 2 % 2 ^ 4 * 2) f3 rs1
          + rs2 * 2 ^ 20
          + imm / 2 ^ 5 % 2 ^ 6 * 2 ^ 25
          + imm / 2 ^ 12 % 2 * 2 ^ 31
  unfolding enc_b
  enc_b_sum imm =
      let m11 = and_mask 1 (shr imm 11) in
      let m1 = and_mask 4 (shr imm 1) in
      let m5 = and_mask 6 (shr imm 5) in
      let m12 = and_mask 1 (shr imm 12) in
      let e1 = or_fields 7 (bit_and (shr imm 11) 1) op a in
      let e2 = or_next 8 (bit_and (shr imm 1) 0xf) e1 (omega arith) in
      let e3 = or_next 12 f3 e2 (omega arith) in
      let e4 = or_next 15 rs1 e3 (omega arith) in
      let e5 = or_next 20 rs2 e4 (omega arith) in
      let e6 = or_next 25 (bit_and (shr imm 5) 0x3f) e5 (omega arith) in
      or_next 31 (bit_and (shr imm 12) 1) e6 (omega arith) ∙ omega arith

module _ (op rd : ℕ) (a : op < 128) (b : rd < 32) where
  pub enc_u_sum : (imm20 : ℕ) → enc_u op rd imm20 ≡ op + rd * 2 ^ 7 + imm20 * 2 ^ 12
  unfolding enc_u
  enc_u_sum imm20 = or_next 12 imm20 (or_fields 7 rd op a) (omega arith)

  pub enc_j_sum :
      (imm : ℕ)
      → enc_j op rd imm
        ≡ op
          + rd * 2 ^ 7
          + imm / 2 ^ 12 % 2 ^ 8 * 2 ^ 12
          + imm / 2 ^ 11 % 2 * 2 ^ 20
          + imm / 2 % 2 ^ 10 * 2 ^ 21
          + imm / 2 ^ 20 % 2 * 2 ^ 31
  unfolding enc_j
  enc_j_sum imm =
      let m11 = and_mask 1 (shr imm 11) in
      let m1 = and_mask 10 (shr imm 1) in
      let m20 = and_mask 1 (shr imm 20) in
      let mid : bit_and imm 0xff000 ≡ imm / 2 ^ 12 % 2 ^ 8 * 2 ^ 12 =
        omega (arith, and_high 12 imm 255, and_mask 8 (imm / 2 ^ 12)) in
      let e1 = or_fields 7 rd op a in
      let e2 =
        ap (bit_or (bit_or op (shl rd 7))) mid
        ∙ or_next 12 (imm / 2 ^ 12 % 2 ^ 8) e1 (omega arith) in
      let e3 = or_next 20 (bit_and (shr imm 11) 1) e2 (omega arith) in
      let e4 = or_next 21 (bit_and (shr imm 1) 0x3ff) e3 (omega arith) in
      or_next 31 (bit_and (shr imm 20) 1) e4 (omega arith) ∙ omega arith
