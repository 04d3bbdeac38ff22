-- ===== src/Core/Compressed/Expand.antt =====
-- The words that `expand` of crates/rv64-core/src/compressed.rs gives, and `DecodedInsn::from_word`.
use lish.Prelude.{
  ℕ, ◌%◌, ◌^◌, ◌<◌, ◌≡◌, Bool, true, false, Option, none, some, arith, bit_and, shr, if◌then◌else◌,
}
use lish.Prelude.{Option-cases, ap, subst, inl, inr, ◌⊎◌, ◌≢◌}
use lish.Prelude.Bits.Fields.{and_mask}
use lish.Core.Compressed.{
  enc_r, enc_i, enc_s, enc_b, enc_u, enc_j, creg, field, expand_0, expand_alu, expand_arith,
  expand_lui, expand_1, expand_jump, expand_2, expand, from_word,
}
use lish.Core.Compressed.Encode.{enc_r_sum, enc_i_sum, enc_s_sum, enc_b_sum, enc_u_sum, enc_j_sum}

-- A 32-bit word whose two low bits say it is not compressed.
abbrev pub IsFull : ℕ → Type 0
IsFull w = (w % 4 ≡ 3) × (w < 2 ^ 32)

unfoldable AllFull : Option ℕ → Type 0
AllFull none = Unit
AllFull (some w) = IsFull w

none-AllFull : AllFull none
unfolding AllFull
none-AllFull = tt

if-AllFull : (b : Bool) (x y : Option ℕ) → AllFull x → AllFull y → AllFull (if b then x else y)
if-AllFull true x y p q = p
if-AllFull false x y p q = q

reg : (c k : ℕ) → field c k 0x1f < 32
reg c k = omega (arith, and_mask 5 (shr c k))

reg_short : (c k : ℕ) → creg (field c k 7) < 32
unfolding creg
reg_short c k = omega (arith, and_mask 3 (shr c k))

creg-lt : (f : ℕ) → f < 8 → creg f < 32
unfolding creg
creg-lt f h = omega arith

module _ (o d f s : ℕ) (a : o < 128) (l : o % 4 ≡ 3) (b : d < 32) (c : f < 8) (e : s < 32) where
  enc_i-AllFull : (imm : ℕ) → AllFull (some (enc_i o d f s imm))
  unfolding AllFull
  enc_i-AllFull imm =
      let sum = enc_i_sum o d f s a b c e imm in (omega (arith, sum, l), omega (arith, sum))

  enc_r-AllFull : (t g : ℕ) → t < 32 → g < 128 → AllFull (some (enc_r o d f s t g))
  unfolding AllFull
  enc_r-AllFull t g k h =
      let sum = enc_r_sum o d f s a b c e t g k in (omega (arith, sum, l), omega (arith, sum))

module _ (o f s t : ℕ) (a : o < 128) (l : o % 4 ≡ 3) (c : f < 8) (e : s < 32) (k : t < 32) where
  enc_s-AllFull : (imm : ℕ) → AllFull (some (enc_s o f s t imm))
  unfolding AllFull
  enc_s-AllFull imm =
      let sum = enc_s_sum o f s t a c e k imm in (omega (arith, sum, l), omega (arith, sum))

  enc_b-AllFull : (imm : ℕ) → AllFull (some (enc_b o f s t imm))
  unfolding AllFull
  enc_b-AllFull imm =
      let sum = enc_b_sum o f s t a c e k imm in (omega (arith, sum, l), omega (arith, sum))

module _ (o d : ℕ) (a : o < 128) (l : o % 4 ≡ 3) (b : d < 32) where
  enc_u-AllFull : (imm : ℕ) → imm < 2 ^ 20 → AllFull (some (enc_u o d imm))
  unfolding AllFull
  enc_u-AllFull imm h =
      let sum = enc_u_sum o d a b imm in (omega (arith, sum, l), omega (arith, sum))

  enc_j-AllFull : (imm : ℕ) → AllFull (some (enc_j o d imm))
  unfolding AllFull
  enc_j-AllFull imm = let sum = enc_j_sum o d a b imm in (omega (arith, sum, l), omega (arith, sum))

ruleset full_rules = (
  none-AllFull, if-AllFull, enc_i-AllFull, enc_r-AllFull, enc_s-AllFull, enc_b-AllFull,
  enc_j-AllFull, reg, reg_short, arith,
)

expand_0-AllFull : (c f3 : ℕ) → AllFull (expand_0 c f3)
unfolding expand_0
expand_0-AllFull c f3 = search full_rules depth 12 fits 3000

ebreak-AllFull : AllFull (some 0x0010_0073)
unfolding AllFull
ebreak-AllFull = (omega arith, omega arith)

expand_jump-AllFull : (c rd rs2 : ℕ) → rd < 32 → rs2 < 32 → AllFull (expand_jump c rd rs2)
unfolding expand_jump
expand_jump-AllFull c rd rs2 h k = search (full_rules, ebreak-AllFull) depth 12 fits 3000

expand_2-AllFull : (c f3 : ℕ) → AllFull (expand_2 c f3)
unfolding expand_2
expand_2-AllFull c f3 = search (full_rules, expand_jump-AllFull) depth 14 fits 3000

expand_alu-AllFull : (c rd : ℕ) → rd < 32 → AllFull (expand_alu c rd)
unfolding expand_alu
expand_alu-AllFull c rd h = search full_rules depth 14 fits 3000

expand_arith-AllFull : (c : ℕ) → AllFull (expand_arith c)
unfolding expand_arith
expand_arith-AllFull c = search (full_rules, expand_alu-AllFull) depth 12 fits 3000

upper-lt : (x : ℕ) → bit_and x 0xfffff < 2 ^ 20
upper-lt x = omega (arith, and_mask 20 x)

expand_lui-AllFull : (c rd : ℕ) → rd < 32 → AllFull (expand_lui c rd)
unfolding expand_lui
expand_lui-AllFull c rd h = search (full_rules, enc_u-AllFull, upper-lt) depth 12 fits 3000

zero_or_one : (b : Bool) → (if b then 0 else 1) < 8
zero_or_one b = ground arith

expand_1-AllFull : (c f3 : ℕ) → AllFull (expand_1 c f3)
unfolding expand_1
expand_1-AllFull c f3 =
    search (full_rules, expand_lui-AllFull, expand_arith-AllFull, zero_or_one) depth 14 fits 3000

expand-AllFull : (c : ℕ) → AllFull (expand c)
unfolding expand
expand-AllFull c = search (full_rules, expand_0-AllFull, expand_1-AllFull, expand_2-AllFull)

-- Whatever compressed instruction is expanded, the result is a 32-bit instruction: it fits 32
-- bits, and its two low bits are both set.
expand-IsFull : (c w : ℕ) → expand c ≡ some w → (w % 4 ≡ 3) × (w < 2 ^ 32)
unfolding AllFull
expand-IsFull c w h = subst AllFull h (expand-AllFull c)

-- A word is decoded in one of three ways: with its low bits both set it is taken as it is, with a
-- length of 4; else its low half is expanded, with a length of 2, to a 32-bit instruction or to
-- an illegal one that keeps the half.
pub from_word_cases :
    (w : ℕ)
    → let d = from_word w in
      ((w % 4 ≡ 3) × (d.valid ≡ true) × (d.len ≡ 4) × (d.bits ≡ w))
      ⊎ ((w % 4 ≢ 3)
          × (d.len ≡ 2)
          × (d.valid ≡ true)
          × (expand (w % 2 ^ 16) ≡ some d.bits)
          × (d.bits % 4 ≡ 3)
          × (d.bits < 2 ^ 32))
      ⊎ ((w % 4 ≢ 3)
          × (d.len ≡ 2)
          × (d.valid ≡ false)
          × (expand (w % 2 ^ 16) ≡ none)
          × (d.bits ≡ w % 2 ^ 16))
unfolding from_word
from_word_cases w = elim (Option-cases (expand (w % 2 ^ 16))) [
  | inl e ↦ ground (arith, and_mask 16 w, and_mask 2 (w % 2 ^ 16), e, ap expand (and_mask 16 w))
  | inr (v, e) ↦ ground (
    arith,
    and_mask 16 w,
    and_mask 2 (w % 2 ^ 16),
    e,
    ap expand (and_mask 16 w),
    expand-IsFull (w % 2 ^ 16) v e,
  )
]
