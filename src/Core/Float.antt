-- ===== src/Core/Float.antt =====
-- The instructions on floating-point registers of `execute_decoded`, crates/rv64-core/src/cpu.rs:
-- loads, stores, and the handling of operands and flags around a fused multiply-add. The arithmetic
-- itself, `softfp::sf32::fma`, `sf64::fma` and `op_fp`, is a parameter.
use lish.Prelude.{
  ℕ, ◌%◌, ◌^◌, Bool, ◌||◌, Option, none, some, get_or, set, leb, ◌==◌, if◌then◌else◌, add64,
  u32_mod, bit_and, bit_or, bit_xor, shr,
}
use lish.Core.Exception.{Result, illegal_instruction}
use lish.Core.Cpu.{Cpu, fp_dirty}
use lish.Core.Bus.{Bus}
use lish.Core.Decode.{opcode, rd, rs1, rs2, funct3, imm_i, imm_s}
use lish.Core.Run.{Run, ◌>>=◌, ◌>>◌, return, throw, get, modify, require}
use lish.Core.Memory.{ld, st}
use lish.Core.SystemOps.{fp_guard}

-- A fused multiply-add on patterns at a rounding mode gives the pattern and the flags.
pub record FloatUnit : Type 0 where
  pub fma32 : ℕ → ℕ → ℕ → ℕ → ℕ × ℕ
  pub fma64 : ℕ → ℕ → ℕ → ℕ → ℕ × ℕ
  pub op_fp : Cpu → ℕ → Result (Unit {0}) × Cpu

-- `none` is a reserved rounding mode.
unfoldable pub get_rm : Cpu → ℕ → Option ℕ
get_rm c rm_field =
    let rm = if rm_field == 7 then bit_and (shr c.fcsr 5) 7 else rm_field in
    if leb rm 4 then some rm else none

-- A NaN-boxed single, and its unboxing: an improper box is the canonical NaN.
abbrev pub box32 : ℕ → ℕ
box32 v = bit_or 0xffff_ffff_0000_0000 v

unfoldable pub unbox32 : ℕ → ℕ
unbox32 r = if shr r 32 == 0xffff_ffff then r % u32_mod else 0x7fc0_0000

abbrev pub set_f : ℕ → ℕ → Cpu → Cpu
set_f dest v c = record c { f = set c.f dest v }

abbrev pub raise_flags : ℕ → Cpu → Cpu
raise_flags fl c = record c { fcsr = bit_or c.fcsr (bit_and fl 0x1f) }

abbrev pub flip_if : Bool → ℕ → ℕ → ℕ
flip_if b sign v = if b then bit_xor v sign else v

module _ {M : Type 0} (bus : Bus M) where
  unfoldable pub fp_load_value : ℕ → ℕ → Run M ℕ
  fp_load_value insn addr =
      if funct3 insn == 2
      then (do v ← ld bus 4 addr; return (box32 (v % u32_mod)))
      else if funct3 insn == 3
      then ld bus 8 addr
      else throw (illegal_instruction insn)

  unfoldable pub load_fp : ℕ → Run M (Unit {0})
  load_fp insn = do
    fp_guard insn
    modify fp_dirty
    c ← get
    v ← fp_load_value insn (add64 (get_or c.x (rs1 insn) 0) (imm_i insn))
    modify (set_f (rd insn) v)

  unfoldable pub store_fp : ℕ → Run M (Unit {0})
  store_fp insn = do
    fp_guard insn
    c ← get
    if funct3 insn == 2
        then st bus 4 (add64 (get_or c.x (rs1 insn) 0) (imm_s insn)) (get_or c.f (rs2 insn) 0)
        else if funct3 insn == 3
        then st bus 8 (add64 (get_or c.x (rs1 insn) 0) (imm_s insn)) (get_or c.f (rs2 insn) 0)
        else throw (illegal_instruction insn)

-- The operands of FNMSUB and FNMADD have the product negated; those of FMSUB and FNMADD the sum.
unfoldable pub neg_prod : ℕ → Bool
neg_prod insn = opcode insn == 0x4b || opcode insn == 0x4f

unfoldable pub neg_c : ℕ → Bool
neg_c insn = opcode insn == 0x47 || opcode insn == 0x4f

module _ (unit : FloatUnit) where
  unfoldable pub fma_single : ℕ → ℕ → Cpu → Cpu
  fma_single insn rm c =
      let a = flip_if (neg_prod insn) 0x8000_0000 (unbox32 (get_or c.f (rs1 insn) 0)) in
      let b = unbox32 (get_or c.f (rs2 insn) 0) in
      let d = flip_if (neg_c insn) 0x8000_0000 (unbox32 (get_or c.f (shr insn 27) 0)) in
      let (r, fl) = unit.fma32 a b d rm in raise_flags fl (set_f (rd insn) (box32 r) c)

  unfoldable pub fma_double : ℕ → ℕ → Cpu → Cpu
  fma_double insn rm c =
      let a = flip_if (neg_prod insn) (2 ^ 63) (get_or c.f (rs1 insn) 0) in
      let b = get_or c.f (rs2 insn) 0 in
      let d = flip_if (neg_c insn) (2 ^ 63) (get_or c.f (shr insn 27) 0) in
      let (r, fl) = unit.fma64 a b d rm in raise_flags fl (set_f (rd insn) r c)

module _ {M : Type 0} (unit : FloatUnit) where
  unfoldable pub fma : ℕ → Run M (Unit {0})
  fma insn = do
    fp_guard insn
    modify fp_dirty
    c ← get
    rm ← require (get_rm c (funct3 insn)) (illegal_instruction insn)
    if bit_and (shr insn 25) 3 == 0
        then modify (fma_single unit insn rm)
        else if bit_and (shr insn 25) 3 == 1
        then modify (fma_double unit insn rm)
        else throw (illegal_instruction insn)

  unfoldable pub op_fp : ℕ → Run M (Unit {0})
  op_fp insn = do
    fp_guard insn
    modify fp_dirty
    (λ c b. ((unit.op_fp c insn).0, (unit.op_fp c insn).1, b))
