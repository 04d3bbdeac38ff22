-- ===== src/Core/Exec.antt =====
-- `execute_decoded` of crates/rv64-core/src/cpu.rs: one instruction. The arms of its match are
-- functions; the arithmetic is in Core/Alu, the atomics in Core/Amo, SYSTEM in Core/SystemOps and
-- the floating-point registers in Core/Float.
pub mod Frame
pub mod ValidAccess
pub mod ValidSystem
pub mod Valid
use lish.Prelude.{
  ℕ, ◌*◌, ◌%◌, not, ◌||◌, Option, none, some, get_or, ◌==◌, if◌then◌else◌, add64, u32_mod, bit_and,
  not64,
}
use lish.Core.Exception.{illegal_instruction}
use lish.Core.Cpu.{Cpu, wr}
use lish.Core.Bus.{Bus}
use lish.Core.Decode.{opcode, rd, rs1, rs2, funct3, funct7, imm_i, imm_s, imm_b, imm_u, imm_j}
use lish.Core.Compressed.{DecodedInsn}
use lish.Core.Run.{Run, ◌>>=◌, ◌>>◌, return, throw, get, modify, require}
use lish.Core.Memory.{ld, st}
use lish.Core.Alu.{widen, sext_word, branch_taken, op_imm, op_imm_32, op, op_32}
use lish.Core.Amo.{amo}
use lish.Core.SystemOps.{StopReason, Flow, next, leave, system}
use lish.Core.Float.{FloatUnit, load_fp, store_fp, fma, op_fp}

-- The register that a field names.
abbrev pub reg : Cpu → ℕ → ℕ
reg c i = get_or c.x i 0

-- `val32 as i32 as i64 as u64`, of a result if there is one.
abbrev pub widen_result : Option ℕ → Option ℕ
widen_result none = none
widen_result (some v) = some (widen v)

-- A step from the hart alone.
abbrev pub write_reg : {M : Type 0} → ℕ → (Cpu → ℕ) → Run M (Unit {0})
write_reg insn value = modify (λ c. wr c (rd insn) (value c))

module _ {M : Type 0} where
  unfoldable pub jump_and_link : ℕ → ℕ → Run M Flow
  jump_and_link insn next_pc = do
    c ← get
    modify (λ c. wr c (rd insn) next_pc)
    return (next (add64 c.pc (imm_j insn)) none)

  -- The target is read before the link is written.
  unfoldable pub jump_and_link_register : ℕ → ℕ → Run M Flow
  jump_and_link_register insn next_pc = do
    c ← get
    modify (λ c. wr c (rd insn) next_pc)
    return (next (bit_and (add64 (reg c (rs1 insn)) (imm_i insn)) (not64 1)) none)

  unfoldable pub branch : ℕ → ℕ → Run M Flow
  branch insn next_pc = do
    c ← get
    taken ←
        require (branch_taken (funct3 insn) (reg c (rs1 insn)) (reg c (rs2 insn)))
          (illegal_instruction insn)
    return (next (if taken then add64 c.pc (imm_b insn) else next_pc) none)

  -- The register-to-register arms: a value, or an illegal instruction.
  abbrev pub compute : ℕ → (Cpu → Option ℕ) → Run M (Unit {0})
  compute insn value = do
    c ← get
    v ← require (value c) (illegal_instruction insn)
    modify (λ c. wr c (rd insn) v)

  unfoldable pub exec_op_imm : ℕ → Run M (Unit {0})
  exec_op_imm insn = write_reg insn (λ c. op_imm insn (funct3 insn) (reg c (rs1 insn)) (imm_i insn))

  unfoldable pub exec_op_imm_32 : ℕ → Run M (Unit {0})
  exec_op_imm_32 insn = compute insn (λ c.
      widen_result
        (op_imm_32 (funct7 insn) (funct3 insn) (reg c (rs1 insn) % u32_mod) (imm_i insn)))

  unfoldable pub exec_op : ℕ → Run M (Unit {0})
  exec_op insn =
      compute insn (λ c. op (funct7 insn) (funct3 insn) (reg c (rs1 insn)) (reg c (rs2 insn)))

  unfoldable pub exec_op_32 : ℕ → Run M (Unit {0})
  exec_op_32 insn = compute insn (λ c.
      widen_result (
        op_32 (funct7 insn) (funct3 insn) (reg c (rs1 insn) % u32_mod)
          (reg c (rs2 insn) % u32_mod)))

  -- FENCE does nothing, and FENCE.I starts a new generation of the decoded page cache.
  unfoldable pub misc_mem : ℕ → Run M (Unit {0})
  misc_mem insn =
      if funct3 insn == 1
      then modify (λ c. record c { icache_gen = add64 c.icache_gen 1 })
      else return tt

-- The bytes that SB, SH, SW and SD store.
unfoldable pub store_width : ℕ → Option ℕ
store_width f3 =
    if f3 == 0
    then some 1
    else if f3 == 1
    then some 2
    else if f3 == 2
    then some 4
    else if f3 == 3
    then some 8
    else none

module _ {M : Type 0} (bus : Bus M) where
  abbrev pub load_signed : ℕ → ℕ → Run M ℕ
  load_signed n addr = do v ← ld bus n addr; return (sext_word (8 * n) v)

  -- A loaded value, which LB, LH and LW sign-extend.
  unfoldable pub load_value : ℕ → ℕ → ℕ → Run M ℕ
  load_value insn f3 addr =
      if f3 == 0
      then load_signed 1 addr
      else if f3 == 1
      then load_signed 2 addr
      else if f3 == 2
      then load_signed 4 addr
      else if f3 == 3
      then ld bus 8 addr
      else if f3 == 4
      then ld bus 1 addr
      else if f3 == 5
      then ld bus 2 addr
      else if f3 == 6
      then ld bus 4 addr
      else throw (illegal_instruction insn)

  unfoldable pub exec_load : ℕ → Run M (Unit {0})
  exec_load insn = do
    c ← get
    v ← load_value insn (funct3 insn) (add64 (reg c (rs1 insn)) (imm_i insn))
    modify (λ c. wr c (rd insn) v)

  unfoldable pub exec_store : ℕ → Run M (Unit {0})
  exec_store insn = do
    c ← get
    n ← require (store_width (funct3 insn)) (illegal_instruction insn)
    st bus n (add64 (reg c (rs1 insn)) (imm_s insn)) (reg c (rs2 insn))

  abbrev pub and_next : ℕ → Run M (Unit {0}) → Run M Flow
  and_next next_pc arm = do arm; return (next next_pc none)

  -- The match on the opcode.
  unfoldable pub execute : FloatUnit → ℕ → ℕ → Run M Flow
  execute unit insn next_pc =
      let code = opcode insn in
      if code == 0x37
      then and_next next_pc (write_reg insn (λ c. imm_u insn))
      else if code == 0x17
      then and_next next_pc (write_reg insn (λ c. add64 c.pc (imm_u insn)))
      else if code == 0x6f
      then jump_and_link insn next_pc
      else if code == 0x67
      then jump_and_link_register insn next_pc
      else if code == 0x63
      then branch insn next_pc
      else if code == 0x03
      then and_next next_pc (exec_load insn)
      else if code == 0x23
      then and_next next_pc (exec_store insn)
      else if code == 0x13
      then and_next next_pc (exec_op_imm insn)
      else if code == 0x1b
      then and_next next_pc (exec_op_imm_32 insn)
      else if code == 0x33
      then and_next next_pc (exec_op insn)
      else if code == 0x3b
      then and_next next_pc (exec_op_32 insn)
      else if code == 0x2f
      then and_next next_pc (amo bus insn)
      else if code == 0x07
      then and_next next_pc (load_fp bus insn)
      else if code == 0x27
      then and_next next_pc (store_fp bus insn)
      else if code == 0x43 || (code == 0x47 || (code == 0x4b || code == 0x4f))
      then and_next next_pc (fma unit insn)
      else if code == 0x53
      then and_next next_pc (op_fp unit insn)
      else if code == 0x0f
      then and_next next_pc (misc_mem insn)
      else if code == 0x73
      then system insn next_pc
      else throw (illegal_instruction insn)

  -- The end of the function: the counters move, but for an arm that has returned.
  unfoldable pub retire : Flow → Run M (Option StopReason)
  retire leave = return none
  retire (next pc stop) = do
    modify (λ c. record c { pc = pc; insn_count = add64 c.insn_count 1 })
    return stop

  unfoldable pub execute_decoded : FloatUnit → DecodedInsn → Run M (Option StopReason)
  execute_decoded unit d =
      if not d.valid
      then throw (illegal_instruction d.bits)
      else (do c ← get; flow ← execute unit d.bits (add64 c.pc d.len); retire flow)
