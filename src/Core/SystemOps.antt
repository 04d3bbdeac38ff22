-- ===== src/Core/SystemOps.antt =====
-- The SYSTEM instructions of `execute_decoded`, crates/rv64-core/src/cpu.rs: ECALL, EBREAK, WFI,
-- SFENCE.VMA and the Zicsr forms; MRET and SRET are in Core/Trap. `StopReason` is from there too.
pub mod ReadOnly
use lish.Prelude.{
  ℕ, Bool, false, not, ◌&&◌, ◌||◌, Option, none, some, get_or, leb, ◌==◌, ◌!=◌, if◌then◌else◌,
  add64, not64, bit_and, bit_or, shr,
}
use lish.Core.Csr.{SysCsrs, Mode, user, supervisor, machine, is_user, is_supervisor}
use lish.Core.Csr.Bits.{mstatus_tw, mstatus_tvm}
use lish.Core.Exception.{Exception, Result, ok, err, illegal_instruction, breakpoint}
use lish.Core.Cpu.{Cpu, wr, fp_check, fp_dirty, flush_tlb, bump_map_generation}
use lish.Core.Trap.{take_trap, mret, sret}
use lish.Core.CsrAccess.{csr_read, csr_write}
use lish.Core.Mmu.{flush_tlb_page}
use lish.Core.Decode.{rd, rs1, funct3, funct7}
use lish.Core.Run.{Run, ◌>>=◌, ◌>>◌, return, throw, get, modify, require}

pub data StopReason : Type 0 where
  budget : StopReason
  ecall : StopReason
  break : StopReason
  trap : Exception → StopReason
  wfi : StopReason

-- What an arm of the match leaves: the next program counter and the stop, or the early
-- `return Ok(None)` of a trap that is taken.
pub data Flow : Type 0 where
  next : ℕ → Option StopReason → Flow
  leave : Flow

-- The hart after a trap. `take_trap` panics without privileged state, where no caller is.
abbrev pub trapped : Option Cpu → Cpu → Cpu
trapped none c = c
trapped (some c') c = c'

unfoldable pub ecall_cause : Mode → ℕ
ecall_cause user = 8
ecall_cause supervisor = 9
ecall_cause machine = 11

unfoldable pub ecall_trap : SysCsrs → Cpu → Cpu
ecall_trap sys c =
    let c' = trapped (take_trap c (ecall_cause sys.mode) 0 false) c in
    record c' { insn_count = add64 c'.insn_count 1 }

abbrev pub fp_guard : {M : Type 0} → ℕ → Run M (Unit {0})
fp_guard insn c b = elim (fp_check c insn) [ none ↦ (ok tt, c, b) | some e ↦ (err e, c, b) ]

-- `f3 @ 1..=3 | 5..=7`.
abbrev is_zicsr : ℕ → Bool
is_zicsr f3 = (leb 1 f3 && leb f3 3) || (leb 5 f3 && leb f3 7)

-- The operand: a register, or the five digits of the rs1 field.
unfoldable pub csr_source : Cpu → ℕ → ℕ
csr_source c insn = if leb 5 (funct3 insn) then rs1 insn else get_or c.x (rs1 insn) 0

-- The value to write; `none` for a set or a clear with x0 or a zero immediate.
unfoldable pub csr_new : ℕ → Bool → ℕ → ℕ → Option ℕ
csr_new f3 src_is_zero old src =
    if bit_and f3 3 == 1
    then some src
    else if bit_and f3 3 == 2 && not src_is_zero
    then some (bit_or old src)
    else if bit_and f3 3 == 3 && not src_is_zero
    then some (bit_and old (not64 src))
    else none

-- Whether SFENCE.VMA is allowed.
unfoldable pub fence_trapped : Cpu → Bool
fence_trapped c = elim c.sys [
  | none ↦ false
  | some sys ↦ is_user sys.mode || is_supervisor sys.mode && bit_and sys.mstatus mstatus_tvm != 0
]

unfoldable pub fence : ℕ → Cpu → Cpu
fence insn c =
    bump_map_generation
      (if rs1 insn == 0 then flush_tlb c else flush_tlb_page c (get_or c.x (rs1 insn) 0))

module _ {M : Type 0} where
  unfoldable pub do_ecall : ℕ → Run M Flow
  do_ecall next_pc = do
    c ← get
    elim c.sys [
      | none ↦ return (next next_pc (some ecall))
      | some sys ↦
          if c.host_sbi && is_supervisor sys.mode
          then return (next next_pc (some ecall))
          else (do modify (ecall_trap sys); return leave)
    ]

  unfoldable pub do_ebreak : ℕ → Run M Flow
  do_ebreak next_pc = do
    c ← get
    elim c.sys [ none ↦ return (next next_pc (some break)) | some sys ↦ throw breakpoint ]

  -- A return instruction, which gives the next program counter.
  abbrev pub returning : (Cpu → Cpu × Result ℕ) → Run M Flow
  returning f = do pc ← (λ c b. ((f c).1, (f c).0, b)); return (next pc none)

  unfoldable pub do_wfi : ℕ → ℕ → Run M Flow
  do_wfi insn next_pc = do
    c ← get
    elim c.sys [
      | none ↦ return (next next_pc none)
      | some sys ↦
          if is_user sys.mode || is_supervisor sys.mode && bit_and sys.mstatus mstatus_tw != 0
          then throw (illegal_instruction insn)
          else return (next next_pc (if bit_and sys.mip sys.mie == 0 then some wfi else none))
    ]

  unfoldable pub sfence_vma : ℕ → ℕ → Run M Flow
  sfence_vma insn next_pc = do
    c ← get
    if fence_trapped c
        then throw (illegal_instruction insn)
        else (do modify (fence insn); return (next next_pc none))

  unfoldable pub write_csr : ℕ → ℕ → Option ℕ → Run M (Unit {0})
  write_csr insn csr none c b = (ok tt, c, b)
  write_csr insn csr (some v) c b =
      let (c', written) = csr_write c csr v in
      if written then (ok tt, c', b) else (err (illegal_instruction insn), c', b)

  unfoldable pub zicsr : ℕ → Run M (Unit {0})
  zicsr insn = do
    if leb (shr insn 20) 3 then (do fp_guard insn; modify fp_dirty) else return tt
    c ← get
    old ← require (csr_read c (shr insn 20)) (illegal_instruction insn)
    write_csr insn (shr insn 20) (csr_new (funct3 insn) (rs1 insn == 0) old (csr_source c insn))
    modify (λ c. wr c (rd insn) old)

  unfoldable pub system : ℕ → ℕ → Run M Flow
  system insn next_pc =
      if insn == 0x0000_0073
      then do_ecall next_pc
      else if insn == 0x0010_0073
      then do_ebreak next_pc
      else if insn == 0x3020_0073
      then returning (λ c. mret c insn)
      else if insn == 0x1020_0073
      then returning (λ c. sret c insn)
      else if insn == 0x1050_0073
      then do_wfi insn next_pc
      else if funct7 insn == 0x09 && funct3 insn == 0
      then sfence_vma insn next_pc
      else if is_zicsr (funct3 insn)
      then (do zicsr insn; return (next next_pc none))
      else throw (illegal_instruction insn)
