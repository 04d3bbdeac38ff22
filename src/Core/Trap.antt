-- ===== src/Core/Trap.antt =====
-- Trap entry and return: crates/rv64-core/src/cpu.rs, `take_trap`, `exception_to_trap`,
-- `check_interrupts`, and the MRET and SRET arms of `execute_decoded`. Counters wrap as in a
-- release build.
pub mod Digits
pub mod Entry
pub mod Return
pub mod Interrupts
mod Tests
use lish.Prelude.{
  ℕ, zero, suc, ◌+◌, ◌-◌, ◌*◌, ◌/◌, ◌%◌, ◌^◌, Bool, true, false, ◌&&◌, ◌||◌, not, List, [], ◌∷◌,
  Option, none, some, ◌==◌, ◌!=◌, if◌then◌else◌, get_or, set, length, add64, bit_and, bit_or, not64,
  shl, shr,
}
use lish.Core.Csr.{
  SysCsrs, Mode, user, supervisor, machine, mode_bits, from_bits, is_user, is_supervisor,
  is_machine,
}
use lish.Core.Csr.Bits.{
  mstatus_sie, mstatus_mie, mstatus_spie, mstatus_mpie, mstatus_spp, mstatus_mpp, mstatus_mprv,
  mstatus_tsr, irq_mtip, irq_msip, irq_meip, irq_seip,
}
use lish.Core.Cpu.{Cpu, refresh_jit_tlb_context}
use lish.Core.Exception.{
  Exception, Result, ok, err, instruction_address_misaligned, instruction_access_fault,
  illegal_instruction, breakpoint, load_address_misaligned, load_access_fault,
  store_address_misaligned, store_access_fault, environment_call_from_u_mode,
  environment_call_from_s_mode, environment_call_from_m_mode, instruction_page_fault,
  load_page_fault, store_page_fault,
}

-- `&v[i] += 1`.
unfoldable pub count_up : List ℕ → ℕ → List ℕ
count_up v i = set v i (add64 (get_or v i 0) 1)

-- The trap vector: the base, or for an interrupt in vectored mode an entry of its own.
unfoldable pub vector : ℕ → ℕ → Bool → ℕ
vector tvec cause is_interrupt =
    if bit_and tvec 3 == 1 && is_interrupt
    then add64 (bit_and tvec (not64 3)) (4 * cause)
    else bit_and tvec (not64 3)

unfoldable pub cause_value : ℕ → Bool → ℕ
cause_value cause is_interrupt = if is_interrupt then bit_or (2 ^ 63) cause else cause

unfoldable pub mstatus_to_s : ℕ → Mode → ℕ
mstatus_to_s m prev =
    bit_or
      (bit_or (bit_and m (not64 (bit_or (bit_or mstatus_spie mstatus_spp) mstatus_sie)))
        (shl (bit_and (shr m 1) 1) 5))
      (if is_supervisor prev then mstatus_spp else 0)

unfoldable pub mstatus_to_m : ℕ → Mode → ℕ
mstatus_to_m m prev =
    bit_or
      (bit_or (bit_and m (not64 (bit_or (bit_or mstatus_mpie mstatus_mpp) mstatus_mie)))
        (shl (bit_and (shr m 3) 1) 7))
      (shl (mode_bits prev) 11)

-- Whether the trap goes to S-mode.
unfoldable pub delegated : SysCsrs → ℕ → Bool → Bool
delegated sys cause is_interrupt =
    not (is_machine sys.mode)
    && bit_and (if is_interrupt then sys.mideleg else sys.medeleg) (2 ^ (bit_and cause 63)) != 0

unfoldable pub enter_s : SysCsrs → ℕ → ℕ → ℕ → Bool → SysCsrs
enter_s sys pc cause tval is_interrupt = record sys {
  scause = cause_value cause is_interrupt;
  stval = tval;
  sepc = pc;
  mstatus = mstatus_to_s sys.mstatus sys.mode;
  mode = supervisor;
}

unfoldable pub enter_m : SysCsrs → ℕ → ℕ → ℕ → Bool → SysCsrs
enter_m sys pc cause tval is_interrupt = record sys {
  mcause = cause_value cause is_interrupt;
  mtval = tval;
  mepc = pc;
  mstatus = mstatus_to_m sys.mstatus sys.mode;
  mode = machine;
}

-- What `take_trap` does before it looks at the privileged state: the poll, the reservation, the
-- log of system calls and the counters.
unfoldable pub log_trap : Cpu → ℕ → Bool → Cpu
log_trap c cause is_interrupt =
    let satp : ℕ = elim c.sys [ none ↦ 0 | some s ↦ s.satp ] in
    let logs = not is_interrupt && cause == 8 in
    record c {
      irq_poll_cd = 0;
      reservation = none;
      syscall_log =
          if logs
          then set c.syscall_log c.syscall_log_pos (get_or c.x 17 0, satp)
          else c.syscall_log;
      syscall_log_pos =
          if logs then (c.syscall_log_pos + 1) % length c.syscall_log else c.syscall_log_pos;
      irq_counts = if is_interrupt then count_up c.irq_counts (bit_and cause 15) else c.irq_counts;
      exc_counts = if is_interrupt then c.exc_counts else count_up c.exc_counts (bit_and cause 15);
    }

unfoldable pub enter_trap : Cpu → SysCsrs → ℕ → ℕ → Bool → Cpu
enter_trap c sys cause tval is_interrupt =
    if delegated sys cause is_interrupt
    then record c {
      sys = some (enter_s sys c.pc cause tval is_interrupt);
      pc = vector sys.stvec cause is_interrupt;
    }
    else record c {
      sys = some (enter_m sys c.pc cause tval is_interrupt);
      pc = vector sys.mtvec cause is_interrupt;
    }

-- `none` is the panic of `unwrap` on a hart with no privileged state.
unfoldable pub take_trap : Cpu → ℕ → ℕ → Bool → Option Cpu
take_trap c cause tval is_interrupt = elim c.sys [
  | none ↦ none
  | some sys ↦ some (
      refresh_jit_tlb_context
        (enter_trap (log_trap c cause is_interrupt) sys cause tval is_interrupt))
]

unfoldable pub trap_of : Exception → ℕ → ℕ × ℕ
trap_of (instruction_address_misaligned addr) pc = (0, addr)
trap_of (instruction_access_fault addr) pc = (1, addr)
trap_of (illegal_instruction insn) pc = (2, insn)
trap_of breakpoint pc = (3, pc)
trap_of (load_address_misaligned addr) pc = (4, addr)
trap_of (load_access_fault addr) pc = (5, addr)
trap_of (store_address_misaligned addr) pc = (6, addr)
trap_of (store_access_fault addr) pc = (7, addr)
trap_of environment_call_from_u_mode pc = (8, 0)
trap_of environment_call_from_s_mode pc = (9, 0)
trap_of environment_call_from_m_mode pc = (11, 0)
trap_of (instruction_page_fault addr) pc = (12, addr)
trap_of (load_page_fault addr) pc = (13, addr)
trap_of (store_page_fault addr) pc = (15, addr)

unfoldable pub exception_to_trap : Cpu → Exception → Option Cpu
exception_to_trap c e = let (cause, tval) = trap_of e c.pc in take_trap c cause tval false

-- The new mstatus of MRET and of SRET.
unfoldable pub mstatus_mret : ℕ → Mode → ℕ
mstatus_mret m mpp =
    let restored =
      bit_or
        (bit_or (bit_and m (not64 (bit_or (bit_or mstatus_mie mstatus_mpie) mstatus_mpp)))
          (shl (bit_and (shr m 7) 1) 3))
        mstatus_mpie in
    if is_machine mpp then restored else bit_and restored (not64 mstatus_mprv)

unfoldable pub mstatus_sret : ℕ → Mode → ℕ
mstatus_sret m spp =
    let restored =
      bit_or
        (bit_or (bit_and m (not64 (bit_or (bit_or mstatus_sie mstatus_spie) mstatus_spp)))
          (shl (bit_and (shr m 5) 1) 1))
        mstatus_spie in
    if is_machine spp then restored else bit_and restored (not64 mstatus_mprv)

-- A return gives the state and the next program counter.
unfoldable pub mret : Cpu → ℕ → Cpu × Result ℕ
mret c insn =
    let c' = record c { irq_poll_cd = 0 } in
    elim c.sys [
      | none ↦ (c', err (illegal_instruction insn))
      | some sys ↦
          if not (is_machine sys.mode)
          then (c', err (illegal_instruction insn))
          else let mpp = from_bits (shr (bit_and sys.mstatus mstatus_mpp) 11) in
            (
              refresh_jit_tlb_context (record c' {
                sys = some (record sys { mstatus = mstatus_mret sys.mstatus mpp; mode = mpp });
              }),
              ok sys.mepc,
            )
    ]

unfoldable pub sret : Cpu → ℕ → Cpu × Result ℕ
sret c insn =
    let c' = record c { irq_poll_cd = 0 } in
    elim c.sys [
      | none ↦ (c', err (illegal_instruction insn))
      | some sys ↦
          if is_user sys.mode || is_supervisor sys.mode && bit_and sys.mstatus mstatus_tsr != 0
          then (c', err (illegal_instruction insn))
          else let spp = if bit_and sys.mstatus mstatus_spp != 0 then supervisor else user in
            (
              refresh_jit_tlb_context (record c' {
                sys = some (record sys { mstatus = mstatus_sret sys.mstatus spp; mode = spp });
              }),
              ok sys.sepc,
            )
    ]

-- The hardware interrupt lines, which mip takes from the bus.
abbrev pub hw_lines : ℕ
hw_lines = bit_or (bit_or (bit_or irq_mtip irq_msip) irq_meip) irq_seip

unfoldable pub sample_lines : SysCsrs → ℕ → SysCsrs
sample_lines sys lines = record sys {
  mip = bit_or (bit_and sys.mip (not64 hw_lines)) (bit_and lines hw_lines);
}

unfoldable pub m_enabled : SysCsrs → Bool
m_enabled sys = not (is_machine sys.mode) || bit_and sys.mstatus mstatus_mie != 0

unfoldable pub s_enabled : SysCsrs → Bool
s_enabled sys = is_user sys.mode || is_supervisor sys.mode && bit_and sys.mstatus mstatus_sie != 0

unfoldable pub deliverable : SysCsrs → ℕ → Bool
deliverable sys irq =
    if bit_and sys.mideleg (2 ^ irq) != 0
    then is_user sys.mode || is_supervisor sys.mode && s_enabled sys
    else not (is_machine sys.mode) || m_enabled sys

-- The first deliverable interrupt of the priority list.
unfoldable pub select : SysCsrs → ℕ → List ℕ → Option ℕ
select sys pending [] = none
select sys pending (irq ∷ rest) =
    if bit_and pending (2 ^ irq) != 0 && deliverable sys irq
    then some irq
    else select sys pending rest

-- MEI, MSI, MTI, SEI, SSI, STI.
abbrev pub priorities : List ℕ
priorities = 11 ∷ 3 ∷ 7 ∷ 9 ∷ 1 ∷ 5 ∷ []

-- `lines` is what the bus returns from `irq_lines`. The result is the state, and whether a trap
-- was taken.
unfoldable pub check_interrupts : Cpu → ℕ → Option Cpu × Bool
check_interrupts c lines = elim c.sys [
  | none ↦ (some c, false)
  | some before ↦
      let sys = sample_lines before lines in
      let c' = record c { sys = some sys } in
      let pending = bit_and sys.mip sys.mie in
      if pending == 0 then (some c', false) else elim (select sys pending priorities) [
        | none ↦ (some c', false)
        | some irq ↦ (take_trap c' irq 0 true, true)
      ]
]
