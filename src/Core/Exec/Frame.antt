-- ===== src/Core/Exec/Frame.antt =====
-- What the operations of crates/rv64-core/src/cpu.rs leave of the hart: the integer registers, and
-- whether there is privileged state.
use lish.Prelude.{
  ℕ, ◌≡◌, refl, arith, bit_and, true, Bool, length, get_or, get_or-set, length-set, some, none,
  Option,
}
use lish.Core.Csr.{SysCsrs}
use lish.Core.Cpu.{
  Cpu, Access, has_system, wr, fp_dirty, flush_tlb, bump_map_generation, refresh_jit_tlb_context,
}
use lish.Core.Bus.{Bus}
use lish.Core.Mmu.{translate, translate_slow, walk_root, fill_tlb, flush_tlb_page}
use lish.Core.Trap.{take_trap, enter_trap, log_trap, check_interrupts, mret, sret}
use lish.Core.CsrAccess.{
  csr_write, write_any, write_sys, write_supervisor, write_machine, write_status, write_satp,
  write_counter,
}
use lish.Core.CsrAccess.{sstatus_writable, mstatus_writable}
use lish.Core.Trap.{sample_lines, select, priorities}
use lish.Core.SystemOps.{trapped, fence}
use lish.Core.Memory.{fill_jtlb, set_jtlb}

-- The 32 registers are there, x0 reads as zero, and privileged state is there or not as s tells.
pub record IsValid (s : Bool) (c : Cpu) : Type 0 where
  pub registers : length c.x ≡ 32
  pub zero_register : get_or c.x 0 0 ≡ 0
  pub system : has_system c ≡ s

-- The integer registers are the same, and privileged state is there or not as before.
abbrev pub SameFrame : Cpu → Cpu → Type 0
SameFrame c d = (d.x ≡ c.x) × (has_system d ≡ has_system c)

pub frame-IsValid : {s : Bool} (c d : Cpu) → SameFrame c d → IsValid s c → IsValid s d
frame-IsValid c d e v = record {
  registers = ground (arith, e.0, v.registers);
  zero_register = ground (arith, e.0, v.zero_register);
  system = ground (arith, e.1, v.system);
}

pub wr-IsValid : {s : Bool} (c : Cpu) (rd v : ℕ) → IsValid s c → IsValid s (wr c rd v)
unfolding wr has_system
wr-IsValid c rd v p = record {
  registers = ground (arith, length-set c.x rd v, p.registers);
  zero_register = ground (arith, get_or-set c.x rd 0 v 0, p.zero_register);
  system = ground (arith, p.system);
}

module _ (c : Cpu) (sys : SysCsrs) (v : ℕ) (e : c.sys ≡ some sys) where
  write_satp-frame : SameFrame c (write_satp c sys v).0
  unfolding write_satp flush_tlb bump_map_generation has_system
  write_satp-frame = ground arith

  write_status-frame : (mask : ℕ) → SameFrame c (write_status c sys mask v)
  unfolding write_status refresh_jit_tlb_context has_system
  write_status-frame mask = ground arith

  write_supervisor-frame : (csr : ℕ) → SameFrame c (write_supervisor c sys csr v).0
  unfolding write_supervisor has_system
  write_supervisor-frame csr = ground (arith, write_satp-frame, write_status-frame sstatus_writable)

  write_machine-frame : (csr : ℕ) → SameFrame c (write_machine c sys csr v).0
  unfolding write_machine has_system
  write_machine-frame csr = ground (arith, write_status-frame mstatus_writable)

  write_sys-frame : (csr : ℕ) → SameFrame c (write_sys c sys csr v).0
  unfolding write_sys has_system
  write_sys-frame csr = ground (arith, write_supervisor-frame csr, write_machine-frame csr)

write_counter-frame : (c : Cpu) (v : ℕ) → SameFrame c (write_counter c v)
unfolding write_counter has_system
write_counter-frame c v = ground arith

write_any-frame :
    (c : Cpu) (csr v : ℕ) (o : Option SysCsrs) → c.sys ≡ o → SameFrame c (write_any c csr v).0
unfolding write_any has_system
write_any-frame c csr v none e = ground (arith, write_counter-frame c v)
write_any-frame c csr v (some sys) e =
    ground (arith, write_counter-frame c v, write_sys-frame c sys v e csr)

pub csr_write-frame : (c : Cpu) (csr v : ℕ) → SameFrame c (csr_write c csr v).0
unfolding csr_write has_system
csr_write-frame c csr v =
    ground (arith, write_any-frame (record c { irq_poll_cd = 0 }) csr v c.sys refl)

pub fp_dirty-frame : (c : Cpu) → SameFrame c (fp_dirty c)
unfolding fp_dirty has_system
fp_dirty-frame c = ground arith

enter_trap-frame :
    (c : Cpu) (sys : SysCsrs) (cause tval : ℕ) (is_interrupt : Bool)
    → c.sys ≡ some sys
    → SameFrame c (
        refresh_jit_tlb_context
          (enter_trap (log_trap c cause is_interrupt) sys cause tval is_interrupt))
unfolding enter_trap log_trap refresh_jit_tlb_context has_system
enter_trap-frame c sys cause tval is_interrupt e = ground arith

-- A trap that is taken, or else the hart d.
pub take_trap-frame :
    (d c : Cpu) (cause tval : ℕ) (is_interrupt : Bool)
    → SameFrame d c
    → SameFrame d (trapped (take_trap c cause tval is_interrupt) d)
unfolding take_trap
take_trap-frame d c cause tval is_interrupt same = taken c.sys refl
  where
    taken :
        (o : Option SysCsrs)
        → c.sys ≡ o
        → SameFrame d (trapped (take_trap c cause tval is_interrupt) d)
    taken none e = ground arith
    taken (some sys) e = ground (arith, same, enter_trap-frame c sys cause tval is_interrupt e)

pub mret-frame : (c : Cpu) (insn : ℕ) → SameFrame c (mret c insn).0
unfolding mret refresh_jit_tlb_context has_system
mret-frame c insn = ground arith

pub sret-frame : (c : Cpu) (insn : ℕ) → SameFrame c (sret c insn).0
unfolding sret refresh_jit_tlb_context has_system
sret-frame c insn = ground arith

pub fence-frame : (c : Cpu) (insn : ℕ) → SameFrame c (fence insn c)
unfolding fence flush_tlb flush_tlb_page bump_map_generation has_system
fence-frame c insn = ground arith

-- One look at the interrupt lines.
pub check_interrupts-frame :
    (c : Cpu) (lines : ℕ) → SameFrame c (trapped (check_interrupts c lines).0 c)
unfolding check_interrupts has_system
check_interrupts-frame c lines = looked c.sys refl
  where
    looked : (o : Option SysCsrs) → c.sys ≡ o → SameFrame c (trapped (check_interrupts c lines).0 c)
    looked none e = ground arith
    looked (some before) e =
        selected
          (select (sample_lines before lines)
            (bit_and (sample_lines before lines).mip (sample_lines before lines).mie) priorities)
          refl
      where
        selected :
            (o : Option ℕ)
            → select
                (sample_lines before lines)
                (bit_and (sample_lines before lines).mip (sample_lines before lines).mie)
                priorities
              ≡ o
            → SameFrame c (trapped (check_interrupts c lines).0 c)
        selected none f = ground arith
        selected (some irq) f = ground (
          arith,
          take_trap-frame c (record c { sys = some (sample_lines before lines) }) irq 0 true
              (ground arith),
        )

module _ {M : Type 0} (bus : Bus M) where
  pub translate-frame :
      (c : Cpu) (m : M) (va : ℕ) (access : Access) → SameFrame c (translate bus c m va access).1
  unfolding translate translate_slow walk_root fill_tlb has_system
  translate-frame c m va access = ground arith

  pub fill_jtlb-frame :
      (c : Cpu) (m : M) (va pa : ℕ) (for_store : Bool)
      → SameFrame c (fill_jtlb bus m va pa for_store c)
  unfolding fill_jtlb set_jtlb has_system
  fill_jtlb-frame c m va pa for_store = ground arith
