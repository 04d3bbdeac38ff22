-- ===== src/Core/Trap/Tests.antt =====
-- Runs of trap entry and return, crates/rv64-core/src/cpu.rs.
use lish.Prelude.{
  ℕ, ◌≡◌, refl, true, false, none, some, not, ◌||◌, ◌&&◌, ◌==◌, if◌then◌else◌, bit, arith, ◌≢◌,
}
use lish.Core.Exception.{ok}
use lish.Core.Csr
use lish.Core.Csr.{SysCsrs, user, supervisor, machine, is_machine}
use lish.Core.Cpu
use lish.Core.Cpu.{Cpu}
use lish.Core.Cpu.Context.{InSync}
use lish.Core.Trap.{
  delegated, enter_s, enter_m, vector, take_trap, mret, sret, sample_lines, check_interrupts,
  mstatus_to_s, deliverable,
}
use lish.Core.Trap.Entry.{take_trap_cases}
use lish.Core.Trap.Return.{mret_undoes_trap}
use lish.Core.Trap.Interrupts.{check_interrupts_lem, deliverable-delegated}

-- A hart in S-mode with interrupts on, page faults and the timer delegated.
abbrev kernel : SysCsrs
kernel = record Csr.new {
  mode = supervisor;
  mstatus = 0x2;
  medeleg = 0xb000;
  mideleg = 0x20;
  mie = 0x20;
  stvec = 0x8000_0000;
  mtvec = 0x9000_0001;
}

abbrev hart : Cpu
hart = record Cpu.new { pc = 0x1234; sys = some kernel }

-- A load page fault, which goes to S-mode: SPIE takes the digit of SIE.
take_trap_cases_example :
    (c' : Cpu) × (m : ℕ) × (take_trap hart 13 0x5000 false ≡ some c')
    × (c'.pc ≡ 0x8000_0000)
    × (c'.sys
        ≡ some (record kernel {
          mode = supervisor;
          scause = 13;
          stval = 0x5000;
          sepc = 0x1234;
          mstatus = m;
        }))
    × (bit 5 m ≡ 1)
    × (c'.x ≡ hart.x)
    × (c'.reservation ≡ none)
    × (c'.irq_poll_cd ≡ 0)
    × (c'.tlb_tag ≡ hart.tlb_tag)
    × (c'.jtlb_tag ≡ hart.jtlb_tag)
    × InSync c'
unfolding bit
take_trap_cases_example =
    take_trap_cases hart kernel 13 0x5000 5 false refl (omega arith) (omega arith)

abbrev in_m : Cpu
in_m = record hart { sys = some (enter_m kernel 0x1234 2 0 false) }

mret_undoes_trap_example :
    (after : SysCsrs) × ((mret in_m 0x3020_0073).1 ≡ ok 0x1234)
    × ((mret in_m 0x3020_0073).0.sys ≡ some after)
    × (after.mode ≡ kernel.mode)
    × (bit 1 after.mstatus ≡ (
        if 1 == 7
        then 1
        else if 1 == 11 || 1 == 12
        then 0
        else if 1 == 17 && not (is_machine kernel.mode)
        then 0
        else bit 1 kernel.mstatus))
    × InSync (mret in_m 0x3020_0073).0
mret_undoes_trap_example =
    mret_undoes_trap in_m kernel 0x1234 2 0 0x3020_0073 1 false refl (omega arith)

abbrev in_s : Cpu
in_s = record hart { sys = some (enter_s kernel 0x1234 13 0x5000 false) }

not_machine : kernel.mode ≢ machine
not_machine e = ground arith

-- The timer interrupt of S-mode is pending in mip.
abbrev timer_due : SysCsrs
timer_due = record kernel { mip = 0x20 }

-- The line of the M-mode timer is up, but that interrupt is not enabled.
check_interrupts_lem_example :
    (m : ℕ) × (bit 7 m ≡ 1)
    × (check_interrupts (record hart { sys = some timer_due }) 0x80
        ≡ (take_trap (record hart { sys = some (record timer_due { mip = m }) }) 5 0 true, true))
unfolding bit
check_interrupts_lem_example =
    check_interrupts_lem (record hart { sys = some timer_due }) timer_due 0x80 7 refl (omega arith)

deliverable-delegated_example : delegated kernel 5 true ≡ true
unfolding deliverable lish.Core.Trap.s_enabled
deliverable-delegated_example = deliverable-delegated kernel 5 (omega arith) refl
