-- ===== src/Core/Amo/Tests.antt =====
-- Runs of the atomics of crates/rv64-core/src/cpu.rs.
use lish.Prelude.{ℕ, ◌≡◌, refl, true, some, replicate}
use lish.Core.Csr
use lish.Core.Cpu
use lish.Core.Cpu.{Cpu, wr}
use lish.Core.Exception.{ok}
use lish.Core.Bus.{FlatMemory, flat_bus}
use lish.Core.Trap.{take_trap}
use lish.Core.SystemOps.{trapped}
use lish.Core.Amo.{store_conditional, release}
use lish.Core.Amo.Reserve.{sc_after_trap}

-- The words -1 and 1: the signed and the unsigned order differ.
abbrev all_ones : ℕ
all_ones = 0xffff_ffff

abbrev hart : Cpu
hart = record Cpu.new { sys = some Csr.new; reservation = some 16 }

abbrev memory : FlatMemory
memory = record { base = 0; mem = replicate 32 0 }

-- The hart after a timer interrupt.
abbrev handler : Cpu
handler = trapped (take_trap hart 7 0 true) hart

sc_after_trap_example :
    store_conditional flat_bus true 5 16 99 handler memory
    ≡ (ok tt, release (wr handler 5 1), memory)
unfolding take_trap
sc_after_trap_example = sc_after_trap flat_bus hart handler memory 7 0 5 16 99 true true refl
