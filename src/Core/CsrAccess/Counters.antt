-- ===== src/Core/CsrAccess/Counters.antt =====
-- The retired-instruction counter: crates/rv64-core/src/cpu.rs, MCYCLE and MINSTRET.
use lish.Prelude.{ℕ, ◌+◌, ◌%◌, ◌^◌, ◌<◌, ◌≡◌, arith, some, true}
use lish.Core.Csr.{SysCsrs, machine, mode_bits}
use lish.Core.Csr.Address
use lish.Core.Cpu.{Cpu}
use lish.Core.CsrAccess.{forbidden, csr_read, csr_write, read_counter, write_any, write_counter}

-- In M-mode, while the instruction count fits 64 bits, a value written to minstret is what a read
-- returns after the writing instruction has retired, and n instructions later the read returns n
-- more, modulo 2 ^ 64.
pub minstret_counts :
    (c : Cpu) (sys : SysCsrs) (v n : ℕ)
    → c.sys ≡ some sys
    → sys.mode ≡ machine
    → v < 2 ^ 64
    → c.insn_count + 1 + n < 2 ^ 64
    → let (c', done) = csr_write c Address.minstret v in
      (done ≡ true)
      × (csr_read (record c' { insn_count = c.insn_count + 1 + n }) Address.minstret
          ≡ some ((v + n) % 2 ^ 64))
unfolding csr_write csr_read forbidden write_any write_counter read_counter mode_bits
minstret_counts c sys v n e m fits room = ground arith
