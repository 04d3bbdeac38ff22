-- ===== src/Core/CsrAccess/Guards.antt =====
-- Who may use a register: crates/rv64-core/src/cpu.rs, the guards of `csr_read` and `csr_write`.
use lish.Prelude.{ℕ, ◌<◌, ◌≡◌, arith, none, some, false, bit_and, shr}
use lish.Core.Csr.{SysCsrs, mode_bits}
use lish.Core.Cpu.{Cpu}
use lish.Core.CsrAccess.{forbidden, csr_read, csr_write}

-- A register above the mode of a hart can be neither read nor written: the attempt changes nothing
-- but the poll countdown.
csr_privileged :
    (c : Cpu) (sys : SysCsrs) (csr v : ℕ)
    → c.sys ≡ some sys
    → mode_bits sys.mode < bit_and (shr csr 8) 3
    → (csr_read c csr ≡ none) × (csr_write c csr v ≡ (record c { irq_poll_cd = 0 }, false))
unfolding csr_read csr_write forbidden
csr_privileged c sys csr v e h = (ground arith, ground arith)

-- A register of the read-only region cannot be written from any mode.
pub csr_read_only :
    (c : Cpu) (csr v : ℕ)
    → shr csr 10 ≡ 3
    → csr_write c csr v ≡ (record c { irq_poll_cd = 0 }, false)
unfolding csr_write
csr_read_only c csr v h = ground arith
