-- ===== src/Core/SystemOps/ReadOnly.antt =====
-- CSR instructions that only read: crates/rv64-core/src/cpu.rs, CSRRS and CSRRC.
use lish.Prelude.{ℕ, ◌≡◌, arith, ◌<◌, some, bit_and, shr}
use lish.Core.Exception.{ok}
use lish.Core.Cpu.{Cpu, wr}
use lish.Core.CsrAccess.{csr_read}
use lish.Core.Decode.{rd, rs1, funct3}
use lish.Core.Run.{◌>>=◌, ◌>>◌, return, throw, get, modify, require}
use lish.Core.SystemOps.{zicsr, csr_new, write_csr}

module _ {M : Type 0} where
  -- CSRRS and CSRRC with x0, or with a zero immediate, read a register without the checks and
  -- effects of a write: the destination gets the value and nothing else of the hart changes, if the
  -- register is readable and not one of those of the floating-point state.
  pub zicsr_reads :
      (c : Cpu) (m : M) (insn old : ℕ)
      → 1 < bit_and (funct3 insn) 3
      → rs1 insn ≡ 0
      → 3 < shr insn 20
      → csr_read c (shr insn 20) ≡ some old
      → zicsr insn c m ≡ (ok tt, wr c (rd insn) old, m)
  unfolding zicsr csr_new write_csr ◌>>=◌ ◌>>◌ return throw get modify require
  zicsr_reads c m insn old f z h e = ground arith
