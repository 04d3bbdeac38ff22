-- ===== src/Core/CsrAccess/Status.antt =====
-- Writing mstatus through its two views, and registers that hold what is written:
-- crates/rv64-core/src/cpu.rs, `csr_write` and `csr_read`.
use lish.Prelude.{
  ℕ, ◌^◌, ◌<◌, ◌≤◌, ◌≡◌, arith, some, true, bit, bit_and, shr, not64, if◌then◌else◌, ◌==◌,
}
use lish.Prelude.Bits.{bit-and, bit-or, bit-lt, bit-pow}
use lish.Prelude.Bits.Shift.{bit-clear}
use lish.Core.Csr.{SysCsrs, mode_bits}
use lish.Core.Csr.Address
use lish.Core.Csr.Bits.{sstatus_mask}
use lish.Core.Cpu.{Cpu, refresh_jit_tlb_context}
use lish.Core.CsrAccess.{
  forbidden, csr_read, csr_write, read_sys, read_supervisor, read_machine, write_any, write_sys,
  write_supervisor, write_machine, write_status, write_masked, mstatus_with_sd, sstatus_writable,
}

pub bit-write_masked :
    (m mask v k : ℕ)
    → mask < 2 ^ 64
    → k < 64
    → bit k (write_masked m mask v) ≡ (if bit k mask == 1 then bit k v else bit k m)
unfolding write_masked
bit-write_masked m mask v k fits lt = ground (
  arith,
  bit-or k (bit_and m (not64 mask)) (bit_and v mask),
  bit-clear m mask k fits lt,
  bit-and k v mask,
  bit-lt k m,
  bit-lt k v,
  bit-lt k mask,
)

-- What was written to these digits of sstatus is read back.
pub sstatus_read_back :
    (c : Cpu) (sys : SysCsrs) (v k : ℕ)
    → c.sys ≡ some sys
    → 1 ≤ mode_bits sys.mode
    → k < 63
    → bit k sstatus_writable ≡ 1
    → (r : ℕ) × (csr_read (csr_write c Address.sstatus v).0 Address.sstatus ≡ some r)
      × (bit k r ≡ bit k v)
unfolding csr_write csr_read read_sys read_supervisor forbidden write_any write_sys write_supervisor
    write_status refresh_jit_tlb_context mstatus_with_sd
sstatus_read_back c sys v k e h lt w =
    let m = write_masked sys.mstatus sstatus_writable v in
    let shown = mstatus_with_sd (record sys { mstatus = m }) in
    (
      bit_and shown sstatus_mask,
      ground arith,
      ground (
        arith,
        bit-and k shown sstatus_mask,
        bit-or k m (2 ^ 63),
        bit-pow 63 k,
        bit-and k sstatus_writable sstatus_mask,
        bit-lt k sstatus_mask,
        bit-lt k m,
        bit-write_masked sys.mstatus sstatus_writable v k (omega arith) (omega arith),
      ),
    )

-- The registers that hold any value.
pub data Plain : Type 0 where
  sscratch scause stval medeleg mie mscratch mcause mtval : Plain

unfoldable pub address : Plain → ℕ
address sscratch = Address.sscratch
address scause = Address.scause
address stval = Address.stval
address medeleg = Address.medeleg
address mie = Address.mie
address mscratch = Address.mscratch
address mcause = Address.mcause
address mtval = Address.mtval

-- A permitted write of one of them succeeds, and the value is read back.
pub plain_read_back :
    (c : Cpu) (sys : SysCsrs) (p : Plain) (v : ℕ)
    → c.sys ≡ some sys
    → bit_and (shr (address p) 8) 3 ≤ mode_bits sys.mode
    → ((csr_write c (address p) v).1 ≡ true)
      × (csr_read (csr_write c (address p) v).0 (address p) ≡ some v)
unfolding csr_write csr_read read_sys read_supervisor read_machine forbidden write_any write_sys
    write_supervisor write_machine address
plain_read_back c sys sscratch v e h = ground arith
plain_read_back c sys p v e h = ground arith
