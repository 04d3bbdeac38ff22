-- ===== src/Core/CsrAccess/Tests.antt =====
-- Runs of the register accesses, crates/rv64-core/src/cpu.rs.
use lish.Prelude.{ℕ, ◌≡◌, refl, false, some, bit, arith}
use lish.Core.Csr
use lish.Core.Csr.{SysCsrs, user, supervisor, machine, mode_bits}
use lish.Core.Csr.Address
use lish.Core.Cpu
use lish.Core.Cpu.{
  Cpu, sys_context, translation_context, jit_tlb_context_tag, refresh_jit_tlb_context,
  translation_tag, data_mode, flag,
}
use lish.Core.Cpu.Context.{InSync}
use lish.Core.CsrAccess.{csr_read, csr_write}
use lish.Core.CsrAccess.Guards.{csr_read_only}
use lish.Core.CsrAccess.Status.{sstatus_read_back}
use lish.Core.CsrAccess.Sync.{csr_write-InSync}

abbrev kernel : SysCsrs
kernel = record Csr.new { mode = supervisor; mstatus = 0x1808 }

abbrev hart : Cpu
hart = record Cpu.new { sys = some kernel; insn_count = 100 }

abbrev firmware : SysCsrs
firmware = Csr.new

abbrev boot_hart : Cpu
boot_hart = record Cpu.new { sys = some firmware; insn_count = 100 }

csr_read_only_example :
    csr_write boot_hart Address.mhartid 5 ≡ (record boot_hart { irq_poll_cd = 0 }, false)
csr_read_only_example = csr_read_only boot_hart Address.mhartid 5 refl

sstatus_read_back_example :
    (r : ℕ) × (csr_read (csr_write hart Address.sstatus 0x4_0102).0 Address.sstatus ≡ some r)
    × (bit 18 r ≡ bit 18 0x4_0102)
unfolding mode_bits bit
sstatus_read_back_example =
    sstatus_read_back hart kernel 0x4_0102 18 refl (omega arith) (omega arith) refl

abbrev synced : Cpu
synced = record hart { map_gen = 0x0050_0000_0000_0003 }

synced-InSync : InSync synced
unfolding jit_tlb_context_tag translation_context sys_context data_mode mode_bits
synced-InSync = refl

csr_write-InSync_example : InSync (csr_write synced Address.satp 0x8000_0000_0000_0001).0
csr_write-InSync_example =
    csr_write-InSync synced Address.satp 0x8000_0000_0000_0001 (omega arith) synced-InSync
