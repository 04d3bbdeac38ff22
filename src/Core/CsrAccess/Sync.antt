-- ===== src/Core/CsrAccess/Sync.antt =====
-- What compiled code sees of the permission context after a write: crates/rv64-core/src/cpu.rs,
-- `csr_write`.
use lish.Prelude.{ℕ, ◌^◌, ◌<◌, ◌≡◌, refl, arith, some, none, Option, add64, sub64}
use lish.Core.Csr.{SysCsrs}
use lish.Core.Cpu.{Cpu, translation_context, jit_tlb_context_tag, flush_tlb, sys_context, data_mode}
use lish.Core.Cpu.Context.{InSync, refresh-InSync, bump-InSync}
use lish.Core.CsrAccess.{
  csr_write, write_any, write_sys, write_supervisor, write_machine, write_status, write_satp,
  write_counter, write_masked, sstatus_writable, mstatus_writable,
}

-- The context depends on the mode and mstatus alone.
same_context :
    (c : Cpu) (sys new : SysCsrs)
    → c.sys ≡ some sys
    → new.mode ≡ sys.mode
    → new.mstatus ≡ sys.mstatus
    → InSync c
    → InSync (record c { sys = some new })
unfolding translation_context jit_tlb_context_tag sys_context data_mode
same_context c sys new e m s v = ground arith

write_status-InSync : (c : Cpu) (sys : SysCsrs) (mask v : ℕ) → InSync (write_status c sys mask v)
unfolding write_status
write_status-InSync c sys mask v =
    (refresh-InSync
      (record c { sys = some (record sys { mstatus = write_masked sys.mstatus mask v }) })).0

write_satp-InSync :
    (c : Cpu) (sys : SysCsrs) (v : ℕ)
    → c.sys ≡ some sys
    → c.map_gen < 2 ^ 64
    → InSync c
    → InSync (write_satp c sys v).0
unfolding write_satp flush_tlb jit_tlb_context_tag translation_context
write_satp-InSync c sys v e fits s =
    let flushed = record (flush_tlb (record c { sys = some (record sys { satp = v }) })) {
      jit_flush_gen = add64 c.jit_flush_gen 1;
    } in
    let kept = same_context c sys (record sys { satp = v }) e refl refl s in
    ground (arith, kept, (bump-InSync flushed fits kept).0)

write_supervisor-InSync :
    (c : Cpu) (sys : SysCsrs) (csr v : ℕ)
    → c.sys ≡ some sys
    → c.map_gen < 2 ^ 64
    → InSync c
    → InSync (write_supervisor c sys csr v).0
unfolding write_supervisor translation_context jit_tlb_context_tag sys_context data_mode
write_supervisor-InSync c sys csr v e fits s =
    ground (arith, write_satp-InSync c sys v e fits s, write_status-InSync c sys sstatus_writable v)

write_machine-InSync :
    (c : Cpu) (sys : SysCsrs) (csr v : ℕ)
    → c.sys ≡ some sys
    → InSync c
    → InSync (write_machine c sys csr v).0
unfolding write_machine translation_context jit_tlb_context_tag sys_context data_mode
write_machine-InSync c sys csr v e s = ground (arith, write_status-InSync c sys mstatus_writable v)

write_sys-InSync :
    (c : Cpu) (sys : SysCsrs) (csr v : ℕ)
    → c.sys ≡ some sys
    → c.map_gen < 2 ^ 64
    → InSync c
    → InSync (write_sys c sys csr v).0
unfolding write_sys translation_context jit_tlb_context_tag sys_context data_mode
write_sys-InSync c sys csr v e fits s =
    ground
      (arith, write_supervisor-InSync c sys csr v e fits s, write_machine-InSync c sys csr v e s)

write_counter-InSync :
    (c : Cpu) (v : ℕ) (o : Option SysCsrs) → c.sys ≡ o → InSync c → InSync (write_counter c v)
unfolding write_counter translation_context jit_tlb_context_tag
write_counter-InSync c v none e s = ground arith
write_counter-InSync c v (some sys) e s =
    let new = record sys { minstret_off = sub64 v (add64 c.insn_count 1) } in
    ground (arith, same_context c sys new e refl refl s)

write_any-InSync :
    (c : Cpu) (csr v : ℕ) (o : Option SysCsrs)
    → c.sys ≡ o
    → c.map_gen < 2 ^ 64
    → InSync c
    → InSync (write_any c csr v).0
unfolding write_any translation_context jit_tlb_context_tag
write_any-InSync c csr v none e fits s = ground (arith, write_counter-InSync c v none e s)
write_any-InSync c csr v (some sys) e fits s =
    ground (arith, write_counter-InSync c v (some sys) e s, write_sys-InSync c sys csr v e fits s)

-- If compiled code sees the current permission context, it still does after a write of any
-- register, permitted or not.
pub csr_write-InSync :
    (c : Cpu) (csr v : ℕ) → c.map_gen < 2 ^ 64 → InSync c → InSync (csr_write c csr v).0
unfolding csr_write translation_context jit_tlb_context_tag
csr_write-InSync c csr v fits s =
    ground (arith, write_any-InSync (record c { irq_poll_cd = 0 }) csr v c.sys refl fits s)
