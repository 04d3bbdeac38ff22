-- ===== src/Core/CsrAccess.antt =====
-- Reading and writing control and status registers: crates/rv64-core/src/cpu.rs, `csr_read` and
-- `csr_write`.
pub mod Guards
pub mod Status
pub mod Counters
pub mod Sync
mod Tests
use lish.Prelude.{
  ℕ, ◌+◌, ◌-◌, ◌*◌, ◌/◌, ◌%◌, ◌^◌, Bool, true, false, ◌&&◌, ◌||◌, not, Option, none, some, ltb, leb,
  ◌==◌, ◌!=◌, if◌then◌else◌, get_or, set, add64, sub64, bit_and, bit_or, not64, not32, shl, shr,
}
use lish.Core.Csr.{SysCsrs, mode_bits, is_supervisor}
use lish.Core.Csr.Address
use lish.Core.Csr.Bits.{
  mstatus_sie, mstatus_mie, mstatus_spie, mstatus_mpie, mstatus_spp, mstatus_mpp, mstatus_fs,
  mstatus_mprv, mstatus_sum, mstatus_mxr, mstatus_tvm, mstatus_tw, mstatus_tsr, mstatus_sd,
  sstatus_mask, irq_ssip, irq_stip, irq_seip, misa_value,
}
use lish.Core.Cpu.{Cpu, refresh_jit_tlb_context, flush_tlb, bump_map_generation}

-- Bits 9 and 8 of the address name the lowest mode that may use the register.
unfoldable pub forbidden : Cpu → ℕ → Bool
forbidden c csr = elim c.sys [
  | none ↦ false
  | some sys ↦ ltb (mode_bits sys.mode) (bit_and (shr csr 8) 3)
]

abbrev pub in_pmpcfg : ℕ → Bool
in_pmpcfg csr = leb 0x3a0 csr && leb csr 0x3af && bit_and csr 1 == 0

abbrev pub in_pmpaddr : ℕ → Bool
in_pmpaddr csr = leb 0x3b0 csr && leb csr 0x3ef

abbrev pub is_counter : ℕ → Bool
is_counter csr = csr == Address.mcycle || csr == Address.minstret

-- The value of mstatus with SD, which says that the floating-point state is dirty.
unfoldable pub mstatus_with_sd : SysCsrs → ℕ
mstatus_with_sd sys =
    if bit_and sys.mstatus mstatus_fs == mstatus_fs
    then bit_or sys.mstatus mstatus_sd
    else sys.mstatus

-- S-mode may not touch satp while TVM is set.
unfoldable pub tvm_traps : SysCsrs → Bool
tvm_traps sys = is_supervisor sys.mode && bit_and sys.mstatus mstatus_tvm != 0

unfoldable pub read_supervisor : SysCsrs → ℕ → Option ℕ
read_supervisor sys csr =
    if csr == Address.sstatus
    then some (bit_and (mstatus_with_sd sys) sstatus_mask)
    else if csr == Address.sie
    then some (bit_and sys.mie sys.mideleg)
    else if csr == Address.stvec
    then some sys.stvec
    else if csr == Address.scounteren
    then some sys.scounteren
    else if csr == Address.sscratch
    then some sys.sscratch
    else if csr == Address.sepc
    then some sys.sepc
    else if csr == Address.scause
    then some sys.scause
    else if csr == Address.stval
    then some sys.stval
    else if csr == Address.sip
    then some (bit_and sys.mip sys.mideleg)
    else if csr == Address.satp
    then (if tvm_traps sys then none else some sys.satp)
    else none

unfoldable pub read_machine : SysCsrs → ℕ → Option ℕ
read_machine sys csr =
    if csr == 0x7a0
    then some 1
    else if leb 0x7a1 csr && leb csr 0x7a3 || csr == 0x7a5
    then some 0
    else if csr == Address.mstatus
    then some (mstatus_with_sd sys)
    else if csr == Address.misa
    then some misa_value
    else if csr == Address.medeleg
    then some sys.medeleg
    else if csr == Address.mideleg
    then some sys.mideleg
    else if csr == Address.mie
    then some sys.mie
    else if csr == Address.mtvec
    then some sys.mtvec
    else if csr == Address.mcounteren
    then some sys.mcounteren
    else if csr == Address.mscratch
    then some sys.mscratch
    else if csr == Address.mepc
    then some sys.mepc
    else if csr == Address.mcause
    then some sys.mcause
    else if csr == Address.mtval
    then some sys.mtval
    else if csr == Address.mip
    then some sys.mip
    else if csr == Address.mvendorid || csr == Address.marchid || csr == Address.mimpid
    then some 0
    else if csr == Address.mhartid
    then some sys.mhartid
    else none

-- The supervisor registers lie below 0x200, the machine registers above.
unfoldable pub read_sys : SysCsrs → ℕ → Option ℕ
read_sys sys csr = if ltb csr 0x200 then read_supervisor sys csr else read_machine sys csr

unfoldable pub read_counter : Cpu → ℕ
read_counter c =
    let off : ℕ = elim c.sys [ none ↦ 0 | some s ↦ s.minstret_off ] in add64 c.insn_count off

unfoldable pub read_time : Cpu → ℕ
read_time c = elim c.sys [
  | none ↦ c.insn_count
  | some s ↦
      if s.time_scale == 0 then s.mtime else add64 (c.insn_count / s.time_scale) s.time_offset
]

unfoldable pub csr_read : Cpu → ℕ → Option ℕ
csr_read c csr =
    if forbidden c csr
    then none
    else if csr == Address.fflags
    then some (bit_and c.fcsr 0x1f)
    else if csr == Address.frm
    then some (bit_and (shr c.fcsr 5) 7)
    else if csr == Address.fcsr
    then some c.fcsr
    else if csr == Address.cycle || csr == Address.instret || is_counter csr
    then some (read_counter c)
    else if csr == Address.time
    then some (read_time c)
    else elim c.sys [
      | none ↦ none
      | some sys ↦
          if in_pmpcfg csr
          then some (get_or sys.pmpcfg ((csr - 0x3a0) / 2) 0)
          else if in_pmpaddr csr
          then some (get_or sys.pmpaddr (csr - 0x3b0) 0)
          else read_sys sys csr
    ]

-- The digits of `m` outside the mask, and those of `v` inside it.
unfoldable pub write_masked : ℕ → ℕ → ℕ → ℕ
write_masked m mask v = bit_or (bit_and m (not64 mask)) (bit_and v mask)

abbrev pub sstatus_writable : ℕ
sstatus_writable =
    bit_or
      (bit_or (bit_or (bit_or (bit_or mstatus_sie mstatus_spie) mstatus_spp) mstatus_fs)
        mstatus_sum)
      mstatus_mxr

abbrev pub mstatus_writable : ℕ
mstatus_writable =
    bit_or
      (bit_or
        (bit_or
          (bit_or
            (bit_or
              (bit_or
                (bit_or
                  (bit_or
                    (bit_or
                      (bit_or (bit_or (bit_or mstatus_sie mstatus_mie) mstatus_spie) mstatus_mpie)
                      mstatus_spp)
                    mstatus_mpp)
                  mstatus_fs)
                mstatus_mprv)
              mstatus_sum)
            mstatus_mxr)
          mstatus_tvm)
        mstatus_tw)
      mstatus_tsr

abbrev pub mip_writable : ℕ
mip_writable = bit_or (bit_or irq_ssip irq_stip) irq_seip

abbrev with_sys : Cpu → SysCsrs → Cpu
with_sys c sys = record c { sys = some sys }

unfoldable pub write_status : Cpu → SysCsrs → ℕ → ℕ → Cpu
write_status c sys mask v =
    refresh_jit_tlb_context (with_sys c (record sys { mstatus = write_masked sys.mstatus mask v }))

-- A write of satp with an unknown mode is ignored; any other flushes the translation caches, and
-- starts a new generation if the value changes.
unfoldable pub write_satp : Cpu → SysCsrs → ℕ → Cpu × Bool
write_satp c sys v =
    let mode = shr v 60 in
    if tvm_traps sys
    then (c, false)
    else if mode == 0 || mode == 8 || mode == 9
    then (
      let flushed = flush_tlb (with_sys c (record sys { satp = v })) in
          if sys.satp != v
          then bump_map_generation
              (record flushed { jit_flush_gen = add64 flushed.jit_flush_gen 1 })
          else flushed,
      true,
    )
    else (c, true)

unfoldable pub write_supervisor : Cpu → SysCsrs → ℕ → ℕ → Cpu × Bool
write_supervisor c sys csr v =
    if csr == Address.sstatus
    then (write_status c sys sstatus_writable v, true)
    else if csr == Address.sie
    then (with_sys c (record sys { mie = write_masked sys.mie sys.mideleg v }), true)
    else if csr == Address.stvec
    then (with_sys c (record sys { stvec = bit_and v (not64 2) }), true)
    else if csr == Address.scounteren
    then (with_sys c (record sys { scounteren = bit_and v 7 }), true)
    else if csr == Address.sscratch
    then (with_sys c (record sys { sscratch = v }), true)
    else if csr == Address.sepc
    then (with_sys c (record sys { sepc = bit_and v (not64 1) }), true)
    else if csr == Address.scause
    then (with_sys c (record sys { scause = v }), true)
    else if csr == Address.stval
    then (with_sys c (record sys { stval = v }), true)
    else if csr == Address.sip
    then (
      with_sys c (record sys { mip = write_masked sys.mip (bit_and irq_ssip sys.mideleg) v }),
      true,
    )
    else if csr == Address.satp
    then write_satp c sys v
    else (c, false)

unfoldable pub write_machine : Cpu → SysCsrs → ℕ → ℕ → Cpu × Bool
write_machine c sys csr v =
    if csr == Address.mstatus
    then (write_status c sys mstatus_writable v, true)
    else if csr == Address.medeleg
    then (with_sys c (record sys { medeleg = v }), true)
    else if csr == Address.mideleg
    then (with_sys c (record sys { mideleg = bit_and v mip_writable }), true)
    else if csr == Address.mie
    then (with_sys c (record sys { mie = v }), true)
    else if csr == Address.mtvec
    then (with_sys c (record sys { mtvec = bit_and v (not64 2) }), true)
    else if csr == Address.mcounteren
    then (with_sys c (record sys { mcounteren = bit_and v 7 }), true)
    else if csr == Address.mscratch
    then (with_sys c (record sys { mscratch = v }), true)
    else if csr == Address.mepc
    then (with_sys c (record sys { mepc = bit_and v (not64 1) }), true)
    else if csr == Address.mcause
    then (with_sys c (record sys { mcause = v }), true)
    else if csr == Address.mtval
    then (with_sys c (record sys { mtval = v }), true)
    else if csr == Address.mip
    then (with_sys c (record sys { mip = write_masked sys.mip mip_writable v }), true)
    else (c, false)

unfoldable pub write_sys : Cpu → SysCsrs → ℕ → ℕ → Cpu × Bool
write_sys c sys csr v =
    if in_pmpcfg csr
    then (with_sys c (record sys { pmpcfg = set sys.pmpcfg ((csr - 0x3a0) / 2) v }), true)
    else if in_pmpaddr csr
    then (
      with_sys c (record sys {
        pmpaddr = set sys.pmpaddr (csr - 0x3b0) (bit_and v 0x003f_ffff_ffff_ffff);
      }),
      true,
    )
    else if ltb csr 0x200
    then write_supervisor c sys csr v
    else write_machine c sys csr v

-- A write of mcycle or minstret takes effect before the writing instruction retires.
unfoldable pub write_counter : Cpu → ℕ → Cpu
write_counter c v = elim c.sys [
  | none ↦ c
  | some sys ↦ with_sys c (record sys { minstret_off = sub64 v (add64 c.insn_count 1) })
]

-- The registers that need no privileged state, and then the others.
unfoldable pub write_any : Cpu → ℕ → ℕ → Cpu × Bool
write_any c csr v =
    if csr == Address.fflags
    then (
      record c { fcsr = bit_or (bit_and c.fcsr (not32 0x1f)) (bit_and (v % 2 ^ 32) 0x1f) },
      true,
    )
    else if csr == Address.frm
    then (
      record c { fcsr = bit_or (bit_and c.fcsr (not32 0xe0)) (shl (bit_and (v % 2 ^ 32) 7) 5) },
      true,
    )
    else if csr == Address.fcsr
    then (record c { fcsr = bit_and (v % 2 ^ 32) 0xff }, true)
    else if is_counter csr
    then (write_counter c v, true)
    else if leb 0x7a0 csr && leb csr 0x7a3 || csr == 0x7a5 || csr == Address.misa
    then (c, true)
    else elim c.sys [ none ↦ (c, false) | some sys ↦ write_sys c sys csr v ]

unfoldable pub csr_write : Cpu → ℕ → ℕ → Cpu × Bool
csr_write before csr v =
    let c = record before { irq_poll_cd = 0 } in
    if shr csr 10 == 3
    then (c, false)
    else if forbidden c csr
    then (c, false)
    else write_any c csr v
