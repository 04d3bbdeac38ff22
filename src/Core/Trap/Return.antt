-- ===== src/Core/Trap/Return.antt =====
-- A trap followed by the return from its handler: crates/rv64-core/src/cpu.rs, `take_trap` with the MRET
-- and SRET arms of `execute_decoded`.
use lish.Prelude.{
  ap, false, ◌==◌, ◌||◌, ◌&&◌, not, ℕ, ◌<◌, ◌≡◌, ◌≢◌, refl, ◌∙◌, arith, Bool, some, bit, ◌!=◌,
  if◌then◌else◌, bit_and, shr,
}
use lish.Core.Csr.{SysCsrs, Mode, user, supervisor, machine, from_bits, is_machine}
use lish.Core.Csr.Bits.{mstatus_mpp, mstatus_spp, mstatus_tsr}
use lish.Core.Cpu.{Cpu, refresh_jit_tlb_context}
use lish.Core.Cpu.Context.{InSync, refresh-InSync}
use lish.Core.Exception.{ok, err, illegal_instruction}
use lish.Core.Trap.{
  enter_s, enter_m, mstatus_to_s, mstatus_to_m, mstatus_mret, mstatus_sret, mret, sret,
}
use lish.Core.Trap.Digits.{
  mstatus_to_s-digits, mstatus_to_m-digits, mstatus_mret-digits, mstatus_sret-digits, spp_test,
  from_bits-of_mode,
}

-- In the state after a trap to M-mode, MRET goes back to the interrupted program counter and mode;
-- in mstatus MPIE is then set, MPP clear, and MPRV clear unless the mode is M, and every other digit
-- is as it was before the trap. Compiled code sees the new context.
pub mret_undoes_trap :
    (c : Cpu) (sys : SysCsrs) (pc cause tval insn k : ℕ) (is_interrupt : Bool)
    → c.sys ≡ some (enter_m sys pc cause tval is_interrupt)
    → k < 64
    → (after : SysCsrs) × ((mret c insn).1 ≡ ok pc)
      × ((mret c insn).0.sys ≡ some after)
      × (after.mode ≡ sys.mode)
      × (bit k after.mstatus ≡ (
          if k == 7
          then 1
          else if k == 11 || k == 12
          then 0
          else if k == 17 && not (is_machine sys.mode)
          then 0
          else bit k sys.mstatus))
      × InSync (mret c insn).0
unfolding mret enter_m refresh_jit_tlb_context
mret_undoes_trap c sys pc cause tval insn k is_interrupt e lt =
    let entered = mstatus_to_m sys.mstatus sys.mode in
    let mpp = from_bits (shr (bit_and entered mstatus_mpp) 11) in
    let back : mpp ≡ sys.mode =
      from_bits-of_mode entered sys.mode
        (mstatus_to_m-digits sys.mstatus sys.mode 11 (omega arith) ∙ ground arith)
        (mstatus_to_m-digits sys.mstatus sys.mode 12 (omega arith) ∙ ground arith) in
    let after = record (enter_m sys pc cause tval is_interrupt) {
      mstatus = mstatus_mret entered mpp;
      mode = mpp;
    } in
    (
      after,
      ground arith,
      ground arith,
      back,
      ground (
        arith,
        ap is_machine back,
        mstatus_mret-digits entered mpp k lt,
        mstatus_to_m-digits sys.mstatus sys.mode k lt,
        mstatus_to_m-digits sys.mstatus sys.mode 7 (omega arith),
      ),
      rw e (refresh-InSync (record c { irq_poll_cd = 0; sys = some after })).0,
    )

spp_of_trap :
    (m : ℕ) (mode : Mode)
    → mode ≢ machine
    → (if bit_and (mstatus_to_s m mode) mstatus_spp != 0 then supervisor else user) ≡ mode
spp_of_trap m user h =
    ground (arith, spp_test (mstatus_to_s m user), mstatus_to_s-digits m user 8 (omega arith))
spp_of_trap m supervisor h =
    ground (
      arith,
      spp_test (mstatus_to_s m supervisor),
      mstatus_to_s-digits m supervisor 8 (omega arith),
    )
spp_of_trap m machine h = absurd (h refl)

spp_below : (b : Bool) → is_machine (if b then supervisor else user) ≡ false
spp_below b = ground arith

-- In the state after a trap to S-mode from U- or S-mode, with TSR clear, SRET goes back to the
-- interrupted program counter and mode; in mstatus SPIE is then set, SPP and MPRV are clear, and
-- every other digit is as it was before the trap. Compiled code sees the new context.
pub sret_undoes_trap :
    (c : Cpu) (sys : SysCsrs) (pc cause tval insn k : ℕ) (is_interrupt : Bool)
    → c.sys ≡ some (enter_s sys pc cause tval is_interrupt)
    → k < 64
    → sys.mode ≢ machine
    → bit_and (mstatus_to_s sys.mstatus sys.mode) mstatus_tsr ≡ 0
    → (after : SysCsrs) × ((sret c insn).1 ≡ ok pc)
      × ((sret c insn).0.sys ≡ some after)
      × (after.mode ≡ sys.mode)
      × (bit k after.mstatus
          ≡ (if k == 5 then 1 else if k == 8 || k == 17 then 0 else bit k sys.mstatus))
      × InSync (sret c insn).0
unfolding sret enter_s refresh_jit_tlb_context
sret_undoes_trap c sys pc cause tval insn k is_interrupt e lt below tsr =
    let entered = mstatus_to_s sys.mstatus sys.mode in
    let spp = if bit_and entered mstatus_spp != 0 then supervisor else user in
    let after = record (enter_s sys pc cause tval is_interrupt) {
      mstatus = mstatus_sret entered spp;
      mode = spp;
    } in
    (
      after,
      ground arith,
      ground arith,
      spp_of_trap sys.mstatus sys.mode below,
      ground (
        arith,
        spp_below (bit_and entered mstatus_spp != 0),
        mstatus_sret-digits entered spp k lt,
        mstatus_to_s-digits sys.mstatus sys.mode k lt,
        mstatus_to_s-digits sys.mstatus sys.mode 5 (omega arith),
      ),
      ground (arith, (refresh-InSync (record c { irq_poll_cd = 0; sys = some after })).0),
    )

-- A return from too low a mode is an illegal instruction and leaves all but the poll countdown as
-- it was.
pub return_refused :
    (c : Cpu) (sys : SysCsrs) (insn : ℕ)
    → c.sys ≡ some sys
    → (sys.mode ≢ machine
        → mret c insn ≡ (record c { irq_poll_cd = 0 }, err (illegal_instruction insn)))
      × (sys.mode ≡ user
          → sret c insn ≡ (record c { irq_poll_cd = 0 }, err (illegal_instruction insn)))
unfolding mret sret
return_refused c sys insn e = (λ h. ground arith, λ h. ground arith)
