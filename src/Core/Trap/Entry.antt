-- ===== src/Core/Trap/Entry.antt =====
-- What a trap does to the hart: crates/rv64-core/src/cpu.rs, `take_trap` and `exception_to_trap`.
use lish.Prelude.{
  ℕ, ◌+◌, ◌-◌, ◌*◌, ◌/◌, ◌%◌, ◌^◌, ◌<◌, ◌≡◌, refl, ap, ◌∙◌, arith, Bool, true, false, not, ◌&&◌,
  ◌||◌, none, some, ◌==◌, ◌!=◌, if◌then◌else◌, bit, bit_and, not64,
}
use lish.Prelude.Bits.{or_comm}
use lish.Prelude.Bits.Fields.{and_mask, and_high, or_fields}
use lish.Prelude.Bits.Shift.{test_lem}
use lish.Core.Csr.{SysCsrs, Mode, user, supervisor, machine, mode_bits, is_machine, is_supervisor}
use lish.Core.Cpu.{Cpu, refresh_jit_tlb_context}
use lish.Core.Cpu.Context.{InSync, refresh-InSync}
use lish.Core.Exception.{Exception, cause}
use lish.Core.Trap.{
  take_trap, enter_trap, enter_s, enter_m, log_trap, delegated, vector, trap_of, cause_value,
  mstatus_to_s, mstatus_to_m,
}
use lish.Core.Trap.Digits.{mstatus_to_s-digits, mstatus_to_m-digits}

-- The two tables of exception codes agree.
pub trap_of-cause : (e : Exception) (pc : ℕ) → (trap_of e pc).0 ≡ cause e
unfolding trap_of cause
trap_of-cause e pc = ground arith

-- The entry of a trap vector: the base, with its two low digits dropped, or for an interrupt in the
-- vectored mode the word of the cause after it.
abbrev pub entry : ℕ → ℕ → Bool → ℕ
entry tvec cause is_interrupt =
    if tvec % 4 == 1 && is_interrupt
    then (tvec % 2 ^ 64 / 4 * 4 + 4 * cause) % 2 ^ 64
    else tvec % 2 ^ 64 / 4 * 4

-- The code of a cause: an interrupt has the highest digit set.
abbrev pub code : ℕ → Bool → ℕ
code cause is_interrupt = if is_interrupt then cause + 2 ^ 63 else cause

-- Whether a trap is for S-mode: the hart is below M-mode, and the digit of the cause is set in the
-- register that delegates.
abbrev pub is_for_s : SysCsrs → ℕ → Bool → Bool
is_for_s sys cause is_interrupt =
    not (is_machine sys.mode) && bit cause (if is_interrupt then sys.mideleg else sys.medeleg) == 1

vector-entry :
    (tvec cause : ℕ) (is_interrupt : Bool)
    → vector tvec cause is_interrupt ≡ entry tvec cause is_interrupt
unfolding vector
vector-entry tvec cause is_interrupt =
    let low : bit_and tvec 3 ≡ tvec % 4 = and_mask 2 tvec in
    let base : bit_and tvec (not64 3) ≡ tvec % 2 ^ 64 / 4 * 4 =
      omega (arith, and_high 2 tvec (2 ^ 62 - 1), and_mask 62 (tvec / 4)) in
    rw (low, base) refl

cause_value-code :
    (cause : ℕ) (is_interrupt : Bool)
    → cause < 64
    → cause_value cause is_interrupt ≡ code cause is_interrupt
unfolding cause_value
cause_value-code cause false lt = refl
cause_value-code cause true lt = or_comm (2 ^ 63) cause ∙ or_fields 63 1 cause (omega arith)

delegated-is_for_s :
    (sys : SysCsrs) (cause : ℕ) (is_interrupt : Bool)
    → cause < 64
    → delegated sys cause is_interrupt ≡ is_for_s sys cause is_interrupt
unfolding delegated
delegated-is_for_s sys cause is_interrupt lt =
    let low : bit_and cause 63 ≡ cause = omega (arith, and_mask 6 cause) in
    let word = if is_interrupt then sys.mideleg else sys.medeleg in
    ap (λ (t : ℕ). not (is_machine sys.mode) && bit_and word (2 ^ t) != 0) low
    ∙ ap (λ (t : Bool). not (is_machine sys.mode) && t) (test_lem word cause)

mode_digits :
    (mode : Mode)
    → (bit 0 (mode_bits mode) ≡ (if is_machine mode || is_supervisor mode then 1 else 0))
      × (bit 1 (mode_bits mode) ≡ (if is_machine mode then 1 else 0))
unfolding mode_bits bit
mode_digits user = (refl, refl)
mode_digits supervisor = (refl, refl)
mode_digits machine = (refl, refl)

-- On a hart with privileged state, a trap with a cause below 64 that comes from below M-mode and is
-- delegated enters S-mode, and any other M-mode. The registers of that mode then hold the code of the cause, the value and the
-- program counter, and the hart goes on at its vector, in vectored mode for an interrupt at the
-- entry of the cause. In mstatus the interrupt enable of the mode is saved and cleared and the old
-- mode is saved, and every other of the 64 digits is kept, as are the other privileged registers and
-- the integer registers. The reservation is dropped, the next step polls for interrupts, the
-- translation caches are kept and compiled code sees the new context.
pub take_trap_cases :
    (c : Cpu) (sys : SysCsrs) (cause tval k : ℕ) (is_interrupt : Bool)
    → c.sys ≡ some sys
    → cause < 64
    → k < 64
    → let for_s = is_for_s sys cause is_interrupt in
      (c' : Cpu) × (m : ℕ) × (take_trap c cause tval is_interrupt ≡ some c')
      × (c'.pc ≡ entry (if for_s then sys.stvec else sys.mtvec) cause is_interrupt)
      × (c'.sys
          ≡ some (
              if for_s
              then record sys {
                mode = supervisor;
                scause = code cause is_interrupt;
                stval = tval;
                sepc = c.pc;
                mstatus = m;
              }
              else record sys {
                mode = machine;
                mcause = code cause is_interrupt;
                mtval = tval;
                mepc = c.pc;
                mstatus = m;
              }))
      × (bit k m ≡ (
          if for_s
          then (if k == 5
              then bit 1 sys.mstatus
              else if k == 1
              then 0
              else if k == 8
              then (if is_supervisor sys.mode then 1 else 0)
              else bit k sys.mstatus)
          else if k == 7
          then bit 3 sys.mstatus
          else if k == 3
          then 0
          else if k == 11 || k == 12
          then (if is_machine sys.mode || is_supervisor sys.mode && k == 11 then 1 else 0)
          else bit k sys.mstatus))
      × (c'.x ≡ c.x)
      × (c'.reservation ≡ none)
      × (c'.irq_poll_cd ≡ 0)
      × (c'.tlb_tag ≡ c.tlb_tag)
      × (c'.jtlb_tag ≡ c.jtlb_tag)
      × InSync c'
unfolding take_trap enter_trap log_trap refresh_jit_tlb_context enter_s enter_m
take_trap_cases c sys cause tval k is_interrupt e small lt =
    let for_s = is_for_s sys cause is_interrupt in
    let goes = delegated-is_for_s sys cause is_interrupt small in
    let value = cause_value-code cause is_interrupt small in
    let entered = enter_trap (log_trap c cause is_interrupt) sys cause tval is_interrupt in
    let m =
      if for_s then mstatus_to_s sys.mstatus sys.mode else mstatus_to_m sys.mstatus sys.mode in
    (
      refresh_jit_tlb_context entered,
      m,
      rw e refl,
      ground (
        arith,
        goes,
        vector-entry sys.stvec cause is_interrupt,
        vector-entry sys.mtvec cause is_interrupt,
      ),
      ground (arith, goes, value),
      ground (
        arith,
        mstatus_to_s-digits sys.mstatus sys.mode k lt,
        mstatus_to_m-digits sys.mstatus sys.mode k lt,
        mode_digits sys.mode,
      ),
      ground arith,
      ground arith,
      ground arith,
      ground arith,
      ground arith,
      (refresh-InSync entered).0,
    )

-- In M-mode no trap is delegated.
pub delegated_below_m :
    (sys : SysCsrs) (cause : ℕ) (is_interrupt : Bool)
    → sys.mode ≡ machine
    → delegated sys cause is_interrupt ≡ false
unfolding delegated
delegated_below_m sys cause is_interrupt e = ground arith
