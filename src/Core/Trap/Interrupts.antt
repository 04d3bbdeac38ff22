-- ===== src/Core/Trap/Interrupts.antt =====
-- Which interrupt is taken: crates/rv64-core/src/cpu.rs, `check_interrupts`.
use lish.Prelude.{
  ℕ, ◌^◌, ◌<◌, ◌≡◌, ◌≢◌, refl, sym, ap, ◌∙◌, arith, Bool, true, false, not, some, none, Option,
  ◌==◌, ◌!=◌, ◌&&◌, ◌||◌, if◌then◌else◌, bit, bit_and, not64, Bool-cases, inl, inr,
}
use lish.Prelude.Bits.{bit-or, bit-and, bit-lt, bit-zero}
use lish.Prelude.Bits.Shift.{test_lem, bit-clear, bit-mask_4}
use lish.Prelude.Bits.Fields.{and_mask}
use lish.Core.Csr.{SysCsrs, supervisor, machine, is_user, is_supervisor, is_machine}
use lish.Core.Csr.Bits.{mstatus_mie, mstatus_sie}
use lish.Core.Cpu.{Cpu}
use lish.Core.Trap.{
  select, deliverable, m_enabled, s_enabled, delegated, sample_lines, check_interrupts, take_trap,
  priorities, hw_lines,
}

-- No interrupt fires from M-mode with MIE clear; none that is delegated fires from M-mode, or from
-- S-mode with SIE clear; and one that is not delegated always fires from below M-mode.
pub deliverable_table :
    (sys : SysCsrs) (irq : ℕ)
    → (sys.mode ≡ machine → bit_and sys.mstatus mstatus_mie ≡ 0 → deliverable sys irq ≡ false)
      × (bit_and sys.mideleg (2 ^ irq) ≢ 0 → sys.mode ≡ machine → deliverable sys irq ≡ false)
      × (bit_and sys.mideleg (2 ^ irq) ≢ 0
          → sys.mode ≡ supervisor
          → bit_and sys.mstatus mstatus_sie ≡ 0
          → deliverable sys irq ≡ false)
      × (bit_and sys.mideleg (2 ^ irq) ≡ 0 → sys.mode ≢ machine → deliverable sys irq ≡ true)
unfolding deliverable m_enabled s_enabled
deliverable_table sys irq =
    (λ a b. ground arith, λ a b. ground arith, λ a b d. ground arith, λ a b. ground arith)

-- An interrupt that fires is delivered to S-mode exactly when mideleg delegates it.
pub deliverable-delegated :
    (sys : SysCsrs) (irq : ℕ)
    → irq < 64
    → deliverable sys irq ≡ true
    → delegated sys irq true ≡ (bit_and sys.mideleg (2 ^ irq) != 0)
unfolding deliverable delegated m_enabled s_enabled
deliverable-delegated sys irq lt d =
    let low : bit_and irq 63 ≡ irq = omega (arith, and_mask 6 irq) in
    ground (arith, low, ap (λ (t : ℕ). bit_and sys.mideleg (2 ^ t)) low)

-- A digit of mip after the lines are sampled: MSIP, MTIP, SEIP and MEIP are those of the bus.
abbrev pub line_digit : SysCsrs → ℕ → ℕ → ℕ
line_digit sys lines k =
    if k == 3 || k == 7 || k == 9 || k == 11 then bit k lines else bit k sys.mip

-- Whether an interrupt may be taken: it is pending and enabled, and the hart is below the mode it
-- is for, or in that mode with SIE or MIE set. One for S-mode is not taken in M-mode.
abbrev pub may_take : SysCsrs → ℕ → ℕ → Bool
may_take sys lines irq =
    line_digit sys lines irq == 1
    && (bit irq sys.mie == 1
        && (if bit irq sys.mideleg == 1
            then is_user sys.mode || is_supervisor sys.mode && bit 1 sys.mstatus == 1
            else not (is_machine sys.mode) || bit 3 sys.mstatus == 1))

sample-digit :
    (sys : SysCsrs) (lines k : ℕ)
    → k < 64
    → bit k (sample_lines sys lines).mip ≡ line_digit sys lines k
unfolding sample_lines
sample-digit sys lines k lt = ground (
  arith,
  bit-or k (bit_and sys.mip (not64 hw_lines)) (bit_and lines hw_lines),
  bit-clear sys.mip hw_lines k (omega arith) lt,
  bit-and k lines hw_lines,
  bit-mask_4 7 3 11 9 k,
  bit-lt k lines,
  bit-lt k sys.mip,
)

fires-may_take :
    (sys : SysCsrs) (lines irq : ℕ)
    → irq < 64
    → let s = sample_lines sys lines in
      (bit_and (bit_and s.mip s.mie) (2 ^ irq) != 0 && deliverable s irq) ≡ may_take sys lines irq
unfolding deliverable m_enabled s_enabled sample_lines
fires-may_take sys lines irq lt =
    let s = sample_lines sys lines in
    ground (
      arith,
      test_lem (bit_and s.mip s.mie) irq,
      bit-and irq s.mip s.mie,
      sample-digit sys lines irq lt,
      test_lem sys.mideleg irq,
      test_lem sys.mstatus 1,
      test_lem sys.mstatus 3,
      bit-lt irq s.mip,
      bit-lt irq s.mie,
    )

none_pending :
    (sys : SysCsrs) (lines irq : ℕ)
    → irq < 64
    → let s = sample_lines sys lines in bit_and s.mip s.mie ≡ 0 → may_take sys lines irq ≡ false
none_pending sys lines irq lt z =
    let s = sample_lines sys lines in
    let quiet : (bit_and (bit_and s.mip s.mie) (2 ^ irq) != 0) ≡ false =
      ground (arith, test_lem (bit_and s.mip s.mie) irq, ap (bit irq) z, bit-zero irq) in
    sym (fires-may_take sys lines irq lt) ∙ ap (λ (t : Bool). t && deliverable s irq) quiet

select_order :
    (sys : SysCsrs) (lines : ℕ)
    → let s = sample_lines sys lines in
      select s (bit_and s.mip s.mie) priorities ≡ (
        if may_take sys lines 11
        then some 11
        else if may_take sys lines 3
        then some 3
        else if may_take sys lines 7
        then some 7
        else if may_take sys lines 9
        then some 9
        else if may_take sys lines 1
        then some 1
        else if may_take sys lines 5
        then some 5
        else none)
unfolding select
select_order sys lines =
    rw
      (
        fires-may_take sys lines 11 (omega arith),
        fires-may_take sys lines 3 (omega arith),
        fires-may_take sys lines 7 (omega arith),
        fires-may_take sys lines 9 (omega arith),
        fires-may_take sys lines 1 (omega arith),
        fires-may_take sys lines 5 (omega arith),
      )
      refl

-- What follows the search.
abbrev after_search : Cpu → Option ℕ → Option Cpu × Bool
after_search c none = (some c, false)
after_search c (some irq) = (take_trap c irq 0 true, true)

-- For any outcome of the six tests.
taken_first :
    (c : Cpu) (a b d e f g : Bool)
    → after_search c (
        if a
        then some 11
        else if b
        then some 3
        else if d
        then some 7
        else if e
        then some 9
        else if f
        then some 1
        else if g
        then some 5
        else none)
      ≡ (if a
          then (take_trap c 11 0 true, true)
          else if b
          then (take_trap c 3 0 true, true)
          else if d
          then (take_trap c 7 0 true, true)
          else if e
          then (take_trap c 9 0 true, true)
          else if f
          then (take_trap c 1 0 true, true)
          else if g
          then (take_trap c 5 0 true, true)
          else (some c, false))
taken_first c true b d e f g = refl
taken_first c false true d e f g = refl
taken_first c false false true e f g = refl
taken_first c false false false true f g = refl
taken_first c false false false false true g = refl
taken_first c false false false false false true = refl
taken_first c false false false false false false = refl

-- On a hart with privileged state the lines of the bus are copied to mip, and of the interrupts that
-- may be taken the first in the order MEI, MSI, MTI, SEI, SSI, STI is taken; if there is none,
-- nothing is taken and only mip has changed, in the four digits of the lines.
pub check_interrupts_lem :
    (c : Cpu) (sys : SysCsrs) (lines k : ℕ)
    → c.sys ≡ some sys
    → k < 64
    → (m : ℕ) × (bit k m ≡ line_digit sys lines k)
      × (let c' = record c { sys = some (record sys { mip = m }) } in
          check_interrupts c lines ≡ (
            if may_take sys lines 11
            then (take_trap c' 11 0 true, true)
            else if may_take sys lines 3
            then (take_trap c' 3 0 true, true)
            else if may_take sys lines 7
            then (take_trap c' 7 0 true, true)
            else if may_take sys lines 9
            then (take_trap c' 9 0 true, true)
            else if may_take sys lines 1
            then (take_trap c' 1 0 true, true)
            else if may_take sys lines 5
            then (take_trap c' 5 0 true, true)
            else (some c', false)))
unfolding check_interrupts sample_lines
check_interrupts_lem c sys lines k e lt =
    let s = sample_lines sys lines in
    (
      s.mip,
      sample-digit sys lines k lt,
      elim (Bool-cases (bit_and s.mip s.mie == 0)) [
        | inl z ↦
            let idle : bit_and s.mip s.mie ≡ 0 = ground (arith, z) in
            rw
              (
                e,
                z,
                none_pending sys lines 11 (omega arith) idle,
                none_pending sys lines 3 (omega arith) idle,
                none_pending sys lines 7 (omega arith) idle,
                none_pending sys lines 9 (omega arith) idle,
                none_pending sys lines 1 (omega arith) idle,
                none_pending sys lines 5 (omega arith) idle,
              )
              refl
        | inr nz ↦
            rw (e, nz, select_order sys lines)
              (taken_first (record c { sys = some s }) (may_take sys lines 11)
                (may_take sys lines 3) (may_take sys lines 7) (may_take sys lines 9)
                (may_take sys lines 1) (may_take sys lines 5))
      ],
    )
