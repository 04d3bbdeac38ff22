-- ===== src/Core/Step.antt =====
-- The interpreters of crates/rv64-core/src/cpu.rs: `step`, `run` and `run_decoded`.
mod Tests
pub mod Valid
pub mod Rounds
pub mod Decoded
use lish.Prelude.{
  ℕ, zero, suc, ◌-◌, Bool, true, false, List, [], ◌∷◌, Option, none, some, ◌==◌, ◌!=◌,
  if◌then◌else◌, add64, bit_and, bit_or, shl,
}
use lish.Core.Exception.{Result, ok, err, instruction_address_misaligned}
use lish.Core.Cpu.{Cpu, has_system, fetch}
use lish.Core.Bus.{Bus}
use lish.Core.Bus
use lish.Core.Trap.{exception_to_trap, check_interrupts}
use lish.Core.Compressed.{DecodedInsn, from_word}
use lish.Core.Run.{Run, ◌>>=◌, return, throw, get, on_bus, translated}
use lish.Core.SystemOps.{StopReason, budget, trap, trapped}
use lish.Core.Float.{FloatUnit}
use lish.Core.Exec.{execute_decoded}

pub data DecodedRunOutcome : Type 0 where
  stop : StopReason → DecodedRunOutcome
  trapped_out : DecodedRunOutcome

abbrev pub irq_poll_interval : ℕ
irq_poll_interval = 32

module _ {M : Type 0} (bus : Bus M) where
  abbrev fetch16 : ℕ → Run M ℕ
  fetch16 pa = on_bus (λ m. Bus.fetch bus 2 m pa)

  -- The whole word at once, but not at the end of a page.
  unfoldable pub safe_word : ℕ → ℕ → Run M (Option ℕ)
  safe_word pc pa c m =
      (ok (if bit_and pc 0xfff != 0xffe then bus.fetch32_if_safe m pa else none), c, m)

  abbrev low_half : Option ℕ → ℕ → Run M ℕ
  low_half (some insn) pa = return (bit_and insn 0xffff)
  low_half none pa = fetch16 pa

  -- The second half of an instruction of 32 bits.
  unfoldable pub whole_word : Option ℕ → ℕ → ℕ → ℕ → Run M ℕ
  whole_word (some insn) pc pa lo = return insn
  whole_word none pc pa lo = do
    pa2 ←
        if bit_and (add64 pc 2) 0xfff == 0
        then translated bus (add64 pc 2) fetch
        else return (add64 pa 2)
    hi ← fetch16 pa2
    return (bit_or lo (shl hi 16))

  unfoldable pub fetch_word : ℕ → Run M ℕ
  fetch_word pc = do
    pa ← translated bus pc fetch
    word ← safe_word pc pa
    lo ← low_half word pa
    if bit_and lo 3 == 3 then whole_word word pc pa lo else return lo

  unfoldable pub step : FloatUnit → Run M (Option StopReason)
  step unit = do
    c ← get
    if bit_and c.pc 1 != 0
        then throw (instruction_address_misaligned c.pc)
        else (do word ← fetch_word c.pc; execute_decoded bus unit (from_word word))

  -- The countdown to the next look at the interrupt lines: whether a trap was taken.
  unfoldable pub poll : Cpu → M → Bool × Cpu × M
  poll c m =
      if c.irq_poll_cd == 0
      then (let (lines, m') = bus.irq_lines m in
          let c' = record c { irq_poll_cd = irq_poll_interval } in
          let (after, taken) = check_interrupts c' lines in (taken, trapped after c', m'))
      else (false, record c { irq_poll_cd = c.irq_poll_cd - 1 }, m)

  abbrev poll_if : Bool → Cpu → M → Bool × Cpu × M
  poll_if true c m = poll c m
  poll_if false c m = (false, c, m)

  -- One round of the loop of `run`: `none` goes on.
  unfoldable pub settle : Bool → Result (Option StopReason) × Cpu × M → Option StopReason × Cpu × M
  settle system (ok stopped, c, m) = (stopped, c, m)
  settle true (err e, c, m) = (none, trapped (exception_to_trap c e) c, m)
  settle false (err e, c, m) = (some (trap e), c, m)

  unfoldable pub round : FloatUnit → Bool → Cpu → M → Option StopReason × Cpu × M
  round unit system c m =
      let (taken, c', m') = poll_if system c m in settle system (step unit c' m')

  -- The loop; `none` is the end of the budget.
  unfoldable pub rounds : FloatUnit → Bool → ℕ → Cpu → M → Option StopReason × Cpu × M
  rounds unit system zero c m = (none, c, m)
  rounds unit system (suc left) c m =
      let (stopped, c', m') = round unit system c m in
      elim stopped [ none ↦ rounds unit system left c' m' | some reason ↦ (some reason, c', m') ]

  unfoldable pub run : FloatUnit → ℕ → Cpu → M → StopReason × Cpu × M
  run unit n c m =
      let (stopped, c', m') = rounds unit (has_system c) n c m in
      (elim stopped [ none ↦ budget | some reason ↦ reason ], c', m')

  -- What `run_decoded` does with the result of an instruction: `none` goes on.
  unfoldable pub settle_decoded :
      Bool → ℕ → Result (Option StopReason) × Cpu × M → Option DecodedRunOutcome × Cpu × M
  settle_decoded system sequential_pc (ok none, c, m) =
      (if c.pc != sequential_pc then some (stop budget) else none, c, m)
  settle_decoded system sequential_pc (ok (some reason), c, m) = (some (stop reason), c, m)
  settle_decoded true sequential_pc (err e, c, m) =
      (some trapped_out, trapped (exception_to_trap c e) c, m)
  settle_decoded false sequential_pc (err e, c, m) = (some (stop (trap e)), c, m)

  unfoldable pub decoded_round :
      FloatUnit → Bool → DecodedInsn → Cpu → M → Option DecodedRunOutcome × Cpu × M
  decoded_round unit system d c m =
      let (taken, c', m') = poll_if system c m in
      if taken
      then (some (stop budget), c', m')
      else settle_decoded system (add64 c'.pc d.len) (execute_decoded bus unit d c' m')

  unfoldable pub decoded_rounds :
      FloatUnit → Bool → List DecodedInsn → Cpu → M → DecodedRunOutcome × Cpu × M
  decoded_rounds unit system [] c m = (stop budget, c, m)
  decoded_rounds unit system (d ∷ rest) c m =
      let (stopped, c', m') = decoded_round unit system d c m in
      elim stopped [
        | none ↦ decoded_rounds unit system rest c' m'
        | some outcome ↦ (outcome, c', m')
      ]

  unfoldable pub run_decoded : FloatUnit → List DecodedInsn → Cpu → M → DecodedRunOutcome × Cpu × M
  run_decoded unit instructions c m = decoded_rounds unit (has_system c) instructions c m
