-- ===== src/Core/Step/Valid.antt =====
-- The hart's invariant over whole runs: `step`, `run` and `run_decoded` of
-- crates/rv64-core/src/cpu.rs.
use lish.Prelude.{ℕ, zero, suc, ◌-◌, refl, arith, Bool, true, false, some, none, Option}
use lish.Core.Exception.{Exception, Result, ok, err}
use lish.Core.Cpu.{Cpu, has_system}
use lish.Core.Bus.{Bus}
use lish.Core.Run.Keeps.{Keeps, keeping, return-Keeps, on_bus-Keeps}
use lish.Core.Trap.{exception_to_trap}
use lish.Core.SystemOps.{StopReason, trapped}
use lish.Core.Float.{FloatUnit}
use lish.Core.Exec.Frame.{IsValid, frame-IsValid, take_trap-frame, check_interrupts-frame}
use lish.Core.Exec.ValidAccess.{translated-Keeps}
use lish.Core.Exec.Valid.{execute_decoded-Keeps}
use lish.Core.Step.{
  step, fetch_word, safe_word, low_half, whole_word, poll, poll_if, settle, round, rounds, run,
  irq_poll_interval,
}

countdown-IsValid :
    {s : Bool} (n : ℕ) (c : Cpu) → IsValid s c → IsValid s (record c { irq_poll_cd = n })
unfolding has_system
countdown-IsValid n c = frame-IsValid c _ (refl, refl)

trap-IsValid :
    {s : Bool} (c : Cpu) (e : Exception)
    → IsValid s c
    → IsValid s (trapped (exception_to_trap c e) c)
unfolding exception_to_trap
trap-IsValid c e = frame-IsValid c _ (take_trap-frame c c _ _ false (refl, refl))

module _ {M : Type 0} (bus : Bus M) (s : Bool) where
  safe_word-Keeps : (pc pa : ℕ) → Keeps (IsValid s) (safe_word bus pc pa)
  unfolding safe_word
  safe_word-Keeps pc pa = record { kept = λ c b p. p }

  low_half-Keeps : (word : Option ℕ) (pa : ℕ) → Keeps (IsValid s) (low_half bus word pa)
  low_half-Keeps none pa = on_bus-Keeps _
  low_half-Keeps (some insn) pa = return-Keeps _

  whole_word-Keeps :
      (word : Option ℕ) (pc pa lo : ℕ) → Keeps (IsValid s) (whole_word bus word pc pa lo)
  unfolding whole_word
  whole_word-Keeps none pc pa lo = search (keeping, translated-Keeps bus s) depth 20 fits 9000
  whole_word-Keeps (some insn) pc pa lo = return-Keeps insn

  fetch_word-Keeps : (pc : ℕ) → Keeps (IsValid s) (fetch_word bus pc)
  unfolding fetch_word
  fetch_word-Keeps pc =
      search (keeping, translated-Keeps bus s, safe_word-Keeps, low_half-Keeps, whole_word-Keeps)
        depth 20 fits 9000

  poll_if-IsValid :
      (system : Bool) (c : Cpu) (m : M) → IsValid s c → IsValid s (poll_if bus system c m).1
  unfolding poll
  poll_if-IsValid false c m p = p
  poll_if-IsValid true c m p =
      let reset = countdown-IsValid irq_poll_interval c p in
      ground (
        arith,
        countdown-IsValid (c.irq_poll_cd - 1) c p,
        frame-IsValid _ _
            (check_interrupts-frame (record c { irq_poll_cd = irq_poll_interval })
              (bus.irq_lines m).0)
            reset,
      )

  settle-IsValid :
      (system : Bool) (r : Result (Option StopReason)) (c : Cpu) (m : M)
      → IsValid s c
      → IsValid s (settle bus system (r, c, m)).1
  unfolding settle
  settle-IsValid system (ok stopped) c m p = p
  settle-IsValid true (err e) c m p = trap-IsValid c e p
  settle-IsValid false (err e) c m p = p

module _ {M : Type 0} (bus : Bus M) (unit : FloatUnit) (s : Bool)
    (op_fp-IsValid : (c : Cpu) (insn : ℕ) → IsValid s c → IsValid s (unit.op_fp c insn).1) where
  step-Keeps : Keeps (IsValid s) (step bus unit)
  unfolding step
  step-Keeps =
      search (keeping, fetch_word-Keeps bus s, execute_decoded-Keeps bus unit s op_fp-IsValid) depth
        20 fits 9000

  round-IsValid :
      (system : Bool) (c : Cpu) (m : M) → IsValid s c → IsValid s (round bus unit system c m).1
  unfolding round
  round-IsValid system c m p =
      let (taken, c', m') = poll_if bus system c m in
      settle-IsValid bus s system (step bus unit c' m').0 _ _
        (step-Keeps.kept c' m' (poll_if-IsValid bus s system c m p))

  pub rounds-IsValid :
      (system : Bool) (n : ℕ) (c : Cpu) (m : M)
      → IsValid s c
      → IsValid s (rounds bus unit system n c m).1
  unfolding rounds
  rounds-IsValid system zero c m p = p
  rounds-IsValid system (suc n) c m p =
      let (stopped, c', m') = round bus unit system c m in
      let kept = round-IsValid system c m p in
      ground (arith, kept, rounds-IsValid system n c' m' kept)

  -- After any number of instructions, with the faults, traps and interrupts among them, the hart
  -- has its 32 integer registers, x0 is zero, and privileged state is there if it was before, if
  -- this is so of the arithmetic of OP-FP.
  pub run-IsValid : (n : ℕ) (c : Cpu) (m : M) → IsValid s c → IsValid s (run bus unit n c m).1
  unfolding run
  run-IsValid n c m p = rounds-IsValid (has_system c) n c m p
