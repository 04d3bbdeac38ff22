-- ===== src/Core/Step/Rounds.antt =====
-- Runs one after the other: crates/rv64-core/src/cpu.rs, `run`.
use lish.Prelude.{ℕ, zero, suc, ◌+◌, ◌≡◌, refl, ap, arith, Bool, some, none, Option}
use lish.Core.Cpu.{Cpu, has_system}
use lish.Core.Bus.{Bus}
use lish.Core.SystemOps.{StopReason}
use lish.Core.Float.{FloatUnit}
use lish.Core.Exec.Frame.{IsValid}
use lish.Core.Step.{round, rounds, run}
use lish.Core.Step.Valid.{rounds-IsValid}

module _ {M : Type 0} (bus : Bus M) (unit : FloatUnit) where
  -- A loop that stops within its first rounds stops there with any larger budget.
  rounds_stopped :
      (system : Bool) (a b n : ℕ) (c : Cpu) (m : M) (r : StopReason)
      → n ≡ a + b
      → (rounds bus unit system a c m).0 ≡ some r
      → rounds bus unit system n c m ≡ rounds bus unit system a c m
  unfolding rounds
  rounds_stopped system zero b n c m r l e = absurd (ground arith)
  rounds_stopped system (suc a) b zero c m r l e = absurd (omega arith)
  rounds_stopped system (suc a) b (suc n) c m r l e =
      let (_, c', m') = round bus unit system c m in
      let rest = rounds_stopped system a b n c' m' r (omega arith) in ground (arith, rest)

  rounds_going :
      (system : Bool) (a b n : ℕ) (c : Cpu) (m : M)
      → n ≡ a + b
      → (rounds bus unit system a c m).0 ≡ none
      → rounds bus unit system n c m
        ≡ rounds bus unit system b (rounds bus unit system a c m).1 (rounds bus unit system a c m).2
  unfolding rounds
  rounds_going system zero b n c m l e =
      let same : n ≡ b = omega arith in ap (λ k. rounds bus unit system k c m) same
  rounds_going system (suc a) b zero c m l e = absurd (omega arith)
  rounds_going system (suc a) b (suc n) c m l e =
      let (_, c', m') = round bus unit system c m in
      let rest = rounds_going system a b n c' m' (omega arith) in ground (arith, rest)

  -- A budget may be given in parts: a run of a + b instructions is the run of a if that stops, and
  -- else the run of a and then a run of b.
  run_split :
      {s : Bool} (a b : ℕ) (c : Cpu) (m : M)
      → ((d : Cpu) (insn : ℕ) → IsValid s d → IsValid s (unit.op_fp d insn).1)
      → IsValid s c
      → run bus unit (a + b) c m ≡ elim (rounds bus unit (has_system c) a c m).0 [
        | some r ↦ run bus unit a c m
        | none ↦ run bus unit b (run bus unit a c m).1 (run bus unit a c m).2
      ]
  unfolding run
  run_split {s = s} a b c m floats p = split (rounds bus unit (has_system c) a c m).0 refl
    where
      split :
          (o : Option StopReason)
          → (rounds bus unit (has_system c) a c m).0 ≡ o
          → run bus unit (a + b) c m ≡ elim (rounds bus unit (has_system c) a c m).0 [
            | some r ↦ run bus unit a c m
            | none ↦ run bus unit b (run bus unit a c m).1 (run bus unit a c m).2
          ]
      split (some r) e = ground (arith, rounds_stopped (has_system c) a b (a + b) c m r refl e)
      split none e =
          let kept = rounds-IsValid bus unit s floats (has_system c) a c m p in
          let same : has_system (rounds bus unit (has_system c) a c m).1 ≡ has_system c =
            ground (arith, kept.system, p.system) in
          ground (arith, same, rounds_going (has_system c) a b (a + b) c m refl e)
