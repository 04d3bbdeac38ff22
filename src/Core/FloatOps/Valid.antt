-- ===== src/Core/FloatOps/Valid.antt =====
-- OP-FP leaves the integer registers in order: `op_fp` of crates/rv64-core/src/cpu.rs.
use lish.Prelude.{ℕ, refl, Bool}
use lish.Core.Cpu.{Cpu, wr, has_system}
use lish.Core.Bus.{Bus}
use lish.Core.Decode.{rd}
use lish.Core.Exec.Frame.{IsValid, frame-IsValid, wr-IsValid}
use lish.Core.FloatOps.{
  Softfp, Outcome, to_f, to_x, to_f_at_once, illegal, outcome, apply, op_fp, soft_unit,
}
use lish.Core.Step.{run}
use lish.Core.Step.Valid.{run-IsValid}

apply-IsValid :
    {s : Bool} (c : Cpu) (insn : ℕ) (o : Outcome) → IsValid s c → IsValid s (apply c insn o).1
unfolding apply has_system
apply-IsValid c insn (to_f v fl) p = frame-IsValid c _ (refl, refl) p
apply-IsValid c insn (to_f_at_once v) p = frame-IsValid c _ (refl, refl) p
apply-IsValid c insn illegal p = p
apply-IsValid c insn (to_x v fl) p =
    frame-IsValid (wr c (rd insn) v) _ (refl, refl) (wr-IsValid c (rd insn) v p)

op_fp-IsValid :
    {s : Bool} (soft : Softfp) (c : Cpu) (insn : ℕ) → IsValid s c → IsValid s (op_fp soft c insn).1
unfolding op_fp
op_fp-IsValid soft c insn p = apply-IsValid c insn (outcome soft c insn) p

-- After any number of instructions, floating-point ones with any arithmetic and faults, traps and
-- interrupts among them, the hart has its 32 integer registers, x0 is zero, and privileged state is
-- there if it was before.
pub run_soft-IsValid :
    {M : Type 0} {s : Bool} (bus : Bus M) (soft : Softfp) (n : ℕ) (c : Cpu) (m : M)
    → IsValid s c
    → IsValid s (run bus (soft_unit soft) n c m).1
unfolding soft_unit
run_soft-IsValid {s = s} bus soft n c m p =
    run-IsValid bus (soft_unit soft) s (λ c insn p. op_fp-IsValid soft c insn p) n c m p
