-- ===== src/Core/Step/Decoded.antt =====
-- The two interpreters agree: crates/rv64-core/src/cpu.rs, `run_decoded` against `run`.
use lish.Prelude.{
  ℕ, suc, ◌≤◌, ◌≡◌, refl, ap, ◌∙◌, add64, bit_and, arith, Bool, true, false, some, none, Option,
  List, [], ◌∷◌, length, Bool-cases, Option-cases, sym, subst, inl, inr, ◌⊎◌,
}
use lish.Core.Cpu.{Cpu}
use lish.Core.Bus.{Bus}
use lish.Core.Compressed.{DecodedInsn}
use lish.Core.SystemOps.{StopReason, trapped}
use lish.Core.Float.{FloatUnit}
use lish.Core.Trap.{check_interrupts, sample_lines, select, priorities}
use lish.Core.Exec.{execute_decoded}
use lish.Core.Step.{
  step, poll, poll_if, round, rounds, settle, settle_decoded, decoded_round, decoded_rounds,
  DecodedRunOutcome, irq_poll_interval,
}

-- A look at the interrupt lines that takes no interrupt leaves the program counter.
check_interrupts-pc :
    (c : Cpu) (lines : ℕ)
    → (check_interrupts c lines).1 ≡ false
    → (trapped (check_interrupts c lines).0 c).pc ≡ c.pc
unfolding check_interrupts
check_interrupts-pc c lines quiet = elim (Option-cases c.sys) [
  | inl e ↦ ground (arith, e, quiet)
  | inr (before, e) ↦
      let sys = sample_lines before lines in
      let pending = bit_and sys.mip sys.mie in
      elim (Option-cases (select sys pending priorities)) [
        | inl f ↦ ground (arith, e, f, quiet)
        | inr (irq, f) ↦ ground (arith, e, f, quiet)
      ]
]

poll_if-pc :
    {M : Type 0} (bus : Bus M) (system : Bool) (c : Cpu) (m : M)
    → (poll_if bus system c m).0 ≡ false
    → (poll_if bus system c m).1.pc ≡ c.pc
unfolding poll
poll_if-pc bus false c m quiet = refl
poll_if-pc bus true c m quiet =
    let reset = record c { irq_poll_cd = irq_poll_interval } in
    ground (arith, quiet, check_interrupts-pc reset (bus.irq_lines m).0)

module _ {M : Type 0} (bus : Bus M) (unit : FloatUnit) (system : Bool) where
  -- The instructions of a block lie one after the other from `pc` on: in the states that the block
  -- passes, `step` would fetch the instruction if the program counter is the instruction's address.
  -- Nothing is asked where the counter is another one, nor at the vector of an interrupt.
  pub data Cached : List DecodedInsn → ℕ → Cpu → M → Type 0 where
    cached_end : {pc : ℕ} {c : Cpu} {m : M} → Cached [] pc c m
    cached_next :
        {d : DecodedInsn} {ds : List DecodedInsn} {pc : ℕ} {c : Cpu} {m : M}
        → ((poll_if bus system c m).0 ≡ false
            → c.pc ≡ pc
            → step bus unit (poll_if bus system c m).1 (poll_if bus system c m).2
              ≡ execute_decoded bus unit d (poll_if bus system c m).1 (poll_if bus system c m).2)
        → Cached ds
            (add64 pc d.len)
            (decoded_round bus unit system d c m).1
            (decoded_round bus unit system d c m).2
        → Cached (d ∷ ds) pc c m

  -- What a block leaves after k rounds of the loop of `run`, or after a look at the interrupt lines
  -- that follows them.
  abbrev SameAs : DecodedRunOutcome × Cpu × M → Cpu → M → Type 0
  SameAs r c m = (r.1 ≡ c) × (r.2 ≡ m)

  abbrev pub After : DecodedRunOutcome × Cpu × M → Option StopReason × Cpu × M → Type 0
  After r q =
      SameAs r q.1 q.2 ⊎ SameAs r (poll_if bus system q.1 q.2).1 (poll_if bus system q.1 q.2).2

  -- One instruction of the block against one round.
  one_round :
      (d : DecodedInsn) (c : Cpu) (m : M)
      → step bus unit (poll_if bus system c m).1 (poll_if bus system c m).2
        ≡ execute_decoded bus unit d (poll_if bus system c m).1 (poll_if bus system c m).2
      → (poll_if bus system c m).0 ≡ false
      → ((decoded_round bus unit system d c m).1 ≡ (round bus unit system c m).1)
        × ((decoded_round bus unit system d c m).2 ≡ (round bus unit system c m).2)
  unfolding decoded_round round settle settle_decoded
  one_round d c m e f = ground (arith, e, f)

  -- A block goes on only at the next instruction's address, with no interrupt taken.
  goes_on :
      (d : DecodedInsn) (c : Cpu) (m : M)
      → (decoded_round bus unit system d c m).0 ≡ none
      → ((poll_if bus system c m).0 ≡ false)
        × ((decoded_round bus unit system d c m).1.pc ≡ add64 (poll_if bus system c m).1.pc d.len)
  unfolding decoded_round settle_decoded
  goes_on d c m f = (ground (arith, f), ground (arith, f))

  round_goes_on :
      (d : DecodedInsn) (c : Cpu) (m : M)
      → step bus unit (poll_if bus system c m).1 (poll_if bus system c m).2
        ≡ execute_decoded bus unit d (poll_if bus system c m).1 (poll_if bus system c m).2
      → (poll_if bus system c m).0 ≡ false
      → (decoded_round bus unit system d c m).0 ≡ none
      → (round bus unit system c m).0 ≡ none
  unfolding decoded_round round settle settle_decoded
  round_goes_on d c m e quiet f = ground (arith, e, quiet, f)

  interrupted :
      (d : DecodedInsn) (ds : List DecodedInsn) (c : Cpu) (m : M)
      → (poll_if bus system c m).0 ≡ true
      → SameAs
          (decoded_rounds bus unit system (d ∷ ds) c m)
          (poll_if bus system c m).1
          (poll_if bus system c m).2
  unfolding decoded_rounds decoded_round
  interrupted d ds c m t = ground arith

  settled :
      (d : DecodedInsn) (ds : List DecodedInsn) (c : Cpu) (m : M) (o : DecodedRunOutcome)
      → step bus unit (poll_if bus system c m).1 (poll_if bus system c m).2
        ≡ execute_decoded bus unit d (poll_if bus system c m).1 (poll_if bus system c m).2
      → (poll_if bus system c m).0 ≡ false
      → (decoded_round bus unit system d c m).0 ≡ some o
      → SameAs
          (decoded_rounds bus unit system (d ∷ ds) c m)
          (rounds bus unit system 1 c m).1
          (rounds bus unit system 1 c m).2
  unfolding decoded_rounds rounds
  settled d ds c m o e quiet f = ground (arith, one_round d c m e quiet)

  first_round :
      (d : DecodedInsn) (ds : List DecodedInsn) (k : ℕ) (c : Cpu) (m : M)
      → step bus unit (poll_if bus system c m).1 (poll_if bus system c m).2
        ≡ execute_decoded bus unit d (poll_if bus system c m).1 (poll_if bus system c m).2
      → (poll_if bus system c m).0 ≡ false
      → (decoded_round bus unit system d c m).0 ≡ none
      → (decoded_rounds bus unit system (d ∷ ds) c m
          ≡ decoded_rounds bus unit system ds
              (decoded_round bus unit system d c m).1
              (decoded_round bus unit system d c m).2)
        × (rounds bus unit system (suc k) c m
            ≡ rounds bus unit system k
                (decoded_round bus unit system d c m).1
                (decoded_round bus unit system d c m).2)
  unfolding decoded_rounds rounds
  first_round d ds k c m e quiet f =
      ground (arith, f, quiet, round_goes_on d c m e quiet f, one_round d c m e quiet)

  abbrev Blocks : List DecodedInsn → Cpu → M → Type 0
  Blocks ds c m =
      (k : ℕ) × (k ≤ length ds)
      × After (decoded_rounds bus unit system ds c m) (rounds bus unit system k c m)

  ended : (c : Cpu) (m : M) → Blocks [] c m
  unfolding decoded_rounds rounds
  ended c m = (0, omega arith, inl (refl, refl))

  -- One instruction that leaves the block.
  leaves :
      (d : DecodedInsn) (ds : List DecodedInsn) (c : Cpu) (m : M) (o : DecodedRunOutcome)
      → ((poll_if bus system c m).0 ≡ false
          → step bus unit (poll_if bus system c m).1 (poll_if bus system c m).2
            ≡ execute_decoded bus unit d (poll_if bus system c m).1 (poll_if bus system c m).2)
      → (decoded_round bus unit system d c m).0 ≡ some o
      → Blocks (d ∷ ds) c m
  unfolding rounds
  leaves d ds c m o e f = elim (Bool-cases (poll_if bus system c m).0) [
    | inl taken ↦ (0, omega arith, inr (interrupted d ds c m taken))
    | inr quiet ↦ (1, omega arith, inl (settled d ds c m o (e quiet) quiet f))
  ]

  -- A block of decoded instructions, begun at its first address, leaves the hart and the memory as so
  -- many rounds of `run`, at most one for each instruction, or as these and one more look at the
  -- interrupt lines. It rests on this: where the block comes to an instruction with the program
  -- counter at its address and takes no interrupt, `step` fetches that instruction.
  pub decoded_rounds_lem :
      (ds : List DecodedInsn) (c : Cpu) (m : M)
      → Cached ds c.pc c m
      → (k : ℕ) × (k ≤ length ds)
        × After (decoded_rounds bus unit system ds c m) (rounds bus unit system k c m)
  decoded_rounds_lem ds c m cached = from_pc ds c.pc c m refl cached
    where
      from_pc :
          (ds : List DecodedInsn) (pc : ℕ) (c : Cpu) (m : M)
          → c.pc ≡ pc
          → Cached ds pc c m
          → Blocks ds c m
      from_pc [] pc c m here cached_end = ended c m
      from_pc (d ∷ ds) pc c m here (cached_next fetched rest) =
          elim (Option-cases (decoded_round bus unit system d c m).0) [
            | inr (o, left) ↦ leaves d ds c m o (λ quiet. fetched quiet here) left
            | inl f ↦
                let (quiet, next) = goes_on d c m f in
                let at =
                  next ∙ ap (λ (t : ℕ). add64 t d.len) (poll_if-pc bus system c m quiet ∙ here) in
                let (k, short, after) =
                  from_pc ds (add64 pc d.len) (decoded_round bus unit system d c m).1
                    (decoded_round bus unit system d c m).2 at rest in
                let same = first_round d ds k c m (fetched quiet here) quiet f in
                (
                  suc k,
                  omega (arith, short),
                  subst (λ r. After r (rounds bus unit system (suc k) c m)) (sym same.0)
                      (subst
                        (After (
                          decoded_rounds bus unit system ds (decoded_round bus unit system d c m).1
                            (decoded_round bus unit system d c m).2))
                        (sym same.1) after),
                )
          ]
