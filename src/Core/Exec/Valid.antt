-- ===== src/Core/Exec/Valid.antt =====
-- The invariant of the hart over every instruction: crates/rv64-core/src/cpu.rs, `execute_decoded`.
use lish.Prelude.{ℕ, refl, Bool, none, Option, ◌||◌, ◌==◌}
use lish.Core.Cpu.{Cpu, has_system}
use lish.Core.Bus.{Bus}
use lish.Core.Run.{Run}
use lish.Core.Run.Keeps.{
  Keeps, keeping, return-Keeps, throw-Keeps, modify-Keeps, then-Keeps, if-Keeps,
}
use lish.Core.Compressed.{DecodedInsn}
use lish.Core.Decode.{rd, opcode}
use lish.Core.Float.{
  FloatUnit, load_fp, fp_load_value, store_fp, fma, fma_single, fma_double, op_fp, set_f,
}
use lish.Core.Exec.ValidAccess.{ld-Keeps, st-Keeps, amo-Keeps}
use lish.Core.Exec.ValidSystem.{wr-Keeps, fp_guard-Keeps, fp_dirty-Keeps, system-Keeps}
use lish.Core.Exec.{
  write_reg, compute, jump_and_link, jump_and_link_register, branch, exec_op_imm, exec_op_imm_32,
  exec_op, exec_op_32, misc_mem, load_value, exec_load, exec_store, and_next, execute, retire,
  execute_decoded,
}
use lish.Core.SystemOps.{Flow, next, leave}
use lish.Core.Exec.Frame.{IsValid, frame-IsValid, wr-IsValid}

module _ (s : Bool) where
  set_f-IsValid : (dest v : ℕ) (c : Cpu) → IsValid s c → IsValid s (set_f dest v c)
  unfolding has_system
  set_f-IsValid dest v c = frame-IsValid c _ (refl, refl)

  fma_single-IsValid :
      (unit : FloatUnit) (insn rm : ℕ) (c : Cpu)
      → IsValid s c
      → IsValid s (fma_single unit insn rm c)
  unfolding fma_single has_system
  fma_single-IsValid unit insn rm c = frame-IsValid c _ (refl, refl)

  fma_double-IsValid :
      (unit : FloatUnit) (insn rm : ℕ) (c : Cpu)
      → IsValid s c
      → IsValid s (fma_double unit insn rm c)
  unfolding fma_double has_system
  fma_double-IsValid unit insn rm c = frame-IsValid c _ (refl, refl)

  retire_state-IsValid :
      (pc count : ℕ) (c : Cpu) → IsValid s c → IsValid s (record c { pc = pc; insn_count = count })
  unfolding has_system
  retire_state-IsValid pc count c = frame-IsValid c _ (refl, refl)

  icache-IsValid : (gen : ℕ) (c : Cpu) → IsValid s c → IsValid s (record c { icache_gen = gen })
  unfolding has_system
  icache-IsValid gen c = frame-IsValid c _ (refl, refl)

module _ {M : Type 0} (bus : Bus M) (unit : FloatUnit) (s : Bool)
    (op_fp-IsValid : (c : Cpu) (insn : ℕ) → IsValid s c → IsValid s (unit.op_fp c insn).1) where
  load_fp-Keeps : (insn : ℕ) → Keeps (IsValid s) (load_fp bus insn)
  unfolding load_fp fp_load_value
  load_fp-Keeps insn =
      search (keeping, ld-Keeps bus s, fp_guard-Keeps s, fp_dirty-Keeps s, set_f-IsValid s) depth 20
        fits 9000

  store_fp-Keeps : (insn : ℕ) → Keeps (IsValid s) (store_fp bus insn)
  unfolding store_fp
  store_fp-Keeps insn = search (keeping, st-Keeps bus s, fp_guard-Keeps s) depth 20 fits 9000

  fma-Keeps : (insn : ℕ) → Keeps {M = M} (IsValid s) (fma unit insn)
  unfolding fma
  fma-Keeps insn =
      search
        (
          keeping,
          fma_single-IsValid s unit,
          fma_double-IsValid s unit,
          fp_guard-Keeps s,
          fp_dirty-Keeps s,
        )
        depth 20 fits 9000

  call_op_fp-Keeps :
      (insn : ℕ)
      → Keeps {M = M} (IsValid s) (λ c b. ((unit.op_fp c insn).0, (unit.op_fp c insn).1, b))
  call_op_fp-Keeps insn = record { kept = λ c b p. op_fp-IsValid c insn p }

  op_fp-Keeps : (insn : ℕ) → Keeps {M = M} (IsValid s) (op_fp unit insn)
  unfolding op_fp
  op_fp-Keeps insn =
      search (keeping, call_op_fp-Keeps, fp_guard-Keeps s, fp_dirty-Keeps s) depth 20 fits 9000

  exec_load-Keeps : (insn : ℕ) → Keeps (IsValid s) (exec_load bus insn)
  unfolding exec_load load_value
  exec_load-Keeps insn = search (keeping, wr-Keeps s, ld-Keeps bus s) depth 30 fits 20000

  exec_store-Keeps : (insn : ℕ) → Keeps (IsValid s) (exec_store bus insn)
  unfolding exec_store
  exec_store-Keeps insn = search (keeping, st-Keeps bus s) depth 20 fits 9000

  -- Computations, jumps and branches.
  write_reg-Keeps : (insn : ℕ) (value : Cpu → ℕ) → Keeps {M = M} (IsValid s) (write_reg insn value)
  write_reg-Keeps insn value = modify-Keeps _ (λ c. wr-IsValid c (rd insn) (value c))

  compute-Keeps :
      (insn : ℕ) (value : Cpu → Option ℕ) → Keeps {M = M} (IsValid s) (compute insn value)
  compute-Keeps insn value = search (keeping, wr-Keeps s) depth 20 fits 9000

  link-Keeps :
      (insn next_pc : ℕ)
      → Keeps {M = M} (IsValid s) (jump_and_link insn next_pc)
        × Keeps {M = M} (IsValid s) (jump_and_link_register insn next_pc)
        × Keeps {M = M} (IsValid s) (branch insn next_pc)
  unfolding jump_and_link jump_and_link_register branch
  link-Keeps insn next_pc = (
    search (keeping, wr-Keeps s) depth 20 fits 9000,
    search (keeping, wr-Keeps s) depth 20 fits 9000,
    search keeping depth 20 fits 9000,
  )

  misc_mem-Keeps : (insn : ℕ) → Keeps {M = M} (IsValid s) (misc_mem insn)
  unfolding misc_mem
  misc_mem-Keeps insn = search (keeping, icache-IsValid s) depth 20 fits 9000

  and_next-Keeps :
      (next_pc : ℕ) (arm : Run M (Unit {0}))
      → Keeps (IsValid s) arm
      → Keeps (IsValid s) (and_next bus next_pc arm)
  and_next-Keeps next_pc arm k = then-Keeps _ _ k (return-Keeps _)

  execute-Keeps : (insn next_pc : ℕ) → Keeps (IsValid s) (execute bus unit insn next_pc)
  unfolding execute exec_op_imm exec_op_imm_32 exec_op exec_op_32
  execute-Keeps insn next_pc =
      let links = link-Keeps insn next_pc in
      let code = opcode insn in
      if-Keeps (code == 0x37) _ _ (and_next-Keeps _ _ (write_reg-Keeps insn _)) (
        if-Keeps (code == 0x17) _ _ (and_next-Keeps _ _ (write_reg-Keeps insn _)) (
          if-Keeps (code == 0x6f) _ _ (links.0) (
            if-Keeps (code == 0x67) _ _ (links.1) (
              if-Keeps (code == 0x63) _ _ (links.2) (
                if-Keeps (code == 0x03) _ _ (and_next-Keeps _ _ (exec_load-Keeps insn)) (
                  if-Keeps (code == 0x23) _ _ (and_next-Keeps _ _ (exec_store-Keeps insn)) (
                    if-Keeps (code == 0x13) _ _ (and_next-Keeps _ _ (write_reg-Keeps insn _)) (
                      if-Keeps (code == 0x1b) _ _ (and_next-Keeps _ _ (compute-Keeps insn _)) (
                        if-Keeps (code == 0x33) _ _ (and_next-Keeps _ _ (compute-Keeps insn _)) (
                          if-Keeps (code == 0x3b) _ _ (and_next-Keeps _ _ (compute-Keeps insn _)) (
                            if-Keeps (code == 0x2f) _ _ (and_next-Keeps _ _ (amo-Keeps bus s insn))
                              (if-Keeps (code == 0x07) _ _ (and_next-Keeps _ _ (load_fp-Keeps insn))
                                (if-Keeps (code == 0x27) _ _
                                  (and_next-Keeps _ _ (store_fp-Keeps insn))
                                  (if-Keeps
                                    (code == 0x43
                                      || (code == 0x47 || (code == 0x4b || code == 0x4f)))
                                    _ _ (and_next-Keeps _ _ (fma-Keeps insn))
                                    (if-Keeps (code == 0x53) _ _
                                      (and_next-Keeps _ _ (op_fp-Keeps insn))
                                      (if-Keeps (code == 0x0f) _ _
                                        (and_next-Keeps _ _ (misc_mem-Keeps insn))
                                        (if-Keeps (code == 0x73) _ _ (system-Keeps s insn next_pc)
                                          (throw-Keeps _))))))))))))))))))

  retire-Keeps : (flow : Flow) → Keeps {M = M} (IsValid s) (retire bus flow)
  unfolding retire
  retire-Keeps leave = return-Keeps none
  retire-Keeps (next pc stop) = search (keeping, retire_state-IsValid s) depth 20 fits 9000

  -- An instruction keeps the 32 integer registers, the zero of x0 and the presence of privileged
  -- state, whatever it is and whether or not it faults, if the arithmetic of OP-FP does.
  pub execute_decoded-Keeps : (d : DecodedInsn) → Keeps (IsValid s) (execute_decoded bus unit d)
  unfolding execute_decoded
  execute_decoded-Keeps d = search (keeping, execute-Keeps, retire-Keeps) depth 20 fits 9000
