-- ===== src/Core/Exec/ValidSystem.antt =====
-- The invariant of the hart over the SYSTEM instructions of crates/rv64-core/src/cpu.rs.
use lish.Prelude.{
  ℕ, refl, arith, Bool, false, some, none, bit_and, Option, ◌&&◌, ◌||◌, ◌==◌, ◌!=◌, if◌then◌else◌,
}
use lish.Core.Csr.{SysCsrs, is_supervisor, is_user}
use lish.Core.Csr.Bits.{mstatus_tw}
use lish.Core.Exception.{illegal_instruction, breakpoint, Result}
use lish.Core.Cpu.{Cpu, has_system, wr, fp_dirty}
use lish.Core.Decode.{funct3, funct7}
use lish.Core.Trap.{mret, sret}
use lish.Core.Run.{◌>>◌, return, throw, get, modify}
use lish.Core.Run.Keeps.{
  Keeps, keeping, return-Keeps, throw-Keeps, get-Keeps, modify-Keeps, bind-Keeps, then-Keeps,
  if-Keeps,
}
use lish.Core.SystemOps.{
  next, leave, ecall, break, wfi, do_ecall, do_ebreak, do_wfi, ecall_trap, ecall_cause, write_csr,
  zicsr, sfence_vma, fence_trapped, returning, system, fp_guard,
}
use lish.Core.Exec.Frame.{
  SameFrame, fp_dirty-frame, take_trap-frame, csr_write-frame, fence-frame, mret-frame, sret-frame,
  IsValid, frame-IsValid, wr-IsValid,
}

pub ecall_trap-IsValid :
    {s : Bool} (sys : SysCsrs) (c : Cpu) → IsValid s c → IsValid s (ecall_trap sys c)
unfolding ecall_trap has_system
ecall_trap-IsValid sys c =
    let same = take_trap-frame c c (ecall_cause sys.mode) 0 false (refl, refl) in
    frame-IsValid c _ (same.0, same.1)

module _ {M : Type 0} (s : Bool) where
  pub wr-Keeps : (dest v : ℕ) → Keeps {M = M} (IsValid s) (modify (λ c. wr c dest v))
  wr-Keeps dest v = modify-Keeps _ (λ c. wr-IsValid c dest v)

  pub fp_guard-Keeps : (insn : ℕ) → Keeps {M = M} (IsValid s) (fp_guard insn)
  fp_guard-Keeps insn = record { kept = λ c b p. ground (arith, p) }

  pub fp_dirty-Keeps : Keeps {M = M} (IsValid s) (modify fp_dirty)
  fp_dirty-Keeps = modify-Keeps fp_dirty (λ c. frame-IsValid c _ (fp_dirty-frame c))

  pub do_ecall-Keeps : (next_pc : ℕ) → Keeps {M = M} (IsValid s) (do_ecall next_pc)
  unfolding do_ecall
  do_ecall-Keeps next_pc = bind-Keeps get _ get-Keeps (λ c. called c c.sys)
    where
      called :
          (c : Cpu) (o : Option SysCsrs)
          → Keeps {M = M} (IsValid s) (elim o [
            | none ↦ return (next next_pc (some ecall))
            | some sys ↦
                if c.host_sbi && is_supervisor sys.mode
                then return (next next_pc (some ecall))
                else (do modify (ecall_trap sys); return leave)
          ])
      called c none = return-Keeps _
      called c (some sys) = search (keeping, ecall_trap-IsValid) depth 12 fits 3000

  pub write_csr-Keeps :
      (insn csr : ℕ) (o : Option ℕ) → Keeps {M = M} (IsValid s) (write_csr insn csr o)
  unfolding write_csr
  write_csr-Keeps insn csr none = record { kept = λ c b p. p }
  write_csr-Keeps insn csr (some v) = record {
    kept = λ c b p. ground (arith, frame-IsValid c _ (csr_write-frame c csr v) p);
  }

  pub do_ebreak-Keeps : (next_pc : ℕ) → Keeps {M = M} (IsValid s) (do_ebreak next_pc)
  unfolding do_ebreak
  do_ebreak-Keeps next_pc = bind-Keeps get _ get-Keeps (λ c. stopped c.sys)
    where
      stopped :
          (o : Option SysCsrs)
          → Keeps {M = M}
              (IsValid s)
              (elim o [ none ↦ return (next next_pc (some break)) | some sys ↦ throw breakpoint ])
      stopped none = return-Keeps _
      stopped (some sys) = throw-Keeps _

  pub do_wfi-Keeps : (insn next_pc : ℕ) → Keeps {M = M} (IsValid s) (do_wfi insn next_pc)
  unfolding do_wfi
  do_wfi-Keeps insn next_pc = bind-Keeps get _ get-Keeps (λ c. idle c.sys)
    where
      idle :
          (o : Option SysCsrs)
          → Keeps {M = M} (IsValid s) (elim o [
            | none ↦ return (next next_pc none)
            | some sys ↦
                if is_user sys.mode || is_supervisor sys.mode && bit_and sys.mstatus mstatus_tw != 0
                then throw (illegal_instruction insn)
                else return (next next_pc (if bit_and sys.mip sys.mie == 0 then some wfi else none))
          ])
      idle none = return-Keeps _
      idle (some sys) = search keeping depth 6 fits 900

  pub zicsr-Keeps : (insn : ℕ) → Keeps {M = M} (IsValid s) (zicsr insn)
  unfolding zicsr
  zicsr-Keeps insn =
      search (keeping, wr-Keeps, write_csr-Keeps, fp_guard-Keeps, fp_dirty-Keeps) depth 20 fits 9000

  pub sfence_vma-Keeps : (insn next_pc : ℕ) → Keeps {M = M} (IsValid s) (sfence_vma insn next_pc)
  unfolding sfence_vma
  sfence_vma-Keeps insn next_pc = bind-Keeps get _ get-Keeps (λ c.
      if-Keeps (fence_trapped c) _ _ (throw-Keeps _) (
        then-Keeps _ _ (modify-Keeps _ (λ c. frame-IsValid c _ (fence-frame c insn)))
          (return-Keeps _)))

  pub returning-Keeps :
      (f : Cpu → Cpu × Result ℕ)
      → ((c : Cpu) → SameFrame c (f c).0)
      → Keeps {M = M} (IsValid s) (returning f)
  returning-Keeps f k =
      bind-Keeps _ _ (record { kept = λ c b p. frame-IsValid c _ (k c) p }) (λ pc. return-Keeps _)

  pub system-Keeps : (insn next_pc : ℕ) → Keeps {M = M} (IsValid s) (system insn next_pc)
  unfolding system
  system-Keeps insn next_pc =
      let m = returning-Keeps (λ c. mret c insn) (λ c. mret-frame c insn) in
      let r = returning-Keeps (λ c. sret c insn) (λ c. sret-frame c insn) in
      if-Keeps (insn == 0x0000_0073) _ _ (do_ecall-Keeps next_pc) (
        if-Keeps (insn == 0x0010_0073) _ _ (do_ebreak-Keeps next_pc) (
          if-Keeps (insn == 0x3020_0073) _ _ m (
            if-Keeps (insn == 0x1020_0073) _ _ r (
              if-Keeps (insn == 0x1050_0073) _ _ (do_wfi-Keeps insn next_pc) (
                if-Keeps (funct7 insn == 0x09 && funct3 insn == 0) _ _
                  (sfence_vma-Keeps insn next_pc)
                  (search (keeping, zicsr-Keeps) depth 12 fits 3000))))))
