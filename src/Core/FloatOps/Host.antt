-- ===== src/Core/FloatOps/Host.antt =====
-- What the fast path rests on and what it keeps: `fp_fast32`, `fp_fast64` and the arithmetic arms of
-- `op_fp`, crates/rv64-core/src/cpu.rs.
use lish.Prelude.{
  ℕ, zero, suc, ◌/◌, ◌≤◌, ◌≡◌, refl, arith, true, ◌&&◌, Bool-cases, Option-cases, inl, inr, some,
  leb, ◌==◌, ◌!=◌, bit_and, bit_or, ◌<◌, ◌||◌,
}
use lish.Prelude.Bits.Step.{bit_or_step}
use lish.Prelude.Bits.Fields.{or-zero, and_mask}
use lish.Core.Cpu.{Cpu}
use lish.Core.FloatOps.{
  is_zero, exponent, Format, SoftFloat, fast_ok, fp_fast, slow_arith, arith_arm, apply,
}

abbrev pub IsFinite : Format → ℕ → Type 0
IsFinite f a = ¬ (exponent f a ≡ f.exp_mask)

-- Operands that the standard has a number for.
abbrev pub HasResult : Format → ℕ → ℕ → ℕ → Type 0
HasResult f op a b = (op ≤ 3) × IsFinite f a × IsFinite f b × ¬ ((op == 3 && is_zero f b) ≡ true)

-- What IEEE 754 has the host and the software share at rounding to nearest: the pattern, and where
-- no flag is raised but inexact. A product or a quotient that is rounded up to the least normal
-- numbers may be tiny before, and then underflows, so it is not among these.
pub record HostAgrees (f : Format) (sf : SoftFloat) : Type 0 where
  pub flags : ℕ → ℕ → ℕ → ℕ
  pub agrees :
      (op a b : ℕ) → HasResult f op a b → sf.arith_op op a b 0 ≡ (sf.host_op op a b, flags op a b)
  pub of_sum :
      (op a b : ℕ) → HasResult f op a b → op ≤ 1 → IsFinite f (sf.host_op op a b) → flags op a b ≤ 1
  pub of_zero :
      (op a b : ℕ)
      → HasResult f op a b
      → 2 ≤ op
      → (is_zero f a || op == 2 && is_zero f b) ≡ true
      → flags op a b ≤ 1
  pub of_normal :
      (op a b : ℕ)
      → HasResult f op a b
      → 2 ≤ op
      → 2 ≤ exponent f (sf.host_op op a b)
      → exponent f (sf.host_op op a b) < f.exp_mask
      → flags op a b ≤ 1

-- The host's result is not in the least normal range, or the operation is a sum or a difference.
abbrev pub IsClear : Format → SoftFloat → ℕ → ℕ → ℕ → Type 0
IsClear f sf op a b = 2 ≤ op → ¬ (exponent f (sf.host_op op a b) ≡ 1)

module _ (f : Format) (sf : SoftFloat) (op a b r : ℕ) where
  fp_fast-HasResult : op ≤ 3 → fp_fast f sf op a b ≡ some r → HasResult f op a b
  unfolding fp_fast
  fp_fast-HasResult le taken = (le, (λ h. ground arith), (λ h. ground arith), λ h. ground arith)

  fp_fast-host :
      fp_fast f sf op a b ≡ some r → (r ≡ sf.host_op op a b) × (fast_ok f op a b r ≡ true)
  unfolding fp_fast
  fp_fast-host taken = (ground arith, ground arith)

  few_flags :
      (host : HostAgrees f sf)
      → op ≤ 3
      → 1 ≤ f.exp_mask
      → IsClear f sf op a b
      → fp_fast f sf op a b ≡ some r
      → host.flags op a b ≤ 1
  unfolding fast_ok
  few_flags host le wide clear taken =
      let has = fp_fast-HasResult le taken in
      let host_ok = fp_fast-host taken in
      elim (Bool-cases (leb op 1)) [
        | inl sum ↦ host.of_sum op a b has (ground arith) λ h. ground arith
        | inr other ↦ elim (Bool-cases (is_zero f a || op == 2 && is_zero f b)) [
          | inl z ↦ host.of_zero op a b has (ground arith) z
          | inr z ↦ host.of_normal op a b has (ground arith) (ground arith) (ground arith)
        ]
      ]

-- A flag that is set already.
sticky : (x fl : ℕ) → (bit_and x 1 != 0) ≡ true → fl ≤ 1 → bit_or x (bit_and fl 0x1f) ≡ x
sticky x zero there small = or-zero x
sticky x (suc zero) there small = ground (arith, bit_or_step x 1, or-zero (x / 2), and_mask 1 x)
sticky x (suc (suc fl)) there small = absurd (omega arith)

-- A result of the fast path is kept with the flags that are there.
pub arith_arm-apply :
    (f : Format) (sf : SoftFloat) (c : Cpu) (insn op a b rm : ℕ)
    → HostAgrees f sf
    → 1 ≤ f.exp_mask
    → op ≤ 3
    → IsClear f sf op a b
    → apply c insn (arith_arm f sf c op a b rm) ≡ apply c insn (slow_arith f sf op a b rm)
unfolding arith_arm slow_arith apply
arith_arm-apply f sf c insn op a b rm host wide le clear =
    elim (Bool-cases (rm == 0 && bit_and c.fcsr 1 != 0)) [
      | inr slow ↦ rw (slow, arith_arm) refl
      | inl quick ↦ elim (Option-cases (fp_fast f sf op a b)) [
        | inl e ↦ rw (quick, e, arith_arm) refl
        | inr (r, e) ↦
            let is_host = fp_fast-host f sf op a b r e in
            let same = host.agrees op a b (fp_fast-HasResult f sf op a b r le e) in
            let few = few_flags f sf op a b r host le wide clear e in
            let kept = sticky c.fcsr (host.flags op a b) (ground (arith, quick)) few in
            let nearest : rm ≡ 0 = ground (arith, quick) in
            rw (quick, e, is_host.0, nearest, same, kept, arith_arm) refl
      ]
    ]
