-- ===== src/Core/FloatOps/Fast.antt =====
-- The fast path of the arithmetic and the arithmetic in software: `fp_fast32`, `fp_fast64` and
-- `op_fp` of crates/rv64-core/src/cpu.rs.
use lish.Prelude.{
  ℕ, ◌≡◌, refl, sym, ap, ◌∙◌, arith, ◌&&◌, Bool-cases, Option-cases, inl, inr, none, get_or, leb,
  ◌==◌, ◌!=◌, bit_and, shr,
}
use lish.Core.Cpu.{Cpu}
use lish.Core.Decode.{rs1, rs2, funct3, funct7}
use lish.Core.Float.{get_rm}
use lish.Core.FloatOps.Host.{HostAgrees, IsClear, arith_arm-apply}
use lish.Core.FloatOps.{
  Format, SoftFloat, Softfp, single, double, Outcome, fast_ok, fp_fast, slow_arith, arith_arm,
  rounded, format_arm, outcome, apply, op_fp, min_max_arm, convert_arm, compare_arm, to_int_arm,
  from_int_arm, move_arm,
}

-- The reference: a host whose results are all infinite has none that the fast path takes.
abbrev pub without_host : Softfp → Softfp
without_host soft = record soft {
  sf32 = record soft.sf32 { host_op = λ op a b. 0x7f80_0000 };
  sf64 = record soft.sf64 { host_op = λ op a b. 0x7ff0_0000_0000_0000 };
}

refused_single :
    (soft : Softfp) (op a b : ℕ) → fp_fast single (without_host soft).sf32 op a b ≡ none
unfolding fp_fast fast_ok
refused_single soft op a b = ground arith

refused_double :
    (soft : Softfp) (op a b : ℕ) → fp_fast double (without_host soft).sf64 op a b ≡ none
unfolding fp_fast fast_ok
refused_double soft op a b = ground arith

rounded-apply :
    (c : Cpu) (insn f3 : ℕ) (j k : ℕ → Outcome)
    → ((rm : ℕ) → apply c insn (j rm) ≡ apply c insn (k rm))
    → apply c insn (rounded c f3 j) ≡ apply c insn (rounded c f3 k)
unfolding rounded
rounded-apply c insn f3 j k same = elim (Option-cases (get_rm c f3)) [
  | inl e ↦ rw (rounded, e) refl
  | inr (rm, e) ↦ rw (rounded, e) (same rm)
]

-- Without a host the arm is the software's.
arith_arm-refused :
    (f : Format) (sf : SoftFloat) (c : Cpu) (op a b rm : ℕ)
    → fp_fast f sf op a b ≡ none
    → arith_arm f sf c op a b rm ≡ slow_arith f sf op a b rm
unfolding arith_arm
arith_arm-refused f sf c op a b rm none_taken =
    elim (Bool-cases (rm == 0 && bit_and c.fcsr 1 != 0)) [
      | inr slow ↦ rw slow refl
      | inl quick ↦ rw (quick, none_taken) refl
    ]

-- That of the operation and the operands of an instruction.
abbrev pub IsClearAt : Format → SoftFloat → Cpu → ℕ → Type 0
IsClearAt f sf c insn =
    IsClear f sf (shr (funct7 insn) 2) (f.unbox (get_or c.f (rs1 insn) 0))
      (f.unbox (get_or c.f (rs2 insn) 0))

module _ (soft : Softfp) (c : Cpu) (insn fmt : ℕ) where
  single_arm :
      HostAgrees single soft.sf32
      → IsClearAt single soft.sf32 c insn
      → apply c insn (format_arm soft single soft.sf32 c fmt (shr (funct7 insn) 2) insn)
        ≡ apply c insn (
            format_arm
              (without_host soft)
              single
              (without_host soft).sf32
              c
              fmt
              (shr (funct7 insn) 2)
              insn)
  unfolding format_arm slow_arith apply min_max_arm convert_arm compare_arm to_int_arm from_int_arm
      move_arm
  single_arm host clear =
      let op = shr (funct7 insn) 2 in
      elim (Bool-cases (leb op 3)) [
        | inr other ↦ rw other refl
        | inl arithmetic ↦ rw arithmetic (
            rounded-apply c insn (funct3 insn) _ _ λ rm.
              arith_arm-apply single soft.sf32 c insn op _ _ rm host (omega arith)
                (ground (arith, arithmetic)) clear
              ∙ ap (apply c insn) (
                  sym (
                    arith_arm-refused single (without_host soft).sf32 c op _ _ rm
                      (refused_single soft op _ _))))
      ]

  double_arm :
      HostAgrees double soft.sf64
      → IsClearAt double soft.sf64 c insn
      → apply c insn (format_arm soft double soft.sf64 c fmt (shr (funct7 insn) 2) insn)
        ≡ apply c insn (
            format_arm
              (without_host soft)
              double
              (without_host soft).sf64
              c
              fmt
              (shr (funct7 insn) 2)
              insn)
  unfolding format_arm slow_arith apply min_max_arm convert_arm compare_arm to_int_arm from_int_arm
      move_arm
  double_arm host clear =
      let op = shr (funct7 insn) 2 in
      elim (Bool-cases (leb op 3)) [
        | inr other ↦ rw other refl
        | inl arithmetic ↦ rw arithmetic (
            rounded-apply c insn (funct3 insn) _ _ λ rm.
              arith_arm-apply double soft.sf64 c insn op _ _ rm host (omega arith)
                (ground (arith, arithmetic)) clear
              ∙ ap (apply c insn) (
                  sym (
                    arith_arm-refused double (without_host soft).sf64 c op _ _ rm
                      (refused_double soft op _ _))))
      ]

-- An instruction of OP-FP does to the hart what it does with a host whose results the fast path
-- never takes, so with the arithmetic in software alone: registers, flags and faults. It rests on
-- the host and the software being as IEEE 754 says, in both formats, and leaves out the products and
-- quotients with a result at the least normal exponent.
pub fast_path_invisible :
    (soft : Softfp) (c : Cpu) (insn : ℕ)
    → HostAgrees single soft.sf32
    → HostAgrees double soft.sf64
    → (bit_and (funct7 insn) 3 ≡ 0 → IsClearAt single soft.sf32 c insn)
    → (bit_and (funct7 insn) 3 ≡ 1 → IsClearAt double soft.sf64 c insn)
    → op_fp soft c insn ≡ op_fp (without_host soft) c insn
unfolding op_fp outcome
fast_path_invisible soft c insn one two clear1 clear2 =
    let fmt = bit_and (funct7 insn) 3 in
    elim (Bool-cases (fmt == 0)) [
      | inl e ↦ rw e (single_arm soft c insn 0 one (clear1 (ground (arith, e))))
      | inr e ↦ elim (Bool-cases (fmt == 1)) [
        | inl e1 ↦ rw (e, e1) (double_arm soft c insn 1 two (clear2 (ground (arith, e1))))
        | inr e1 ↦ rw (e, e1) refl
      ]
    ]
