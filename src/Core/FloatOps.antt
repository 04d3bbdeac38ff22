-- ===== src/Core/FloatOps.antt =====
-- The instructions of OP-FP: `op_fp`, `fp_fast32` and `fp_fast64` of crates/rv64-core/src/cpu.rs.
-- The arms of the two formats differ in the format only. What is a parameter: the arithmetic of
-- `softfp`, which is another project's, at no flags before, and the host's own on the same patterns.
mod Tests
pub mod Valid
pub mod Host
pub mod Fast
use lish.Prelude.{
  ℕ, ◌+◌, ◌-◌, ◌*◌, ◌/◌, ◌%◌, ◌^◌, Bool, true, false, ◌&&◌, ◌||◌, not, Option, none, some, get_or,
  leb, ltb, ◌==◌, ◌!=◌, if◌then◌else◌, u32_mod, bit_and, bit_or, bit_xor, shr,
}
use lish.Core.Exception.{Result, ok, err, illegal_instruction}
use lish.Core.Cpu.{Cpu, wr}
use lish.Core.Decode.{funct7, rd, rs1, rs2, funct3}
use lish.Core.Alu.{widen}
use lish.Core.Float.{FloatUnit, get_rm, box32, unbox32, set_f, raise_flags}

-- `sf32` and `sf64`: the pattern and the flags. The last argument of a conversion is `unsigned`.
pub record SoftFloat : Type 0 where
  pub arith_op : ℕ → ℕ → ℕ → ℕ → ℕ × ℕ
  pub sqrt : ℕ → ℕ → ℕ × ℕ
  pub minimum : ℕ → ℕ → ℕ × ℕ
  pub maximum : ℕ → ℕ → ℕ × ℕ
  pub eq_quiet : ℕ → ℕ → ℕ × ℕ
  pub lt : ℕ → ℕ → ℕ × ℕ
  pub le : ℕ → ℕ → ℕ × ℕ
  pub fclass : ℕ → ℕ
  pub cvt_to_i32 : ℕ → ℕ → Bool → ℕ × ℕ
  pub cvt_to_i64 : ℕ → ℕ → Bool → ℕ × ℕ
  pub cvt_from_i32 : ℕ → ℕ → Bool → ℕ × ℕ
  pub cvt_from_i64 : ℕ → ℕ → Bool → ℕ × ℕ
  pub fma : ℕ → ℕ → ℕ → ℕ → ℕ × ℕ
  -- The host's operation on the patterns: `+`, `-`, `*` and `/` of f32 or f64.
  pub host_op : ℕ → ℕ → ℕ → ℕ

-- Both, with the conversions between them.
pub record Softfp : Type 0 where
  pub sf32 : SoftFloat
  pub sf64 : SoftFloat
  pub cvt_sf64_sf32 : ℕ → ℕ → ℕ × ℕ
  pub cvt_sf32_sf64 : ℕ → ℕ × ℕ

-- A format: the bits of a pattern, of its significand and the greatest exponent, how a register is
-- read and written.
pub record Format : Type 0 where
  pub size : ℕ
  pub mant_size : ℕ
  pub exp_mask : ℕ
  pub unbox : ℕ → ℕ
  pub box : ℕ → ℕ

abbrev pub single : Format
single = record { size = 32; mant_size = 23; exp_mask = 0xff; unbox = unbox32; box = box32 }

abbrev pub double : Format
double = record { size = 64; mant_size = 52; exp_mask = 0x7ff; unbox = λ r. r; box = λ v. v }

-- What an arm does: a floating-point register or an integer register with the new flags, a
-- floating-point register at once, or an illegal instruction.
pub data Outcome : Type 0 where
  to_f : ℕ → ℕ → Outcome
  to_x : ℕ → ℕ → Outcome
  to_f_at_once : ℕ → Outcome
  illegal : Outcome

-- Whether a pattern is a zero: `v << 1 == 0`.
abbrev pub is_zero : Format → ℕ → Bool
is_zero f v = v * 2 % 2 ^ f.size == 0

abbrev pub exponent : Format → ℕ → ℕ
exponent f v = bit_and (shr v f.mant_size) f.exp_mask

-- `fp_fast32` and `fp_fast64`.
unfoldable pub fast_ok : Format → ℕ → ℕ → ℕ → ℕ → Bool
fast_ok f op a b r =
    let er = exponent f r in
    let normal = leb 1 er && leb er (f.exp_mask - 1) in
    if leb op 1
    then er != f.exp_mask
    else if op == 2
    then normal || is_zero f r && (is_zero f a || is_zero f b)
    else normal || is_zero f r && is_zero f a

unfoldable pub fp_fast : Format → SoftFloat → ℕ → ℕ → ℕ → Option ℕ
fp_fast f sf op a b =
    if exponent f a == f.exp_mask || exponent f b == f.exp_mask
    then none
    else if op == 3 && is_zero f b
    then none
    else (let r = sf.host_op op a b in if fast_ok f op a b r then some r else none)

abbrev pub flagged : Format → ℕ × ℕ → Outcome
flagged f (r, fl) = to_f (f.box r) fl

abbrev pub flagged_x : ℕ × ℕ → Outcome
flagged_x (r, fl) = to_x r fl

-- With the rounding mode of the instruction.
unfoldable pub rounded : Cpu → ℕ → (ℕ → Outcome) → Outcome
rounded c f3 k = elim (get_rm c f3) [ none ↦ illegal | some rm ↦ k rm ]

unfoldable pub slow_arith : Format → SoftFloat → ℕ → ℕ → ℕ → ℕ → Outcome
slow_arith f sf op a b rm = flagged f (sf.arith_op op a b rm)

unfoldable pub arith_arm : Format → SoftFloat → Cpu → ℕ → ℕ → ℕ → ℕ → Outcome
arith_arm f sf c op a b rm =
    if rm == 0 && bit_and c.fcsr 1 != 0
    then elim (fp_fast f sf op a b) [
      | some r ↦ to_f_at_once (f.box r)
      | none ↦ slow_arith f sf op a b rm
    ]
    else slow_arith f sf op a b rm

-- The sign of the second pattern, or its complement, or both signs' difference.
unfoldable pub sign_arm : Format → ℕ → ℕ → ℕ → Outcome
sign_arm f f3 a b =
    let s = 2 ^ (f.size - 1) in
    let rest = s - 1 in
    if f3 == 0
    then to_f (f.box (bit_or (bit_and a rest) (bit_and b s))) 0
    else if f3 == 1
    then to_f (f.box (bit_or (bit_and a rest) (bit_and (2 ^ f.size - 1 - b) s))) 0
    else if f3 == 2
    then to_f (f.box (bit_xor a (bit_and b s))) 0
    else illegal

unfoldable pub min_max_arm : Format → SoftFloat → ℕ → ℕ → ℕ → Outcome
min_max_arm f sf f3 a b =
    if f3 == 0
    then flagged f (sf.minimum a b)
    else if f3 == 1
    then flagged f (sf.maximum a b)
    else illegal

unfoldable pub compare_arm : SoftFloat → ℕ → ℕ → ℕ → Outcome
compare_arm sf f3 a b =
    if f3 == 2
    then flagged_x (sf.eq_quiet a b)
    else if f3 == 1
    then flagged_x (sf.lt a b)
    else if f3 == 0
    then flagged_x (sf.le a b)
    else illegal

-- `as i32 as i64 as u64`.
abbrev pub widened : ℕ × ℕ → Outcome
widened (r, fl) = to_x (widen (r % u32_mod)) fl

unfoldable pub to_int_arm : SoftFloat → ℕ → ℕ → ℕ → Outcome
to_int_arm sf kind a rm =
    if kind == 0
    then widened (sf.cvt_to_i32 a rm false)
    else if kind == 1
    then widened (sf.cvt_to_i32 a rm true)
    else if kind == 2
    then flagged_x (sf.cvt_to_i64 a rm false)
    else if kind == 3
    then flagged_x (sf.cvt_to_i64 a rm true)
    else illegal

unfoldable pub from_int_arm : Format → SoftFloat → ℕ → ℕ → ℕ → Outcome
from_int_arm f sf kind x rm =
    if kind == 0
    then flagged f (sf.cvt_from_i32 (x % u32_mod) rm false)
    else if kind == 1
    then flagged f (sf.cvt_from_i32 (x % u32_mod) rm true)
    else if kind == 2
    then flagged f (sf.cvt_from_i64 x rm false)
    else if kind == 3
    then flagged f (sf.cvt_from_i64 x rm true)
    else illegal

-- FCVT.S.D and FCVT.D.S.
unfoldable pub convert_arm : Softfp → Cpu → ℕ → ℕ → ℕ → ℕ → Outcome
convert_arm soft c fmt f3 s2 r =
    if fmt == 0 && s2 == 1
    then rounded c f3 (λ rm. flagged single (soft.cvt_sf64_sf32 r rm))
    else if fmt == 1 && s2 == 0
    then flagged double (soft.cvt_sf32_sf64 (unbox32 r))
    else illegal

-- FMV.X.W and FMV.X.D, and the classification.
unfoldable pub move_arm : Format → SoftFloat → ℕ → ℕ → Outcome
move_arm f sf f3 r =
    if f3 == 0
    then to_x (if f.size == 32 then widen (r % u32_mod) else r) 0
    else if f3 == 1
    then to_x (sf.fclass (f.unbox r)) 0
    else illegal

-- The arms of one format.
unfoldable pub format_arm : Softfp → Format → SoftFloat → Cpu → ℕ → ℕ → ℕ → Outcome
format_arm soft f sf c fmt op insn =
    let f3 = funct3 insn in
    let s2 = rs2 insn in
    let r1 = get_or c.f (rs1 insn) 0 in
    let a = f.unbox r1 in
    let b = f.unbox (get_or c.f s2 0) in
    let x = get_or c.x (rs1 insn) 0 in
    if leb op 3
    then rounded c f3 (λ rm. arith_arm f sf c op a b rm)
    else if op == 0x0b && s2 == 0
    then rounded c f3 (λ rm. flagged f (sf.sqrt a rm))
    else if op == 0x04
    then sign_arm f f3 a b
    else if op == 0x05
    then min_max_arm f sf f3 a b
    else if op == 0x08
    then convert_arm soft c fmt f3 s2 r1
    else if op == 0x14
    then compare_arm sf f3 a b
    else if op == 0x18
    then rounded c f3 (λ rm. to_int_arm sf s2 a rm)
    else if op == 0x1a
    then rounded c f3 (λ rm. from_int_arm f sf s2 x rm)
    else if op == 0x1c
    then move_arm f sf f3 r1
    else if op == 0x1e && f3 == 0
    then to_f (f.box (x % 2 ^ f.size)) 0
    else illegal

unfoldable pub outcome : Softfp → Cpu → ℕ → Outcome
outcome soft c insn =
    let fmt = bit_and (funct7 insn) 3 in
    let op = shr (funct7 insn) 2 in
    if fmt == 0
    then format_arm soft single soft.sf32 c 0 op insn
    else if fmt == 1
    then format_arm soft double soft.sf64 c 1 op insn
    else illegal

unfoldable pub apply : Cpu → ℕ → Outcome → Result (Unit {0}) × Cpu
apply c insn (to_f v fl) = (ok tt, raise_flags fl (set_f (rd insn) v c))
apply c insn (to_x v fl) = (ok tt, raise_flags fl (wr c (rd insn) v))
apply c insn (to_f_at_once v) = (ok tt, set_f (rd insn) v c)
apply c insn illegal = (err (illegal_instruction insn), c)

unfoldable pub op_fp : Softfp → Cpu → ℕ → Result (Unit {0}) × Cpu
op_fp soft c insn = apply c insn (outcome soft c insn)

-- The floating-point unit of the interpreters.
unfoldable pub soft_unit : Softfp → FloatUnit
soft_unit soft = record { fma32 = soft.sf32.fma; fma64 = soft.sf64.fma; op_fp = op_fp soft }
