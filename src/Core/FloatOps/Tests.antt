-- ===== src/Core/FloatOps/Tests.antt =====
-- Floating-point instructions of `op_fp`, crates/rv64-core/src/cpu.rs, with arithmetics of constant
-- results.
use lish.Prelude.{ℕ, ◌≡◌, refl, false, replicate, arith}
use lish.Core.Cpu
use lish.Core.Cpu.{Cpu, has_system}
use lish.Core.Bus.{FlatMemory, flat_bus}
use lish.Core.Exec.Frame.{IsValid}
use lish.Core.FloatOps.{SoftFloat, Softfp, single, double, op_fp, soft_unit}
use lish.Core.FloatOps.Valid.{run_soft-IsValid}
use lish.Core.FloatOps.Host.{HostAgrees}
use lish.Core.FloatOps.Fast.{without_host, fast_path_invisible}
use lish.Core.Step.{run}

-- Every result is r with the flags fl.
abbrev constant : ℕ → ℕ → SoftFloat
constant r fl = record {
  arith_op = λ op a b rm. (r, fl);
  sqrt = λ a rm. (r, fl);
  minimum = λ a b. (r, fl);
  maximum = λ a b. (r, fl);
  eq_quiet = λ a b. (0, fl);
  lt = λ a b. (0, fl);
  le = λ a b. (0, fl);
  fclass = λ a. 0;
  cvt_to_i32 = λ a rm unsigned. (0, fl);
  cvt_to_i64 = λ a rm unsigned. (0, fl);
  cvt_from_i32 = λ a rm unsigned. (r, fl);
  cvt_from_i64 = λ a rm unsigned. (r, fl);
  fma = λ a b c rm. (r, fl);
  host_op = λ op a b. r;
}

-- 2.0 in both formats, inexact.
abbrev twos : Softfp
twos = record {
  sf32 = constant 0x4000_0000 1;
  sf64 = constant 0x4000_0000_0000_0000 1;
  cvt_sf64_sf32 = λ a rm. (0x4000_0000, 0);
  cvt_sf32_sf64 = λ a. (0x4000_0000_0000_0000, 0);
}

-- Every register holds the single 1.0, and inexact is set.
abbrev hart : Cpu
hart = record Cpu.new { f = replicate 32 0xffff_ffff_3f80_0000; fcsr = 1 }

-- fadd.s f3, f1, f2, rne.
abbrev add_s : ℕ
add_s = 0x0020_81d3

single-HostAgrees : HostAgrees single twos.sf32
single-HostAgrees = record {
  flags = λ op a b. 1;
  agrees = λ op a b has. refl;
  of_sum = λ op a b has le fin. omega arith;
  of_zero = λ op a b has le z. omega arith;
  of_normal = λ op a b has le low high. omega arith;
}

double-HostAgrees : HostAgrees double twos.sf64
double-HostAgrees = record {
  flags = λ op a b. 1;
  agrees = λ op a b has. refl;
  of_sum = λ op a b has le fin. omega arith;
  of_zero = λ op a b has le z. omega arith;
  of_normal = λ op a b has le low high. omega arith;
}

fast_path_invisible_example : op_fp twos hart add_s ≡ op_fp (without_host twos) hart add_s
fast_path_invisible_example =
    fast_path_invisible twos hart add_s single-HostAgrees double-HostAgrees
      (λ e le same. omega arith) (λ e le same. omega arith)

abbrev memory : FlatMemory
memory = record { base = 0; mem = replicate 64 0xd3 }

hart-IsValid : IsValid false hart
unfolding Cpu.new has_system
hart-IsValid = record { registers = refl; zero_register = refl; system = refl }

run_soft-IsValid_example : IsValid false (run flat_bus (soft_unit twos) 10 hart memory).1
run_soft-IsValid_example = run_soft-IsValid flat_bus twos 10 hart memory hart-IsValid
