-- ===== src/Core/Alu/Tests.antt =====
-- Runs of the arithmetic of crates/rv64-core/src/cpu.rs.
use lish.Prelude.{ℕ, ◌+◌, ◌*◌, ◌%◌, ◌≡◌, refl, arith, u64_mod}
use lish.Core.Alu.{mul_div}
use lish.Core.Alu.Division.{div_rem}

-- -7 by 2.
abbrev minus_seven : ℕ
minus_seven = 0xffff_ffff_ffff_fff9

div_rem_example :
    ((0xffff_ffff_ffff_fffd * 2 + 0xffff_ffff_ffff_ffff) % u64_mod ≡ minus_seven)
    × ((0x7fff_ffff_ffff_fffc * 2 + 1) % u64_mod ≡ minus_seven)
unfolding mul_div
div_rem_example =
    div_rem minus_seven 2 0xffff_ffff_ffff_fffd 0xffff_ffff_ffff_ffff 0x7fff_ffff_ffff_fffc 1
      (omega arith) (omega arith) refl refl refl refl
