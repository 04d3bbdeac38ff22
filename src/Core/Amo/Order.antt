-- ===== src/Core/Amo/Order.antt =====
-- The minimum and maximum of crates/rv64-core/src/cpu.rs, AMOMIN, AMOMAX, AMOMINU and AMOMAXU.
use lish.Prelude.{
  ℕ, ◌+◌, ◌%◌, ◌≤◌, ◌<◌, ◌≡◌, arith, Bool, true, false, some, if◌then◌else◌, u64_mod, u32_mod,
}
use lish.Core.Amo.{amo_new, amo_slt}

-- An operand at the width.
abbrev pub low : Bool → ℕ → ℕ
low is64 v = if is64 then v else v % u32_mod

-- The least and the greatest of two operands are the two operands, at the width of the instruction,
-- and they are in order: the signed order for AMOMIN and AMOMAX, and that of the patterns for
-- AMOMINU and AMOMAXU.
amo_min_max :
    (is64 : Bool) (old src least greatest least_u greatest_u : ℕ)
    → old < u64_mod
    → src < u64_mod
    → amo_new 0x10 is64 old src ≡ some least
    → amo_new 0x14 is64 old src ≡ some greatest
    → amo_new 0x18 is64 old src ≡ some least_u
    → amo_new 0x1c is64 old src ≡ some greatest_u
    → (low is64 least + low is64 greatest ≡ low is64 old + low is64 src)
      × (amo_slt is64 (low is64 greatest) (low is64 least) ≡ false)
      × (low is64 least_u + low is64 greatest_u ≡ low is64 old + low is64 src)
      × (low is64 least_u ≤ low is64 greatest_u)
unfolding amo_new
amo_min_max true old src least greatest least_u greatest_u ho hs e f g h = ground arith
amo_min_max false old src least greatest least_u greatest_u ho hs e f g h = ground arith
