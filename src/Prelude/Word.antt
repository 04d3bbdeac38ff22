-- ===== src/Prelude/Word.antt =====
-- Machine words as native numbers below 2 ^ w: the operations that wrap, and the binary digits.
use Prim.Native.Nat.{ℕ, zero, suc, ◌+◌, ◌-◌, ◌*◌, ◌/◌, ◌%◌, ◌^◌}

abbrev pub u64_mod : ℕ
u64_mod = 2 ^ 64

abbrev pub u32_mod : ℕ
u32_mod = 2 ^ 32

-- `!x` at 64 and 32 bits.
abbrev pub not64 : ℕ → ℕ
not64 x = 0xffff_ffff_ffff_ffff - x

abbrev pub not32 : ℕ → ℕ
not32 x = 0xffff_ffff - x

-- `wrapping_add` and `wrapping_sub` on u64.
abbrev pub add64 : ℕ → ℕ → ℕ
add64 a b = (a + b) % u64_mod

abbrev pub sub64 : ℕ → ℕ → ℕ
sub64 a b = (a + u64_mod - b) % u64_mod

-- `x >> k`, and `x << k` before it is cut to the width.
abbrev pub shr : ℕ → ℕ → ℕ
shr x k = x / 2 ^ k

abbrev pub shl : ℕ → ℕ → ℕ
shl x k = x * 2 ^ k

-- The binary digit of weight 2 ^ k.
unfoldable pub bit : ℕ → ℕ → ℕ
bit zero x = x % 2
bit (suc k) x = bit k (x / 2)
