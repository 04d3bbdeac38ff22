-- ===== src/System/JitPages/Words.antt =====
-- Single flags in the words of `JitPageState`, crates/rv64-system/src/lib.rs.
use lish.Prelude.{ℕ, ◌^◌, ◌<◌, ◌≡◌, arith, ◌&&◌, ◌||◌, ◌==◌, ◌!=◌, bit_and, bit_or, not64}
use lish.Prelude.Bits.{pow_lt, bit-or, bit-pow, bit-lt}
use lish.Prelude.Bits.Shift.{test_lem, bit-clear}

-- The test after a digit is set.
pub test-set :
    (m j k : ℕ) → (bit_and (bit_or m (2 ^ j)) (2 ^ k) != 0) ≡ (k == j || bit_and m (2 ^ k) != 0)
test-set m j k = ground (
  arith,
  test_lem (bit_or m (2 ^ j)) k,
  test_lem m k,
  bit-or k m (2 ^ j),
  bit-pow j k,
  bit-lt k m,
)

-- The test after a digit is cleared.
pub test-clear :
    (m j k : ℕ)
    → j < 64
    → k < 64
    → (bit_and (bit_and m (not64 (2 ^ j))) (2 ^ k) != 0) ≡ (bit_and m (2 ^ k) != 0 && k != j)
test-clear m j k h lt = ground (
  arith,
  test_lem (bit_and m (not64 (2 ^ j))) k,
  test_lem m k,
  bit-clear m (2 ^ j) k (pow_lt j 64 h) lt,
  bit-pow j k,
  bit-lt k m,
)
