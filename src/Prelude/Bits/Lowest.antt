-- ===== src/Prelude/Bits/Lowest.antt =====
-- The lowest digit that is set: where it is, and `m & (m - 1)`, which clears it.
use Prim.Native.Nat.{ℕ, zero, suc, ◌-◌, ◌/◌, ◌%◌, ◌^◌, ◌<◌, min, bit_and}
use mathlib.Core.Path.{◌≡◌, ap, ◌∙◌}
use mathlib.Core.Logic.{inl, inr}
use native.Mathlib.Nat.{pow-suc}
use native.Mathlib.Omega.{arith}
use lish.Prelude.Tests.{◌==◌, if◌then◌else◌, Bool-cases}
use lish.Prelude.Word.{bit}
use lish.Prelude.Bits.{bit-and}

-- `m.trailing_zeros()` at a width of `w` bits: `w` at 0.
unfoldable pub trailing_zeros : ℕ → ℕ → ℕ
trailing_zeros zero m = 0
trailing_zeros (suc w) m = if m % 2 == 1 then 0 else suc (trailing_zeros w (m / 2))

pub trailing_zeros-lt : (w m : ℕ) → 0 < m → m < 2 ^ w → trailing_zeros w m < w
unfolding trailing_zeros
trailing_zeros-lt zero m h lt = omega arith
trailing_zeros-lt (suc w) m h lt = elim (Bool-cases (m % 2 == 1)) [
  | inl e ↦ rw e (omega arith)
  | inr e ↦
      let half : (0 < m / 2) × (m / 2 < 2 ^ w) = ground (arith, pow-suc 2 w) in
      rw e (omega (arith, trailing_zeros-lt w (m / 2) half.0 half.1))
]

pub bit-trailing_zeros : (w m : ℕ) → 0 < m → m < 2 ^ w → bit (trailing_zeros w m) m ≡ 1
unfolding trailing_zeros bit
bit-trailing_zeros zero m h lt = absurd (omega arith)
bit-trailing_zeros (suc w) m h lt = elim (Bool-cases (m % 2 == 1)) [
  | inl e ↦ rw (e, bit) (ground arith)
  | inr e ↦
      let half : (0 < m / 2) × (m / 2 < 2 ^ w) = ground (arith, pow-suc 2 w) in
      rw (e, bit) (bit-trailing_zeros w (m / 2) half.0 half.1)
]

-- The digits below it are zero.
pub bit-below_trailing_zeros : (w m j : ℕ) → j < trailing_zeros w m → bit j m ≡ 0
unfolding trailing_zeros bit
bit-below_trailing_zeros zero m j h = absurd (omega arith)
bit-below_trailing_zeros (suc w) m zero h = ground arith
bit-below_trailing_zeros (suc w) m (suc j) h = ground (arith, bit-below_trailing_zeros w (m / 2) j)

and_pred :
    (w m j : ℕ)
    → 0 < m
    → m < 2 ^ w
    → min (bit j m) (bit j (m - 1)) ≡ (if j == trailing_zeros w m then 0 else bit j m)
unfolding trailing_zeros bit
and_pred zero m j h lt = absurd (omega arith)
and_pred (suc w) m zero h lt = ground arith
and_pred (suc w) m (suc j) h lt = elim (Bool-cases (m % 2 == 1)) [
  | inl e ↦ let half : (m - 1) / 2 ≡ m / 2 = ground arith in ground (arith, ap (bit j) half)
  | inr e ↦
      let half : ((m - 1) / 2 ≡ m / 2 - 1) × (0 < m / 2) × (m / 2 < 2 ^ w) =
        ground (arith, pow-suc 2 w) in
      rw (e, half.0) (ground (arith, and_pred w (m / 2) j half.1 half.2))
]

-- `m & (m - 1)` clears that digit and keeps every other.
pub bit-clear_lowest :
    (w m j : ℕ)
    → 0 < m
    → m < 2 ^ w
    → bit j (bit_and m (m - 1)) ≡ (if j == trailing_zeros w m then 0 else bit j m)
bit-clear_lowest w m j h lt = bit-and j m (m - 1) ∙ and_pred w m j h lt
