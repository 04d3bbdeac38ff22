-- ===== src/Prelude/Bits/Step.antt =====
-- The native operations mean a recursion on digits with fuel; here is its equation for the lowest
-- digit, with the fuel dropped.
use Prim.Native.Nat.{ℕ, zero, suc, ◌+◌, ◌-◌, ◌*◌, ◌/◌, ◌%◌, ◌≤◌, min, max, digits, bitwise}
use Prim.Native.Nat.{bit_and, bit_or, bit_and-bitwise, bit_or-bitwise}
use mathlib.Core.Path.{◌≡◌, refl, ap, ◌∙◌}
use native.Mathlib.Omega.{arith}

module _ (low : ℕ → ℕ) (pair : ℕ → ℕ → ℕ) where
  -- One more round changes nothing once the rounds are as many as the number.
  one_round : (n x y : ℕ) → x ≤ n → digits low pair (suc n) x y ≡ digits low pair n x y
  one_round zero zero y le = refl
  one_round zero (suc x) y le = absurd (omega arith)
  one_round (suc n) zero y le = refl
  one_round (suc n) (suc x) y le = rw (one_round n (suc x / 2) (y / 2) (omega arith))

  rounds : (extra x y : ℕ) → digits low pair (extra + x) x y ≡ bitwise low pair x y
  rounds zero x y = ap (λ n. digits low pair n x y) (omega arith)
  rounds (suc extra) x y =
      let e : suc extra + x ≡ suc (extra + x) = omega arith in
      ap (λ n. digits low pair n x y) e ∙ one_round (extra + x) x y (omega arith) ∙ rounds extra x y

  halved : (x y : ℕ) → digits low pair x (suc x / 2) y ≡ bitwise low pair (suc x / 2) y
  halved x y =
      let e : x ≡ x - suc x / 2 + suc x / 2 = omega arith in
      ap (λ n. digits low pair n (suc x / 2) y) e ∙ rounds (x - suc x / 2) (suc x / 2) y

and_suc :
    (x y : ℕ)
    → bitwise (λ t. 0) min (suc x) y
      ≡ bitwise (λ t. 0) min (suc x / 2) (y / 2) * 2 + min (suc x % 2) (y % 2)
and_suc x y = omega (arith, halved (λ t. 0) min x (y / 2))

or_suc :
    (x y : ℕ)
    → bitwise (λ t. t) max (suc x) y
      ≡ bitwise (λ t. t) max (suc x / 2) (y / 2) * 2 + max (suc x % 2) (y % 2)
or_suc x y = omega (arith, halved (λ t. t) max x (y / 2))

-- `&` at the lowest digit and above it.
pub bit_and_step : (x y : ℕ) → bit_and x y ≡ bit_and (x / 2) (y / 2) * 2 + min (x % 2) (y % 2)
bit_and_step zero y = simp bit_and-bitwise (omega arith)
bit_and_step (suc x) y = simp bit_and-bitwise (and_suc x y)

-- `|` at the lowest digit and above it.
pub bit_or_step : (x y : ℕ) → bit_or x y ≡ bit_or (x / 2) (y / 2) * 2 + max (x % 2) (y % 2)
bit_or_step zero y = simp bit_or-bitwise (omega arith)
bit_or_step (suc x) y = simp bit_or-bitwise (or_suc x y)
