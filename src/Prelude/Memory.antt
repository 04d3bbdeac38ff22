-- ===== src/Prelude/Memory.antt =====
-- Byte memory as a list, and little-endian words.
use Prim.Native.Nat.{ℕ, zero, suc, ◌+◌, ◌*◌, ◌/◌, ◌%◌, ◌^◌, ◌≤◌, ◌<◌}
use mathlib.Core.Path.{◌≡◌, refl, ap}
use mathlib.Core.Logic.{◌⊎◌, inl, inr}
use mathlib.Core.List.{List, [], ◌∷◌}
use native.Mathlib.Nat.{pow-suc}
use native.Mathlib.Omega.{arith}
use lish.Prelude.Lists.{length, get_or, take}

-- `mem[off..off + n]`, and a copy of `bytes` to `mem[off..]`; what lies outside is not touched.
unfoldable pub read_at : ℕ → ℕ → List ℕ → List ℕ
read_at off n [] = []
read_at zero zero (b ∷ mem) = []
read_at zero (suc n) (b ∷ mem) = b ∷ read_at zero n mem
read_at (suc off) n (b ∷ mem) = read_at off n mem

unfoldable pub write_at : ℕ → List ℕ → List ℕ → List ℕ
write_at off bytes [] = []
write_at zero [] (b ∷ mem) = b ∷ mem
write_at zero (a ∷ bytes) (b ∷ mem) = a ∷ write_at zero bytes mem
write_at (suc off) bytes (b ∷ mem) = b ∷ write_at off bytes mem

pub length-read_at :
    (off n : ℕ) (mem : List ℕ) → off + n ≤ length mem → length (read_at off n mem) ≡ n
unfolding read_at
length-read_at off n [] h = omega (arith, h)
length-read_at zero zero (b ∷ mem) h = refl
length-read_at zero (suc n) (b ∷ mem) h = ap suc (length-read_at zero n mem (omega arith))
length-read_at (suc off) n (b ∷ mem) h = length-read_at off n mem (omega arith)

pub length-write_at : (off : ℕ) (bytes mem : List ℕ) → length (write_at off bytes mem) ≡ length mem
unfolding write_at
length-write_at off bytes [] = refl
length-write_at zero [] (b ∷ mem) = refl
length-write_at zero (a ∷ bytes) (b ∷ mem) = ap suc (length-write_at zero bytes mem)
length-write_at (suc off) bytes (b ∷ mem) = ap suc (length-write_at off bytes mem)

pub read_at-write_at :
    (off : ℕ) (bytes mem : List ℕ)
    → off + length bytes ≤ length mem
    → read_at off (length bytes) (write_at off bytes mem) ≡ bytes
unfolding read_at write_at
read_at-write_at off [] [] h = refl
read_at-write_at off (a ∷ bytes) [] h = absurd (omega arith)
read_at-write_at zero [] (b ∷ mem) h = refl
read_at-write_at zero (a ∷ bytes) (b ∷ mem) h =
    ap (◌∷◌ a) (read_at-write_at zero bytes mem (omega arith))
read_at-write_at (suc off) bytes (b ∷ mem) h = read_at-write_at off bytes mem (omega arith)

-- The first bytes of what was written.
pub read_at-write_at_front :
    (off n : ℕ) (bytes mem : List ℕ)
    → off + length bytes ≤ length mem
    → n ≤ length bytes
    → read_at off n (write_at off bytes mem) ≡ take n bytes
unfolding read_at write_at
read_at-write_at_front off zero [] [] h le = refl
read_at-write_at_front off n (a ∷ bytes) [] h le = absurd (omega arith)
read_at-write_at_front zero zero [] (b ∷ mem) h le = refl
read_at-write_at_front zero (suc n) [] (b ∷ mem) h le = absurd (omega arith)
read_at-write_at_front off (suc n) [] [] h le = absurd (omega arith)
read_at-write_at_front zero zero (a ∷ bytes) (b ∷ mem) h le = refl
read_at-write_at_front zero (suc n) (a ∷ bytes) (b ∷ mem) h le =
    ap (◌∷◌ a) (read_at-write_at_front zero n bytes mem (omega arith) (omega arith))
read_at-write_at_front (suc off) n bytes (b ∷ mem) h le =
    read_at-write_at_front off n bytes mem (omega arith) (omega arith)

pub read_at-write_at_apart :
    (off pos n : ℕ) (bytes mem : List ℕ)
    → (pos + n ≤ off) ⊎ (off + length bytes ≤ pos)
    → read_at pos n (write_at off bytes mem) ≡ read_at pos n mem
unfolding read_at write_at
read_at-write_at_apart off pos n bytes [] h = refl
read_at-write_at_apart zero pos n [] (b ∷ mem) h = refl
read_at-write_at_apart zero zero zero (a ∷ bytes) (b ∷ mem) h = refl
read_at-write_at_apart zero zero (suc n) (a ∷ bytes) (b ∷ mem) h = absurd (omega arith)
read_at-write_at_apart zero (suc pos) n (a ∷ bytes) (b ∷ mem) h =
    read_at-write_at_apart zero pos n bytes mem (inr (omega arith))
read_at-write_at_apart (suc off) zero zero bytes (b ∷ mem) h = refl
read_at-write_at_apart (suc off) zero (suc n) bytes (b ∷ mem) h =
    ap (◌∷◌ b) (read_at-write_at_apart off zero n bytes mem (inl (omega arith)))
read_at-write_at_apart (suc off) (suc pos) n bytes (b ∷ mem) h =
    read_at-write_at_apart off pos n bytes mem (apart h)
  where
    apart :
        (suc pos + n ≤ suc off) ⊎ (suc off + length bytes ≤ suc pos)
        → (pos + n ≤ off) ⊎ (off + length bytes ≤ pos)
    apart (inl p) = inl (omega arith)
    apart (inr p) = inr (omega arith)

pub get_or-write_at_apart :
    (off pos : ℕ) (bytes mem : List ℕ)
    → (pos < off) ⊎ (off + length bytes ≤ pos)
    → get_or (write_at off bytes mem) pos 0 ≡ get_or mem pos 0
unfolding write_at
get_or-write_at_apart off pos bytes [] h = refl
get_or-write_at_apart zero pos [] (b ∷ mem) h = refl
get_or-write_at_apart zero zero (a ∷ bytes) (b ∷ mem) h = absurd (ground (arith, h))
get_or-write_at_apart zero (suc pos) (a ∷ bytes) (b ∷ mem) h =
    get_or-write_at_apart zero pos bytes mem (inr (ground (arith, h)))
get_or-write_at_apart (suc off) zero bytes (b ∷ mem) h = refl
get_or-write_at_apart (suc off) (suc pos) bytes (b ∷ mem) h =
    get_or-write_at_apart off pos bytes mem (ground (arith, h))

-- `to_le_bytes` at n bytes, and `from_le_bytes`.
unfoldable pub to_le_bytes : ℕ → ℕ → List ℕ
to_le_bytes zero v = []
to_le_bytes (suc n) v = (v % 256) ∷ to_le_bytes n (v / 256)

unfoldable pub from_le_bytes : List ℕ → ℕ
from_le_bytes [] = 0
from_le_bytes (b ∷ bytes) = b + 256 * from_le_bytes bytes

pub length-to_le_bytes : (n v : ℕ) → length (to_le_bytes n v) ≡ n
unfolding to_le_bytes
length-to_le_bytes zero v = refl
length-to_le_bytes (suc n) v = ap suc (length-to_le_bytes n (v / 256))

pub from_le_bytes-to_le_bytes : (n v : ℕ) → v < 256 ^ n → from_le_bytes (to_le_bytes n v) ≡ v
unfolding from_le_bytes to_le_bytes
from_le_bytes-to_le_bytes zero v h = omega arith
from_le_bytes-to_le_bytes (suc n) v h =
    omega (arith, from_le_bytes-to_le_bytes n (v / 256) (omega (arith, pow-suc 256 n)))
