-- ===== src/Jit/Leb/RoundTrip.antt =====
-- Reading back the variable-length integers of crates/rv64-jit/src/wasm_emit.rs.
use lish.Prelude.{
  ℕ, zero, suc, ◌+◌, ◌-◌, ◌*◌, ◌/◌, ◌%◌, ◌^◌, ◌≤◌, ◌<◌, ◌≡◌, ap, ◌∙◌, arith, List, [], ◌∷◌, ◌++◌,
  length, Option, some, none, inl, inr, Bool-cases, ltb, if◌then◌else◌, bit_and, bit_or,
}
use lish.Prelude.Bits.Fields.{and_mask, or_fields, and_high}
use lish.Prelude.Int.{ℤ, pos, negsuc, ◌+ℤ◌}
use lish.Prelude.Signed.{shr_ℤ, ◌*ℤ◌, magnitude}
use native.Mathlib.Nat.{pow-suc}
use lish.Jit.Leb.{uleb_bytes, uleb, sleb_bytes, sleb}

-- A reader as the WebAssembly specification has it: seven digits of each byte, the lowest first, up
-- to a byte below 128. The value and what is left.
abbrev prepend : ℕ → Option (ℕ × List ℕ) → Option (ℕ × List ℕ)
prepend b none = none
prepend b (some (v, rest)) = some (b - 128 + 128 * v, rest)

abbrev pub read_uleb : List ℕ → Option (ℕ × List ℕ)
read_uleb [] = none
read_uleb (b ∷ bytes) = if ltb b 128 then some (b, bytes) else prepend b (read_uleb bytes)

digits : (v : ℕ) → (bit_and v 0x7f ≡ v % 128) × (bit_or (v % 128) 0x80 ≡ v % 128 + 128)
digits v = (and_mask 7 v, or_fields 7 1 (v % 128) (omega arith))

uleb_bytes-read :
    (fuel v : ℕ) (tail : List ℕ)
    → v < 128 ^ suc fuel
    → read_uleb (uleb_bytes (suc fuel) v ++ tail) ≡ some (v, tail)
unfolding uleb_bytes
uleb_bytes-read zero v tail h = ground (arith, digits v)
uleb_bytes-read (suc fuel) v tail h =
    ground
      (arith, digits v, uleb_bytes-read fuel (v / 128) tail (omega (arith, pow-suc 128 (suc fuel))))

length-uleb_bytes : (fuel v : ℕ) → length (uleb_bytes fuel v) ≤ fuel
unfolding uleb_bytes
length-uleb_bytes zero v = omega arith
length-uleb_bytes (suc fuel) v = ground (arith, length-uleb_bytes fuel (v / 128))

-- The signed reader: the last byte has the sign in its seventh digit.
abbrev prepend_signed : ℕ → Option (ℤ × List ℕ) → Option (ℤ × List ℕ)
prepend_signed b none = none
prepend_signed b (some (v, rest)) = some (pos (b - 128) +ℤ pos 128 *ℤ v, rest)

abbrev pub read_sleb : List ℕ → Option (ℤ × List ℕ)
read_sleb [] = none
read_sleb (b ∷ bytes) =
    if ltb b 128
    then some ((if ltb b 64 then pos b else negsuc (127 - b)), bytes)
    else prepend_signed b (read_sleb bytes)

-- The bound on what a number of bytes holds.
abbrev InSigned : ℕ → ℤ → Type 0
InSigned fuel (pos n) = n < 64 * 128 ^ fuel
InSigned fuel (negsuc n) = n < 64 * 128 ^ fuel

sign_digit : (b : ℕ) → bit_and b 0x40 ≡ b / 64 % 2 * 64
sign_digit b = omega (arith, and_high 6 b 1, and_mask 1 (b / 64))

marked_digit : (b : ℕ) → b < 128 → bit_or b 0x80 ≡ b + 128
marked_digit b h = or_fields 7 1 b h

-- One byte, for the last and for the others.
pos_last :
    (n fuel : ℕ) (tail : List ℕ)
    → n < 64
    → read_sleb (sleb_bytes (suc fuel) (pos n) ++ tail) ≡ some (pos n, tail)
unfolding sleb_bytes
pos_last n fuel tail h = ground (arith, sign_digit (n % 128))

neg_last :
    (n fuel : ℕ) (tail : List ℕ)
    → n < 64
    → read_sleb (sleb_bytes (suc fuel) (negsuc n) ++ tail) ≡ some (negsuc n, tail)
unfolding sleb_bytes
neg_last n fuel tail h = ground (arith, sign_digit (127 - n % 128))

pos_more :
    (n fuel : ℕ)
    → 64 ≤ n
    → sleb_bytes (suc fuel) (pos n) ≡ (n % 128 + 128) ∷ sleb_bytes fuel (pos (n / 128))
unfolding sleb_bytes
pos_more n fuel h = ground (arith, sign_digit (n % 128), marked_digit (n % 128) (omega arith))

neg_more :
    (n fuel : ℕ)
    → 64 ≤ n
    → sleb_bytes (suc fuel) (negsuc n) ≡ (255 - n % 128) ∷ sleb_bytes fuel (negsuc (n / 128))
unfolding sleb_bytes
neg_more n fuel h =
    ground (arith, sign_digit (127 - n % 128), marked_digit (127 - n % 128) (omega arith))

prepend_pos :
    (n : ℕ) (tail : List ℕ)
    → prepend_signed (n % 128 + 128) (some (pos (n / 128), tail)) ≡ some (pos n, tail)
unfolding ◌+ℤ◌
prepend_pos n tail = ground arith

prepend_neg :
    (n : ℕ) (tail : List ℕ)
    → prepend_signed (255 - n % 128) (some (negsuc (n / 128), tail)) ≡ some (negsuc n, tail)
unfolding ◌+ℤ◌
prepend_neg n tail = ground arith

not_last :
    (b : ℕ) (bytes : List ℕ) → 128 ≤ b → read_sleb (b ∷ bytes) ≡ prepend_signed b (read_sleb bytes)
not_last b bytes h = ground arith

sleb_bytes-read :
    (fuel : ℕ) (v : ℤ) (tail : List ℕ)
    → InSigned fuel v
    → read_sleb (sleb_bytes (suc fuel) v ++ tail) ≡ some (v, tail)
sleb_bytes-read zero (pos n) tail h = pos_last n 0 tail (omega arith)
sleb_bytes-read zero (negsuc n) tail h = neg_last n 0 tail (omega arith)
sleb_bytes-read (suc fuel) (pos n) tail h =
    let rest = sleb_bytes-read fuel (pos (n / 128)) tail (omega (arith, pow-suc 128 fuel)) in
    elim (Bool-cases (ltb n 64)) [
      | inl small ↦ pos_last n (suc fuel) tail (ground arith)
      | inr large ↦ rw (pos_more n (suc fuel) (ground arith)) (
          not_last (n % 128 + 128) (sleb_bytes (suc fuel) (pos (n / 128)) ++ tail) (omega arith)
          ∙ ap (prepend_signed (n % 128 + 128)) rest
          ∙ prepend_pos n tail)
    ]
sleb_bytes-read (suc fuel) (negsuc n) tail h =
    let rest = sleb_bytes-read fuel (negsuc (n / 128)) tail (omega (arith, pow-suc 128 fuel)) in
    elim (Bool-cases (ltb n 64)) [
      | inl small ↦ neg_last n (suc fuel) tail (ground arith)
      | inr large ↦ rw (neg_more n (suc fuel) (ground arith)) (
          not_last (255 - n % 128) (sleb_bytes (suc fuel) (negsuc (n / 128)) ++ tail) (omega arith)
          ∙ ap (prepend_signed (255 - n % 128)) rest
          ∙ prepend_neg n tail)
    ]

length-sleb_bytes : (fuel : ℕ) (v : ℤ) → length (sleb_bytes fuel v) ≤ fuel
unfolding sleb_bytes
length-sleb_bytes zero v = omega arith
length-sleb_bytes (suc fuel) v = ground (arith, length-sleb_bytes fuel (shr_ℤ v 7))

-- An unsigned integer of 64 bits is written in at most ten bytes, and the reader gives the integer
-- and the bytes that follow.
pub read-uleb :
    (v : ℕ) (tail : List ℕ)
    → v < 2 ^ 64
    → (read_uleb (uleb [] v ++ tail) ≡ some (v, tail)) × (length (uleb [] v) ≤ 10)
unfolding uleb
read-uleb v tail h = (uleb_bytes-read 9 v tail (omega arith), length-uleb_bytes 10 v)

-- A signed integer of 64 bits is written in at most ten bytes, and the reader gives the integer and
-- the bytes that follow.
pub read-sleb :
    (v : ℤ) (tail : List ℕ)
    → magnitude v ≤ 2 ^ 63
    → (read_sleb (sleb [] v ++ tail) ≡ some (v, tail)) × (length (sleb [] v) ≤ 10)
unfolding sleb
read-sleb v tail h = (sleb_bytes-read 9 v tail (fits v h), length-sleb_bytes 10 v)
  where
    fits : (v : ℤ) → magnitude v ≤ 2 ^ 63 → InSigned 9 v
    fits (pos n) h = omega arith
    fits (negsuc n) h = omega arith
