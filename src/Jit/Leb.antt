-- ===== src/Jit/Leb.antt =====
-- The variable-length integers of the module encoder: `uleb` and `sleb` of
-- crates/rv64-jit/src/wasm_emit.rs. The fuel is one more than the rounds that a word of 64 bits
-- takes at seven digits each, less one: ten.
pub mod RoundTrip
mod Tests
use lish.Prelude.{
  ℕ, zero, suc, ◌*◌, ◌/◌, ◌%◌, ◌^◌, Bool, true, false, ◌&&◌, ◌||◌, List, [], ◌∷◌, ◌++◌, ◌==◌, ◌!=◌,
  if◌then◌else◌, bit_and, bit_or, shr,
}
use lish.Prelude.Int.{ℤ, pos, negsuc}
use lish.Prelude.Signed.{unsigned_of, shr_ℤ}

unfoldable pub uleb_bytes : ℕ → ℕ → List ℕ
uleb_bytes zero v = []
uleb_bytes (suc fuel) v =
    let b = bit_and v 0x7f in
    let rest = uleb_bytes fuel (shr v 7) in if shr v 7 == 0 then b ∷ [] else bit_or b 0x80 ∷ rest

unfoldable pub uleb : List ℕ → ℕ → List ℕ
uleb out v = out ++ uleb_bytes 10 v

-- The tests `v == 0` and `v == -1` on an i64.
abbrev pub is_zero : ℤ → Bool
is_zero (pos n) = n == 0
is_zero (negsuc n) = false

abbrev pub is_minus_one : ℤ → Bool
is_minus_one (pos n) = false
is_minus_one (negsuc n) = n == 0

-- `(v & 0x7f) as u8` on an i64.
abbrev pub low_seven : ℤ → ℕ
low_seven v = unsigned_of 7 v

unfoldable pub sleb_bytes : ℕ → ℤ → List ℕ
sleb_bytes zero v = []
sleb_bytes (suc fuel) v =
    let b = low_seven v in
    let v' = shr_ℤ v 7 in
    let rest = sleb_bytes fuel v' in
    if (is_zero v' && bit_and b 0x40 == 0) || (is_minus_one v' && bit_and b 0x40 != 0)
    then b ∷ []
    else bit_or b 0x80 ∷ rest

unfoldable pub sleb : List ℕ → ℤ → List ℕ
sleb out v = out ++ sleb_bytes 10 v
