-- ===== src/Core/Memory/RoundTrip.antt =====
-- Loads after stores: crates/rv64-core/src/cpu.rs, `ld` and `st` on flat memory.
use lish.Prelude.{ℕ, ◌+◌, ◌*◌, ◌%◌, ◌^◌, ◌<◌, ◌≡◌, refl, ap, zero, suc, arith, none, inl}
use native.Mathlib.Nat.{mod-lt, pow-suc, one-le-pow}
use lish.Core.Exception.{ok}
use lish.Core.Cpu.{Cpu}
use lish.Core.Bus.{FlatMemory, flat_bus, read, write}
use lish.Core.Bus.Flat.{read-write, InRange, Fits}
use lish.Core.Mmu.{translate}
use lish.Core.Run.{◌>>=◌, ◌>>◌, get, on_bus, translated}
use lish.Core.Memory.{ld, ld_whole, st, st_whole, crosses_page, fill_jtlb}

-- On a hart without privileged state an access is one access of the flat memory.
ld_flat :
    (c : Cpu) (f : FlatMemory) (n va : ℕ)
    → c.sys ≡ none
    → ld flat_bus n va c f ≡ ((read n f va).0, c, (read n f va).1)
unfolding ld ld_whole crosses_page ◌>>=◌ ◌>>◌ get on_bus translated translate fill_jtlb flat_bus
ld_flat c f n va e = ground arith

st_flat :
    (c : Cpu) (f : FlatMemory) (n va val : ℕ)
    → c.sys ≡ none
    → st flat_bus n va val c f
      ≡ ((write n f va (val % 2 ^ (8 * n))).0, c, (write n f va (val % 2 ^ (8 * n))).1)
unfolding st st_whole crosses_page ◌>>=◌ ◌>>◌ get on_bus translated translate fill_jtlb flat_bus
st_flat c f n va val e = ground arith

power_add : (k n : ℕ) → 2 ^ (k + n) ≡ 2 ^ k * 2 ^ n
power_add zero n = let e : 0 + n ≡ n = omega arith in omega (arith, ap (λ t. 2 ^ t) e)
power_add (suc k) n =
    let e : suc k + n ≡ suc (k + n) = omega arith in
    omega (
      arith,
      ap (λ t. 2 ^ t) e,
      pow-suc 2 (k + n),
      ap (λ t. t * 2 ^ n) (pow-suc 2 k),
      power_add k n,
    )

byte_power : (n : ℕ) → 2 ^ (8 * n) ≡ 256 ^ n
byte_power zero = refl
byte_power (suc n) =
    let e : 8 * suc n ≡ 8 + 8 * n = omega arith in
    omega (arith, ap (λ t. 2 ^ t) e, power_add 8 (8 * n), byte_power n, pow-suc 256 n)

small_word : (n val : ℕ) → val % 2 ^ (8 * n) < 256 ^ n
small_word n val =
    omega (arith, byte_power n, mod-lt val {m = 2 ^ (8 * n)} (omega (arith, one-le-pow (8 * n) 2)))

-- A store of n bytes inside a flat memory of less than 2 ^ 64 bytes succeeds, and a load of n bytes
-- from the same address then gives the low n bytes of the stored word, on a hart without privileged
-- state.
pub ld-st :
    (c : Cpu) (f : FlatMemory) (n va val : ℕ)
    → c.sys ≡ none
    → Fits f
    → InRange f va n
    → let (r, c', f') = st flat_bus n va val c f in
      (r ≡ ok tt) × ((ld flat_bus n va c' f').0 ≡ ok (val % 2 ^ (8 * n)))
ld-st c f n va val e fits r =
    let low = val % 2 ^ (8 * n) in
    let (done, same, _) =
      read-write f n va low 0 va fits r (small_word n val) (inl (omega arith)) in
    rw (st_flat c f n va val e)
      (done, rw (ld_flat c (write n f va low).1 n va e) (ap (λ t. t.0) same))
