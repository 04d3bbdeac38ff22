-- ===== src/Core/Bus.antt =====
-- The memory interface of the hart, and flat memory: crates/rv64-core/src/bus.rs.
pub mod Flat
use lish.Prelude.{
  ℕ, Bool, ◌+◌, ◌-◌, ◌^◌, ◌*◌, Option, none, some, List, length, ltb, leb, if◌then◌else◌,
}
use lish.Prelude.Int.{ℤ}
use lish.Prelude.Memory.{read_at, write_at, to_le_bytes, from_le_bytes}
use lish.Core.Exception.{
  Exception, Result, ok, err, load_access_fault, store_access_fault, instruction_access_fault,
}

-- `trait Bus` over memories of type M: the width is the number of bytes. A read may change the
-- memory's state, as that of a device register does.
pub record Bus (M : Type 0) : Type 0 where
  pub read : ℕ → M → ℕ → Result ℕ × M
  pub write : ℕ → M → ℕ → ℕ → Result (Unit {0}) × M
  pub fetch32_if_safe : M → ℕ → Option ℕ
  pub irq_lines : M → ℕ × M
  pub jit_fast_off : M → ℕ → ℕ → Bool → Option ℤ

-- `struct FlatMemory`.
pub record FlatMemory : Type 0 where
  pub base : ℕ
  pub mem : List ℕ

unfoldable pub checked_sub : ℕ → ℕ → Option ℕ
checked_sub a b = if ltb a b then none else some (a - b)

unfoldable pub checked_add : ℕ → ℕ → Option ℕ
checked_add a b = if ltb (a + b) (2 ^ 64) then some (a + b) else none

unfoldable pub offset : FlatMemory → ℕ → ℕ → Option ℕ
unfolding checked_sub checked_add
offset f addr len = elim (checked_sub addr f.base) [
  | none ↦ none
  | some off ↦ elim (checked_add off len) [
    | none ↦ none
    | some end_off ↦ if leb end_off (length f.mem) then some off else none
  ]
]

-- `flat_rw!`: the reads and writes of n bytes.
unfoldable pub read : ℕ → FlatMemory → ℕ → Result ℕ × FlatMemory
read n f addr = elim (offset f addr n) [
  | none ↦ (err (load_access_fault addr), f)
  | some off ↦ (ok (from_le_bytes (read_at off n f.mem)), f)
]

unfoldable pub write : ℕ → FlatMemory → ℕ → ℕ → Result (Unit {0}) × FlatMemory
write n f addr val = elim (offset f addr n) [
  | none ↦ (err (store_access_fault addr), f)
  | some off ↦ (ok tt, record f { mem = write_at off (to_le_bytes n val) f.mem })
]

unfoldable pub fetch32_if_safe : FlatMemory → ℕ → Option ℕ
fetch32_if_safe f addr = elim (offset f addr 4) [
  | none ↦ none
  | some off ↦ some (from_le_bytes (read_at off 4 f.mem))
]

-- `fetch16` and `fetch32` of the trait: a read fault becomes a fetch fault.
unfoldable pub fetch : {M : Type 0} → Bus M → ℕ → M → ℕ → Result ℕ × M
fetch bus n m addr =
    let (r, m') = bus.read n m addr in
    elim r [ ok v ↦ (ok v, m') | err e ↦ (err (instruction_access_fault addr), m') ]

-- Flat memory as a bus; it has no interrupts and nothing for compiled code.
unfoldable pub flat_bus : Bus FlatMemory
flat_bus = record {
  read = read;
  write = write;
  fetch32_if_safe = fetch32_if_safe;
  irq_lines = λ f. (0, f);
  jit_fast_off = λ f va pa for_store. none;
}
