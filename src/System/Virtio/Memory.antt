-- ===== src/System/Virtio/Memory.antt =====
-- Guest memory as a virtio device reaches it: the free functions at the end of
-- crates/rv64-system/src/virtio.rs. A usize has 64 bits.
pub mod Reached
pub mod Observed
pub mod Apart
use lish.Prelude.{
  ℕ, ◌*◌, ◌^◌, Bool, true, false, List, length, Option, none, some, ltb, if◌then◌else◌, bit_and,
  bit_or, not64, shl,
}
use lish.Prelude.Memory.{read_at, write_at, to_le_bytes, from_le_bytes}
use lish.System.Ram.{checked_ram_range}
use lish.System.JitPages.{JitPageState, note_write}

-- What a device reaches outside itself: the arguments `ram`, `ram_base` and `jit`, and
-- `NEXT_BLOCK_REQUEST_ID`.
pub record Outside : Type 0 where
  pub ram : List ℕ
  pub ram_base : ℕ
  pub jit : JitPageState
  pub next_id : ℕ

unfoldable pub checked_mul : ℕ → ℕ → Option ℕ
checked_mul a b = if ltb (a * b) (2 ^ 64) then some (a * b) else none

unfoldable pub guest_slice : Outside → ℕ → ℕ → Option (List ℕ)
guest_slice o addr len = elim (checked_ram_range (length o.ram) o.ram_base addr len) [
  | none ↦ none
  | some range ↦ some (read_at range.0 len o.ram)
]

-- `guest_write`, with `guest_slice_mut`.
unfoldable pub guest_write : Outside → ℕ → List ℕ → Bool × Outside
guest_write o addr bytes = elim (checked_ram_range (length o.ram) o.ram_base addr (length bytes)) [
  | none ↦ (false, o)
  | some range ↦ (
    true,
    record o { ram = write_at range.0 bytes o.ram; jit = note_write o.jit addr (length bytes) },
  )
]

-- `read16`, `read32` and `read64` are at 2, 4 and 8 bytes.
unfoldable pub read_word : ℕ → Outside → ℕ → Option ℕ
read_word n o addr = elim (guest_slice o addr n) [
  | none ↦ none
  | some bytes ↦ some (from_le_bytes bytes)
]

-- `write16` and `write32` are at 2 and 4 bytes.
unfoldable pub write_word : ℕ → Outside → ℕ → ℕ → Outside
write_word n o addr v = (guest_write o addr (to_le_bytes n v)).1

unfoldable pub set_lo : ℕ → ℕ → ℕ
set_lo v val = bit_or (bit_and v (not64 0xffff_ffff)) val

unfoldable pub set_hi : ℕ → ℕ → ℕ
set_hi v val = bit_or (bit_and v 0xffff_ffff) (shl val 32)
