-- ===== src/System/Ram.antt =====
-- Guest RAM ranges: `checked_ram_range` of crates/rv64-system/src/lib.rs. A usize has 64 bits.
use lish.Prelude.{ℕ, Option, none, some, ltb, if◌then◌else◌}
use lish.Core.Bus.{checked_sub, checked_add}

-- The two ends of the range in the allocation.
unfoldable pub checked_ram_range : ℕ → ℕ → ℕ → ℕ → Option (ℕ × ℕ)
checked_ram_range ram_len ram_base addr len = elim (checked_sub addr ram_base) [
  | none ↦ none
  | some offset ↦ elim (checked_add offset len) [
    | none ↦ none
    | some end_offset ↦ if ltb ram_len end_offset then none else some (offset, end_offset)
  ]
]
