-- ===== src/Core/Memory/Invalidate.antt =====
-- The fused store entries of a physical page: crates/rv64-core/src/cpu.rs,
-- `invalidate_store_jtlb_page`.
use lish.Prelude.{
  ℕ, zero, suc, ◌+◌, ◌≤◌, ◌<◌, ◌≡◌, ◌⊎◌, inl, inr, refl, subst, arith, false, ◌==◌, bit_and, not64,
  Bool-cases,
}
use lish.Core.Cpu.{Cpu, set_row, tlb_invalid, tlb_size}
use lish.Core.Memory.{mapped_page, invalidate_entry, invalidate_entries, invalidate_store_jtlb_page}

-- The store entry of an index is empty, or is that of another physical page.
abbrev pub Gone : ℕ → Cpu → ℕ → Type 0
Gone page c j =
    (c.jtlb_tag 1 j ≡ tlb_invalid)
    ⊎ ((c.tlb_tag 2 j ≡ c.jtlb_tag 1 j) × ((mapped_page c j (c.jtlb_tag 1 j) == page) ≡ false))

-- The rows that tell whether an entry is gone.
abbrev SameEntry : Cpu → Cpu → ℕ → Type 0
SameEntry c d j =
    (d.jtlb_tag 1 j ≡ c.jtlb_tag 1 j)
    × (d.tlb_tag 2 j ≡ c.tlb_tag 2 j)
    × (d.tlb_diff 2 j ≡ c.tlb_diff 2 j)

entry-other :
    (page index j : ℕ) (s : Cpu × ℕ)
    → (j == index) ≡ false
    → SameEntry s.0 (invalidate_entry page index s).0 j
unfolding invalidate_entry set_row
entry-other page index j s h = ground arith

entry-Gone : (page index : ℕ) (s : Cpu × ℕ) → Gone page (invalidate_entry page index s).0 index
unfolding invalidate_entry set_row mapped_page
entry-Gone page index s = ground arith

entries-other :
    (left page index j : ℕ) (s : Cpu × ℕ)
    → j < index
    → SameEntry s.0 (invalidate_entries left page index s).0 j
unfolding invalidate_entries
entries-other zero page index j s h = (refl, refl, refl)
entries-other (suc left) page index j s h = ground (
  arith,
  entry-other page index j s (ground arith),
  entries-other left page (suc index) j (invalidate_entry page index s) (omega arith),
)

same-Gone : (page : ℕ) (c d : Cpu) (j : ℕ) → SameEntry c d j → Gone page c j → Gone page d j
unfolding mapped_page
same-Gone page c d j same (inl e) = inl (ground arith)
same-Gone page c d j same (inr e) = inr (ground arith)

entries-Gone :
    (left page index j : ℕ) (s : Cpu × ℕ)
    → index ≤ j
    → j < index + left
    → Gone page (invalidate_entries left page index s).0 j
unfolding invalidate_entries
entries-Gone zero page index j s h l = absurd (omega arith)
entries-Gone (suc left) page index j s h l = elim (Bool-cases (index == j)) [
  | inl e ↦
      let here : index ≡ j = ground arith in
      subst (Gone page (invalidate_entries left page (suc index) (invalidate_entry page index s)).0)
        here
        (same-Gone page _ _ index
          (entries-other left page (suc index) index (invalidate_entry page index s) (omega arith))
          (entry-Gone page index s))
  | inr e ↦
      entries-Gone left page (suc index) j (invalidate_entry page index s) (ground arith)
        (omega arith)
]

-- Afterwards no fused store entry is left for the physical page of `pa`: each is empty, or the
-- ordinary entry behind it maps its page to another one.
pub invalidate_store_jtlb_page-Gone :
    (c : Cpu) (pa j : ℕ)
    → j < tlb_size
    → Gone (bit_and pa (not64 0xfff)) (invalidate_store_jtlb_page c pa).1 j
unfolding invalidate_store_jtlb_page
invalidate_store_jtlb_page-Gone c pa j h =
    entries-Gone tlb_size (bit_and pa (not64 0xfff)) 0 j (c, 0) (omega arith) h
