-- ===== src/System/JitPages/Writes.antt =====
-- What `note_write` of `JitPageState` leaves as it is, and what it makes dirty:
-- crates/rv64-system/src/lib.rs.
use lish.Prelude.{
  ℕ, zero, suc, ◌+◌, ◌-◌, ◌*◌, ◌/◌, ◌%◌, ◌^◌, ◌≤◌, ◌<◌, ◌≡◌, refl, ◌∙◌, arith, true, shr, length,
  length-set, get_or-set, bit_or,
}
use lish.System.JitPages.{
  JitPageState, no_flags, flags_at, ram_base, jit_page_shift, page_for_address, page_marked,
  is_dirty, word_and_mask, note_page_write, note_pages, note_write,
}
use lish.System.JitPages.Stores.{IsSized, note_write-is_dirty}

-- The marks, the number of pages and the size of the flags are the same.
abbrev pub Kept : JitPageState → JitPageState → Type 0
Kept s s' =
    ((q : ℕ) → page_marked s' q ≡ page_marked s q)
    × (length s'.flags ≡ length s.flags)
    × (s'.page_count ≡ s.page_count)

note_page_write-Kept : (s : JitPageState) (page : ℕ) → Kept s (note_page_write s page)
unfolding page_marked word_and_mask note_page_write
note_page_write-Kept s page =
    let f = flags_at s (page / 64) in
    let v = record f { dirty = bit_or f.dirty (2 ^ (page % 64)) } in
    (
      λ q. ground (arith, get_or-set s.flags (page / 64) (q / 64) v no_flags),
      ground (arith, length-set s.flags (page / 64) v),
      ground arith,
    )

note_pages-Kept : (count : ℕ) (s : JitPageState) (page : ℕ) → Kept s (note_pages count s page)
unfolding note_pages
note_pages-Kept zero s page = (λ q. refl, refl, refl)
note_pages-Kept (suc count) s page =
    let (marked, sized, same) = note_page_write-Kept s page in
    let (marked', sized', same') = note_pages-Kept count (note_page_write s page) (suc page) in
    (λ q. marked' q ∙ marked q, sized' ∙ sized, same' ∙ same)

pub note_write-Kept : (s : JitPageState) (pa len : ℕ) → Kept s (note_write s pa len)
unfolding note_write page_for_address
note_write-Kept s pa len =
    let first = shr (pa - ram_base) jit_page_shift in
    let last = shr (pa + (len - 1) - ram_base) jit_page_shift in
    let (marked, sized, same) = note_pages-Kept (last + 1 - first) s first in
    (λ q. ground (arith, marked q), ground (arith, sized), ground (arith, same))

-- A write inside the pages makes the marked ones that it meets dirty, and none clean.
pub note_write-Dirty :
    (s : JitPageState) (off len q : ℕ)
    → IsSized s
    → off + len ≤ s.page_count * 2 ^ 12
    → ram_base + (off + len) ≤ 2 ^ 64
    → (is_dirty s q ≡ true → is_dirty (note_write s (ram_base + off) len) q ≡ true)
      × (off / 2 ^ 12 ≤ q
          → 2 ^ 12 * q < off + len
          → 0 < len
          → page_marked s q ≡ true
          → is_dirty (note_write s (ram_base + off) len) q ≡ true)
unfolding note_write page_for_address
note_write-Dirty s off zero q z inside fits =
    (λ d. ground (arith, d), λ a b c d. absurd (omega arith))
note_write-Dirty s off (suc len) q z inside fits =
    let exact =
      note_write-is_dirty s (ram_base + off) (suc len) (off / 2 ^ 12) ((off + len) / 2 ^ 12) q z
        (omega arith) (omega arith) (ground arith) (ground arith) in
    (λ d. ground (arith, exact, d), λ a b c d. ground (arith, exact, a, b, d))
