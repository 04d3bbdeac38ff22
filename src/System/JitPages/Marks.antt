-- ===== src/System/JitPages/Marks.antt =====
-- Marks and write generations of `JitPageState`, crates/rv64-system/src/lib.rs.
use lish.Prelude.{
  ℕ, zero, suc, ◌+◌, ◌/◌, ◌%◌, ◌^◌, ◌<◌, ◌≡◌, refl, arith, true, ◌&&◌, ◌||◌, not, List, [], ◌∷◌,
  length, some, ◌==◌, ◌!=◌, if◌then◌else◌, get_or, get_or-set, get_elem?, set, add64, bit_and,
  bit_or, not64,
}
use lish.System.JitPages.{
  JitPageState, no_flags, flags_at, page_for_address, word_and_mask, page_marked, is_dirty,
  address_marked, page_generation, mark_address, unmark_page, note_page_write, note_store,
}
use lish.System.JitPages.Words.{test-set, test-clear}
use lish.System.JitPages.Stores.{IsSized}

-- With a flag word for every 64 pages, marking an address of RAM marks its page and no other, says
-- whether the page was not marked before, and makes no page dirty; the address is then marked.
pub mark_address-page_marked :
    (s : JitPageState) (pa page q : ℕ)
    → IsSized s
    → page_for_address s pa ≡ some page
    → let (newly, s') = mark_address s pa in
      (newly ≡ not (page_marked s page))
      × (page_marked s' q ≡ (page_marked s q || q == page))
      × (is_dirty s' q ≡ is_dirty s q)
      × (address_marked s' pa ≡ true)
unfolding mark_address page_for_address is_dirty page_marked address_marked word_and_mask
mark_address-page_marked s pa page q z e =
    let f = flags_at s (page / 64) in
    let v = record f { marked = bit_or f.marked (2 ^ (page % 64)) } in
    let found = get_or-set s.flags (page / 64) (q / 64) v no_flags in
    (
      ground arith,
      ground (arith, found, test-set f.marked (page % 64) (q % 64)),
      ground (arith, found),
      ground (
        arith,
        get_or-set s.flags (page / 64) (page / 64) v no_flags,
        test-set f.marked (page % 64) (page % 64),
      ),
    )

-- Unmarking a page of RAM takes its mark and no other, and keeps the dirty flags.
pub unmark_page-page_marked :
    (s : JitPageState) (page q : ℕ)
    → IsSized s
    → (page_marked (unmark_page s page) q ≡ (page_marked s q && q != page))
      × (is_dirty (unmark_page s page) q ≡ is_dirty s q)
unfolding unmark_page is_dirty page_marked word_and_mask
unmark_page-page_marked s page q z =
    let f = flags_at s (page / 64) in
    let v = record f { marked = bit_and f.marked (not64 (2 ^ (page % 64))) } in
    let found = get_or-set s.flags (page / 64) (q / 64) v no_flags in
    (
      ground (arith, found, test-clear f.marked (page % 64) (q % 64) (omega arith) (omega arith)),
      ground (arith, found),
    )

get_elem?-set :
    (xs : List ℕ) (i j v : ℕ)
    → i < length xs
    → get_elem? (set xs i v) j ≡ (if j == i then some v else get_elem? xs j)
get_elem?-set [] i j v h = absurd (omega arith)
get_elem?-set (x ∷ xs) zero zero v h = refl
get_elem?-set (x ∷ xs) zero (suc j) v h = ground arith
get_elem?-set (x ∷ xs) (suc i) zero v h = ground arith
get_elem?-set (x ∷ xs) (suc i) (suc j) v h = ground (arith, get_elem?-set xs i j v (omega arith))

-- With a generation for every page, a store to RAM moves the write generation of its page on by
-- one, modulo 2 ^ 64, if that page is marked and not yet dirty, and keeps every other generation.
pub note_store-page_generation :
    (s : JitPageState) (pa page q : ℕ)
    → length s.write_generations ≡ s.page_count
    → page_for_address s pa ≡ some page
    → page_generation (note_store s pa) q ≡ (
        if q == page && (page_marked s page && not (is_dirty s page))
        then some ((get_or s.write_generations page 0 + 1) % 2 ^ 64)
        else page_generation s q)
unfolding note_store note_page_write page_for_address page_generation is_dirty page_marked
    word_and_mask
note_store-page_generation s pa page q z e = ground (
  arith,
  get_elem?-set s.write_generations page q (add64 (get_or s.write_generations page 0) 1)
      (ground arith),
)
