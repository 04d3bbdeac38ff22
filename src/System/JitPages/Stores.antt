-- ===== src/System/JitPages/Stores.antt =====
-- What stores and drains do to the flags and the queue of `JitPageState`,
-- crates/rv64-system/src/lib.rs.
use lish.Prelude.{
  ℕ, zero, suc, ◌+◌, ◌-◌, ◌/◌, ◌%◌, ◌^◌, ◌≤◌, ◌<◌, ◌≡◌, refl, sym, subst, ap, ◌∙◌, arith, Bool,
  false, ◌&&◌, ◌||◌, not, List, [], ◌∷◌, ◌++◌, length, length-set, Option, none, some, Option-cases,
  inl, inr, leb, ltb, ◌==◌, ◌!=◌, get_or, get_or-set, bit_and, bit_or, not64,
}
use lish.System.JitPages.{
  JitPageState, no_flags, flags_at, div_ceil, page_for_address, word_and_mask, page_marked,
  is_dirty, note_page_write, note_store, note_pages, note_write, clear_page, clear_pages,
  take_dirty, new, jit_page_size, mark_address,
}
use lish.Prelude.{replicate}
use lish.Prelude.Bits.Fields.{and-le}
use lish.System.JitPages.Words.{test-set, test-clear}

-- There is a word of flags for every 64 pages.
abbrev pub IsSized : JitPageState → Type 0
IsSized s = length s.flags ≡ div_ceil s.page_count 64

-- Whether a page is in the queue.
abbrev pub listed : List ℕ → ℕ → Bool
listed [] q = false
listed (page ∷ rest) q = q == page || listed rest q

-- The queue holds the dirty pages.
abbrev pub Queued : JitPageState → Type 0
Queued s = (q : ℕ) → is_dirty s q ≡ listed s.dirty_pages q

-- A write makes the page dirty if it is marked; no other flag changes.
pub note_page_write-is_dirty :
    (s : JitPageState) (page q : ℕ)
    → IsSized s
    → page < s.page_count
    → (is_dirty (note_page_write s page) q ≡ (is_dirty s q || q == page && page_marked s q))
      × (page_marked (note_page_write s page) q ≡ page_marked s q)
      × IsSized (note_page_write s page)
unfolding is_dirty page_marked word_and_mask note_page_write
note_page_write-is_dirty s page q z lt =
    let f = flags_at s (page / 64) in
    let v = record f { dirty = bit_or f.dirty (2 ^ (page % 64)) } in
    (
      ground (
        arith,
        get_or-set s.flags (page / 64) (q / 64) v no_flags,
        test-set f.dirty (page % 64) (q % 64),
      ),
      ground (arith, get_or-set s.flags (page / 64) (q / 64) v no_flags),
      ground (arith, length-set s.flags (page / 64) v),
    )

pub note_page_write-page_count :
    (s : JitPageState) (page : ℕ) → (note_page_write s page).page_count ≡ s.page_count
unfolding note_page_write
note_page_write-page_count s page = ground arith

note_pages-is_dirty :
    (count : ℕ) (s : JitPageState) (page q : ℕ)
    → IsSized s
    → page + count ≤ s.page_count
    → is_dirty (note_pages count s page) q
      ≡ (is_dirty s q || (leb page q && ltb q (page + count)) && page_marked s q)
unfolding note_pages
note_pages-is_dirty zero s page q z le = ground arith
note_pages-is_dirty (suc count) s page q z le =
    let one = note_page_write-is_dirty s page q z (omega arith) in
    note_pages-is_dirty count (note_page_write s page) (suc page) q one.2
      (omega (arith, note_page_write-page_count s page))
    ∙ ground (arith, one.0, one.1)

-- With a flag word for every 64 pages, a nonempty DMA write whose first and last bytes lie in RAM
-- makes exactly the marked pages from the first to the last one dirty; every other page stays as
-- it was.
pub note_write-is_dirty :
    (s : JitPageState) (pa len first last q : ℕ)
    → IsSized s
    → 0 < len
    → pa + (len - 1) < 2 ^ 64
    → page_for_address s pa ≡ some first
    → page_for_address s (pa + (len - 1)) ≡ some last
    → is_dirty (note_write s pa len) q
      ≡ (is_dirty s q || (leb first q && leb q last) && page_marked s q)
unfolding note_write page_for_address
note_write-is_dirty s pa len first last q z nonempty fits e f =
    ground (arith, note_pages-is_dirty (last + 1 - first) s first q z (ground arith))

listed-append :
    (xs : List ℕ) (page q : ℕ) → listed (xs ++ (page ∷ [])) q ≡ (listed xs q || q == page)
listed-append [] page q = ground arith
listed-append (x ∷ xs) page q = ground (arith, listed-append xs page q)

note_page_write-queue :
    (s : JitPageState) (page q : ℕ)
    → page < s.page_count
    → listed (note_page_write s page).dirty_pages q
      ≡ (listed s.dirty_pages q || q == page && (page_marked s page && not (is_dirty s page)))
unfolding is_dirty page_marked word_and_mask note_page_write
note_page_write-queue s page q lt = ground (arith, listed-append s.dirty_pages page q)

note_page_write-Queued :
    (s : JitPageState) (page : ℕ)
    → IsSized s
    → page < s.page_count
    → Queued s
    → Queued (note_page_write s page)
note_page_write-Queued s page z lt h q = ground (
  arith,
  (note_page_write-is_dirty s page q z lt).0,
  note_page_write-queue s page q lt,
  h q,
  h page,
)

page_for_address-lt :
    (s : JitPageState) (pa page : ℕ) → page_for_address s pa ≡ some page → page < s.page_count
unfolding page_for_address
page_for_address-lt s pa page e = ground arith

-- With a flag word for every 64 pages, if the queue holds exactly the dirty pages, it still does
-- after a store to any address.
pub note_store-Queued :
    (s : JitPageState) (pa : ℕ) → IsSized s → Queued s → Queued (note_store s pa)
unfolding note_store
note_store-Queued s pa z h = elim (Option-cases (page_for_address s pa)) [
  | inl e ↦ subst Queued (sym (stored none e)) h
  | inr (page, e) ↦
      subst Queued (sym (stored (some page) e))
        (note_page_write-Queued s page z (page_for_address-lt s pa page e) h)
]
  where
    stored :
        (o : Option ℕ)
        → page_for_address s pa ≡ o
        → note_store s pa ≡ elim o [ none ↦ s | some page ↦ note_page_write s page ]
    stored o e = ap (λ (t : Option ℕ). elim t [ none ↦ s | some page ↦ note_page_write s page ]) e

clear_page-is_dirty :
    (s : JitPageState) (page q : ℕ)
    → IsSized s
    → (is_dirty (clear_page s page) q ≡ (is_dirty s q && q != page))
      × (page_marked (clear_page s page) q ≡ page_marked s q)
      × IsSized (clear_page s page)
unfolding clear_page is_dirty page_marked word_and_mask
clear_page-is_dirty s page q z =
    let f = flags_at s (page / 64) in
    let v = record f { dirty = bit_and f.dirty (not64 (2 ^ (page % 64))) } in
    (
      ground (
        arith,
        get_or-set s.flags (page / 64) (q / 64) v no_flags,
        test-clear f.dirty (page % 64) (q % 64) (omega arith) (omega arith),
      ),
      ground (arith, get_or-set s.flags (page / 64) (q / 64) v no_flags),
      ground (arith, length-set s.flags (page / 64) v),
    )

clear_page-dirty_pages :
    (s : JitPageState) (page : ℕ) → (clear_page s page).dirty_pages ≡ s.dirty_pages
unfolding clear_page word_and_mask
clear_page-dirty_pages s page = ground arith

clear_pages-is_dirty :
    (pages : List ℕ) (s : JitPageState) (q : ℕ)
    → IsSized s
    → (is_dirty (clear_pages s pages) q ≡ (is_dirty s q && not (listed pages q)))
      × (page_marked (clear_pages s pages) q ≡ page_marked s q)
      × ((clear_pages s pages).dirty_pages ≡ s.dirty_pages)
unfolding clear_pages
clear_pages-is_dirty [] s q z = (ground arith, refl, refl)
clear_pages-is_dirty (page ∷ rest) s q z =
    let one = clear_page-is_dirty s page q z in
    let more = clear_pages-is_dirty rest (clear_page s page) q one.2 in
    (more.0 ∙ ground (arith, one.0), more.1 ∙ one.1, more.2 ∙ clear_page-dirty_pages s page)

-- With a flag word for every 64 pages and a queue that holds the dirty pages, a drain returns
-- exactly the dirty pages; afterwards no page is dirty, the queue is empty and the same pages are
-- marked.
pub take_dirty-is_dirty :
    (s : JitPageState) (q : ℕ)
    → IsSized s
    → Queued s
    → let (pages, s') = take_dirty s in
      (listed pages q ≡ is_dirty s q)
      × (is_dirty s' q ≡ false)
      × (page_marked s' q ≡ page_marked s q)
      × (s'.dirty_pages ≡ [])
unfolding take_dirty is_dirty page_marked word_and_mask
take_dirty-is_dirty s q z h =
    let all = clear_pages-is_dirty s.dirty_pages (record s { dirty_pages = [] }) q z in
    (sym (h q), ground (arith, all.0, h q), all.1, all.2)

replicate-no_flags : (n i : ℕ) → get_or (replicate n no_flags) i no_flags ≡ no_flags
replicate-no_flags zero i = refl
replicate-no_flags (suc n) zero = refl
replicate-no_flags (suc n) (suc i) = replicate-no_flags n i

length-replicate_flags : (n : ℕ) → length (replicate n no_flags) ≡ n
length-replicate_flags zero = refl
length-replicate_flags (suc n) = ap suc (length-replicate_flags n)

-- No page is dirty at first.
pub new-Queued : (ram_bytes : ℕ) → IsSized (new ram_bytes) × Queued (new ram_bytes)
unfolding new is_dirty word_and_mask
new-Queued ram_bytes =
    let words = div_ceil (div_ceil ram_bytes jit_page_size) 64 in
    (
      length-replicate_flags words,
      λ q. ground (arith, replicate-no_flags words (q / 64), zero_lem (2 ^ (q % 64))),
    )
  where
    zero_lem : (m : ℕ) → bit_and 0 m ≡ 0
    zero_lem m = omega (arith, and-le 0 m)

-- The marks keep it.
pub mark_address-Queued :
    (s : JitPageState) (pa : ℕ)
    → IsSized s
    → Queued s
    → IsSized (mark_address s pa).1 × Queued (mark_address s pa).1
unfolding mark_address page_for_address is_dirty word_and_mask
mark_address-Queued s pa z h =
    let page = (pa - 0x8000_0000) / 2 ^ 12 in
    let f = flags_at s (page / 64) in
    let v = record f { marked = bit_or f.marked (2 ^ (page % 64)) } in
    (
      ground (arith, length-set s.flags (page / 64) v),
      λ q. ground (arith, get_or-set s.flags (page / 64) (q / 64) v no_flags, h q),
    )
