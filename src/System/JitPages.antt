-- ===== src/System/JitPages.antt =====
-- The pages that hold compiled code, and those written since the last drain: `JitPageState` of
-- crates/rv64-system/src/lib.rs. A usize is a u64: on a narrower host the conversions fail only for
-- pages that the bound refuses as well. Indexing takes a default that the invariant excludes.
pub mod Words
pub mod Stores
pub mod Writes
pub mod Marks
mod Tests
use lish.Prelude.{
  ℕ, zero, suc, ◌+◌, ◌-◌, ◌/◌, ◌%◌, ◌^◌, Bool, true, false, ◌&&◌, not, List, [], ◌∷◌, ◌++◌, Option,
  none, some, ltb, leb, ◌==◌, ◌!=◌, if◌then◌else◌, get_or, get_elem?, set, replicate, add64,
  bit_and, bit_or, not64, shr,
}

abbrev pub ram_base : ℕ
ram_base = 0x8000_0000

abbrev pub jit_page_shift : ℕ
jit_page_shift = 12

abbrev pub jit_page_size : ℕ
jit_page_size = 2 ^ 12

pub record JitPageFlags : Type 0 where
  pub marked : ℕ
  pub dirty : ℕ

abbrev pub no_flags : JitPageFlags
no_flags = record { marked = 0; dirty = 0 }

pub record JitPageState : Type 0 where
  pub page_count : ℕ
  pub flags : List JitPageFlags
  pub dirty_pages : List ℕ
  pub write_generations : List ℕ

abbrev pub div_ceil : ℕ → ℕ → ℕ
div_ceil a b = (a + b - 1) / b

unfoldable pub new : ℕ → JitPageState
new ram_bytes =
    let page_count = div_ceil ram_bytes jit_page_size in
    record {
      page_count = page_count;
      flags = replicate (div_ceil page_count 64) no_flags;
      dirty_pages = [];
      write_generations = replicate page_count 0;
    }

unfoldable pub page_for_address : JitPageState → ℕ → Option ℕ
page_for_address s pa =
    if ltb pa ram_base
    then none
    else if ltb (shr (pa - ram_base) jit_page_shift) s.page_count
    then some (shr (pa - ram_base) jit_page_shift)
    else none

unfoldable pub word_and_mask : JitPageState → ℕ → Option (ℕ × ℕ)
word_and_mask s page = if ltb page s.page_count then some (page / 64, 2 ^ (page % 64)) else none

abbrev pub flags_at : JitPageState → ℕ → JitPageFlags
flags_at s word = get_or s.flags word no_flags

unfoldable pub mark_address : JitPageState → ℕ → Bool × JitPageState
mark_address s pa = elim (page_for_address s pa) [
  | none ↦ (false, s)
  | some page ↦
      let mask = 2 ^ (page % 64) in
      let f = flags_at s (page / 64) in
      (
        bit_and f.marked mask == 0,
        record s { flags = set s.flags (page / 64) (record f { marked = bit_or f.marked mask }) },
      )
]

unfoldable pub unmark_page : JitPageState → ℕ → JitPageState
unmark_page s page = elim (word_and_mask s page) [
  | none ↦ s
  | some (word, mask) ↦
      let f = flags_at s word in
      record s { flags = set s.flags word (record f { marked = bit_and f.marked (not64 mask) }) }
]

unfoldable pub page_marked : JitPageState → ℕ → Bool
page_marked s page = elim (word_and_mask s page) [
  | none ↦ false
  | some (word, mask) ↦ bit_and (flags_at s word).marked mask != 0
]

unfoldable pub is_dirty : JitPageState → ℕ → Bool
is_dirty s page = elim (word_and_mask s page) [
  | none ↦ false
  | some (word, mask) ↦ bit_and (flags_at s word).dirty mask != 0
]

unfoldable pub address_marked : JitPageState → ℕ → Bool
address_marked s pa = elim (page_for_address s pa) [
  | none ↦ false
  | some page ↦ bit_and (flags_at s (page / 64)).marked (2 ^ (page % 64)) != 0
]

unfoldable pub page_generation : JitPageState → ℕ → Option ℕ
page_generation s page = get_elem? s.write_generations page

unfoldable pub note_page_write : JitPageState → ℕ → JitPageState
note_page_write s page =
    let mask = 2 ^ (page % 64) in
    let f = flags_at s (page / 64) in
    if bit_and f.marked mask != 0 && bit_and f.dirty mask == 0
    then record s {
      write_generations =
          set s.write_generations page (add64 (get_or s.write_generations page 0) 1);
      flags = set s.flags (page / 64) (record f { dirty = bit_or f.dirty mask });
      dirty_pages = s.dirty_pages ++ (page ∷ []);
    }
    else s

unfoldable pub note_store : JitPageState → ℕ → JitPageState
note_store s pa = elim (page_for_address s pa) [ none ↦ s | some page ↦ note_page_write s page ]

-- The loop of `note_write` over `count` pages.
unfoldable pub note_pages : ℕ → JitPageState → ℕ → JitPageState
note_pages zero s page = s
note_pages (suc count) s page = note_pages count (note_page_write s page) (suc page)

unfoldable pub note_write : JitPageState → ℕ → ℕ → JitPageState
note_write s pa len =
    if len == 0
    then s
    else if leb (2 ^ 64) (pa + (len - 1))
    then s
    else elim (page_for_address s pa) [
      | none ↦ s
      | some first_page ↦ elim (page_for_address s (pa + (len - 1))) [
        | none ↦ s
        | some last_page ↦ note_pages (last_page + 1 - first_page) s first_page
      ]
    ]

unfoldable pub has_dirty : JitPageState → Bool
has_dirty s = elim s.dirty_pages [ [] ↦ false | page ∷ rest ↦ true ]

-- One round of the loop of `take_dirty`; a page outside RAM, which would panic, is passed over.
unfoldable pub clear_page : JitPageState → ℕ → JitPageState
clear_page s page = elim (word_and_mask s page) [
  | none ↦ s
  | some (word, mask) ↦
      let f = flags_at s word in
      record s { flags = set s.flags word (record f { dirty = bit_and f.dirty (not64 mask) }) }
]

unfoldable pub clear_pages : JitPageState → List ℕ → JitPageState
clear_pages s [] = s
clear_pages s (page ∷ rest) = clear_pages (clear_page s page) rest

unfoldable pub take_dirty : JitPageState → List ℕ × JitPageState
take_dirty s = (s.dirty_pages, clear_pages (record s { dirty_pages = [] }) s.dirty_pages)
