-- ===== src/System/JitPages/Tests.antt =====
-- Runs of the page tracker of crates/rv64-system/src/lib.rs.
use lish.Prelude.{◌≡◌, refl, false, ◌&&◌, [], ◌!=◌}
use lish.System.JitPages.{
  JitPageState, new, page_for_address, page_marked, is_dirty, mark_address, unmark_page, note_store,
  note_page_write, take_dirty,
}
use lish.System.JitPages.Stores.{
  IsSized, Queued, listed, note_store-Queued, take_dirty-is_dirty, new-Queued, mark_address-Queued,
}
use lish.System.JitPages.Marks.{unmark_page-page_marked}

-- Four pages of RAM, the third marked.
abbrev marked : JitPageState
marked = (mark_address (new 0x4000) 0x8000_2000).1

marked-Queued : IsSized marked × Queued marked
marked-Queued =
    mark_address-Queued (new 0x4000) 0x8000_2000 (new-Queued 0x4000).0 (new-Queued 0x4000).1

unmark_page-page_marked_example :
    (page_marked (unmark_page marked 2) 2 ≡ (page_marked marked 2 && 2 != 2))
    × (is_dirty (unmark_page marked 2) 2 ≡ is_dirty marked 2)
unmark_page-page_marked_example = unmark_page-page_marked marked 2 2 marked-Queued.0

-- The third page is then dirty.
abbrev stored : JitPageState
stored = note_store marked 0x8000_2ffc

stored-IsSized : IsSized stored
unfolding note_store note_page_write page_for_address mark_address new
stored-IsSized = refl

stored-Queued : Queued stored
stored-Queued = note_store-Queued marked 0x8000_2ffc marked-Queued.0 marked-Queued.1

take_dirty-is_dirty_example :
    let (pages, s') = take_dirty stored in
    (listed pages 2 ≡ is_dirty stored 2)
    × (is_dirty s' 2 ≡ false)
    × (page_marked s' 2 ≡ page_marked stored 2)
    × (s'.dirty_pages ≡ [])
take_dirty-is_dirty_example = take_dirty-is_dirty stored 2 stored-IsSized stored-Queued
