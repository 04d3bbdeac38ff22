-- ===== src/System/VirtBus/Marked.antt =====
-- Stores to pages that hold compiled code: crates/rv64-system/src/virt.rs, `write` and
-- `jit_fast_off`, with `JitPageState` of crates/rv64-system/src/lib.rs.
use lish.Prelude.{ℕ, ◌-◌, ◌<◌, ◌≡◌, refl, sym, subst, arith, true, some, none, shr, bit_and, not64}
use lish.Core.Bus.Flat.{InRange, Fits}
use lish.Core.Cpu.{Cpu, tlb_size}
use lish.Core.Memory.{fill_jtlb, invalidate_store_jtlb_page}
use lish.Core.Memory.Invalidate.{Gone, invalidate_store_jtlb_page-Gone}
use lish.System.JitPages.{
  JitPageState, ram_base, jit_page_shift, page_for_address, is_dirty, address_marked, page_marked,
  note_store, word_and_mask,
}
use lish.System.JitPages.Stores.{note_page_write-is_dirty, IsSized}
use lish.System.VirtBus.{VirtBus, VirtioOps, write, jit_fast_off, virt_bus}
use lish.System.VirtBus.Ram.{flat, range-InRange}

marked_page :
    (s : JitPageState) (pa : ℕ)
    → address_marked s pa ≡ true
    → let page = shr (pa - ram_base) jit_page_shift in
      (page_for_address s pa ≡ some page) × (page < s.page_count) × (page_marked s page ≡ true)
unfolding address_marked page_for_address page_marked word_and_mask
marked_page s pa e = ground arith

module _ {D : Type 0} (ops : VirtioOps D) where
  -- Once the fused store entries of a page that holds compiled code are dropped, the attempt of a
  -- store to the page to fill one changes nothing in the hart, so every fused store entry stays empty
  -- or another page's; and the store, written in RAM through the bus, leaves the page dirty.
  pub marked_store :
      (b : VirtBus D) (c : Cpu) (host_base va pa n val j : ℕ)
      → IsSized b.jit
      → Fits (flat b)
      → InRange (flat b) pa n
      → address_marked b.jit pa ≡ true
      → j < tlb_size
      → let dropped = (invalidate_store_jtlb_page c pa).1 in
        let filled = fill_jtlb (virt_bus ops host_base) b va pa true dropped in
        Gone (bit_and pa (not64 0xfff)) filled j
        × (filled ≡ dropped)
        × (is_dirty (write ops n b pa val).1.jit (shr (pa - ram_base) jit_page_shift) ≡ true)
  unfolding jit_fast_off write note_store fill_jtlb virt_bus
  marked_store b c host_base va pa n val j z fits r e lt =
      let page = shr (pa - ram_base) jit_page_shift in
      let (at, small, marked) = marked_page b.jit pa e in
      let (dirty, _, _) = note_page_write-is_dirty b.jit page page z small in
      let dropped = (invalidate_store_jtlb_page c pa).1 in
      let refused : jit_fast_off ops host_base b va pa true ≡ none = ground (arith, e) in
      let same : fill_jtlb (virt_bus ops host_base) b va pa true dropped ≡ dropped =
        rw (fill_jtlb, refused) refl in
      (
        subst (λ d. Gone (bit_and pa (not64 0xfff)) d j) (sym same)
            (invalidate_store_jtlb_page-Gone c pa j lt),
        same,
        ground (arith, range-InRange (flat b) pa n fits r, at, marked, dirty),
      )
