-- ===== src/Core/Mmu/Tests.antt =====
-- Runs of address translation, crates/rv64-core/src/cpu.rs, over flat memory.
use lish.Prelude.{
  ℕ, ◌+◌, ◌/◌, ◌%◌, ◌^◌, ◌≡◌, refl, false, some, ◌++◌, ◌-◌, [], arith, ◌==◌, ◌!=◌, ◌&&◌, bit_and,
  shr,
}
use lish.Prelude.Memory.{to_le_bytes, from_le_bytes, read_at}
use lish.Core.Exception.{ok}
use lish.Core.Csr
use lish.Core.Csr.{SysCsrs, supervisor, mode_bits, from_bits}
use lish.Core.Cpu
use lish.Core.Cpu.{
  Cpu, Access, load, store, fetch, translation_tag, tlb_size, flush_tlb, translation_context,
  sys_context, data_mode, eff_mode, access_index, set_row,
}
use lish.Core.Bus.{FlatMemory, flat_bus, read, offset, checked_sub, checked_add}
use lish.Core.Mmu.{
  Request, walk, walk_leaf, leaf_allows, leaf_address, mode_allows, access_allows, update_ad,
  next_table, pte_address, is_invalid, is_pointer, is_canonical, sra64, walk_root, request,
  root_level, fill_tlb, translate, translate_slow, flush_tlb_page,
}
use lish.Core.Mmu.Granted.{Leads, Leaf, walk_to_leaf}
use lish.Core.Mmu.Offset.{walk_page_offset}
use lish.Core.Mmu.Tlb.{translate_stable, flush_tlb_page_lem}

-- A page of tables: a leaf for page 2 at entry 0, and at entries 1 and 2 pointers to this page.
abbrev tables : FlatMemory
unfolding to_le_bytes
tables = record { base = 0; mem = to_le_bytes 8 0x8cf ++ to_le_bytes 8 0x1 ++ to_le_bytes 8 0x1 }

abbrev kernel : SysCsrs
kernel = record Csr.new { mode = supervisor; satp = 0x8000_0000_0000_0000 }

abbrev hart : Cpu
hart = record Cpu.new { sys = some kernel }

abbrev page : ℕ
page = 0x8020_0000

abbrev load_request : Request
load_request = record {
  va = page + 0x123;
  access = load;
  mode = supervisor;
  sum = false;
  mxr = false;
}

walk_grants : walk flat_bus 2 tables load_request 0 ≡ (ok 0x2123, tables)
unfolding walk walk_leaf leaf_allows leaf_address mode_allows access_allows update_ad next_table
    pte_address is_invalid is_pointer flat_bus read offset checked_sub checked_add from_le_bytes
    to_le_bytes read_at
walk_grants = refl

walk_to_leaf_example :
    (pte : ℕ) × (l : ℕ) × (after : FlatMemory) × Leads flat_bus load_request.va pte l after 2 tables
      0
    × Leaf load_request pte l 0x2123
walk_to_leaf_example =
    walk_to_leaf flat_bus load_request 2 tables tables 0 0x2123 (omega arith) walk_grants

walk_page_offset_example : 0x2123 % 2 ^ 12 ≡ load_request.va % 2 ^ 12
walk_page_offset_example =
    walk_page_offset flat_bus load_request 2 tables tables 0 0x2123 (omega arith) walk_grants

translates :
    translate flat_bus hart tables (page + 0x123) load
    ≡ (ok 0x2123, fill_tlb hart (page + 0x123) load 0x2123, tables)
unfolding translate translate_slow root_level walk_root is_canonical sra64 request eff_mode
    data_mode walk walk_leaf leaf_allows leaf_address mode_allows access_allows update_ad next_table
    pte_address is_invalid is_pointer flat_bus read offset checked_sub checked_add from_le_bytes
    to_le_bytes read_at translation_tag translation_context sys_context access_index mode_bits
    Csr.new Cpu.new
translates = refl

translate_stable_example :
    translate flat_bus
      (fill_tlb hart (page + 0x123) load 0x2123)
      (record { base = 0; mem = [] })
      (page + 0x123)
      load
    ≡ (ok 0x2123, fill_tlb hart (page + 0x123) load 0x2123, record { base = 0; mem = [] })
translate_stable_example =
    translate_stable flat_bus hart (fill_tlb hart (page + 0x123) load 0x2123) kernel tables tables
      (record { base = 0; mem = [] }) (page + 0x123) 0x2123 load refl (omega arith) translates

flush_tlb_page_lem_example :
    let idx = bit_and (shr 0x5000 12) (tlb_size - 1) in
    let other = page / 2 ^ 12 % 2 ^ 52 != 0x5000 / 2 ^ 12 % 2 ^ 52 in
    let tag = translation_tag hart 0x5000 in
    (((flush_tlb_page hart page).tlb_tag 1 idx == tag) ≡ (hart.tlb_tag 1 idx == tag && other))
    × (((flush_tlb_page hart page).jtlb_tag 1 idx == tag) ≡ (hart.jtlb_tag 1 idx == tag && other))
flush_tlb_page_lem_example = flush_tlb_page_lem hart hart page 0x5000 1
