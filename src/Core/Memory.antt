-- ===== src/Core/Memory.antt =====
-- Loads and stores of the hart, and the fused translation cache for compiled code:
-- crates/rv64-core/src/cpu.rs, `ld`, `st`, `fill_jtlb`, `jit_fill_tlb`, `jit_probe_fetch` and
-- `invalidate_store_jtlb_page`.
mod Tests
pub mod Invalidate
pub mod RoundTrip
use lish.Prelude.{
  ℕ, zero, suc, ◌+◌, ◌-◌, ◌*◌, ◌%◌, ◌^◌, Bool, true, false, Option, none, some, ltb, ◌==◌, ◌!=◌,
  if◌then◌else◌, add64, bit_and, bit_or, not64, shl, shr,
}
use lish.Prelude.Int.{ℤ}
use lish.Core.Exception.{ok, err}
use lish.Core.Cpu.{
  Cpu, fetch, load, store, set_row, translation_tag, tlb_size, tlb_invalid, tlb_vpn_mask,
}
use lish.Core.Bus.{Bus}
use lish.Core.Mmu.{translate}
use lish.Core.Run.{Run, ◌>>=◌, ◌>>◌, return, get, on_bus, translated}

-- `store as usize`.
abbrev row_of : Bool → ℕ
row_of b = if b then 1 else 0

abbrev slot_of : ℕ → ℕ
slot_of va = bit_and (shr va 12) (tlb_size - 1)

-- A fused entry for `va`.
unfoldable pub set_jtlb : Cpu → ℕ → Bool → ℤ → Cpu
set_jtlb c va for_store off = record c {
  jtlb_tag = set_row c.jtlb_tag (row_of for_store) (slot_of va) (translation_tag c va);
  jtlb_off = set_row c.jtlb_off (row_of for_store) (slot_of va) off;
}

-- Whether an access of n bytes has to be split: two pages, with paging possible.
unfoldable pub crosses_page : Cpu → ℕ → ℕ → Bool
crosses_page c n va = elim c.sys [ none ↦ false | some sys ↦ ltb 0x1000 (bit_and va 0xfff + n) ]

module _ {M : Type 0} (bus : Bus M) where
  unfoldable pub fill_jtlb : M → ℕ → ℕ → Bool → Cpu → Cpu
  fill_jtlb m va pa for_store c = elim (bus.jit_fast_off m va pa for_store) [
    | none ↦ c
    | some off ↦ set_jtlb c va for_store off
  ]

  -- `self.fill_jtlb(bus, va, pa, store)` as a step.
  abbrev pub fill_step : ℕ → ℕ → Bool → Run M (Unit {0})
  fill_step va pa for_store c m = (ok tt, fill_jtlb m va pa for_store c, m)

  -- The loop of `ld` over the bytes of a split access, from byte i.
  unfoldable pub ld_bytes : ℕ → ℕ → ℕ → ℕ → Run M ℕ
  ld_bytes zero i va v = return v
  ld_bytes (suc left) i va v = do
    pa ← translated bus (add64 va i) load
    byte ← on_bus (λ m. bus.read 1 m pa)
    ld_bytes left (suc i) va (bit_or v (shl byte (8 * i)))

  unfoldable pub ld_whole : ℕ → ℕ → Run M ℕ
  ld_whole n va = do
    pa ← translated bus va load
    fill_step va pa false
    on_bus (λ m. bus.read n m pa)

  -- A load of n bytes.
  unfoldable pub ld : ℕ → ℕ → Run M ℕ
  ld n va = do c ← get; if crosses_page c n va then ld_bytes n 0 va 0 else ld_whole n va

  unfoldable pub st_bytes : ℕ → ℕ → ℕ → ℕ → Run M (Unit {0})
  st_bytes zero i va val = return tt
  st_bytes (suc left) i va val = do
    pa ← translated bus (add64 va i) store
    on_bus (λ m. bus.write 1 m pa (shr val (8 * i) % 2 ^ 8))
    st_bytes left (suc i) va val

  unfoldable pub st_whole : ℕ → ℕ → ℕ → Run M (Unit {0})
  st_whole n va val = do
    pa ← translated bus va store
    fill_step va pa true
    on_bus (λ m. bus.write n m pa (val % 2 ^ (8 * n)))

  -- A store of the low n bytes.
  unfoldable pub st : ℕ → ℕ → ℕ → Run M (Unit {0})
  st n va val = do c ← get; if crosses_page c n va then st_bytes n 0 va val else st_whole n va val

  unfoldable pub jit_fill_tlb : ℕ → Bool → Cpu → M → Option ℤ × Cpu × M
  jit_fill_tlb va for_store c m =
      let (r, c', m') = translate bus c m va (if for_store then store else load) in
      elim r [
        | err e ↦ (none, c', m')
        | ok pa ↦ elim (bus.jit_fast_off m' va pa for_store) [
          | none ↦ (none, c', m')
          | some off ↦ (some off, set_jtlb c' va for_store off, m')
        ]
      ]

  unfoldable pub jit_probe_fetch : ℕ → Cpu → M → Option ℕ × Cpu × M
  jit_probe_fetch va c m =
      let (r, c', m') = translate bus c m va fetch in
      (elim r [ err e ↦ none | ok pa ↦ some pa ], c', m')

-- The page that a store entry of the ordinary cache maps the tag's page to.
unfoldable pub mapped_page : Cpu → ℕ → ℕ → ℕ
mapped_page c index tag =
    let virtual_page = shl (bit_and tag tlb_vpn_mask) 12 % 2 ^ 64 in
    bit_and (add64 virtual_page (c.tlb_diff 2 index)) (not64 0xfff)

-- One round of `invalidate_store_jtlb_page`: the hart and the count.
unfoldable pub invalidate_entry : ℕ → ℕ → Cpu × ℕ → Cpu × ℕ
invalidate_entry physical_page index (c, invalidated) =
    let tag = c.jtlb_tag 1 index in
    let gone = record c { jtlb_tag = set_row c.jtlb_tag 1 index tlb_invalid } in
    if tag == tlb_invalid
    then (c, invalidated)
    else if c.tlb_tag 2 index != tag
    then (gone, invalidated)
    else if mapped_page c index tag == physical_page
    then (gone, suc invalidated)
    else (c, invalidated)

unfoldable pub invalidate_entries : ℕ → ℕ → ℕ → Cpu × ℕ → Cpu × ℕ
invalidate_entries zero physical_page index s = s
invalidate_entries (suc left) physical_page index s =
    invalidate_entries left physical_page (suc index) (invalidate_entry physical_page index s)

unfoldable pub invalidate_store_jtlb_page : Cpu → ℕ → ℕ × Cpu
invalidate_store_jtlb_page c pa =
    let (c', invalidated) = invalidate_entries tlb_size (bit_and pa (not64 0xfff)) 0 (c, 0) in
    (invalidated, c')
