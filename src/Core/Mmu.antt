-- ===== src/Core/Mmu.antt =====
-- Address translation: crates/rv64-core/src/cpu.rs, `translate`, `translate_slow`, `fault` and
-- `flush_tlb_page`.
pub mod Walk
pub mod Granted
pub mod Offset
pub mod Tlb
mod Tests
use lish.Prelude.{
  ℕ, zero, suc, ◌+◌, ◌-◌, ◌*◌, ◌/◌, ◌%◌, ◌^◌, Bool, true, false, ◌&&◌, ◌||◌, not, Option, none,
  some, ltb, leb, ◌==◌, ◌!=◌, if◌then◌else◌, add64, sub64, bit_and, bit_or, not64, shl, shr,
}
use lish.Core.Csr.{SysCsrs, Mode, user, supervisor, machine, is_machine, is_user, is_supervisor}
use lish.Core.Csr.Bits.{mstatus_sum, mstatus_mxr}
use lish.Core.Cpu.{
  Cpu, Access, fetch, load, store, access_index, is_fetch, is_store, TlbRows, set_row, eff_mode,
  translation_tag, tlb_size, tlb_invalid, tlb_vpn_mask,
}
use lish.Core.Exception.{
  Exception, Result, ok, err, instruction_page_fault, load_page_fault, store_page_fault,
}
use lish.Core.Bus.{Bus}

unfoldable pub fault : Access → ℕ → Exception
fault fetch addr = instruction_page_fault addr
fault load addr = load_page_fault addr
fault store addr = store_page_fault addr

-- `((va as i64) >> k)` as a u64.
unfoldable pub sra64 : ℕ → ℕ → ℕ
sra64 va k = if ltb va (2 ^ 63) then shr va k else not64 (shr (not64 va) k)

-- The high bits repeat the sign of an address of `9 * levels + 12` bits.
unfoldable pub is_canonical : ℕ → ℕ → Bool
is_canonical levels va =
    let ext = sra64 va (9 * levels + 12 - 1) in ext == 0 || ext == 0xffff_ffff_ffff_ffff

-- Whether the page may be used from this mode: its U bit against the mode, with SUM.
unfoldable pub mode_allows : Mode → Bool → Access → Bool → Bool
mode_allows user u access sum = u
mode_allows supervisor u access sum = not u || sum && not (is_fetch access)
mode_allows machine u access sum = true

-- Whether the leaf grants the access, with MXR.
unfoldable pub access_allows : Access → Bool → Bool → Bool → Bool → Bool
access_allows fetch r w x mxr = x
access_allows load r w x mxr = r || mxr && x
access_allows store r w x mxr = w

abbrev pub pte_flag : ℕ → ℕ → Bool
pte_flag pte k = bit_and (shr pte k) 1 == 1

-- What is fixed during one walk.
pub record Request : Type 0 where
  pub va : ℕ
  pub access : Access
  pub mode : Mode
  pub sum : Bool
  pub mxr : Bool

unfoldable pub leaf_allows : Request → ℕ → ℕ → Bool
leaf_allows q pte level =
    not (ltb 0 level && bit_and (shr pte 10) (2 ^ (9 * level) - 1) != 0)
    && (mode_allows q.mode (bit_and (shr pte 4) 1 != 0) q.access q.sum
        && access_allows q.access (pte_flag pte 1) (pte_flag pte 2) (pte_flag pte 3) q.mxr)

-- The entry with A set, and D for a store.
unfoldable pub update_ad : ℕ → Access → ℕ
update_ad pte access =
    let accessed = bit_or pte (2 ^ 6) in
    if is_store access then bit_or accessed (2 ^ 7) else accessed

-- `(pte >> 10) << 12`.
unfoldable pub next_table : ℕ → ℕ
next_table pte = shl (shr pte 10) 12 % 2 ^ 64

-- The page number of the entry, with the low bits of the address.
unfoldable pub leaf_address : ℕ → ℕ → ℕ → ℕ
leaf_address va pte level =
    let mask = 2 ^ (12 + 9 * level) - 1 in
    bit_or (bit_and (next_table pte) (not64 mask)) (bit_and va mask)

-- The level of the root table: sv39 or sv48.
unfoldable pub root_level : ℕ → Option ℕ
root_level vm = if vm == 8 then some 2 else if vm == 9 then some 3 else none

unfoldable pub fill_tlb : Cpu → ℕ → Access → ℕ → Cpu
fill_tlb c va access pa =
    let idx = bit_and (shr va 12) (tlb_size - 1) in
    let tag = translation_tag c va in
    record c {
      jtlb_tag =
          if is_store access && c.jtlb_tag 1 idx != tag
          then set_row c.jtlb_tag 1 idx tlb_invalid
          else c.jtlb_tag;
      tlb_tag = set_row c.tlb_tag (access_index access) idx tag;
      tlb_diff = set_row c.tlb_diff (access_index access) idx (sub64 pa va);
    }

-- What the walk takes from the privileged state.
unfoldable pub request : SysCsrs → ℕ → Access → Request
request sys va access = record {
  va = va;
  access = access;
  mode = eff_mode sys access;
  sum = bit_and sys.mstatus mstatus_sum != 0;
  mxr = bit_and sys.mstatus mstatus_mxr != 0;
}

-- The address of the entry for `va` in a table of the given level.
unfoldable pub pte_address : ℕ → ℕ → ℕ → ℕ
pte_address table va level = add64 table (bit_and (shr va (12 + 9 * level)) 0x1ff * 8)

-- V clear, or W without R.
unfoldable pub is_invalid : ℕ → Bool
is_invalid pte = not (pte_flag pte 0) || not (pte_flag pte 1) && pte_flag pte 2

-- Neither R nor X.
unfoldable pub is_pointer : ℕ → Bool
is_pointer pte = not (pte_flag pte 1) && not (pte_flag pte 3)

module _ {M : Type 0} (bus : Bus M) where
  -- A leaf: the checks, then the write of A and D if they change.
  unfoldable pub walk_leaf : M → Request → ℕ → ℕ → ℕ → Result ℕ × M
  walk_leaf m q pte_addr pte level =
      if not (leaf_allows q pte level)
      then (err (fault q.access q.va), m)
      else if update_ad pte q.access == pte
      then (ok (leaf_address q.va pte level), m)
      else let (r, m') = bus.write 8 m pte_addr (update_ad pte q.access) in
        elim r [
          | ok _ ↦ (ok (leaf_address q.va pte level), m')
          | err _ ↦ (err (fault q.access q.va), m')
        ]

  -- The loop over the levels, from `level` down: an entry that is invalid, a pointer to the next
  -- table, or a leaf.
  unfoldable pub walk : ℕ → M → Request → ℕ → Result ℕ × M
  walk zero m q table =
      let (r, m') = bus.read 8 m (pte_address table q.va 0) in
      elim r [
        | err _ ↦ (err (fault q.access q.va), m')
        | ok pte ↦
            if is_invalid pte || is_pointer pte
            then (err (fault q.access q.va), m')
            else walk_leaf m' q (pte_address table q.va 0) pte 0
      ]
  walk (suc level) m q table =
      let (r, m') = bus.read 8 m (pte_address table q.va (suc level)) in
      elim r [
        | err _ ↦ (err (fault q.access q.va), m')
        | ok pte ↦
            let next = walk level m' q (next_table pte) in
            if is_invalid pte
            then (err (fault q.access q.va), m')
            else if is_pointer pte
            then next
            else walk_leaf m' q (pte_address table q.va (suc level)) pte (suc level)
      ]

  unfoldable pub walk_root : Cpu → SysCsrs → M → ℕ → Access → ℕ → Result ℕ × Cpu × M
  walk_root c sys m va access top =
      if not (is_canonical (top + 1) va)
      then (err (fault access va), c, m)
      else let (r, m') =
          walk top m (request sys va access) (shl (bit_and sys.satp 0xfff_ffff_ffff) 12) in
        elim r [ ok pa ↦ (ok pa, fill_tlb c va access pa, m') | err e ↦ (err e, c, m') ]

  unfoldable pub translate_slow : Cpu → SysCsrs → M → ℕ → Access → Result ℕ × Cpu × M
  translate_slow c sys m va access =
      let vm = shr sys.satp 60 in
      if vm == 0 || is_machine (eff_mode sys access) then (ok va, c, m) else elim (root_level vm) [
        | none ↦ (err (fault access va), c, m)
        | some top ↦ walk_root c sys m va access top
      ]

  -- A hit in the cache, or a walk.
  unfoldable pub translate : Cpu → M → ℕ → Access → Result ℕ × Cpu × M
  translate c m va access = elim c.sys [
    | none ↦ (ok va, c, m)
    | some sys ↦
        let idx = bit_and (shr va 12) (tlb_size - 1) in
        let a = access_index access in
        if c.tlb_tag a idx == translation_tag c va
        then (ok (add64 va (c.tlb_diff a idx)), c, m)
        else translate_slow c sys m va access
  ]

-- `flush_tlb_page`: the entry of the page in every row, whatever its context.
unfoldable pub flush_entry : TlbRows ℕ → ℕ → TlbRows ℕ
flush_entry t vpn row index =
    if index == bit_and vpn (tlb_size - 1)
      && (t row index != tlb_invalid && bit_and (t row index) tlb_vpn_mask == vpn)
    then tlb_invalid
    else t row index

unfoldable pub flush_tlb_page : Cpu → ℕ → Cpu
flush_tlb_page c va =
    let vpn = bit_and (shr va 12) tlb_vpn_mask in
    record c { tlb_tag = flush_entry c.tlb_tag vpn; jtlb_tag = flush_entry c.jtlb_tag vpn }
