-- ===== src/Core/Mmu/Tlb.antt =====
-- The translation cache: crates/rv64-core/src/cpu.rs, `translate`, `flush_tlb` and
-- `flush_tlb_page`.
use lish.Prelude.{
  ◌&&◌, ◌!=◌, ℕ, ◌-◌, ◌*◌, ◌/◌, ◌%◌, ◌^◌, ◌<◌, ◌≡◌, subst, refl, arith, true, false, ◌||◌, Option,
  none, some, Bool-cases, inl, inr, ◌==◌, bit_and, shr,
}
use lish.Prelude.Bits.Fields.{and_mask}
use lish.Core.Csr.{SysCsrs, is_machine}
use lish.Core.Cpu.{
  Cpu, Access, TlbRows, access_index, set_row, flush_tlb, translation_tag, translation_context,
  eff_mode, tlb_size, tlb_vpn_mask,
}
use lish.Core.Cpu.Context.{tag_sum, tag_ne_invalid}
use lish.Core.Exception.{Result, ok, err}
use lish.Core.Bus.{Bus}
use lish.Core.Mmu.Walk.{walk-Granted}
use lish.Core.Mmu.Offset.{leaf_address-lt}
use lish.Core.Mmu.{
  translate, translate_slow, walk_root, walk, root_level, request, fill_tlb, flush_entry,
  flush_tlb_page,
}

module _ {M : Type 0} (bus : Bus M) where
  -- After a fill the same access to the same address is a hit that gives the filled address, at
  -- no cost to the memory.
  pub fill_then_hit :
      (c : Cpu) (sys : SysCsrs) (m : M) (va pa : ℕ) (access : Access)
      → c.sys ≡ some sys
      → va < 2 ^ 64
      → pa < 2 ^ 64
      → translate bus (fill_tlb c va access pa) m va access ≡ (ok pa, fill_tlb c va access pa, m)
  unfolding translate fill_tlb set_row translation_tag translation_context
  fill_then_hit c sys m va pa access e h g = ground arith

  -- No entry hits after a flush: every translation walks the tables again.
  pub translate_flushed :
      (c : Cpu) (sys : SysCsrs) (m : M) (va : ℕ) (access : Access)
      → c.sys ≡ some sys
      → translate bus (flush_tlb c) m va access ≡ translate_slow bus (flush_tlb c) sys m va access
  unfolding translate flush_tlb
  translate_flushed c sys m va access e = ground (arith, tag_ne_invalid (flush_tlb c) va)

  root_walk_stable :
      (c c' : Cpu) (sys : SysCsrs) (m m' n : M) (va pa top : ℕ) (access : Access)
      → c.sys ≡ some sys
      → va < 2 ^ 64
      → walk_root bus c sys m va access top ≡ (ok pa, c', m')
      → translate bus c' n va access ≡ (ok pa, c', n)
  unfolding walk_root request
  root_walk_stable c c' sys m m' n va pa top access e h r =
      let table = bit_and sys.satp 0xfff_ffff_ffff * 2 ^ 12 in
      let q = request sys va access in
      let w = walked (walk bus top m q table).0 refl r in
      subst (λ d. translate bus d n va access ≡ (ok pa, d, n)) w.0
        (fill_then_hit c sys n va pa access e h w.1)
    where
      walked :
          (x : Result ℕ)
          → (walk bus top m (request sys va access) (bit_and sys.satp 0xfff_ffff_ffff * 2 ^ 12)).0
            ≡ x
          → walk_root bus c sys m va access top ≡ (ok pa, c', m')
          → (fill_tlb c va access pa ≡ c') × (pa < 2 ^ 64)
      walked (err x) b r = absurd (ground arith)
      walked (ok p) b r =
          let same : p ≡ pa = ground arith in
          let g =
            walk-Granted bus (request sys va access) top m
              (walk bus top m (request sys va access) (bit_and sys.satp 0xfff_ffff_ffff * 2 ^ 12)).1
              (bit_and sys.satp 0xfff_ffff_ffff * 2 ^ 12) p (ground arith) in
          (ground arith, omega (arith, same, g.address, leaf_address-lt va g.pte g.leaf_level h))

  hit_stable :
      (c c' : Cpu) (sys : SysCsrs) (m m' n : M) (va pa : ℕ) (access : Access)
      → c.sys ≡ some sys
      → (c.tlb_tag (access_index access) (bit_and (shr va 12) (tlb_size - 1))
          == translation_tag c va)
        ≡ true
      → translate bus c m va access ≡ (ok pa, c', m')
      → translate bus c' n va access ≡ (ok pa, c', n)
  unfolding translate
  hit_stable c c' sys m m' n va pa access e hit t = ground arith

  miss_slow :
      (c c' : Cpu) (sys : SysCsrs) (m m' : M) (va pa : ℕ) (access : Access)
      → c.sys ≡ some sys
      → (c.tlb_tag (access_index access) (bit_and (shr va 12) (tlb_size - 1))
          == translation_tag c va)
        ≡ false
      → translate bus c m va access ≡ (ok pa, c', m')
      → translate_slow bus c sys m va access ≡ (ok pa, c', m')
  unfolding translate
  miss_slow c c' sys m m' va pa access e miss t = ground arith

  slow_stable :
      (c c' : Cpu) (sys : SysCsrs) (m m' n : M) (va pa : ℕ) (access : Access) (o : Option ℕ)
      → c.sys ≡ some sys
      → va < 2 ^ 64
      → (c.tlb_tag (access_index access) (bit_and (shr va 12) (tlb_size - 1))
          == translation_tag c va)
        ≡ false
      → root_level (shr sys.satp 60) ≡ o
      → translate_slow bus c sys m va access ≡ (ok pa, c', m')
      → translate bus c' n va access ≡ (ok pa, c', n)
  unfolding translate translate_slow
  slow_stable c c' sys m m' n va pa access none e h miss r t = ground arith
  slow_stable c c' sys m m' n va pa access (some top) e h miss r t =
      elim (Bool-cases (shr sys.satp 60 == 0 || is_machine (eff_mode sys access))) [
        | inl bare ↦ ground arith
        | inr paged ↦ root_walk_stable c c' sys m m' n va pa top access e h (ground arith)
      ]

  -- On a hart with privileged state, a translation of a 64-bit address that succeeded, by a hit,
  -- by a walk or without paging, gives the same address again from the state it left, whatever the
  -- memory is by then, and changes nothing.
  pub translate_stable :
      (c c' : Cpu) (sys : SysCsrs) (m m' n : M) (va pa : ℕ) (access : Access)
      → c.sys ≡ some sys
      → va < 2 ^ 64
      → translate bus c m va access ≡ (ok pa, c', m')
      → translate bus c' n va access ≡ (ok pa, c', n)
  translate_stable c c' sys m m' n va pa access e h t =
      elim (Bool-cases (
        c.tlb_tag (access_index access) (bit_and (shr va 12) (tlb_size - 1))
        == translation_tag c va)) [
          | inl hit ↦ hit_stable c c' sys m m' n va pa access e hit t
          | inr miss ↦
              slow_stable c c' sys m m' n va pa access _ e h miss refl
                (miss_slow c c' sys m m' va pa access e miss t)
        ]

flushed_entry :
    (t : TlbRows ℕ) (va vb row : ℕ) (d : Cpu)
    → let idx = bit_and (shr vb 12) (tlb_size - 1) in
      (flush_entry t (bit_and (shr va 12) tlb_vpn_mask) row idx == translation_tag d vb)
      ≡ (t row idx == translation_tag d vb && va / 2 ^ 12 % 2 ^ 52 != vb / 2 ^ 12 % 2 ^ 52)
unfolding flush_entry
flushed_entry t va vb row d =
    let i = bit_and (shr vb 12) (tlb_size - 1) in
    ground (
      arith,
      tag_sum d vb,
      tag_ne_invalid d vb,
      and_mask 52 (shr va 12),
      and_mask 12 (shr vb 12),
      and_mask 12 (bit_and (shr va 12) tlb_vpn_mask),
      and_mask 52 (t row i),
    )

-- After the page of `va` is flushed, an address hits, in either cache, in any row and under any
-- context, exactly if it did before and is not on that page.
pub flush_tlb_page_lem :
    (c d : Cpu) (va vb row : ℕ)
    → let idx = bit_and (shr vb 12) (tlb_size - 1) in
      let other = va / 2 ^ 12 % 2 ^ 52 != vb / 2 ^ 12 % 2 ^ 52 in
      let tag = translation_tag d vb in
      (((flush_tlb_page c va).tlb_tag row idx == tag) ≡ (c.tlb_tag row idx == tag && other))
      × (((flush_tlb_page c va).jtlb_tag row idx == tag) ≡ (c.jtlb_tag row idx == tag && other))
unfolding flush_tlb_page
flush_tlb_page_lem c d va vb row =
    (flushed_entry c.tlb_tag va vb row d, flushed_entry c.jtlb_tag va vb row d)
