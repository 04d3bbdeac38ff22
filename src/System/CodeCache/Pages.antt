-- ===== src/System/CodeCache/Pages.antt =====
-- The invariant of the cache of decoded pages: crates/rv64-system/src/virt.rs, `CodePageCache`.
use lish.Prelude.{
  ℕ, zero, suc, ◌-◌, ◌/◌, ◌%◌, ◌≡◌, refl, sym, ap, ◌∙◌, subst, inl, inr, arith, Bool, false, not,
  ◌&&◌, ◌||◌, Bool-cases, Option-cases, List, length, replicate, get_or, get_or-set, set, map,
  Option, none, some, ltb, ◌==◌, ◌!=◌, bit_and, not64,
}
use lish.Prelude.Bits.Fields.{and_mask}
use lish.Prelude.Memory.{read_at}
use lish.Core.Compressed.{DecodedInsn}
use lish.System.Ram.{checked_ram_range}
use lish.System.JitPages.{ram_base}
use lish.System.CodeCache.{
  code_cache_pages, new, DecodedCodePage, CodePageCache, no_block, range, finish_block,
  decode_block, page_block, with_room, new_page, installed, slot, block,
}
use lish.System.CodeCache.Decodes.{Decodes, Placed, decode_loop-Placed}
use lish.System.CodeCache.Sound.{IsSound, grown-IsSound, unplaced-IsSound}
use lish.System.CodeCache.Lookup.{
  page_bytes, found_in, empty-IsSound, with_room-IsSound, with_room-physical_page, page_block-miss,
  page_block-Decodes, decode_block-finish,
}

finish_block-IsSound :
    (p : DecodedCodePage) (page : List ℕ) (offset : ℕ) (es : List (ℕ × DecodedInsn)) (ended : Bool)
    → Placed page offset es
    → IsSound page p
    → IsSound page (finish_block p es ended).1
unfolding finish_block
finish_block-IsSound p page offset es ended v sound =
    elim (Bool-cases (not ended || length es == 0)) [
      | inl failed ↦
          rw (finish_block, failed)
            (unplaced-IsSound page p (map (λ (x : ℕ × DecodedInsn). x.1) es) sound)
      | inr good ↦ rw (finish_block, good) (grown-IsSound page offset p es v sound)
    ]

decode_block-IsSound :
    (p : DecodedCodePage) (ram : List ℕ) (page_offset : ℕ)
    → page_offset % 2 ≡ 0
    → IsSound (page_bytes p ram) p
    → IsSound (page_bytes p ram) (decode_block p ram page_offset).1
unfolding decode_block
decode_block-IsSound p ram page_offset even sound =
    elim (Option-cases (checked_ram_range (length ram) ram_base p.physical_page 0x1000)) [
      | inl f ↦ rw (f, decode_block) sound
      | inr (r, f) ↦
          let loop = found_in p ram page_offset in
          subst (λ t. IsSound (page_bytes p ram) t.1)
            (sym (decode_block-finish p ram page_offset r f))
            (finish_block-IsSound p (page_bytes p ram) page_offset loop.0 loop.1
              (decode_loop-Placed 64 (page_bytes p ram) page_offset even) sound)
    ]

page_block-IsSound :
    (p : DecodedCodePage) (ram : List ℕ) (page_offset : ℕ)
    → page_offset % 2 ≡ 0
    → IsSound (page_bytes p ram) p
    → IsSound (page_bytes p ram) (page_block p ram page_offset).1
unfolding page_block
page_block-IsSound p ram page_offset even sound =
    elim (Option-cases (range (get_or p.blocks (page_offset / 2) no_block))) [
      | inr (at, f) ↦ rw (f, page_block) sound
      | inl f ↦
          let bytes : page_bytes (with_room p) ram ≡ page_bytes p ram =
            ap (λ k. read_at (k - ram_base) 0x1000 ram) (with_room-physical_page p) in
          subst (λ page. IsSound page (page_block p ram page_offset).1) bytes
            (subst (λ t. IsSound (page_bytes (with_room p) ram) t.1)
              (sym (page_block-miss p ram page_offset f))
              (decode_block-IsSound (with_room p) ram page_offset even (
                subst (λ page. IsSound page (with_room p)) (sym bytes)
                  (with_room-IsSound (page_bytes p ram) p sound))))
    ]

finish_block-physical_page :
    (p : DecodedCodePage) (es : List (ℕ × DecodedInsn)) (ended : Bool)
    → (finish_block p es ended).1.physical_page ≡ p.physical_page
unfolding finish_block
finish_block-physical_page p es ended = ground arith

decode_block-physical_page :
    (p : DecodedCodePage) (ram : List ℕ) (page_offset : ℕ)
    → (decode_block p ram page_offset).1.physical_page ≡ p.physical_page
unfolding decode_block
decode_block-physical_page p ram page_offset =
    elim (Option-cases (checked_ram_range (length ram) ram_base p.physical_page 0x1000)) [
      | inl f ↦ rw (f, decode_block) refl
      | inr (r, f) ↦
          let loop = found_in p ram page_offset in
          ap (λ t. t.1.physical_page) (decode_block-finish p ram page_offset r f)
          ∙ finish_block-physical_page p loop.0 loop.1
    ]

page_block-physical_page :
    (p : DecodedCodePage) (ram : List ℕ) (page_offset : ℕ)
    → (page_block p ram page_offset).1.physical_page ≡ p.physical_page
unfolding page_block
page_block-physical_page p ram page_offset =
    ground
      (arith, decode_block-physical_page (with_room p) ram page_offset, with_room-physical_page p)

-- The pages of the current generation are sound for the bytes of the RAM.
abbrev pub IsCached : List ℕ → ℕ → CodePageCache → Type 0
IsCached ram icache_gen cache =
    (i : ℕ) (p : DecodedCodePage)
    → get_or cache i none ≡ some p
    → p.icache_gen ≡ icache_gen
    → IsSound (page_bytes p ram) p

installed-lem :
    (ram : List ℕ) (o : Option DecodedCodePage) (page gen : ℕ)
    → ((p : DecodedCodePage) → o ≡ some p → p.icache_gen ≡ gen → IsSound (page_bytes p ram) p)
    → ((installed o page gen).physical_page ≡ page)
      × IsSound (page_bytes (installed o page gen) ram) (installed o page gen)
unfolding installed new_page
installed-lem ram none page gen v = (refl, empty-IsSound _ (new_page page gen) refl)
installed-lem ram (some p) page gen v =
    elim (Bool-cases (p.physical_page != page || p.icache_gen != gen)) [
      | inl other ↦ rw (installed, other) (refl, empty-IsSound _ (new_page page gen) refl)
      | inr same ↦ rw (installed, same) (ground arith, v p refl (ground arith))
    ]

set-IsCached :
    (ram : List ℕ) (gen : ℕ) (cache : CodePageCache) (i : ℕ) (p : DecodedCodePage)
    → IsSound (page_bytes p ram) p
    → IsCached ram gen cache
    → IsCached ram gen (set cache i (some p))
set-IsCached ram gen cache i p sound cached j q e same =
    let found = sym (get_or-set cache i j (some p) none) ∙ e in
    elim (Bool-cases (j == i && ltb i (length cache))) [
      | inl hit ↦
          let eq : p ≡ q = ground (arith, found, hit) in
          subst (λ t. IsSound (page_bytes t ram) t) eq sound
      | inr miss ↦ cached j q (ground (arith, found, miss)) same
    ]

-- The page a lookup uses, and what becomes of it.
abbrev page_of : CodePageCache → ℕ → ℕ → DecodedCodePage
page_of cache physical icache_gen =
    let page = bit_and physical (not64 0xfff) in
    installed (get_or cache (slot page) none) page icache_gen

page_of-lem :
    (cache : CodePageCache) (ram : List ℕ) (physical gen : ℕ)
    → IsCached ram gen cache
    → ((page_of cache physical gen).physical_page ≡ bit_and physical (not64 0xfff))
      × IsSound (page_bytes (page_of cache physical gen) ram) (page_of cache physical gen)
page_of-lem cache ram physical gen cached =
    let page = bit_and physical (not64 0xfff) in
    installed-lem ram (get_or cache (slot page) none) page gen (cached (slot page))

-- An odd address, or one of the last byte, has no block.
abbrev misaligned : ℕ → Bool
misaligned physical =
    let page_offset = bit_and physical 0xfff in bit_and page_offset 1 != 0 || ltb 0xffe page_offset

aligned-even : (physical : ℕ) → misaligned physical ≡ false → bit_and physical 0xfff % 2 ≡ 0
aligned-even physical good = ground (arith, good, and_mask 1 (bit_and physical 0xfff))

block-page_block :
    (cache : CodePageCache) (ram : List ℕ) (physical gen : ℕ)
    → misaligned physical ≡ false
    → block cache ram physical gen ≡ (
        let done = page_block (page_of cache physical gen) ram (bit_and physical 0xfff) in
        (done.0, set cache (slot (bit_and physical (not64 0xfff))) (some done.1)))
unfolding block
block-page_block cache ram physical gen good = rw (good, block) refl

-- A cache without pages.
pub new-IsCached : (ram : List ℕ) (gen : ℕ) → IsCached ram gen new
unfolding new
new-IsCached ram gen i p e same = absurd (ground (arith, none_there code_cache_pages i none, e))
  where
    none_there : (k i : ℕ) (o : Option DecodedCodePage) → get_or (replicate k o) i o ≡ o
    none_there zero i o = refl
    none_there (suc k) zero o = refl
    none_there (suc k) (suc i) o = none_there k i o

-- A block that the cache answers is the decoding of the RAM's bytes at the address, whether it was
-- there or is decoded now, if the cached pages of the generation are sound for the RAM.
pub block-Decodes :
    (cache : CodePageCache) (ram : List ℕ) (physical gen : ℕ) (ds : List DecodedInsn)
    → IsCached ram gen cache
    → (block cache ram physical gen).0 ≡ some ds
    → Decodes
        (read_at (bit_and physical (not64 0xfff) - ram_base) 0x1000 ram)
        (bit_and physical 0xfff)
        ds
unfolding block
block-Decodes cache ram physical gen ds cached e = elim (Bool-cases (misaligned physical)) [
  | inl bad ↦ absurd (ground (arith, bad, e))
  | inr good ↦
      let (same, sound) = page_of-lem cache ram physical gen cached in
      subst (λ page. Decodes (read_at (page - ram_base) 0x1000 ram) (bit_and physical 0xfff) ds)
        same
        (page_block-Decodes (page_of cache physical gen) ram (bit_and physical 0xfff) ds
          (aligned-even physical good) sound
          (sym (ap (λ t. t.0) (block-page_block cache ram physical gen good)) ∙ e)).0
]

-- A lookup, with or without a block, keeps the cached pages of the generation sound for the RAM:
-- every block of theirs decodes the bytes from its offset on.
pub block-IsCached :
    (cache : CodePageCache) (ram : List ℕ) (physical gen : ℕ)
    → IsCached ram gen cache
    → IsCached ram gen (block cache ram physical gen).1
unfolding block
block-IsCached cache ram physical gen cached = elim (Bool-cases (misaligned physical)) [
  | inl bad ↦ rw (bad, block) cached
  | inr good ↦
      let p = page_of cache physical gen in
      let (_, sound) = page_of-lem cache ram physical gen cached in
      let done = page_block p ram (bit_and physical 0xfff) in
      let here : IsSound (page_bytes done.1 ram) done.1 =
        subst (λ k. IsSound (read_at (k - ram_base) 0x1000 ram) done.1)
          (sym (page_block-physical_page p ram (bit_and physical 0xfff)))
          (page_block-IsSound p ram (bit_and physical 0xfff) (aligned-even physical good) sound) in
      subst (λ t. IsCached ram gen t.1) (sym (block-page_block cache ram physical gen good))
        (set-IsCached ram gen cache (slot (bit_and physical (not64 0xfff))) done.1 here cached)
]
