-- ===== src/System/CodeCache/Lookup.antt =====
-- A lookup in a decoded page: crates/rv64-system/src/virt.rs, `DecodedCodePage::block`.
use lish.Prelude.{
  ℕ, zero, suc, ◌+◌, ◌-◌, ◌*◌, ◌/◌, ◌%◌, ◌≡◌, refl, sym, ap, ◌∙◌, subst, inl, inr, arith, Bool, not,
  ◌||◌, Bool-cases, Option-cases, List, [], ◌++◌, length, replicate, take, drop, get_or, length-map,
  none, some, ltb, ◌==◌,
}
use lish.Prelude.Memory.{read_at}
use lish.Core.Bus.{checked_sub, checked_add}
use lish.Core.Compressed.{DecodedInsn}
use lish.System.Ram.{checked_ram_range}
use lish.System.JitPages.{ram_base}
use lish.System.CodeCache.{
  DecodedCodePage, no_block, range, get_range, decode_loop, finish_block, decode_block, page_block,
  decoded_block_max, decoded_page_arena_max, code_page_halfwords, with_room,
}
use lish.System.CodeCache.Decodes.{Decodes, Placed, insns, decode_loop-Placed, Placed-Decodes}
use lish.System.CodeCache.Sound.{IsSound, grown-IsSound, drop-shift, take-all}

-- The bytes of the page in RAM.
abbrev pub page_bytes : DecodedCodePage → List ℕ → List ℕ
page_bytes p ram = read_at (p.physical_page - ram_base) 0x1000 ram

ram_range-start : (l b a n : ℕ) (r : ℕ × ℕ) → checked_ram_range l b a n ≡ some r → r.0 ≡ a - b
unfolding checked_ram_range checked_sub checked_add
ram_range-start l b a n r e = ground arith

get_range-some :
    {A : Type 0} (xs ds : List A) (a n : ℕ) → get_range xs a n ≡ some ds → take n (drop a xs) ≡ ds
unfolding get_range
get_range-some xs ds a n e = ground arith

get_or-replicate : (k s : ℕ) → get_or (replicate k no_block) s no_block ≡ no_block
get_or-replicate zero s = refl
get_or-replicate (suc k) zero = refl
get_or-replicate (suc k) (suc s) = get_or-replicate k s

-- A page without blocks is sound.
pub empty-IsSound :
    (page : List ℕ) (p : DecodedCodePage)
    → p.blocks ≡ replicate code_page_halfwords no_block
    → IsSound page p
unfolding range
empty-IsSound page p e s a n f =
    let none_there : get_or p.blocks s no_block ≡ no_block =
      ap (λ bs. get_or bs s no_block) e ∙ get_or-replicate code_page_halfwords s in
    absurd (ground arith)

finish_block-Decodes :
    (p : DecodedCodePage) (page : List ℕ) (offset : ℕ) (es : List (ℕ × DecodedInsn)) (ended : Bool)
    (ds : List DecodedInsn)
    → Placed page offset es
    → IsSound page p
    → (finish_block p es ended).0 ≡ some ds
    → Decodes page offset ds × IsSound page (finish_block p es ended).1
unfolding finish_block
finish_block-Decodes p page offset es ended ds v sound e =
    elim (Bool-cases (not ended || length es == 0)) [
      | inl failed ↦ absurd (ground arith)
      | inr good ↦
          let new = insns es in
          let got : get_range (p.instructions ++ new) (length p.instructions) (length es)
              ≡ some ds =
            ground arith in
          let whole : take (length es) (drop (length p.instructions) (p.instructions ++ new))
              ≡ new =
            ap (take (length es))
              (drop-shift p.instructions new 0 (length p.instructions) (omega arith))
            ∙ take-all new (length es)
                (omega (arith, length-map es (λ (x : ℕ × DecodedInsn). x.1))) in
          let same = sym whole ∙ get_range-some _ ds _ _ got in
          rw (finish_block, good)
            (
              subst (Decodes page offset) same (Placed-Decodes page offset es v),
              grown-IsSound page offset p es v sound,
            )
    ]

abbrev pub found_in : DecodedCodePage → List ℕ → ℕ → List (ℕ × DecodedInsn) × Bool
found_in p ram page_offset = decode_loop decoded_block_max (page_bytes p ram) page_offset

pub decode_block-finish :
    (p : DecodedCodePage) (ram : List ℕ) (page_offset : ℕ) (r : ℕ × ℕ)
    → checked_ram_range (length ram) ram_base p.physical_page 0x1000 ≡ some r
    → decode_block p ram page_offset
      ≡ finish_block p (found_in p ram page_offset).0 (found_in p ram page_offset).1
unfolding decode_block
decode_block-finish p ram page_offset r f =
    rw (f, decode_block)
      (ap
        (λ k.
          let loop = decode_loop decoded_block_max (read_at k 0x1000 ram) page_offset in
          finish_block p loop.0 loop.1)
        (ram_range-start (length ram) ram_base p.physical_page 0x1000 r f))

decode_block-none :
    (p : DecodedCodePage) (ram : List ℕ) (page_offset : ℕ)
    → checked_ram_range (length ram) ram_base p.physical_page 0x1000 ≡ none
    → (decode_block p ram page_offset).0 ≡ none
unfolding decode_block
decode_block-none p ram page_offset f = rw (f, decode_block) refl

decode_block-Decodes :
    (p : DecodedCodePage) (ram : List ℕ) (page_offset : ℕ) (ds : List DecodedInsn)
    → page_offset % 2 ≡ 0
    → IsSound (page_bytes p ram) p
    → (decode_block p ram page_offset).0 ≡ some ds
    → Decodes (page_bytes p ram) page_offset ds
      × IsSound (page_bytes p ram) (decode_block p ram page_offset).1
decode_block-Decodes p ram page_offset ds even sound e =
    elim (Option-cases (checked_ram_range (length ram) ram_base p.physical_page 0x1000)) [
      | inl f ↦ absurd (ground (arith, decode_block-none p ram page_offset f, e))
      | inr (r, f) ↦
          let same = decode_block-finish p ram page_offset r f in
          let loop = found_in p ram page_offset in
          let done =
            finish_block-Decodes p (page_bytes p ram) page_offset loop.0 loop.1 ds
              (decode_loop-Placed decoded_block_max (page_bytes p ram) page_offset even) sound
              (ap (λ t. t.0) (sym same) ∙ e) in
          (done.0, subst (λ t. IsSound (page_bytes p ram) t.1) (sym same) done.1)
    ]

pub with_room-physical_page : (p : DecodedCodePage) → (with_room p).physical_page ≡ p.physical_page
unfolding with_room
with_room-physical_page p = ground arith

pub with_room-IsSound :
    (page : List ℕ) (p : DecodedCodePage) → IsSound page p → IsSound page (with_room p)
unfolding with_room
with_room-IsSound page p sound =
    elim (Bool-cases (ltb decoded_page_arena_max (length p.instructions + decoded_block_max))) [
      | inl full ↦
          rw (full, with_room)
            (empty-IsSound page
              (record p { blocks = replicate code_page_halfwords no_block; instructions = [] })
              refl)
      | inr free ↦ rw (free, with_room) sound
    ]

pub page_block-miss :
    (p : DecodedCodePage) (ram : List ℕ) (page_offset : ℕ)
    → range (get_or p.blocks (page_offset / 2) no_block) ≡ none
    → page_block p ram page_offset ≡ decode_block (with_room p) ram page_offset
unfolding page_block
page_block-miss p ram page_offset f = rw (f, page_block) refl

-- A lookup that finds a block, whether it was there or is decoded now, finds the instructions of
-- the page's bytes from the offset on, and leaves every block of the page sound, if they were
-- before.
pub page_block-Decodes :
    (p : DecodedCodePage) (ram : List ℕ) (page_offset : ℕ) (ds : List DecodedInsn)
    → page_offset % 2 ≡ 0
    → IsSound (page_bytes p ram) p
    → (page_block p ram page_offset).0 ≡ some ds
    → Decodes (page_bytes p ram) page_offset ds
      × IsSound (page_bytes p ram) (page_block p ram page_offset).1
unfolding page_block
page_block-Decodes p ram page_offset ds even sound e =
    elim (Option-cases (range (get_or p.blocks (page_offset / 2) no_block))) [
      | inr ((a, n), f) ↦
          let (_, hit) = sound (page_offset / 2) a n f in
          let got : get_range p.instructions a n ≡ some ds = ground (arith, f, e) in
          let at : 2 * (page_offset / 2) ≡ page_offset = omega (arith, even) in
          rw (f, page_block)
            (
              subst (λ o. Decodes (page_bytes p ram) o ds) at
                  (subst (Decodes (page_bytes p ram) (2 * (page_offset / 2)))
                    (get_range-some p.instructions ds a n got) hit),
              sound,
            )
      | inl f ↦
          let same = page_block-miss p ram page_offset f in
          let bytes : page_bytes (with_room p) ram ≡ page_bytes p ram =
            ap (λ k. read_at (k - ram_base) 0x1000 ram) (with_room-physical_page p) in
          subst
            (λ page. Decodes page page_offset ds × IsSound page (page_block p ram page_offset).1)
            bytes
            (subst
              (λ t.
                Decodes (page_bytes (with_room p) ram) page_offset ds
                × IsSound (page_bytes (with_room p) ram) t.1)
              (sym same)
              (decode_block-Decodes (with_room p) ram page_offset ds even
                (subst (λ page. IsSound page (with_room p)) (sym bytes)
                  (with_room-IsSound (page_bytes p ram) p sound))
                (ap (λ t. t.0) (sym same) ∙ e)))
    ]
