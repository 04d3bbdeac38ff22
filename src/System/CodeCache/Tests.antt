-- ===== src/System/CodeCache/Tests.antt =====
-- The interpreter's cache of decoded pages at concrete inputs:
-- crates/rv64-system/src/virt.rs, `CodePageCache`.
use lish.Prelude.{ℕ, ◌-◌, ◌≡◌, refl, List, [], ◌∷◌, replicate, Option, some, bit_and, not64}
use lish.Prelude.Memory.{read_at}
use lish.Core.Compressed.{DecodedInsn, from_word}
use lish.System.JitPages.{ram_base}
use lish.System.CodeCache.{DecodedCodePage, new, new_page, page_block, slot, installed, block}
use lish.System.CodeCache.Decodes.{Decodes}
use lish.System.CodeCache.Pages.{IsCached, new-IsCached, block-Decodes, block-IsCached}

-- A jump to itself, at the start of a page of RAM.
abbrev jump_ram : List ℕ
jump_ram = 0x6f ∷ 0 ∷ 0 ∷ 0 ∷ replicate 4092 0

abbrev jump_insns : List DecodedInsn
jump_insns = from_word 0x6f ∷ []

block-jump : (block new jump_ram 0x8000_0000 0).0 ≡ some jump_insns
unfolding block page_block slot installed new lish.System.CodeCache.range new_page
    lish.System.CodeCache.decode_block lish.System.Ram.checked_ram_range lish.Core.Bus.checked_sub
    lish.System.CodeCache.with_room lish.Core.Bus.checked_add lish.System.CodeCache.finish_block
    lish.System.CodeCache.decode_loop lish.System.CodeCache.fetch_at lish.System.CodeCache.word_at
    lish.System.CodeCache.get_range from_word lish.Core.Compressed.ends_basic_block
    lish.Prelude.Memory.read_at lish.Prelude.Memory.from_le_bytes lish.Core.Decode.opcode
block-jump = refl

block-Decodes_example :
    Decodes
      (read_at (bit_and 0x8000_0000 (not64 0xfff) - ram_base) 0x1000 jump_ram)
      (bit_and 0x8000_0000 0xfff)
      jump_insns
block-Decodes_example =
    block-Decodes new jump_ram 0x8000_0000 0 jump_insns (new-IsCached jump_ram 0) block-jump

block-IsCached_example : IsCached jump_ram 0 (block new jump_ram 0x8000_0000 0).1
block-IsCached_example = block-IsCached new jump_ram 0x8000_0000 0 (new-IsCached jump_ram 0)
