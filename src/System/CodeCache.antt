-- ===== src/System/CodeCache.antt =====
-- The interpreter's cache of decoded pages: `CachedBlock`, `DecodedCodePage` and `CodePageCache` of
-- crates/rv64-system/src/virt.rs. The offset of a block is kept with one added, so that zero is no
-- block.
pub mod Decodes
pub mod Sound
pub mod Lookup
pub mod Pages
mod Tests
use lish.Prelude.{
  ℕ, zero, suc, ◌+◌, ◌-◌, ◌*◌, ◌/◌, ◌%◌, ◌^◌, Bool, true, false, not, ◌&&◌, ◌||◌, List, [], ◌∷◌,
  ◌++◌, length, replicate, take, drop, get_or, get_elem?, set, map, Option, none, some, ltb, leb,
  ◌==◌, ◌!=◌, if◌then◌else◌, bit_and, bit_xor, not64, shr,
}
use lish.Prelude.Memory.{read_at, from_le_bytes}
use lish.Core.Compressed.{DecodedInsn, from_word, ends_basic_block}
use lish.System.Ram.{checked_ram_range}
use lish.System.JitPages.{ram_base}

abbrev pub code_cache_pages : ℕ
code_cache_pages = 256

abbrev pub code_page_halfwords : ℕ
code_page_halfwords = 2048

abbrev pub decoded_block_max : ℕ
decoded_block_max = 64

abbrev pub decoded_page_arena_max : ℕ
decoded_page_arena_max = code_page_halfwords * 4

pub record CachedBlock : Type 0 where
  pub offset_plus_one : ℕ
  pub len : ℕ

abbrev pub no_block : CachedBlock
no_block = record { offset_plus_one = 0; len = 0 }

-- `range`: the first index and the number of instructions.
unfoldable pub range : CachedBlock → Option (ℕ × ℕ)
range b = if b.offset_plus_one == 0 then none else some (b.offset_plus_one - 1, b.len)

pub record DecodedCodePage : Type 0 where
  pub physical_page : ℕ
  pub icache_gen : ℕ
  pub blocks : List CachedBlock
  pub instructions : List DecodedInsn

-- `new`, and `reset`, which leaves the same.
unfoldable pub new_page : ℕ → ℕ → DecodedCodePage
new_page physical_page icache_gen = record {
  physical_page = physical_page;
  icache_gen = icache_gen;
  blocks = replicate code_page_halfwords no_block;
  instructions = [];
}

-- `xs.get(start..start + n)`.
unfoldable pub get_range {ℓ} : {A : Type ℓ} → List A → ℕ → ℕ → Option (List A)
get_range xs start n = if leb (start + n) (length xs) then some (take n (drop start xs)) else none

-- `page.get(offset..offset + n)` as a little-endian word.
unfoldable pub word_at : List ℕ → ℕ → ℕ → Option ℕ
word_at page offset n = elim (get_range page offset n) [
  | none ↦ none
  | some bytes ↦ some (from_le_bytes bytes)
]

-- What one round of the loop finds: the function returns, the loop ends, or a word.
pub data Fetched : Type 0 where
  missing : Fetched
  straddles : Fetched
  word : ℕ → Fetched

unfoldable pub fetch_at : List ℕ → ℕ → Fetched
fetch_at page offset = elim (word_at page offset 2) [
  | none ↦ missing
  | some lo ↦
      if bit_and lo 3 == 3
      then elim (word_at page offset 4) [ none ↦ straddles | some whole ↦ word whole ]
      else word lo
]

-- The loop: the decoded instructions with their slots, and whether the loop came to its end.
unfoldable pub decode_loop : ℕ → List ℕ → ℕ → List (ℕ × DecodedInsn) × Bool
decode_loop zero page offset = ([], true)
decode_loop (suc left) page offset = elim (fetch_at page offset) [
  | missing ↦ ([], false)
  | straddles ↦ ([], true)
  | word w ↦
      let d = from_word w in
      if ends_basic_block d || offset + d.len == 0x1000
      then ((offset / 2, d) ∷ [], true)
      else (let (rest, ended) = decode_loop left page (offset + d.len) in
          ((offset / 2, d) ∷ rest, ended))
]

-- The loop over the new instructions: the block of each is what is left from it on.
unfoldable pub install : List (ℕ × DecodedInsn) → ℕ → List CachedBlock → List CachedBlock
install [] start blocks = blocks
install ((slot, d) ∷ rest) start blocks =
    install rest (suc start)
      (set blocks slot (record { offset_plus_one = start + 1; len = length rest + 1 }))

-- The end of `block` after a miss, with what the loop has pushed.
unfoldable pub finish_block :
    DecodedCodePage → List (ℕ × DecodedInsn) → Bool → Option (List DecodedInsn) × DecodedCodePage
finish_block p decoded ended =
    let start = length p.instructions in
    let grown = record p { instructions = p.instructions ++ map (λ e. e.1) decoded } in
    if not ended || length decoded == 0 then (none, grown) else (
      get_range grown.instructions start (length decoded),
      record grown { blocks = install decoded start p.blocks },
    )

-- `block` after a miss, with room for a block.
unfoldable pub decode_block :
    DecodedCodePage → List ℕ → ℕ → Option (List DecodedInsn) × DecodedCodePage
decode_block p ram page_offset =
    elim (checked_ram_range (length ram) ram_base p.physical_page 0x1000) [
      | none ↦ (none, p)
      | some page_range ↦
          let (decoded, ended) =
            decode_loop decoded_block_max (read_at page_range.0 0x1000 ram) page_offset in
          finish_block p decoded ended
    ]

-- The page with room for a block: emptied if its instructions are too many.
unfoldable pub with_room : DecodedCodePage → DecodedCodePage
with_room p =
    if ltb decoded_page_arena_max (length p.instructions + decoded_block_max)
    then record p { blocks = replicate code_page_halfwords no_block; instructions = [] }
    else p

unfoldable pub page_block :
    DecodedCodePage → List ℕ → ℕ → Option (List DecodedInsn) × DecodedCodePage
page_block p ram page_offset = elim (range (get_or p.blocks (page_offset / 2) no_block)) [
  | some at ↦ (get_range p.instructions at.0 at.1, p)
  | none ↦ decode_block (with_room p) ram page_offset
]

abbrev pub CodePageCache : Type 0
CodePageCache = List (Option DecodedCodePage)

unfoldable pub new : CodePageCache
new = replicate code_cache_pages none

unfoldable pub slot : ℕ → ℕ
slot physical_page =
    let page = shr physical_page 12 in bit_and (bit_xor page (shr page 9)) (code_cache_pages - 1)

-- The page of a slot, renewed if it is another one or of another generation.
unfoldable pub installed : Option DecodedCodePage → ℕ → ℕ → DecodedCodePage
installed none physical_page icache_gen = new_page physical_page icache_gen
installed (some p) physical_page icache_gen =
    if p.physical_page != physical_page || p.icache_gen != icache_gen
    then new_page physical_page icache_gen
    else p

unfoldable pub block : CodePageCache → List ℕ → ℕ → ℕ → Option (List DecodedInsn) × CodePageCache
block cache ram physical icache_gen =
    let physical_page = bit_and physical (not64 0xfff) in
    let page_offset = bit_and physical 0xfff in
    if bit_and page_offset 1 != 0 || ltb 0xffe page_offset
    then (none, cache)
    else (let i = slot physical_page in
        let p = installed (get_or cache i none) physical_page icache_gen in
        let (found, p') = page_block p ram page_offset in (found, set cache i (some p')))
