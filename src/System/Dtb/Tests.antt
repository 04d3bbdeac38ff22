-- ===== src/System/Dtb/Tests.antt =====
-- Runs of the device-tree writer, crates/rv64-system/src/dtb.rs.
use lish.Prelude.{ℕ, ◌≡◌, refl, arith, [], ◌∷◌, ◌++◌, List, length, drop, take, replicate}
use lish.System.Dtb
use lish.System.Dtb.{
  Fdt, name_offset, find_name, same_bytes, begin_node, end_node, prop, prop_str, put_u32, fdt_end,
  header_words, finish,
}
use lish.System.Dtb.Names.{StandsAt, Named, name_offset-StandsAt}
use lish.System.Dtb.Layout.{be_word, finish_layout}

-- "reg" and "os".
abbrev reg : List ℕ
reg = 114 ∷ 101 ∷ 103 ∷ []

abbrev os : List ℕ
os = 111 ∷ 115 ∷ []

-- A table with one name.
abbrev table : Fdt
table = record { structure = []; strings = reg ++ (0 ∷ []); names = (reg, 0) ∷ [] }

name_offset-StandsAt_example :
    let (off, f') = name_offset table os in StandsAt f'.strings off os × Named f'.strings f'.names
name_offset-StandsAt_example =
    name_offset-StandsAt table os (omega arith) (([], [], refl, refl), tt)

finish_layout_example :
    let blob = finish table in
    let structure = table.structure ++ (0 ∷ 0 ∷ 0 ∷ 9 ∷ []) in
    (be_word blob ≡ 0xd00d_feed)
    × (be_word (drop 4 blob) ≡ length blob)
    × (drop (be_word (drop 8 blob)) blob ≡ structure ++ table.strings)
    × (drop (be_word (drop 12 blob)) blob ≡ table.strings)
    × (take 16 (drop (be_word (drop 16 blob)) blob) ≡ replicate 16 0)
    × (be_word (drop 20 blob) ≡ 17)
    × (be_word (drop 24 blob) ≡ 16)
    × (be_word (drop 28 blob) ≡ 0)
    × (be_word (drop 32 blob) ≡ length table.strings)
    × (be_word (drop 36 blob) ≡ length structure)
unfolding finish put_u32 Dtb.words header_words Dtb.to_be_bytes
finish_layout_example = finish_layout table (omega arith)
