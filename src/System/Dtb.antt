-- ===== src/System/Dtb.antt =====
-- The device-tree writer: crates/rv64-system/src/dtb.rs. A string is the list of its bytes.
pub mod Layout
pub mod Names
mod Tests
use lish.Prelude.{
  ℕ, zero, suc, ◌+◌, ◌/◌, ◌%◌, ◌^◌, Bool, true, false, ◌&&◌, List, [], ◌∷◌, ◌++◌, length, replicate,
  Option, none, some, ◌==◌, if◌then◌else◌,
}

pub record Fdt : Type 0 where
  pub structure : List ℕ
  pub strings : List ℕ
  pub names : List (List ℕ × ℕ)

abbrev pub fdt_begin_node : ℕ
fdt_begin_node = 1

abbrev pub fdt_end_node : ℕ
fdt_end_node = 2

abbrev pub fdt_prop : ℕ
fdt_prop = 3

abbrev pub fdt_end : ℕ
fdt_end = 9

unfoldable pub new : Fdt
new = record { structure = []; strings = []; names = [] }

-- `v.to_be_bytes()` of n bytes.
unfoldable pub to_be_bytes : ℕ → ℕ → List ℕ
to_be_bytes zero v = []
to_be_bytes (suc n) v = v / 256 ^ n % 256 ∷ to_be_bytes n v

-- `u32`: a word at the end of the structure block.
unfoldable pub put_u32 : Fdt → ℕ → Fdt
put_u32 f v = record f { structure = f.structure ++ to_be_bytes 4 v }

unfoldable pub same_bytes : List ℕ → List ℕ → Bool
same_bytes [] [] = true
same_bytes [] (y ∷ ys) = false
same_bytes (x ∷ xs) [] = false
same_bytes (x ∷ xs) (y ∷ ys) = x == y && same_bytes xs ys

-- The offset of the first entry of a name.
unfoldable pub find_name : List (List ℕ × ℕ) → List ℕ → Option ℕ
find_name [] name = none
find_name ((n, off) ∷ rest) name = if same_bytes n name then some off else find_name rest name

unfoldable pub name_offset : Fdt → List ℕ → ℕ × Fdt
name_offset f name = elim (find_name f.names name) [
  | some off ↦ (off, f)
  | none ↦
      let off = length f.strings % 2 ^ 32 in
      (
        off,
        record f {
          strings = (f.strings ++ name) ++ (0 ∷ []);
          names = f.names ++ ((name, off) ∷ []);
        },
      )
]

-- The loop that pads to a multiple of four: three rounds at most.
unfoldable pub pad : ℕ → List ℕ → List ℕ
pad zero bytes = bytes
pad (suc fuel) bytes =
    let padded = pad fuel (bytes ++ (0 ∷ [])) in if length bytes % 4 == 0 then bytes else padded

unfoldable pub begin_node : Fdt → List ℕ → Fdt
begin_node f name =
    let f' = put_u32 f fdt_begin_node in
    record f' { structure = pad 3 ((f'.structure ++ name) ++ (0 ∷ [])) }

unfoldable pub end_node : Fdt → Fdt
end_node f = put_u32 f fdt_end_node

unfoldable pub prop : Fdt → List ℕ → List ℕ → Fdt
prop f name data_bytes =
    let (off, named) = name_offset f name in
    let f' = put_u32 (put_u32 (put_u32 named fdt_prop) (length data_bytes % 2 ^ 32)) off in
    record f' { structure = pad 3 (f'.structure ++ data_bytes) }

unfoldable pub prop_u32 : Fdt → List ℕ → ℕ → Fdt
prop_u32 f name v = prop f name (to_be_bytes 4 v)

unfoldable pub words : List ℕ → List ℕ
words [] = []
words (v ∷ vs) = to_be_bytes 4 v ++ words vs

unfoldable pub prop_u32s : Fdt → List ℕ → List ℕ → Fdt
prop_u32s f name vs = prop f name (words vs)

unfoldable pub prop_u64_pair : Fdt → List ℕ → ℕ → ℕ → Fdt
prop_u64_pair f name a b = prop f name (to_be_bytes 8 a ++ to_be_bytes 8 b)

unfoldable pub prop_str : Fdt → List ℕ → List ℕ → Fdt
prop_str f name s = prop f name (s ++ (0 ∷ []))

unfoldable pub terminated : List (List ℕ) → List ℕ
terminated [] = []
terminated (s ∷ ss) = (s ++ (0 ∷ [])) ++ terminated ss

unfoldable pub prop_strs : Fdt → List ℕ → List (List ℕ) → Fdt
prop_strs f name ss = prop f name (terminated ss)

abbrev pub header_len : ℕ
header_len = 40

abbrev pub rsvmap_len : ℕ
rsvmap_len = 16

-- The ten words of the header, of the block with its end token.
unfoldable pub header_words : Fdt → List ℕ
header_words f =
    let off_struct = header_len + rsvmap_len in
    let off_strings = off_struct + length f.structure in
    let total = off_strings + length f.strings in
    0xd00d_feed
    ∷ (total % 2 ^ 32)
    ∷ off_struct
    ∷ (off_strings % 2 ^ 32)
    ∷ header_len
    ∷ 17
    ∷ 16
    ∷ 0
    ∷ (length f.strings % 2 ^ 32)
    ∷ (length f.structure % 2 ^ 32)
    ∷ []

unfoldable pub finish : Fdt → List ℕ
finish before =
    let f = put_u32 before fdt_end in
    ((words (header_words f) ++ replicate 16 0) ++ f.structure) ++ f.strings
