-- ===== src/System/Dtb/Layout.antt =====
-- The layout of the blob: crates/rv64-system/src/dtb.rs.
use lish.Prelude.{
  ℕ, zero, suc, ◌+◌, ◌*◌, ◌%◌, ◌^◌, ◌<◌, ◌≡◌, refl, ap, ◌∙◌, arith, List, [], ◌∷◌, ◌++◌, length,
  replicate, drop, take, ◌==◌, Bool-cases, inl, inr,
}
use lish.Prelude.{length-replicate}
use mathlib.Core.List.{append_assoc}
use lish.System.Dtb.{
  Fdt, to_be_bytes, put_u32, pad, begin_node, end_node, prop, words, header_words, finish, fdt_end,
  fdt_end_node,
}

length-append : (xs ys : List ℕ) → length (xs ++ ys) ≡ length xs + length ys
length-append [] ys = omega arith
length-append (x ∷ xs) ys = omega (arith, length-append xs ys)

length-to_be_bytes : (n v : ℕ) → length (to_be_bytes n v) ≡ n
unfolding to_be_bytes
length-to_be_bytes zero v = refl
length-to_be_bytes (suc n) v = ap suc (length-to_be_bytes n v)

length-put_u32 : (f : Fdt) (v : ℕ) → length (put_u32 f v).structure ≡ length f.structure + 4
unfolding put_u32
length-put_u32 f v =
    omega (arith, length-append f.structure (to_be_bytes 4 v), length-to_be_bytes 4 v)

-- Three rounds are enough for any length.
pad-Aligned :
    (fuel : ℕ) (bytes : List ℕ)
    → (length bytes + fuel) % 4 < fuel + 1
    → length (pad fuel bytes) % 4 ≡ 0
unfolding pad
pad-Aligned zero bytes h = omega arith
pad-Aligned (suc fuel) bytes h = elim (Bool-cases (length bytes % 4 == 0)) [
  | inl e ↦ ground arith
  | inr e ↦
      let longer = length-append bytes (0 ∷ []) in
      let ragged : 0 < length bytes % 4 = ground arith in
      let rest = pad-Aligned fuel (bytes ++ (0 ∷ [])) (omega (arith, longer, ragged)) in
      ground (arith, rest)
]

-- The structure block is a whole number of words.
abbrev pub IsAligned : Fdt → Type 0
IsAligned f = length f.structure % 4 ≡ 0

-- The structure block is a whole number of words after the start of a node, the end of a node and a
-- property of any length, if it was before.
build-IsAligned :
    (f : Fdt) (name data_bytes : List ℕ)
    → IsAligned f
    → IsAligned (begin_node f name) × IsAligned (end_node f) × IsAligned (prop f name data_bytes)
unfolding begin_node end_node prop
build-IsAligned f name data_bytes v = (
  pad-Aligned 3 _ (omega arith),
  omega (arith, length-put_u32 f fdt_end_node),
  pad-Aligned 3 _ (omega arith),
)

length-words : (vs : List ℕ) → length (words vs) ≡ 4 * length vs
unfolding words
length-words [] = omega arith
length-words (v ∷ vs) =
    omega
      (arith, length-append (to_be_bytes 4 v) (words vs), length-to_be_bytes 4 v, length-words vs)

drop-append : (n : ℕ) (xs ys : List ℕ) → n ≡ length xs → drop n (xs ++ ys) ≡ ys
drop-append zero [] ys e = refl
drop-append zero (x ∷ xs) ys e = absurd (omega arith)
drop-append (suc n) [] ys e = absurd (omega arith)
drop-append (suc n) (x ∷ xs) ys e = drop-append n xs ys (omega arith)

-- The header and the reserve map, in front of the two blocks.
abbrev front : Fdt → List ℕ
front f = words (header_words f) ++ replicate 16 0

length-front : (f : Fdt) → length (front f) ≡ 56
unfolding header_words
length-front f = omega (
  arith,
  length-append (words (header_words f)) (replicate 16 0),
  length-words (header_words f),
  length-replicate {A = ℕ} 16 0,
)

-- The big-endian word of the first four bytes, as a reader of the blob takes it.
unfoldable pub be_word : List ℕ → ℕ
be_word (a ∷ b ∷ c ∷ d ∷ rest) = ((a * 256 + b) * 256 + c) * 256 + d
be_word bytes = 0

be_word_lem : (v : ℕ) (rest : List ℕ) → be_word (to_be_bytes 4 v ++ rest) ≡ v % 2 ^ 32
unfolding be_word to_be_bytes
be_word_lem v rest = omega arith

-- A blob smaller than 2 ^ 32 bytes begins with the ten words of the header, most significant byte
-- first: the magic number, the blob's own size, the offsets of the structure block, of the strings
-- block and of the reserve map, the versions 17 and 16, hart 0, and the sizes of the strings block
-- and of the structure block. At those offsets of the blob are the structure block with its end token
-- and then the strings, the strings block alone, and a reserve map of sixteen zero bytes.
pub finish_layout :
    (f : Fdt)
    → length (finish f) < 2 ^ 32
    → let blob = finish f in
      let structure = f.structure ++ (0 ∷ 0 ∷ 0 ∷ 9 ∷ []) in
      (be_word blob ≡ 0xd00d_feed)
      × (be_word (drop 4 blob) ≡ length blob)
      × (drop (be_word (drop 8 blob)) blob ≡ structure ++ f.strings)
      × (drop (be_word (drop 12 blob)) blob ≡ f.strings)
      × (take 16 (drop (be_word (drop 16 blob)) blob) ≡ replicate 16 0)
      × (be_word (drop 20 blob) ≡ 17)
      × (be_word (drop 24 blob) ≡ 16)
      × (be_word (drop 28 blob) ≡ 0)
      × (be_word (drop 32 blob) ≡ length f.strings)
      × (be_word (drop 36 blob) ≡ length structure)
unfolding finish header_words put_u32 words to_be_bytes be_word
finish_layout f h =
    let g = put_u32 f fdt_end in
    let total : length (finish f) ≡ 56 + length g.structure + length f.strings = omega (
      arith,
      length-append (front g ++ g.structure) f.strings,
      length-append (front g) g.structure,
      length-front g,
    ) in
    let middle : 56 + length g.structure ≡ length (front g ++ g.structure) =
      omega (arith, length-append (front g) g.structure, length-front g) in
    let offset : be_word (drop 12 (finish f)) ≡ 56 + length g.structure = omega (arith, total) in
    (
      omega arith,
      omega (arith, total),
      ap (drop 56) (append_assoc (front g) g.structure f.strings)
          ∙ drop-append 56 (front g) (g.structure ++ f.strings) (omega (arith, length-front g)),
      ap (λ n. drop n (finish f)) offset
          ∙ drop-append (56 + length g.structure) (front g ++ g.structure) f.strings middle,
      refl,
      refl,
      refl,
      refl,
      omega (arith, total),
      omega (arith, total),
    )
