-- ===== src/System/CodeCache/Decodes.antt =====
-- What the cache of decoded pages holds: crates/rv64-system/src/virt.rs, `DecodedCodePage::block`.
use lish.Prelude.{
  ℕ, zero, suc, ◌+◌, ◌*◌, ◌%◌, ◌≤◌, ◌≡◌, refl, inl, inr, arith, ◌||◌, Bool-cases, List, [], ◌∷◌,
  length, map, ◌==◌,
}
use lish.Core.Compressed.{DecodedInsn, from_word, ends_basic_block}
use lish.System.CodeCache.{fetch_at, word, missing, straddles, Fetched, decode_loop}

-- The instructions are those of a page from an offset on, one after the other.
abbrev pub Decodes : List ℕ → ℕ → List DecodedInsn → Type 0
Decodes page offset [] = Unit {0}
Decodes page offset (d ∷ ds) =
    ((w : ℕ) × (fetch_at page offset ≡ word w) × (d ≡ from_word w))
    × Decodes page (offset + d.len) ds

-- The same with the slots, and every offset even.
abbrev pub Placed : List ℕ → ℕ → List (ℕ × DecodedInsn) → Type 0
Placed page offset [] = Unit {0}
Placed page offset ((slot, d) ∷ rest) =
    (2 * slot ≡ offset)
    × ((w : ℕ) × (fetch_at page offset ≡ word w) × (d ≡ from_word w))
    × Placed page (offset + d.len) rest

abbrev pub insns : List (ℕ × DecodedInsn) → List DecodedInsn
insns es = map (λ e. e.1) es

from_word-len : (w : ℕ) → (from_word w).len % 2 ≡ 0
unfolding from_word
from_word-len w = ground arith

pub decode_loop-Placed :
    (n : ℕ) (page : List ℕ) (offset : ℕ)
    → offset % 2 ≡ 0
    → Placed page offset (decode_loop n page offset).0
unfolding decode_loop
decode_loop-Placed zero page offset h = tt
decode_loop-Placed (suc n) page offset h = found (fetch_at page offset) refl (λ w.
    decode_loop-Placed n page (offset + (from_word w).len) (omega (arith, h, from_word-len w)))
  where
    found :
        (f : Fetched)
        → fetch_at page offset ≡ f
        → ((w : ℕ)
            → Placed page
                (offset + (from_word w).len)
                (decode_loop n page (offset + (from_word w).len)).0)
        → Placed page offset (decode_loop (suc n) page offset).0
    found missing e rest = rw (e, decode_loop) tt
    found straddles e rest = rw (e, decode_loop) tt
    found (word w) e rest =
        elim (Bool-cases (ends_basic_block (from_word w) || offset + (from_word w).len == 0x1000)) [
          | inl last ↦ rw (e, decode_loop, last) (omega (arith, h), (w, e, refl), tt)
          | inr more ↦ rw (e, decode_loop, more) (omega (arith, h), (w, e, refl), rest w)
        ]

pub length-decode_loop :
    (n : ℕ) (page : List ℕ) (offset : ℕ) → length (decode_loop n page offset).0 ≤ n
unfolding decode_loop
length-decode_loop zero page offset = omega arith
length-decode_loop (suc n) page offset = grind (arith, length-decode_loop n)

pub Placed-Decodes :
    (page : List ℕ) (offset : ℕ) (es : List (ℕ × DecodedInsn))
    → Placed page offset es
    → Decodes page offset (insns es)
Placed-Decodes page offset [] v = tt
Placed-Decodes page offset ((slot, d) ∷ rest) (_, here, v) =
    (here, Placed-Decodes page (offset + d.len) rest v)
