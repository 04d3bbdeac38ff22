-- ===== src/System/CodeCache/Sound.antt =====
-- The invariant of a decoded page: crates/rv64-system/src/virt.rs, `DecodedCodePage`.
use lish.Prelude.{
  ℕ, zero, suc, ◌+◌, ◌*◌, ◌≤◌, ◌≡◌, refl, sym, ap, ◌∙◌, subst, ◌⊎◌, inl, inr, arith, ◌&&◌,
  Bool-cases, List, [], ◌∷◌, ◌++◌, length, take, drop, get_or, get_or-set, set, length-map, some,
  ltb, ◌==◌,
}
use lish.Core.Compressed.{DecodedInsn}
use lish.System.CodeCache.{CachedBlock, DecodedCodePage, no_block, range, install}
use lish.System.CodeCache.Decodes.{Decodes, Placed, insns, Placed-Decodes}

-- Lists.
length-append : {A : Type 0} (xs ys : List A) → length (xs ++ ys) ≡ length xs + length ys
length-append [] ys = omega arith
length-append (x ∷ xs) ys = omega (arith, length-append xs ys)

pub drop-shift :
    {A : Type 0} (xs ys : List A) (k n : ℕ) → n ≡ length xs + k → drop n (xs ++ ys) ≡ drop k ys
drop-shift [] ys k n e = ap (λ t. drop t ys) (omega (arith, e))
drop-shift (x ∷ xs) ys k zero e = absurd (omega arith)
drop-shift (x ∷ xs) ys k (suc n) e = drop-shift xs ys k n (omega arith)

take-left : {A : Type 0} (xs ys : List A) (n : ℕ) → n ≤ length xs → take n (xs ++ ys) ≡ take n xs
take-left xs ys zero h = refl
take-left [] ys (suc n) h = absurd (omega arith)
take-left (x ∷ xs) ys (suc n) h = ap (◌∷◌ x) (take-left xs ys n (omega arith))

slice-left :
    {A : Type 0} (xs ys : List A) (a n : ℕ)
    → a + n ≤ length xs
    → take n (drop a (xs ++ ys)) ≡ take n (drop a xs)
slice-left xs ys zero n h = take-left xs ys n (omega arith)
slice-left [] ys (suc a) n h = absurd (omega arith)
slice-left (x ∷ xs) ys (suc a) n h = slice-left xs ys a n (omega arith)

pub take-all : {A : Type 0} (xs : List A) (n : ℕ) → length xs ≤ n → take n xs ≡ xs
take-all [] zero h = refl
take-all [] (suc n) h = refl
take-all (x ∷ xs) zero h = absurd (omega arith)
take-all (x ∷ xs) (suc n) h = ap (◌∷◌ x) (take-all xs n (omega arith))

length-drop_add : {A : Type 0} (xs : List A) (k n : ℕ) → k + n ≡ length xs → length (drop k xs) ≡ n
length-drop_add xs zero n e = omega (arith, e)
length-drop_add [] (suc k) n e = absurd (omega arith)
length-drop_add (x ∷ xs) (suc k) n e = length-drop_add xs k n (omega arith)

-- A block of the new instructions: what is left of them from number k on.
abbrev Rest : List ℕ → List (ℕ × DecodedInsn) → ℕ → ℕ → ℕ → ℕ → Type 0
Rest page es start s a n =
    (k : ℕ) × (a ≡ start + k) × (k + n ≡ length es) × Decodes page (2 * s) (drop k (insns es))

-- A block of a slot after one slot is set.
set-cases :
    (blocks : List CachedBlock) (slot s start count a n : ℕ)
    → range
        (get_or (set blocks slot (record { offset_plus_one = start + 1; len = count })) s no_block)
      ≡ some (a, n)
    → ((s ≡ slot) × (a ≡ start) × (n ≡ count)) ⊎ (range (get_or blocks s no_block) ≡ some (a, n))
unfolding range
set-cases blocks slot s start count a n e =
    let placed : CachedBlock = record { offset_plus_one = start + 1; len = count } in
    let found = get_or-set blocks slot s placed no_block in
    elim (Bool-cases (s == slot && ltb slot (length blocks))) [
      | inl hit ↦ inl (ground (arith, found))
      | inr miss ↦ inr (ground (arith, found))
    ]

-- After the installation a block is one of the new ones, or one of the old.
install-cases :
    (page : List ℕ) (offset start : ℕ) (es : List (ℕ × DecodedInsn)) (blocks : List CachedBlock)
    (s a n : ℕ)
    → Placed page offset es
    → range (get_or (install es start blocks) s no_block) ≡ some (a, n)
    → Rest page es start s a n ⊎ (range (get_or blocks s no_block) ≡ some (a, n))
unfolding install
install-cases page offset start [] blocks s a n v e = inr e
install-cases page offset start ((slot, d) ∷ rest) blocks s a n (at, here, v) e =
    let placed : CachedBlock = record { offset_plus_one = start + 1; len = length rest + 1 } in
    elim (install-cases page (offset + d.len) (suc start) rest (set blocks slot placed) s a n v e) [
      | inl (k, ak, kn, ds) ↦ inl (suc k, omega (arith, ak), omega (arith, kn), ds)
      | inr old ↦ elim (set-cases blocks slot s start (length rest + 1) a n old) [
        | inr before ↦ inr before
        | inl (same, first, count) ↦
            let from : offset ≡ 2 * s = omega (arith, same, at) in
            inl (
              0,
              omega (arith, first),
              omega (arith, count),
              subst (λ o. Decodes page o (d ∷ insns rest)) from
                  (here, Placed-Decodes page (offset + d.len) rest v),
            )
      ]
    ]

-- Every block of the page lies in its instructions, and these are those of the page's bytes from
-- the block's offset on.
abbrev pub IsSound : List ℕ → DecodedCodePage → Type 0
IsSound page p =
    (s a n : ℕ)
    → range (get_or p.blocks s no_block) ≡ some (a, n)
    → (a + n ≤ length p.instructions) × Decodes page (2 * s) (take n (drop a p.instructions))

-- New instructions and their blocks.
pub grown-IsSound :
    (page : List ℕ) (offset : ℕ) (p : DecodedCodePage) (es : List (ℕ × DecodedInsn))
    → Placed page offset es
    → IsSound page p
    → IsSound page (record p {
      instructions = p.instructions ++ insns es;
      blocks = install es (length p.instructions) p.blocks;
    })
grown-IsSound page offset p es v sound s a n e =
    let size : length (p.instructions ++ insns es) ≡ length p.instructions + length es = omega (
      arith,
      length-append p.instructions (insns es),
      length-map es (λ (x : ℕ × DecodedInsn). x.1),
    ) in
    elim (install-cases page offset (length p.instructions) es p.blocks s a n v e) [
      | inl (k, ak, kn, ds) ↦ (
        omega (arith, size, ak, kn),
        subst (Decodes page (2 * s))
            (sym (
              ap (take n) (drop-shift p.instructions (insns es) k a ak)
              ∙ take-all (drop k (insns es)) n (
                  omega (
                    arith,
                    length-drop_add (insns es) k n
                        (omega (arith, kn, length-map es (λ (x : ℕ × DecodedInsn). x.1))),
                  ))))
            ds,
      )
      | inr old ↦
          let (inside, ds) = sound s a n old in
          (
            omega (arith, size, inside),
            subst (Decodes page (2 * s)) (sym (slice-left p.instructions (insns es) a n inside)) ds,
          )
    ]

-- New instructions without blocks.
pub unplaced-IsSound :
    (page : List ℕ) (p : DecodedCodePage) (new : List DecodedInsn)
    → IsSound page p
    → IsSound page (record p { instructions = p.instructions ++ new })
unplaced-IsSound page p new sound s a n e =
    let (inside, ds) = sound s a n e in
    (
      omega (arith, length-append p.instructions new, inside),
      subst (Decodes page (2 * s)) (sym (slice-left p.instructions new a n inside)) ds,
    )
