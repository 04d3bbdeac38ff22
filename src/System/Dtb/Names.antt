-- ===== src/System/Dtb/Names.antt =====
-- The strings block of crates/rv64-system/src/dtb.rs: where `name_offset` says that a name is, it is.
use lish.Prelude.{
  ℕ, ◌%◌, ◌^◌, ◌<◌, ◌≡◌, refl, ap, ◌∙◌, subst, arith, true, List, [], ◌∷◌, ◌++◌, length, Option,
  none, some, Bool-cases, inl, inr,
}
use mathlib.Core.List.{append_assoc}
use lish.System.Dtb.{Fdt, name_offset, find_name, same_bytes}

-- A name and a NUL stand at an offset of the block.
abbrev pub StandsAt : List ℕ → ℕ → List ℕ → Type 0
StandsAt strings off name =
    (before : List ℕ) × (after : List ℕ) × (strings ≡ before ++ (name ++ (0 ∷ after)))
    × (length before ≡ off)

-- Every name of the table stands at its offset.
abbrev pub Named : List ℕ → List (List ℕ × ℕ) → Type 0
Named strings [] = Unit {0}
Named strings ((n, off) ∷ rest) = StandsAt strings off n × Named strings rest

same_bytes-eq : (xs ys : List ℕ) → same_bytes xs ys ≡ true → xs ≡ ys
unfolding same_bytes
same_bytes-eq [] [] h = refl
same_bytes-eq [] (y ∷ ys) h = absurd (ground arith)
same_bytes-eq (x ∷ xs) [] h = absurd (ground arith)
same_bytes-eq (x ∷ xs) (y ∷ ys) h =
    let e : x ≡ y = ground arith in
    let es = same_bytes-eq xs ys (ground arith) in ap (λ z. z ∷ xs) e ∙ ap (◌∷◌ y) es

append-StandsAt :
    (strings more name : List ℕ) (off : ℕ)
    → StandsAt strings off name
    → StandsAt (strings ++ more) off name
append-StandsAt strings more name off (before, after, e, l) = (
  before,
  after ++ more,
  ap (λ s. s ++ more) e
      ∙ append_assoc before (name ++ (0 ∷ after)) more
      ∙ ap (◌++◌ before) (append_assoc name (0 ∷ after) more),
  l,
)

append-Named :
    (strings more : List ℕ) (names : List (List ℕ × ℕ))
    → Named strings names
    → Named (strings ++ more) names
append-Named strings more [] v = tt
append-Named strings more ((n, off) ∷ rest) (here, v) =
    (append-StandsAt strings more n off here, append-Named strings more rest v)

add-Named :
    (strings name : List ℕ) (off : ℕ) (names : List (List ℕ × ℕ))
    → Named strings names
    → StandsAt strings off name
    → Named strings (names ++ ((name, off) ∷ []))
add-Named strings name off [] v here = (here, tt)
add-Named strings name off ((n, o) ∷ rest) (first, v) here =
    (first, add-Named strings name off rest v here)

found :
    (strings name : List ℕ) (off : ℕ) (names : List (List ℕ × ℕ))
    → Named strings names
    → find_name names name ≡ some off
    → StandsAt strings off name
unfolding find_name
found strings name off [] v e = absurd (ground arith)
found strings name off ((n, o) ∷ rest) (first, v) e = elim (Bool-cases (same_bytes n name)) [
  | inl same ↦
      let at : o ≡ off = ground arith in
      subst (λ k. StandsAt strings k name) at
        (subst (StandsAt strings o) (same_bytes-eq n name same) first)
  | inr other ↦ found strings name off rest v (ground arith)
]

-- A name that is new, at the end of the block.
added :
    (strings name : List ℕ)
    → length strings < 2 ^ 32
    → StandsAt ((strings ++ name) ++ (0 ∷ [])) (length strings % 2 ^ 32) name
added strings name h = (strings, [], append_assoc strings name (0 ∷ []), omega arith)

-- The offset that `name_offset` returns is that of the name and a NUL in the strings block, and the
-- offsets given before stay right, while the block is smaller than 2 ^ 32 bytes.
pub name_offset-StandsAt :
    (f : Fdt) (name : List ℕ)
    → length f.strings < 2 ^ 32
    → Named f.strings f.names
    → let (off, f') = name_offset f name in StandsAt f'.strings off name × Named f'.strings f'.names
unfolding name_offset
name_offset-StandsAt f name h v = looked (find_name f.names name) refl
  where
    looked :
        (o : Option ℕ)
        → find_name f.names name ≡ o
        → let (off, f') = name_offset f name in
          StandsAt f'.strings off name × Named f'.strings f'.names
    looked (some off) e = rw (e, name_offset) (found f.strings name off f.names v e, v)
    looked none e =
        let here = added f.strings name h in
        let kept =
          append-Named (f.strings ++ name) (0 ∷ []) f.names
            (append-Named f.strings name f.names v) in
        rw (e, name_offset)
          (
            here,
            add-Named ((f.strings ++ name) ++ (0 ∷ [])) name (length f.strings % 2 ^ 32) f.names
                kept here,
          )
