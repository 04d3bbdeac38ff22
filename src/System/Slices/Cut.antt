-- ===== src/System/Slices/Cut.antt =====
-- Where a block is cut before compiled code: `run_cached_cpu` of crates/rv64-system/src/virt.rs.
use lish.Prelude.{
  ℕ, zero, suc, ◌<◌, ◌≡◌, refl, ap, arith, Bool, true, false, List, [], ◌∷◌, length, take, add64,
  Bool-cases, inl, inr,
}
use lish.Core.Compressed.{DecodedInsn}
use lish.System.Slices.{cut}

-- The counter after the first k instructions, one after the other.
unfoldable pub pc_after : ℕ → ℕ → List DecodedInsn → ℕ
pc_after zero pc ds = pc
pc_after (suc k) pc [] = pc
pc_after (suc k) pc (d ∷ rest) = pc_after k (add64 pc d.len) rest

inside_next :
    (contains : ℕ → Bool) (next : ℕ) (rest : List DecodedInsn) (n : ℕ)
    → contains next ≡ false
    → ((k : ℕ) → suc k < n → contains (pc_after (suc k) next rest) ≡ false)
    → (k : ℕ) → suc k < suc n
    → contains (pc_after k next rest) ≡ false
unfolding pc_after
inside_next contains next rest n miss inside zero lt = miss
inside_next contains next rest n miss inside (suc k) lt = inside k (omega arith)

-- A cut block is a first part of the block, and as long as can be: no instruction of it but the last
-- is followed by compiled code, and where instructions are left out, the last is.
pub cut_lem :
    (contains : ℕ → Bool) (pc : ℕ) (ds : List DecodedInsn)
    → (cut contains pc ds ≡ take (length (cut contains pc ds)) ds)
      × ((k : ℕ) → suc k < length (cut contains pc ds) → contains (pc_after (suc k) pc ds) ≡ false)
      × (length (cut contains pc ds) < length ds
          → contains (pc_after (length (cut contains pc ds)) pc ds) ≡ true)
unfolding cut pc_after
cut_lem contains pc [] = (refl, (λ k lt. absurd (omega arith)), λ lt. absurd (omega arith))
cut_lem contains pc (d ∷ rest) =
    let next = add64 pc d.len in
    let (part, inside, last) = cut_lem contains next rest in
    elim (Bool-cases (contains next)) [
      | inl hit ↦ rw hit (refl, (λ k lt. absurd (omega arith)), λ lt. hit)
      | inr miss ↦ rw miss (
        ap (λ (t : List DecodedInsn). d ∷ t) part,
        (λ k lt. inside_next contains next rest (length (cut contains next rest)) miss inside k lt),
        λ lt. last (omega arith),
      )
    ]
