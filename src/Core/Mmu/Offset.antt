-- ===== src/Core/Mmu/Offset.antt =====
-- The physical address that a leaf gives: crates/rv64-core/src/cpu.rs, `translate_slow`.
use lish.Prelude.{
  ℕ, zero, suc, ◌+◌, ◌-◌, ◌*◌, ◌/◌, ◌%◌, ◌^◌, ◌<◌, ◌≤◌, ◌≡◌, ◌∙◌, ap, refl, arith, bit_and, bit_or,
  not64,
}
use lish.Prelude.Bits.{or_comm}
use lish.Prelude.Bits.Fields.{and_mask, and_high, or_fields, or-lt, and-le}
use native.Mathlib.Nat.{mod-lt, one-le-pow}
use lish.Core.Exception.{ok}
use lish.Core.Bus.{Bus}
use lish.Core.Mmu.{leaf_address, next_table, Request, walk}
use lish.Core.Mmu.Walk.{Reaches, leaf, pointer, walk-Granted}

module _ (va pte k q : ℕ) (cut : not64 (2 ^ k - 1) ≡ q * 2 ^ k) where
  sum_of_parts :
      bit_or (bit_and (next_table pte) (not64 (2 ^ k - 1))) (bit_and va (2 ^ k - 1))
      ≡ va % 2 ^ k + bit_and (next_table pte / 2 ^ k) q * 2 ^ k
  sum_of_parts =
      or_comm (bit_and (next_table pte) (not64 (2 ^ k - 1))) (bit_and va (2 ^ k - 1))
      ∙ ap (bit_or (bit_and va (2 ^ k - 1)))
          (ap (bit_and (next_table pte)) cut ∙ and_high k (next_table pte) q)
      ∙ ap (λ (t : ℕ). bit_or t (bit_and (next_table pte / 2 ^ k) q * 2 ^ k)) (and_mask k va)
      ∙ or_fields k (bit_and (next_table pte / 2 ^ k) q) (va % 2 ^ k)
          (mod-lt (va) (omega (arith, one-le-pow k 2)))

next_table-lt : (pte : ℕ) → next_table pte < 2 ^ 64
unfolding next_table
next_table-lt pte = omega arith

-- At each of the four levels the low digits of the address are those of the virtual address, and
-- the digits above them are those of the entry's page number.
pub leaf_address_parts :
    (va pte level : ℕ)
    → level < 4
    → leaf_address va pte level
      ≡ va % 2 ^ (12 + 9 * level) + next_table pte / 2 ^ (12 + 9 * level) * 2 ^ (12 + 9 * level)
unfolding leaf_address
leaf_address_parts va pte zero h =
    sum_of_parts va pte 12 (2 ^ 52 - 1) refl
    ∙ omega (arith, and_mask 52 (next_table pte / 2 ^ 12), next_table-lt pte)
leaf_address_parts va pte (suc zero) h =
    sum_of_parts va pte 21 (2 ^ 43 - 1) refl
    ∙ omega (arith, and_mask 43 (next_table pte / 2 ^ 21), next_table-lt pte)
leaf_address_parts va pte (suc (suc zero)) h =
    sum_of_parts va pte 30 (2 ^ 34 - 1) refl
    ∙ omega (arith, and_mask 34 (next_table pte / 2 ^ 30), next_table-lt pte)
leaf_address_parts va pte (suc (suc (suc zero))) h =
    sum_of_parts va pte 39 (2 ^ 25 - 1) refl
    ∙ omega (arith, and_mask 25 (next_table pte / 2 ^ 39), next_table-lt pte)
leaf_address_parts va pte (suc (suc (suc (suc level)))) h = absurd (omega arith)

page_offset : (va pte level : ℕ) → level < 4 → leaf_address va pte level % 2 ^ 12 ≡ va % 2 ^ 12
page_offset va pte zero h = omega (arith, leaf_address_parts va pte 0 h)
page_offset va pte (suc zero) h = omega (arith, leaf_address_parts va pte 1 h)
page_offset va pte (suc (suc zero)) h = omega (arith, leaf_address_parts va pte 2 h)
page_offset va pte (suc (suc (suc zero))) h = omega (arith, leaf_address_parts va pte 3 h)
page_offset va pte (suc (suc (suc (suc level)))) h = absurd (omega arith)

pub leaf_address-lt : (va pte level : ℕ) → va < 2 ^ 64 → leaf_address va pte level < 2 ^ 64
unfolding leaf_address
leaf_address-lt va pte level h =
    let mask = 2 ^ (12 + 9 * level) - 1 in
    or-lt 64 (bit_and (next_table pte) (not64 mask)) (bit_and va mask)
      (omega (arith, and-le (next_table pte) (not64 mask), next_table-lt pte))
      (omega (arith, and-le va mask))

module _ {M : Type 0} (bus : Bus M) where
  level-le :
      {va at pte l : ℕ} {m' : M} {level table : ℕ} {m : M}
      → Reaches bus va at pte l m' level m table
      → l ≤ level
  level-le (leaf r i p a e) = omega arith
  level-le (pointer r i p rest) = omega (arith, level-le rest)

  -- A successful walk in sv39 or sv48 keeps the offset in the page.
  pub walk_page_offset :
      (q : Request) (level : ℕ) (m m' : M) (table pa : ℕ)
      → level < 4
      → walk bus level m q table ≡ (ok pa, m')
      → pa % 2 ^ 12 ≡ q.va % 2 ^ 12
  walk_page_offset q level m m' table pa lt h =
      let g = walk-Granted bus q level m m' table pa h in
      omega
        (arith, page_offset q.va g.pte g.leaf_level (omega (arith, level-le g.reached)), g.address)
