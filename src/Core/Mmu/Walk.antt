-- ===== src/Core/Mmu/Walk.antt =====
-- The page-table walk against the tables it reads: crates/rv64-core/src/cpu.rs, `translate_slow`.
use lish.Prelude.{ℕ, zero, suc, ◌≡◌, inl, inr, refl, arith, true, false, ◌||◌, Bool-cases}
use lish.Core.Exception.{Exception, Result, ok, err}
use lish.Core.Bus.{Bus}
use lish.Core.Mmu.{
  Request, fault, walk, walk_leaf, leaf_allows, leaf_address, pte_address, is_invalid, is_pointer,
  next_table,
}

module _ {M : Type 0} (bus : Bus M) where
  -- From the table of a level, by valid pointers, a leaf with the value `pte` at the address `at`
  -- is reached at level `l`, and the memory is then `m'`.
  pub data Reaches (va at pte l : ℕ) (m' : M) : ℕ → M → ℕ → Type 0 where
    leaf :
        {level table : ℕ} {m : M}
        → bus.read 8 m (pte_address table va level) ≡ (ok pte, m')
        → is_invalid pte ≡ false
        → is_pointer pte ≡ false
        → at ≡ pte_address table va level
        → l ≡ level
        → Reaches va at pte l m' level m table
    pointer :
        {level table entry : ℕ} {m between : M}
        → bus.read 8 m (pte_address table va (suc level)) ≡ (ok entry, between)
        → is_invalid entry ≡ false
        → is_pointer entry ≡ true
        → Reaches va at pte l m' level between (next_table entry)
        → Reaches va at pte l m' (suc level) m table

  -- The walk handles the leaf that is reached.
  pub walk-Reaches :
      (q : Request) (level : ℕ) (m : M) (table : ℕ) {at pte l : ℕ} {m' : M}
      → Reaches q.va at pte l m' level m table
      → walk bus level m q table ≡ walk_leaf bus m' q at pte l
  unfolding walk
  walk-Reaches q zero m table (leaf r i p a e) = ground arith
  walk-Reaches q (suc level) m table (leaf r i p a e) = ground arith
  walk-Reaches q (suc level) m table (pointer {entry = entry} {between = between} r i p rest) =
      ground (arith, walk-Reaches q level between (next_table entry) rest)

  -- What a successful walk has found: a leaf that grants the access.
  pub record Granted (q : Request) (level : ℕ) (m : M) (table pa : ℕ) : Type 0 where
    pub at : ℕ
    pub pte : ℕ
    pub leaf_level : ℕ
    pub after : M
    pub reached : Reaches q.va at pte leaf_level after level m table
    pub allowed : leaf_allows q pte leaf_level ≡ true
    pub address : pa ≡ leaf_address q.va pte leaf_level

  leaf_granted :
      (q : Request) (m m' : M) (at pte l pa : ℕ)
      → walk_leaf bus m q at pte l ≡ (ok pa, m')
      → (leaf_allows q pte l ≡ true) × (pa ≡ leaf_address q.va pte l)
  unfolding walk_leaf
  leaf_granted q m m' at pte l pa e = (ground arith, ground arith)

  walk_ok_from :
      (q : Request) (level : ℕ) (m m' : M) (table pa : ℕ) (r : Result ℕ) (after : M)
      → bus.read 8 m (pte_address table q.va level) ≡ (r, after)
      → walk bus level m q table ≡ (ok pa, m')
      → Granted q level m table pa
  unfolding walk
  walk_ok_from q zero m m' table pa (err x) after e h = absurd (ground arith)
  walk_ok_from q zero m m' table pa (ok pte) after e h =
      elim (Bool-cases (is_invalid pte || is_pointer pte)) [
        | inl bad ↦ absurd (ground arith)
        | inr good ↦
            let at = pte_address table q.va 0 in
            let g = leaf_granted q after m' at pte 0 pa (ground arith) in
            record {
              at = at;
              pte = pte;
              leaf_level = 0;
              after = after;
              reached = leaf e (ground arith) (ground arith) refl refl;
              allowed = g.0;
              address = g.1;
            }
      ]
  walk_ok_from q (suc level) m m' table pa (err x) after e h = absurd (ground arith)
  walk_ok_from q (suc level) m m' table pa (ok pte) after e h = elim (Bool-cases (is_invalid pte)) [
    | inl bad ↦ absurd (ground arith)
    | inr good ↦ elim (Bool-cases (is_pointer pte)) [
      | inl down ↦
          deeper (walk_ok_from q level after m' (next_table pte) pa _ _ refl (ground arith)) good
            down
      | inr end_here ↦
          let at = pte_address table q.va (suc level) in
          let g = leaf_granted q after m' at pte (suc level) pa (ground arith) in
          record {
            at = at;
            pte = pte;
            leaf_level = suc level;
            after = after;
            reached = leaf e good end_here refl refl;
            allowed = g.0;
            address = g.1;
          }
    ]
  ]
    where
      deeper :
          Granted q level after (next_table pte) pa
          → is_invalid pte ≡ false
          → is_pointer pte ≡ true
          → Granted q (suc level) m table pa
      deeper g good down = record {
        at = g.at;
        pte = g.pte;
        leaf_level = g.leaf_level;
        after = g.after;
        reached = pointer e good down g.reached;
        allowed = g.allowed;
        address = g.address;
      }

  -- On any bus, a walk that succeeds has followed valid pointers to a leaf that grants the access
  -- to the mode, and returns the address that this leaf gives.
  pub walk-Granted :
      (q : Request) (level : ℕ) (m m' : M) (table pa : ℕ)
      → walk bus level m q table ≡ (ok pa, m')
      → Granted q level m table pa
  walk-Granted q level m m' table pa h = walk_ok_from q level m m' table pa _ _ refl h

  leaf_fault :
      (q : Request) (m m' : M) (at pte l : ℕ) (e : Exception)
      → walk_leaf bus m q at pte l ≡ (err e, m')
      → e ≡ fault q.access q.va
  unfolding walk_leaf
  leaf_fault q m m' at pte l e h = ground arith

  walk-fault_from :
      (q : Request) (level : ℕ) (m m' : M) (table : ℕ) (e : Exception) (r : Result ℕ) (after : M)
      → bus.read 8 m (pte_address table q.va level) ≡ (r, after)
      → walk bus level m q table ≡ (err e, m')
      → e ≡ fault q.access q.va
  unfolding walk
  walk-fault_from q zero m m' table e (err x) after b h = ground arith
  walk-fault_from q zero m m' table e (ok pte) after b h =
      ground (arith, leaf_fault q after m' (pte_address table q.va 0) pte 0 e)
  walk-fault_from q (suc level) m m' table e (err x) after b h = ground arith
  walk-fault_from q (suc level) m m' table e (ok pte) after b h = ground (
    arith,
    leaf_fault q after m' (pte_address table q.va (suc level)) pte (suc level) e,
    walk-fault_from q level after m' (next_table pte) e _ _ refl,
  )

  -- A walk that fails raises the page fault of the access at the virtual address, whatever the bus
  -- answered.
  pub walk-fault :
      (q : Request) (level : ℕ) (m m' : M) (table : ℕ) (e : Exception)
      → walk bus level m q table ≡ (err e, m')
      → e ≡ fault q.access q.va
  walk-fault q level m m' table e h = walk-fault_from q level m m' table e _ _ refl h
