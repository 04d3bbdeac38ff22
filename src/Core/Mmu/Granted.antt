-- ===== src/Core/Mmu/Granted.antt =====
-- What a successful page-table walk has found, by the digits of the entries: the loop of
-- `translate_slow`, crates/rv64-core/src/cpu.rs, from a root at level 3 or below.
use lish.Prelude.{
  ℕ, zero, suc, ◌<◌, ◌∙◌, sym, bit_or, ◌+◌, ◌-◌, ◌*◌, ◌/◌, ◌%◌, ◌^◌, ◌≤◌, ◌≡◌, ◌⊎◌, ap, arith, Bool,
  true, false, ◌==◌, ◌!=◌, bit, bit_and, shr,
}
use native.Mathlib.Nat.{one-le-pow}
use lish.Prelude.Bits.{bit-lt, or_comm}
use lish.Prelude.Bits.Shift.{digit_lem}
use lish.Prelude.Bits.Fields.{and_mask, and_high, or_fields}
use lish.Core.Exception.{ok}
use lish.Core.Csr.{Mode, user, supervisor, machine}
use lish.Core.Cpu.{Access, fetch, load, store, is_fetch}
use lish.Core.Bus.{Bus}
use lish.Core.Mmu.{
  Request, walk, leaf_allows, mode_allows, access_allows, leaf_address, pte_address, is_invalid,
  is_pointer, next_table, pte_flag,
}
use lish.Core.Mmu.Walk.{Reaches, leaf, pointer, walk-Granted}

-- The address of the entry in the table of a level: nine digits of the virtual address choose one
-- of the 512 entries of eight bytes.
abbrev pub entry_address : ℕ → ℕ → ℕ → ℕ
entry_address table va level = (table + va / 2 ^ (12 + 9 * level) % 512 * 8) % 2 ^ 64

-- The address that the page number of an entry, from digit 10 on, gives.
abbrev pub page_base : ℕ → ℕ
page_base pte = pte / 2 ^ 10 * 2 ^ 12 % 2 ^ 64

module _ {M : Type 0} (bus : Bus M) where
  -- From the table of a level, by entries with V set and R, W and X clear, an entry `pte` is read at
  -- level `l`, and the memory is then `m'`.
  pub data Leads (va pte l : ℕ) (m' : M) : ℕ → M → ℕ → Type 0 where
    last :
        {level table : ℕ} {m : M}
        → bus.read 8 m (entry_address table va level) ≡ (ok pte, m')
        → l ≡ level
        → Leads va pte l m' level m table
    by_pointer :
        {level table next : ℕ} {m between : M}
        → bus.read 8 m (entry_address table va (suc level)) ≡ (ok next, between)
        → bit 0 next ≡ 1
        → bit 1 next ≡ 0
        → bit 2 next ≡ 0
        → bit 3 next ≡ 0
        → Leads va pte l m' level between (page_base next)
        → Leads va pte l m' (suc level) m table

-- Read for a load, or execute with MXR; write for a store; execute for a fetch.
abbrev pub GrantsAccess : Access → Bool → ℕ → Type 0
GrantsAccess fetch mxr pte = bit 3 pte ≡ 1
GrantsAccess load mxr pte = (bit 1 pte ≡ 1) ⊎ ((mxr ≡ true) × (bit 3 pte ≡ 1))
GrantsAccess store mxr pte = bit 2 pte ≡ 1

-- A user page for U-mode; for S-mode another page, or with SUM a user page that is not fetched from.
abbrev pub GrantsMode : Mode → Access → Bool → ℕ → Type 0
GrantsMode user access sum pte = bit 4 pte ≡ 1
GrantsMode supervisor access sum pte = (bit 4 pte ≡ 0) ⊎ ((sum ≡ true) × (is_fetch access ≡ false))
GrantsMode machine access sum pte = Unit {0}

-- A leaf that gives the address: valid, readable or executable, never writable alone, the page number
-- a multiple of the size of the page, and the address that number with the low digits of the virtual
-- address.
pub record Leaf (q : Request) (pte l pa : ℕ) : Type 0 where
  pub valid : bit 0 pte ≡ 1
  pub readable : (bit 1 pte ≡ 1) ⊎ ((bit 2 pte ≡ 0) × (bit 3 pte ≡ 1))
  pub grants_access : GrantsAccess q.access q.mxr pte
  pub grants_mode : GrantsMode q.mode q.access q.sum pte
  pub aligned : pte / 2 ^ 10 % 2 ^ (9 * l) ≡ 0
  pub address : pa ≡ page_base pte + q.va % 2 ^ (12 + 9 * l)

flag_digit : (pte k : ℕ) → pte_flag pte k ≡ (bit k pte == 1)
flag_digit pte k = ap (λ (t : ℕ). t == 1) (digit_lem k pte)

-- The four lowest digits, and their tests.
digits :
    (pte : ℕ)
    → (pte_flag pte 0 ≡ (bit 0 pte == 1))
      × (pte_flag pte 1 ≡ (bit 1 pte == 1))
      × (pte_flag pte 2 ≡ (bit 2 pte == 1))
      × (pte_flag pte 3 ≡ (bit 3 pte == 1))
      × (bit 1 pte < 2)
      × (bit 2 pte < 2)
      × (bit 3 pte < 2)
digits pte = (
  flag_digit pte 0,
  flag_digit pte 1,
  flag_digit pte 2,
  flag_digit pte 3,
  bit-lt 1 pte,
  bit-lt 2 pte,
  bit-lt 3 pte,
)

pte_address-entry : (table va level : ℕ) → pte_address table va level ≡ entry_address table va level
unfolding pte_address
pte_address-entry table va level =
    ap (λ (t : ℕ). (table + t * 8) % 2 ^ 64) (and_mask 9 (shr va (12 + 9 * level)))

pointer_digits :
    (pte : ℕ)
    → is_invalid pte ≡ false
    → is_pointer pte ≡ true
    → (bit 0 pte ≡ 1) × (bit 1 pte ≡ 0) × (bit 2 pte ≡ 0) × (bit 3 pte ≡ 0)
unfolding is_invalid is_pointer
pointer_digits pte valid down = (
  ground (arith, digits pte),
  ground (arith, digits pte),
  ground (arith, digits pte),
  ground (arith, digits pte),
)

leaf_digits :
    (pte : ℕ)
    → is_invalid pte ≡ false
    → is_pointer pte ≡ false
    → (bit 0 pte ≡ 1) × ((bit 1 pte ≡ 1) ⊎ ((bit 2 pte ≡ 0) × (bit 3 pte ≡ 1)))
unfolding is_invalid is_pointer
leaf_digits pte valid ends = (ground (arith, digits pte), ground (arith, digits pte))

access_digits :
    (access : Access) (mxr : Bool) (pte : ℕ)
    → access_allows access (pte_flag pte 1) (pte_flag pte 2) (pte_flag pte 3) mxr ≡ true
    → GrantsAccess access mxr pte
unfolding access_allows
access_digits fetch mxr pte h = ground (arith, flag_digit pte 3)
access_digits load mxr pte h = ground (arith, flag_digit pte 1, flag_digit pte 3)
access_digits store mxr pte h = ground (arith, flag_digit pte 2)

mode_digits :
    (mode : Mode) (access : Access) (sum : Bool) (pte : ℕ)
    → mode_allows mode (bit_and (shr pte 4) 1 != 0) access sum ≡ true
    → GrantsMode mode access sum pte
unfolding mode_allows
mode_digits user access sum pte h = ground (arith, digit_lem 4 pte, bit-lt 4 pte)
mode_digits supervisor access sum pte h = ground (arith, digit_lem 4 pte, bit-lt 4 pte)
mode_digits machine access sum pte h = tt

leaf-aligned :
    (q : Request) (pte l : ℕ) → leaf_allows q pte l ≡ true → pte / 2 ^ 10 % 2 ^ (9 * l) ≡ 0
unfolding leaf_allows
leaf-aligned q pte zero h = omega arith
leaf-aligned q pte (suc l) h = ground (arith, and_mask (9 * suc l) (shr pte 10))

-- The two fields of an address at a place, with what the masks leave.
joined :
    (k n va m : ℕ)
    → bit_or (bit_and n (m * 2 ^ k)) (bit_and va (2 ^ k - 1))
      ≡ va % 2 ^ k + bit_and (n / 2 ^ k) m * 2 ^ k
joined k n va m =
    let low = and_mask k va in
    or_comm (bit_and n (m * 2 ^ k)) (bit_and va (2 ^ k - 1))
    ∙ ap (λ (t : ℕ). bit_or t (bit_and n (m * 2 ^ k))) low
    ∙ ap (λ (t : ℕ). bit_or (va % 2 ^ k) t) (and_high k n m)
    ∙ or_fields k (bit_and (n / 2 ^ k) m) (va % 2 ^ k) (ground (arith, one-le-pow k 2))

leaf_address-page_base :
    (va pte l : ℕ)
    → l ≤ 3
    → pte / 2 ^ 10 % 2 ^ (9 * l) ≡ 0
    → leaf_address va pte l ≡ page_base pte + va % 2 ^ (12 + 9 * l)
unfolding leaf_address next_table
leaf_address-page_base va pte zero small aligned =
    omega (arith, joined 12 (page_base pte) va (2 ^ 52 - 1), and_mask 52 (page_base pte / 2 ^ 12))
leaf_address-page_base va pte (suc zero) small aligned =
    omega (arith, joined 21 (page_base pte) va (2 ^ 43 - 1), and_mask 43 (page_base pte / 2 ^ 21))
leaf_address-page_base va pte (suc (suc zero)) small aligned =
    omega (arith, joined 30 (page_base pte) va (2 ^ 34 - 1), and_mask 34 (page_base pte / 2 ^ 30))
leaf_address-page_base va pte (suc (suc (suc zero))) small aligned =
    omega (arith, joined 39 (page_base pte) va (2 ^ 25 - 1), and_mask 25 (page_base pte / 2 ^ 39))
leaf_address-page_base va pte (suc (suc (suc (suc l)))) small aligned = absurd (omega arith)

leaf_allows-Leaf :
    (q : Request) (pte l pa : ℕ)
    → l ≤ 3
    → is_invalid pte ≡ false
    → is_pointer pte ≡ false
    → leaf_allows q pte l ≡ true
    → pa ≡ leaf_address q.va pte l
    → Leaf q pte l pa
unfolding leaf_allows
leaf_allows-Leaf q pte l pa small valid ends allowed at =
    let aligned = leaf-aligned q pte l allowed in
    record {
      valid = (leaf_digits pte valid ends).0;
      readable = (leaf_digits pte valid ends).1;
      grants_access = access_digits q.access q.mxr pte (ground (arith, allowed));
      grants_mode = mode_digits q.mode q.access q.sum pte (ground (arith, allowed));
      aligned = aligned;
      address = at ∙ leaf_address-page_base q.va pte l small aligned;
    }

module _ {M : Type 0} (bus : Bus M) where
  -- The way to a leaf, by digits, with the level of the leaf and what its checks left.
  leads_to :
      {va at pte l : ℕ} {m' : M} (level : ℕ) (m : M) (table : ℕ)
      → Reaches bus va at pte l m' level m table
      → Leads bus va pte l m' level m table
        × (is_invalid pte ≡ false)
        × (is_pointer pte ≡ false)
        × (l ≤ level)
  unfolding next_table
  leads_to {va = va} level m table (leaf r valid ends at same) = (
    last (ap (bus.read 8 m) (sym (pte_address-entry table va level)) ∙ r) same,
    valid,
    ends,
    omega (arith, same),
  )
  leads_to {va = va} (suc level) m table
        (pointer {entry = entry} {between = between} r valid down rest) =
      let (onward, good, ends, le) = leads_to level between (next_table entry) rest in
      let (v, rd, w, x) = pointer_digits entry valid down in
      (
        by_pointer (ap (bus.read 8 m) (sym (pte_address-entry table va (suc level))) ∙ r) v rd w x
            onward,
        good,
        ends,
        omega (arith, le),
      )

  -- On any bus, a walk from a root at level 3 or below that succeeds has followed pointers, entries
  -- with V set and R, W and X clear, at the places that the virtual address chooses, to a leaf. The
  -- leaf is valid and not writable alone, and lies on the boundary of its page size; its digits grant
  -- the access, execute standing in for read with MXR; its U digit fits the mode, S-mode with SUM
  -- reading and writing user pages; and the walk returns the leaf's page with the low digits of the
  -- virtual address.
  pub walk_to_leaf :
      (q : Request) (level : ℕ) (m m' : M) (table pa : ℕ)
      → level ≤ 3
      → walk bus level m q table ≡ (ok pa, m')
      → (pte : ℕ) × (l : ℕ) × (after : M) × Leads bus q.va pte l after level m table
        × Leaf q pte l pa
  walk_to_leaf q level m m' table pa small h =
      let g = walk-Granted bus q level m m' table pa h in
      let (way, valid, ends, le) = leads_to level m table g.reached in
      (
        g.pte,
        g.leaf_level,
        g.after,
        way,
        leaf_allows-Leaf q g.pte g.leaf_level pa (omega (arith, le)) valid ends g.allowed g.address,
      )
