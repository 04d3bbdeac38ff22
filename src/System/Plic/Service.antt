-- ===== src/System/Plic/Service.antt =====
-- Claim and completion, and the invariant of the controller: crates/rv64-system/src/virt.rs,
-- `Plic::read` and `Plic::write`.
use lish.Prelude.{
  ℕ, zero, suc, [], ◌∷◌, ◌+◌, ◌-◌, ◌*◌, ◌/◌, ◌%◌, ◌^◌, ◌<◌, ◌≡◌, ◌≢◌, refl, inl, inr, ap, ◌∙◌,
  Bool-cases, List, arith, ltb, ◌==◌, ◌!=◌, if◌then◌else◌, get_or, set, length, length-set,
  get_or-set, bit_and, bit_or, not32, bit, min,
}
use lish.Prelude.Bits.{bit-and, bit-or, bit_ext, bit-lt, bit-of_lt, bit-complement, bit-pow, pow_lt}
use lish.Prelude.Bits.Fields.{and-le, or-lt}
use lish.System.Plic.{
  Plic, new, best, eligible, claim, complete, read, read_context, write, write_context,
}
use lish.System.Plic.Best.{best-Wins}

pub record IsValid (p : Plic) : Type 0 where
  pub sources : length p.priority ≡ 32
  pub contexts : (length p.enable ≡ 2) × (length p.threshold ≡ 2)
  pub pending_fits : p.pending < 2 ^ 32
  pub claimed_fits : p.claimed < 2 ^ 32
  pub no_source_zero : (ctx : ℕ) → bit 0 (get_or p.enable ctx 0) ≡ 0

eligible-fits : (p : Plic) (ctx : ℕ) → IsValid p → eligible p ctx < 2 ^ 32
unfolding eligible
eligible-fits p ctx v = omega (
  arith,
  v.pending_fits,
  and-le (bit_and p.pending (get_or p.enable ctx 0)) (not32 p.claimed),
  and-le p.pending (get_or p.enable ctx 0),
)

-- A source is eligible when it is pending, enabled and not in service.
bit-eligible :
    (p : Plic) (ctx j : ℕ)
    → IsValid p
    → j < 32
    → bit j (eligible p ctx)
      ≡ min (min (bit j p.pending) (bit j (get_or p.enable ctx 0))) (1 - bit j p.claimed)
unfolding eligible
bit-eligible p ctx j v lt = omega (
  arith,
  bit-and j (bit_and p.pending (get_or p.enable ctx 0)) (not32 p.claimed),
  bit-and j p.pending (get_or p.enable ctx 0),
  bit-complement 32 j p.claimed v.claimed_fits lt,
)

eligible-lt_32 : (p : Plic) (ctx j : ℕ) → IsValid p → bit j (eligible p ctx) ≡ 1 → j < 32
eligible-lt_32 p ctx j v e = ground (arith, bit-of_lt 32 j (eligible p ctx) (eligible-fits p ctx v))

-- What `best` returns is a source number, eligible unless it is 0, and 0 is never eligible.
best-facts :
    (p : Plic) (ctx : ℕ)
    → IsValid p
    → best p ctx ≢ 0
    → (best p ctx < 32) × (bit (best p ctx) (eligible p ctx) ≡ 1)
best-facts p ctx v nz = elim (best-Wins p ctx (eligible-fits p ctx v)) [
  | inl (z, _) ↦ absurd (nz z)
  | inr (e, _, _) ↦ (eligible-lt_32 p ctx (best p ctx) v e, e)
]

-- The claim and complete register of a context.
abbrev pub claim_register : ℕ → ℕ
claim_register ctx = 0x20_0004 + ctx * 0x1000

read-claim_register : (p : Plic) (ctx : ℕ) → ctx < 2 → read p (claim_register ctx) ≡ claim p ctx
unfolding read read_context
read-claim_register p ctx lt = ground arith

write-claim_register :
    (p : Plic) (ctx val : ℕ) → ctx < 2 → write p (claim_register ctx) val ≡ complete p val
unfolding write write_context
write-claim_register p ctx val lt = ground arith

two_pow_fits : (j : ℕ) → j < 32 → 2 ^ j < 2 ^ 32
two_pow_fits j lt = pow_lt j 32 lt

-- `claimed |= 1 << id`, digit by digit.
bit-claimed :
    (claimed id j : ℕ) → bit j (bit_or claimed (2 ^ id)) ≡ (if j == id then 1 else bit j claimed)
bit-claimed claimed id j = ground (arith, bit-or j claimed (2 ^ id), bit-pow id j, bit-lt j claimed)

claim-IsValid : (p : Plic) (ctx : ℕ) → IsValid p → IsValid (claim p ctx).1
unfolding claim
claim-IsValid p ctx v = elim (Bool-cases (best p ctx != 0)) [
  | inl nz ↦
      let facts = best-facts p ctx v (ground arith) in
      let fits = or-lt 32 p.claimed (2 ^ best p ctx) v.claimed_fits (two_pow_fits _ facts.0) in
      rw nz (record {
        sources = v.sources;
        contexts = v.contexts;
        pending_fits = v.pending_fits;
        claimed_fits = fits;
        no_source_zero = v.no_source_zero;
      })
  | inr z ↦ rw z v
]

-- In a valid controller, reading the claim register of either context, where this returns a
-- source, takes that source out of every context's eligible set and changes nothing else in it.
pub claim_exclusive :
    (p : Plic) (ctx ctx' j : ℕ)
    → IsValid p
    → ctx < 2
    → (read p (claim_register ctx)).0 ≢ 0
    → j < 32
    → let (id, q) = read p (claim_register ctx) in
      bit j (eligible q ctx') ≡ (if j == id then 0 else bit j (eligible p ctx'))
unfolding claim
claim_exclusive p ctx ctx' j v lt nz jlt =
    let e = read-claim_register p ctx lt in
    rw e (
      ground (
        arith,
        ap (λ r. r.0) e,
        bit-eligible p ctx' j v jlt,
        bit-eligible (claim p ctx).1 ctx' j (claim-IsValid p ctx v) jlt,
        bit-claimed p.claimed (best p ctx) j,
        bit-lt j p.claimed,
      ))

not_claimed : (p : Plic) (ctx : ℕ) → IsValid p → best p ctx ≢ 0 → bit (best p ctx) p.claimed ≡ 0
not_claimed p ctx v nz =
    let facts = best-facts p ctx v nz in
    omega (arith, bit-eligible p ctx (best p ctx) v facts.0, facts.1, bit-lt (best p ctx) p.claimed)

-- `claimed |= 1 << id; claimed &= !(1 << id)` undoes itself where the digit was clear.
set_then_clear :
    (c id : ℕ)
    → c < 2 ^ 32
    → id < 32
    → bit id c ≡ 0
    → bit_and (bit_or c (2 ^ id)) (not32 (2 ^ id)) ≡ c
set_then_clear c id fits lt clear = bit_ext _ c λ k. elim (Bool-cases (ltb k 32)) [
  | inl small ↦ ground (
    arith,
    bit-and k (bit_or c (2 ^ id)) (not32 (2 ^ id)),
    bit-or k c (2 ^ id),
    bit-complement 32 k (2 ^ id) (two_pow_fits id lt) (ground arith),
    bit-pow id k,
    bit-lt k c,
  )
  | inr large ↦ ground (
    arith,
    bit-and k (bit_or c (2 ^ id)) (not32 (2 ^ id)),
    bit-of_lt 32 k (not32 (2 ^ id)) (omega arith) (ground arith),
    bit-of_lt 32 k c fits (ground arith),
  )
]

-- In a valid controller, where a claim of either context returns a source, writing that source to
-- the claim register of either context puts the controller back as it was before the claim.
complete-claim :
    (p : Plic) (ctx ctx' : ℕ)
    → IsValid p
    → ctx < 2
    → ctx' < 2
    → (read p (claim_register ctx)).0 ≢ 0
    → let (id, q) = read p (claim_register ctx) in write q (claim_register ctx') id ≡ p
unfolding claim complete
complete-claim p ctx ctx' v lt lt' nz =
    let e = read-claim_register p ctx lt in
    let won : best p ctx ≢ 0 = ground (arith, ap (λ r. r.0) e) in
    let facts = best-facts p ctx v won in
    rw (e, write-claim_register (claim p ctx).1 ctx' (best p ctx) lt')
      (ground (
        arith,
        set_then_clear p.claimed (best p ctx) v.claimed_fits facts.0 (not_claimed p ctx v won),
      ))

-- Until it is completed, a claimed source is not returned by another claim of either context.
pub claim_again :
    (p : Plic) (ctx ctx' : ℕ)
    → IsValid p
    → ctx < 2
    → ctx' < 2
    → (read p (claim_register ctx)).0 ≢ 0
    → let (id, q) = read p (claim_register ctx) in (read q (claim_register ctx')).0 ≢ id
unfolding claim
claim_again p ctx ctx' v lt lt' nz again =
    let e = read-claim_register p ctx lt in
    let won : best p ctx ≢ 0 = ground (arith, ap (λ r. r.0) e) in
    let q = (claim p ctx).1 in
    let same : best q ctx' ≡ best p ctx = ground (
      arith,
      ap (λ r. r.0) e,
      ap (λ r. (read r.1 (claim_register ctx')).0) e,
      ap (λ r. r.0) (read-claim_register q ctx' lt'),
    ) in
    let facts = best-facts p ctx v won in
    let gone = best-facts q ctx' (claim-IsValid p ctx v) (ground arith) in
    ground (
      arith,
      same,
      facts,
      gone,
      ap (λ k. bit k (eligible q ctx')) same,
      bit-eligible q ctx' (best p ctx) (claim-IsValid p ctx v) facts.0,
      bit-claimed p.claimed (best p ctx) (best p ctx),
    )

set_enable :
    (xs : List ℕ) (i val : ℕ)
    → ((ctx : ℕ) → bit 0 (get_or xs ctx 0) ≡ 0)
    → (ctx : ℕ) → bit 0 (get_or (set xs i (bit_and val (not32 1))) ctx 0) ≡ 0
unfolding bit
set_enable xs i val h ctx =
    ground (arith, get_or-set xs i ctx (bit_and val (not32 1)) 0, bit-and 0 val (not32 1), h ctx)

-- The controller starts in it.
pub new-IsValid : IsValid new
unfolding new bit
new-IsValid = record {
  sources = refl;
  contexts = (refl, refl);
  pending_fits = omega arith;
  claimed_fits = omega arith;
  no_source_zero = λ ctx. ground (arith, zeros ctx);
}
  where
    zeros : (ctx : ℕ) → bit 0 (get_or (0 ∷ 0 ∷ []) ctx 0) ≡ 0
    zeros zero = refl
    zeros (suc zero) = refl
    zeros (suc (suc n)) = refl

-- A read of any register, a claim included, keeps a controller valid.
pub read-IsValid : (p : Plic) (off : ℕ) → IsValid p → IsValid (read p off).1
unfolding read read_context
read-IsValid p off v = ground (arith, claim-IsValid p ((off - 0x20_0000) / 0x1000) v)

complete-IsValid : (p : Plic) (val : ℕ) → IsValid p → IsValid (complete p val)
unfolding complete
complete-IsValid p val v = ground (arith, and-le p.claimed (not32 (2 ^ val)))

enable-IsValid :
    (p : Plic) (i val : ℕ)
    → IsValid p
    → IsValid (record p { enable = set p.enable i (bit_and val (not32 1)) })
enable-IsValid p i val v = record {
  sources = v.sources;
  contexts = (length-set p.enable i _ ∙ v.contexts.0, v.contexts.1);
  pending_fits = v.pending_fits;
  claimed_fits = v.claimed_fits;
  no_source_zero = set_enable p.enable i val v.no_source_zero;
}

write_context-IsValid :
    (p : Plic) (ctx reg val : ℕ) → IsValid p → IsValid (write_context p ctx reg val)
unfolding write_context
write_context-IsValid p ctx reg val v =
    ground (arith, complete-IsValid p val v, length-set p.threshold ctx val)

-- A write of any register keeps a controller valid: the arrays keep their lengths, the words fit
-- 32 bits and source 0 is never enabled.
pub write-IsValid : (p : Plic) (off val : ℕ) → IsValid p → IsValid (write p off val)
unfolding write
write-IsValid p off val v = ground (
  arith,
  length-set p.priority (off / 4) val,
  enable-IsValid p ((off - 0x2000) / 0x80) val v,
  write_context-IsValid p ((off - 0x20_0000) / 0x1000) ((off - 0x20_0000) % 0x1000) val v,
)
