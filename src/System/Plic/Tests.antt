-- ===== src/System/Plic/Tests.antt =====
-- Runs of the interrupt controller of crates/rv64-system/src/virt.rs.
use lish.Prelude.{
  ℕ, zero, suc, ◌≡◌, ◌≢◌, ◌<◌, refl, arith, bit, ◌==◌, if◌then◌else◌, set, get_or, replicate,
}
use lish.System.Plic.{Plic, new, best, eligible, read, write, claim, read_context, best_loop}
use lish.System.Plic.Best.{Wins, best-Wins}
use lish.System.Plic.Service.{IsValid, claim_register, claim_exclusive, write-IsValid}

-- Sources 3 and 5 are pending with priority 2, and context 1 has them enabled.
abbrev two_pending : Plic
unfolding new
two_pending = record new {
  priority = set (set new.priority 3 2) 5 2;
  pending = 0x28;
  enable = set new.enable 1 0x28;
}

source_zero : (ctx : ℕ) → bit 0 (get_or two_pending.enable ctx 0) ≡ 0
unfolding bit new
source_zero zero = refl
source_zero (suc zero) = refl
source_zero (suc (suc ctx)) = refl

two_pending-IsValid : IsValid two_pending
unfolding new
two_pending-IsValid = record {
  sources = refl;
  contexts = (refl, refl);
  pending_fits = omega arith;
  claimed_fits = omega arith;
  no_source_zero = source_zero;
}

best_runs : best two_pending 1 ≡ 5
unfolding best best_loop eligible new lish.Prelude.Bits.Lowest.trailing_zeros
best_runs = refl

best-Wins_example :
    Wins
      (eligible two_pending 1)
      two_pending.priority
      (get_or two_pending.threshold 1 0)
      32
      (best two_pending 1)
unfolding eligible new
best-Wins_example = best-Wins two_pending 1 (omega arith)

-- Context 1 claims source 5.
claims_five : (read two_pending (claim_register 1)).0 ≡ 5
unfolding read read_context claim best best_loop eligible new
    lish.Prelude.Bits.Lowest.trailing_zeros
claims_five = refl

claims_some : (read two_pending (claim_register 1)).0 ≢ 0
claims_some e = omega (arith, claims_five, e)

claim_exclusive_example :
    let (id, q) = read two_pending (claim_register 1) in
    bit 3 (eligible q 0) ≡ (if 3 == id then 0 else bit 3 (eligible two_pending 0))
claim_exclusive_example =
    claim_exclusive two_pending 1 0 3 two_pending-IsValid (omega arith) claims_some (omega arith)

write-IsValid_example : IsValid (write two_pending 0x2080 0xffff_ffff)
write-IsValid_example = write-IsValid two_pending 0x2080 0xffff_ffff two_pending-IsValid
