-- ===== src/Core/Trap/Digits.antt =====
-- The digits of mstatus after a trap and after a return: crates/rv64-core/src/cpu.rs.
use lish.Prelude.{
  ℕ, ◌+◌, ◌*◌, ◌^◌, ◌<◌, ◌≡◌, ◌∙◌, arith, bit, bit_and, bit_or, ◌==◌, ◌!=◌, ◌&&◌, not,
  if◌then◌else◌, shr, shl, not64,
}
use lish.Prelude.Bits.{bit-or, bit-lt, bit-zero, bit-pow}
use lish.Prelude.Bits.Shift.{bit-place, bit-clear, bit-mask_3, bit-mask_4}
use lish.Prelude.Bits.Fields.{and_high, and_mask}
use lish.Core.Csr.{Mode, user, supervisor, machine, mode_bits, is_supervisor, is_machine, from_bits}
use lish.Core.Csr.Bits.{mstatus_mpp}
use lish.Core.Trap.{mstatus_to_s, mstatus_to_m, mstatus_mret, mstatus_sret}

-- mstatus after a delegated trap: SPIE holds the old SIE, SIE is clear, SPP says whether the hart
-- was in S-mode, and every other digit is kept.
pub mstatus_to_s-digits :
    (m : ℕ) (prev : Mode) (k : ℕ)
    → k < 64
    → bit k (mstatus_to_s m prev) ≡ (
        if k == 5
        then bit 1 m
        else if k == 1
        then 0
        else if k == 8
        then (if is_supervisor prev then 1 else 0)
        else bit k m)
unfolding mstatus_to_s
mstatus_to_s-digits m prev k lt =
    let mask = bit_or (bit_or (2 ^ 5) (2 ^ 8)) (2 ^ 1) in
    let spp = if is_supervisor prev then 2 ^ 8 else 0 in
    ground (
      arith,
      bit-or k (bit_or (bit_and m (not64 mask)) (shl (bit_and (shr m 1) 1) 5)) spp,
      bit-or k (bit_and m (not64 mask)) (shl (bit_and (shr m 1) 1) 5),
      bit-clear m mask k (omega arith) lt,
      bit-mask_3 5 8 1 k,
      bit-place 1 5 k m,
      bit-pow 8 k,
      bit-zero k,
      bit-lt k m,
      bit-lt 1 m,
    )

bit-mode :
    (prev : Mode) (k : ℕ)
    → bit k (shl (mode_bits prev) 11)
      ≡ (if k == 11 then bit 0 (mode_bits prev) else if k == 12 then bit 1 (mode_bits prev) else 0)
unfolding mode_bits bit
bit-mode user k = bit-zero k ∙ ground arith
bit-mode supervisor k = bit-pow 11 k ∙ ground arith
bit-mode machine k = bit-or k (2 ^ 11) (2 ^ 12) ∙ ground (arith, bit-pow 11 k, bit-pow 12 k)

-- mstatus after a trap to M-mode: MPIE holds the old MIE, MIE is clear, MPP holds the old mode, and
-- every other digit is kept.
pub mstatus_to_m-digits :
    (m : ℕ) (prev : Mode) (k : ℕ)
    → k < 64
    → bit k (mstatus_to_m m prev) ≡ (
        if k == 7
        then bit 3 m
        else if k == 3
        then 0
        else if k == 11
        then bit 0 (mode_bits prev)
        else if k == 12
        then bit 1 (mode_bits prev)
        else bit k m)
unfolding mstatus_to_m
mstatus_to_m-digits m prev k lt =
    let mask = bit_or (bit_or (bit_or (2 ^ 7) (2 ^ 11)) (2 ^ 12)) (2 ^ 3) in
    ground (
      arith,
      bit-or k (bit_or (bit_and m (not64 mask)) (shl (bit_and (shr m 3) 1) 7))
          (shl (mode_bits prev) 11),
      bit-or k (bit_and m (not64 mask)) (shl (bit_and (shr m 3) 1) 7),
      bit-clear m mask k (omega arith) lt,
      bit-mask_4 7 11 12 3 k,
      bit-place 3 7 k m,
      bit-mode prev k,
      bit-lt k m,
      bit-lt 3 m,
    )

-- mstatus after MRET to mode `mpp`: MIE holds the old MPIE, MPIE is set, MPP is clear, MPRV is
-- clear unless the hart stays in M-mode, and every other digit is kept.
pub mstatus_mret-digits :
    (m : ℕ) (mpp : Mode) (k : ℕ)
    → k < 64
    → bit k (mstatus_mret m mpp) ≡ (
        if k == 3
        then bit 7 m
        else if k == 7
        then 1
        else if k == 11
        then 0
        else if k == 12
        then 0
        else if k == 17 && not (is_machine mpp)
        then 0
        else bit k m)
unfolding mstatus_mret
mstatus_mret-digits m mpp k lt =
    let mask = bit_or (bit_or (bit_or (2 ^ 3) (2 ^ 7)) (2 ^ 11)) (2 ^ 12) in
    let kept = bit_or (bit_and m (not64 mask)) (shl (bit_and (shr m 7) 1) 3) in
    ground (
      arith,
      bit-clear (bit_or kept (2 ^ 7)) (2 ^ 17) k (omega arith) lt,
      bit-or k kept (2 ^ 7),
      bit-or k (bit_and m (not64 mask)) (shl (bit_and (shr m 7) 1) 3),
      bit-clear m mask k (omega arith) lt,
      bit-mask_4 3 7 11 12 k,
      bit-place 7 3 k m,
      bit-pow 7 k,
      bit-pow 17 k,
      bit-lt k m,
      bit-lt 7 m,
    )

-- mstatus after SRET to mode `spp`: SIE holds the old SPIE, SPIE is set, SPP is clear, MPRV is
-- clear unless `spp` is M-mode, and every other digit is kept.
pub mstatus_sret-digits :
    (m : ℕ) (spp : Mode) (k : ℕ)
    → k < 64
    → bit k (mstatus_sret m spp) ≡ (
        if k == 1
        then bit 5 m
        else if k == 5
        then 1
        else if k == 8
        then 0
        else if k == 17 && not (is_machine spp)
        then 0
        else bit k m)
unfolding mstatus_sret
mstatus_sret-digits m spp k lt =
    let mask = bit_or (bit_or (2 ^ 1) (2 ^ 5)) (2 ^ 8) in
    let kept = bit_or (bit_and m (not64 mask)) (shl (bit_and (shr m 5) 1) 1) in
    ground (
      arith,
      bit-clear (bit_or kept (2 ^ 5)) (2 ^ 17) k (omega arith) lt,
      bit-or k kept (2 ^ 5),
      bit-or k (bit_and m (not64 mask)) (shl (bit_and (shr m 5) 1) 1),
      bit-clear m mask k (omega arith) lt,
      bit-mask_3 1 5 8 k,
      bit-place 5 1 k m,
      bit-pow 5 k,
      bit-pow 17 k,
      bit-lt k m,
      bit-lt 5 m,
    )

-- The mode that MPP names.
pub mpp_field : (m : ℕ) → bit_and (shr (bit_and m mstatus_mpp) 11) 3 ≡ bit 11 m + 2 * bit 12 m
unfolding bit
mpp_field m =
    omega
      (arith, and_high 11 m 3, and_mask 2 (shr m 11), and_mask 2 (shr (bit_and m mstatus_mpp) 11))

pub spp_test : (m : ℕ) → (bit_and m (2 ^ 8) != 0) ≡ (bit 8 m == 1)
unfolding bit
spp_test m = ground (arith, and_high 8 m 1, and_mask 1 (shr m 8))

pub from_bits-of_mode :
    (m : ℕ) (mode : Mode)
    → bit 11 m ≡ bit 0 (mode_bits mode)
    → bit 12 m ≡ bit 1 (mode_bits mode)
    → from_bits (shr (bit_and m mstatus_mpp) 11) ≡ mode
unfolding from_bits mode_bits bit
from_bits-of_mode m user e f = ground (arith, mpp_field m)
from_bits-of_mode m supervisor e f = ground (arith, mpp_field m)
from_bits-of_mode m machine e f = ground (arith, mpp_field m)
