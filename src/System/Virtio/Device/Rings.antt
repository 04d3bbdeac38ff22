-- ===== src/System/Virtio/Device/Rings.antt =====
-- The driver's addresses of the rings: `write` of crates/rv64-system/src/virtio.rs.
use lish.Prelude.{
  ℕ, ◌+◌, ◌-◌, ◌*◌, ◌/◌, ◌%◌, ◌^◌, ◌<◌, ◌≡◌, ap, ◌∙◌, arith, length, get_or-set, length-set,
  bit_and, bit_or, not64, shl,
}
use lish.Prelude.Bits.Fields.{and_mask, and_high, or_fields}
use lish.Prelude.Bits.{or_comm}
use lish.System.Virtio.Memory.{set_lo, set_hi}
use lish.System.Virtio.Device.{VirtioDev, Queue, no_queue, selected, set_selected, write_register}

set_lo_lem : (v lo : ℕ) → lo < 2 ^ 32 → set_lo v lo ≡ v / 2 ^ 32 % 2 ^ 32 * 2 ^ 32 + lo
unfolding set_lo
set_lo_lem v lo small =
    let top : bit_and v (not64 0xffff_ffff) ≡ v / 2 ^ 32 % 2 ^ 32 * 2 ^ 32 =
      and_high 32 v (2 ^ 32 - 1) ∙ ap (λ t. t * 2 ^ 32) (and_mask 32 (v / 2 ^ 32)) in
    ap (λ t. bit_or t lo) top
    ∙ or_comm (v / 2 ^ 32 % 2 ^ 32 * 2 ^ 32) lo
    ∙ or_fields 32 (v / 2 ^ 32 % 2 ^ 32) lo small
    ∙ omega arith

set_hi_lem : (v hi : ℕ) → hi < 2 ^ 32 → set_hi v hi ≡ hi * 2 ^ 32 + v % 2 ^ 32
unfolding set_hi
set_hi_lem v hi small =
    ap (λ t. bit_or t (shl hi 32)) (and_mask 32 v)
    ∙ or_fields 32 hi (v % 2 ^ 32) (omega arith)
    ∙ omega arith

selected-set_selected :
    (d : VirtioDev) (q : Queue) → d.queue_sel < length d.queues → selected (set_selected d q) ≡ q
unfolding selected set_selected
selected-set_selected d q there =
    ground (arith, get_or-set d.queues d.queue_sel d.queue_sel q no_queue, there)

both_halves : (v lo hi : ℕ) → lo < 2 ^ 32 → hi < 2 ^ 32 → set_hi (set_lo v lo) hi ≡ hi * 2 ^ 32 + lo
both_halves v lo hi l h = omega (arith, set_hi_lem (set_lo v lo) hi h, set_lo_lem v lo l)

two_writes :
    (d : VirtioDev) (f g : Queue → Queue)
    → d.queue_sel < length d.queues
    → let d1 = set_selected d (f (selected d)) in
      selected (set_selected d1 (g (selected d1))) ≡ g (f (selected d))
unfolding set_selected
two_writes d f g there =
    let d1 = set_selected d (f (selected d)) in
    selected-set_selected d1 (g (selected d1))
      (omega (arith, there, length-set d.queues d.queue_sel (f (selected d))))
    ∙ ap g (selected-set_selected d (f (selected d)) there)

-- A driver that writes the low and then the high half of an address to the registers of a ring sets
-- that address in the selected queue, if there is one, whatever was there before: for the
-- descriptors, the available ring and the used ring.
ring_addresses :
    (d : VirtioDev) (lo hi : ℕ)
    → d.queue_sel < length d.queues
    → lo < 2 ^ 32
    → hi < 2 ^ 32
    → let address = hi * 2 ^ 32 + lo in
      ((selected (write_register (write_register d 0x080 lo) 0x084 hi)).desc ≡ address)
      × ((selected (write_register (write_register d 0x090 lo) 0x094 hi)).avail ≡ address)
      × ((selected (write_register (write_register d 0x0a0 lo) 0x0a4 hi)).used ≡ address)
unfolding write_register
ring_addresses d lo hi there l h =
    let q = selected d in
    (
      ap (λ (t : Queue). t.desc)
            (two_writes d (λ q. record q { desc = set_lo q.desc lo })
              (λ q. record q { desc = set_hi q.desc hi }) there)
          ∙ both_halves q.desc lo hi l h,
      ap (λ (t : Queue). t.avail)
            (two_writes d (λ q. record q { avail = set_lo q.avail lo })
              (λ q. record q { avail = set_hi q.avail hi }) there)
          ∙ both_halves q.avail lo hi l h,
      ap (λ (t : Queue). t.used)
            (two_writes d (λ q. record q { used = set_lo q.used lo })
              (λ q. record q { used = set_hi q.used hi }) there)
          ∙ both_halves q.used lo hi l h,
    )
