-- ===== src/System/VirtBus/Lines.antt =====
-- From a device to the hart: crates/rv64-system/src/virt.rs, `refresh_plic` and `irq_lines`.
use lish.Prelude.{
  ℕ, suc, ◌-◌, ◌^◌, ◌<◌, ◌≡◌, ap, inl, inr, arith, Bool, true, false, Bool-cases, List, [], ◌∷◌,
  min, get_or, bit, bit_and, bit_or, not32, ◌!=◌,
}
use lish.Prelude.Bits.{bit_ext, bit-and, bit-or, bit-pow, bit-zero, bit-complement, bit-lt}
use lish.Prelude.Bits.Fields.{and-le}
use lish.Core.Csr.Bits.{irq_seip}
use lish.System.Plic.{Plic, best, eligible, pending_ctx}
use lish.System.Plic.Best.{best-Wins, Wins}
use lish.System.Uart
use lish.System.Rtc
use lish.System.VirtBus.{
  VirtBus, VirtioOps, line, virtio_lines, device_lines, refresh_plic, irq_lines, uart_irq,
  goldfish_rtc_irq, virtio_irq_base,
}

module _ {D : Type 0} (ops : VirtioOps D) where
  line_digit : (raised : Bool) (k irq : ℕ) → k < irq → bit k (line raised irq) ≡ 0
  line_digit true k irq h = ground (arith, bit-pow irq k)
  line_digit false k irq h = bit-zero k

  -- No virtio device has a line below the first.
  virtio_lines_below : (ds : List D) (k irq : ℕ) → k < irq → bit k (virtio_lines ops ds irq) ≡ 0
  unfolding virtio_lines
  virtio_lines_below [] k irq h = bit-zero k
  virtio_lines_below (d ∷ ds) k irq h = omega (
    arith,
    bit-or k (line (ops.irq_pending d) irq) (virtio_lines ops ds (suc irq)),
    line_digit (ops.irq_pending d) k irq h,
    virtio_lines_below ds k (suc irq) (omega arith),
  )

  device_lines_zero : (b : VirtBus D) → bit 0 (device_lines ops b) ≡ 0
  unfolding device_lines
  device_lines_zero b =
      let u = line (Uart.irq b.uart) uart_irq in
      let r = line (Rtc.irq b.rtc) goldfish_rtc_irq in
      omega (
        arith,
        bit-or 0 (bit_or u r) (virtio_lines ops b.virtio virtio_irq_base),
        bit-or 0 u r,
        line_digit (Uart.irq b.uart) 0 uart_irq (omega arith),
        line_digit (Rtc.irq b.rtc) 0 goldfish_rtc_irq (omega arith),
        virtio_lines_below b.virtio 0 virtio_irq_base (omega arith),
      )

  uart_line : (b : VirtBus D) → Uart.irq b.uart ≡ true → bit uart_irq (device_lines ops b) ≡ 1
  unfolding device_lines
  uart_line b e =
      let u = line true uart_irq in
      let r = line (Rtc.irq b.rtc) goldfish_rtc_irq in
      let rest = virtio_lines ops b.virtio virtio_irq_base in
      ground (
        arith,
        bit-or uart_irq (bit_or u r) rest,
        bit-or uart_irq u r,
        bit-pow uart_irq uart_irq,
        bit-lt uart_irq rest,
        bit-lt uart_irq r,
        e,
      )

eligible_digit :
    (p : Plic) (ctx j : ℕ)
    → p.claimed < 2 ^ 32
    → j < 32
    → bit j (eligible p ctx)
      ≡ min (min (bit j p.pending) (bit j (get_or p.enable ctx 0))) (1 - bit j p.claimed)
unfolding eligible
eligible_digit p ctx j small lt = omega (
  arith,
  bit-and j (bit_and p.pending (get_or p.enable ctx 0)) (not32 p.claimed),
  bit-and j p.pending (get_or p.enable ctx 0),
  bit-complement 32 j p.claimed small lt,
)

-- A source that is eligible and passes the threshold is delivered, if source 0 is not eligible.
best_delivers :
    (p : Plic) (ctx j : ℕ)
    → j < 32
    → eligible p ctx < 2 ^ 32
    → bit j (eligible p ctx) ≡ 1
    → bit 0 (eligible p ctx) ≡ 0
    → get_or p.threshold ctx 0 < get_or p.priority j 0
    → pending_ctx p ctx ≡ true
unfolding pending_ctx
best_delivers p ctx j lt small e none_zero passes = delivered (best-Wins p ctx small)
  where
    delivered :
        Wins (eligible p ctx) p.priority (get_or p.threshold ctx 0) 32 (best p ctx)
        → (best p ctx != 0) ≡ true
    delivered (inl (_, none)) = absurd (omega (arith, none j lt e))
    delivered (inr (won, _, _)) = elim (Bool-cases (best p ctx != 0)) [
      | inl some_source ↦ some_source
      | inr no_source ↦
          let z : best p ctx ≡ 0 = ground arith in
          absurd (omega (arith, ap (λ k. bit k (eligible p ctx)) z, won, none_zero))
    ]

and_comm : (a b : ℕ) → bit_and a b ≡ bit_and b a
and_comm a b = bit_ext _ _ λ k. omega (arith, bit-and k a b, bit-and k b a)

eligible-lt : (p : Plic) (ctx : ℕ) → eligible p ctx < 2 ^ 32
unfolding eligible
eligible-lt p ctx =
    let rest = bit_and p.pending (get_or p.enable ctx 0) in
    omega (arith, and_comm rest (not32 p.claimed), and-le (not32 p.claimed) rest)

seip_digit : (rest : ℕ) → bit 9 (bit_or rest irq_seip) ≡ 1
seip_digit rest = ground (arith, bit-or 9 rest irq_seip, bit-pow 9 9, bit-lt 9 rest)

module _ {D : Type 0} (ops : VirtioOps D) where
  seip_raised :
      (b : VirtBus D)
      → pending_ctx (record b.plic { pending = device_lines ops b }) 1 ≡ true
      → bit 9 (irq_lines ops b).0 ≡ 1
  unfolding irq_lines refresh_plic
  seip_raised b e = rw e (seip_digit _)

  -- The serial port's line reaches the hart: with source 10 enabled for the supervisor context, not
  -- in service and of a priority above the threshold, the lines of the bus have the supervisor
  -- external interrupt while the port asserts its line.
  pub uart_interrupts :
      (b : VirtBus D)
      → Uart.irq b.uart ≡ true
      → b.plic.claimed < 2 ^ 32
      → bit uart_irq b.plic.claimed ≡ 0
      → get_or b.plic.enable 1 0 < 2 ^ 32
      → bit uart_irq (get_or b.plic.enable 1 0) ≡ 1
      → get_or b.plic.threshold 1 0 < get_or b.plic.priority uart_irq 0
      → bit 9 (irq_lines ops b).0 ≡ 1
  uart_interrupts b raised small free words enabled passes =
      let p = record b.plic { pending = device_lines ops b } in
      let e = eligible_digit p 1 uart_irq small (omega arith) in
      let z = eligible_digit p 1 0 small (omega arith) in
      seip_raised b (
        best_delivers p 1 uart_irq (omega arith) (eligible-lt p 1)
          (omega (arith, e, uart_line ops b raised, enabled, free))
          (omega (arith, z, device_lines_zero ops b)) passes)
