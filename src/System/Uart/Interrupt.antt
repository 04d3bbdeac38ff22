-- ===== src/System/Uart/Interrupt.antt =====
-- The interrupt line of the serial port and its identification register:
-- crates/rv64-system/src/virt.rs, `Uart::irq` and register 2 of `Uart::read`.
use lish.Prelude.{ℕ, ◌≡◌, ◌≢◌, ◌↔◌, true, false, arith, bit_and, ◌==◌}
use lish.System.Uart.{Uart, dlab, read, read_iir, write, write_thr, write_ier, irq}

-- The identification register reads 0xc1, no interrupt, exactly when the line is low.
pub iir-irq : (u : Uart) → ((read u 2).0 ≡ 0xc1) ↔ (irq u ≡ false)
unfolding read read_iir irq
iir-irq u = ground arith

-- Reading the identification register takes the line down, unless it reads 0xc4: then a received
-- byte holds the line up until it is read.
pub iir_acknowledges : (u : Uart) → irq (read u 2).1 ≡ ((read u 2).0 == 0xc4)
unfolding read read_iir irq
iir_acknowledges u = ground arith

-- With the THR-empty interrupt enabled, each transmitted byte raises the line again.
pub write_thr_raises :
    (u : Uart) (val : ℕ) → dlab u ≡ false → bit_and u.ier 2 ≢ 0 → irq (write u 0 val) ≡ true
unfolding write write_thr irq
write_thr_raises u val d e = ground arith

-- Once a THR-empty interrupt is pending, the line stays up after a write of any value to IER, one
-- that disables that interrupt included.
pub irq_stays_after_disable : (u : Uart) (val : ℕ) → u.thre_ip ≡ true → irq (write u 1 val) ≡ true
unfolding write write_ier irq
irq_stays_after_disable u val h = ground arith
