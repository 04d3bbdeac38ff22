-- ===== src/System/Uart/Tests.antt =====
-- Runs of the serial port of crates/rv64-system/src/virt.rs.
use lish.Prelude.{ℕ, ◌≡◌, refl, true, false, List, [], ◌∷◌}
use lish.System.Uart.{Uart, new, write, irq, dlab}
use lish.System.Uart.Interrupt.{irq_stays_after_disable}

-- One byte is received and one transmitted, and both interrupts are enabled and due.
abbrev busy : Uart
unfolding new
busy = record new { ier = 3; rx = 65 ∷ []; tx_out = 66 ∷ []; thre_ip = true }

abbrev fed : List ℕ
fed = 67 ∷ 68 ∷ []

open_latch : dlab busy ≡ false
unfolding dlab new
open_latch = refl

irq_stays_after_disable_example : irq (write busy 1 0) ≡ true
unfolding new
irq_stays_after_disable_example = irq_stays_after_disable busy 0 refl
