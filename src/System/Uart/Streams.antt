-- ===== src/System/Uart/Streams.antt =====
-- The two byte streams of the serial port: crates/rv64-system/src/virt.rs, `Uart::read`,
-- `Uart::write`, `VirtBus::uart_input` and `VirtBus::uart_take`.
use mathlib.Core.List.{append_assoc, append-nil}
use lish.Prelude.{
  ℕ, zero, suc, ◌+◌, ◌≡◌, refl, false, List, [], ◌∷◌, ◌++◌, arith, length, length-append,
}
use lish.System.Uart.{Uart, dlab, read, read_rbr, write, write_thr, uart_take, uart_input}

-- A driver that reads the receive register n times.
unfoldable pub read_bytes : ℕ → Uart → List ℕ × Uart
read_bytes zero u = ([], u)
read_bytes (suc n) u = let (b, u') = read u 0 in let (bs, u'') = read_bytes n u' in (b ∷ bs, u'')

-- A driver that writes bytes to the transmit register.
unfoldable pub write_bytes : Uart → List ℕ → Uart
write_bytes u [] = u
write_bytes u (b ∷ bs) = write_bytes (write u 0 b) bs

read_bytes-rx :
    (bs : List ℕ) (u : Uart)
    → dlab u ≡ false
    → u.rx ≡ bs
    → ((read_bytes (length bs) u).0 ≡ bs) × ((read_bytes (length bs) u).1.rx ≡ [])
unfolding read_bytes read read_rbr dlab
read_bytes-rx [] u d e = (refl, e)
read_bytes-rx (b ∷ bs) u d e = ground (arith, read_bytes-rx bs (record u { rx = bs }))

-- With the divisor latches closed, the guest reads what was queued before and then what the host
-- feeds, each byte once and in order, and the queue is then empty.
read_bytes-uart_input :
    (u : Uart) (bytes : List ℕ)
    → dlab u ≡ false
    → let (got, u') = read_bytes (length u.rx + length bytes) (uart_input u bytes) in
      (got ≡ u.rx ++ bytes) × (u'.rx ≡ [])
unfolding uart_input dlab
read_bytes-uart_input u bytes d =
    rw (← length-append u.rx bytes) (read_bytes-rx (u.rx ++ bytes) (uart_input u bytes) d refl)

write_bytes-tx :
    (u : Uart) (bytes : List ℕ) → dlab u ≡ false → (write_bytes u bytes).tx_out ≡ u.tx_out ++ bytes
unfolding write_bytes write write_thr dlab
write_bytes-tx u [] d = rw append-nil
write_bytes-tx u (b ∷ bs) d =
    ground (arith, write_bytes-tx (write u 0 b) bs, append_assoc u.tx_out (b ∷ []) bs)

-- With the divisor latches closed, the host takes what was transmitted before and then what the
-- guest writes, in order, and nothing is left to take.
pub uart_take-write_bytes :
    (u : Uart) (bytes : List ℕ)
    → dlab u ≡ false
    → let (out, u') = uart_take (write_bytes u bytes) in
      (out ≡ u.tx_out ++ bytes) × (u'.tx_out ≡ [])
unfolding uart_take
uart_take-write_bytes u bytes d = (write_bytes-tx u bytes d, refl)
