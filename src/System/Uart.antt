-- ===== src/System/Uart.antt =====
-- The serial port, `struct Uart` of crates/rv64-system/src/virt.rs, with the two host methods of
-- `VirtBus` that reach it. A byte is a number below 256; `rx` is oldest first, and `tx_out` is in
-- the order of transmission.
pub mod Interrupt
pub mod Streams
mod Tests
use lish.Prelude.{
  ℕ, ◌%◌, Bool, true, false, ◌&&◌, ◌||◌, not, List, [], ◌∷◌, ◌++◌, ◌==◌, ◌!=◌, if◌then◌else◌,
  bit_and, bit_or,
}

pub record Uart : Type 0 where
  pub ier : ℕ
  pub lcr : ℕ
  pub mcr : ℕ
  pub scr : ℕ
  pub rx : List ℕ
  pub tx_out : List ℕ
  pub thre_ip : Bool

unfoldable pub new : Uart
new = record { ier = 0; lcr = 0; mcr = 0; scr = 0; rx = []; tx_out = []; thre_ip = false }

abbrev pub is_empty : List ℕ → Bool
is_empty [] = true
is_empty (x ∷ xs) = false

-- LCR bit 7 selects the divisor latches.
unfoldable pub dlab : Uart → Bool
dlab u = bit_and u.lcr 0x80 != 0

-- `rx.pop_front().unwrap_or(0)`.
unfoldable pub pop_front : List ℕ → ℕ × List ℕ
pop_front [] = (0, [])
pop_front (b ∷ rest) = (b, rest)

unfoldable pub read_rbr : Uart → ℕ × Uart
unfolding pop_front
read_rbr u = let (b, rest) = pop_front u.rx in (b, record u { rx = rest })

-- The interrupt identification register. Reading it acknowledges a THR-empty interrupt.
unfoldable pub read_iir : Uart → ℕ × Uart
read_iir u =
    if bit_and u.ier 1 != 0 && not (is_empty u.rx)
    then (0xc4, u)
    else if u.thre_ip
    then (0xc2, record u { thre_ip = false })
    else (0xc1, u)

unfoldable pub read : Uart → ℕ → ℕ × Uart
read u off =
    if off == 0
    then (if dlab u then (0, u) else read_rbr u)
    else if off == 1
    then (if dlab u then 0 else u.ier, u)
    else if off == 2
    then read_iir u
    else if off == 3
    then (u.lcr, u)
    else if off == 4
    then (u.mcr, u)
    else if off == 5
    then (if is_empty u.rx then 0x60 else bit_or 0x60 0x01, u)
    else if off == 6
    then (0xb0, u)
    else if off == 7
    then (u.scr, u)
    else (0, u)

unfoldable pub write_thr : Uart → ℕ → Uart
write_thr u val = record u {
  tx_out = u.tx_out ++ (val ∷ []);
  thre_ip = if bit_and u.ier 2 != 0 then true else u.thre_ip;
}

unfoldable pub write_ier : Uart → ℕ → Uart
write_ier u val = record u {
  ier = val;
  thre_ip = if bit_and val 2 != 0 && bit_and u.ier 2 == 0 then true else u.thre_ip;
}

unfoldable pub write : Uart → ℕ → ℕ → Uart
write u off val =
    if off == 0 && not (dlab u)
    then write_thr u val
    else if off == 1 && not (dlab u)
    then write_ier u val
    else if off == 3
    then record u { lcr = val }
    else if off == 4
    then record u { mcr = val }
    else if off == 7
    then record u { scr = val }
    else u

unfoldable pub irq : Uart → Bool
irq u = bit_and u.ier 1 != 0 && not (is_empty u.rx) || u.thre_ip

-- `VirtBus::uart_take` and `VirtBus::uart_input`.
unfoldable pub uart_take : Uart → List ℕ × Uart
uart_take u = (u.tx_out, record u { tx_out = [] })

unfoldable pub uart_input : Uart → List ℕ → Uart
uart_input u bytes = record u { rx = u.rx ++ bytes }
