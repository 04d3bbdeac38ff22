-- ===== src/System/VirtBus.antt =====
-- The platform's bus, `VirtBus` of crates/rv64-system/src/virt.rs: the memory map over RAM, the
-- timer and the devices, and the interrupt lines. The virtio devices are a parameter: a type with
-- the operations that the bus calls. `host_base` is the address of the RAM's allocation.
mod Tests
pub mod Ram
pub mod Marked
pub mod Lines
use lish.Prelude.{
  ℕ, zero, suc, ◌+◌, ◌-◌, ◌*◌, ◌/◌, ◌%◌, ◌^◌, Bool, true, false, not, ◌&&◌, ◌||◌, List, [], ◌∷◌,
  length, get_elem?, set, Option, none, some, ltb, leb, ◌==◌, ◌!=◌, if◌then◌else◌, bit_and, bit_or,
  shl,
}
use lish.Prelude.Int.{ℤ, sub_ℕ, pos_part, neg_part}
use lish.Prelude.Signed.{signed_of}
use lish.Prelude.Memory.{read_at, write_at, to_le_bytes, from_le_bytes}
use lish.Core.Csr.Bits.{irq_mtip, irq_msip, irq_meip, irq_seip}
use lish.Core.Exception.{Exception, Result, ok, err, load_access_fault, store_access_fault}
use lish.Core.Bus.{Bus}
use lish.System.Ram.{checked_ram_range}
use lish.System.JitPages
use lish.System.JitPages.{JitPageState, ram_base}
use lish.System.Plic
use lish.System.Plic.{Plic, pending_ctx}
use lish.System.Uart
use lish.System.Uart.{Uart}
use lish.System.Rtc
use lish.System.Rtc.{GoldfishRtc}

abbrev pub test_base : ℕ
test_base = 0x0010_0000

abbrev pub clint_base : ℕ
clint_base = 0x0200_0000

abbrev pub clint_size : ℕ
clint_size = 0x1_0000

abbrev pub plic_base : ℕ
plic_base = 0x0c00_0000

abbrev pub plic_size : ℕ
plic_size = 0x0400_0000

abbrev pub uart_base : ℕ
uart_base = 0x1000_0000

abbrev pub uart_size : ℕ
uart_size = 0x100

abbrev pub goldfish_rtc_base : ℕ
goldfish_rtc_base = 0x0010_1000

abbrev pub goldfish_rtc_size : ℕ
goldfish_rtc_size = 0x1000

abbrev pub virtio_base : ℕ
virtio_base = 0x1000_1000

abbrev pub virtio_size : ℕ
virtio_size = 0x1000

abbrev pub virtio_count : ℕ
virtio_count = 8

abbrev pub uart_irq : ℕ
uart_irq = 10

abbrev pub goldfish_rtc_irq : ℕ
goldfish_rtc_irq = 11

abbrev pub virtio_irq_base : ℕ
virtio_irq_base = 1

-- What the bus calls of a virtio device: `process` serves a queue from RAM, and marks what it
-- writes.
pub record VirtioOps (D : Type 0) : Type 0 where
  pub irq_pending : D → Bool
  pub read_sized : D → ℕ → ℕ → ℕ × D
  pub write : D → ℕ → ℕ → Option ℕ × D
  pub process : D → ℕ → List ℕ → ℕ → JitPageState → D × List ℕ × JitPageState

pub record VirtBus (D : Type 0) : Type 0 where
  pub ram : List ℕ
  pub mtime : ℕ
  pub mtimecmp : ℕ
  pub msip : Bool
  pub rtc : GoldfishRtc
  pub plic : Plic
  pub uart : Uart
  pub virtio : List D
  pub power_off : Bool
  pub direct_sbi : Bool
  pub jit : JitPageState

-- `(base..base + size).contains(&addr)`.
abbrev pub in_region : ℕ → ℕ → ℕ → Bool
in_region base size addr = leb base addr && ltb addr (base + size)

abbrev pub line : Bool → ℕ → ℕ
line raised irq = if raised then 2 ^ irq else 0

abbrev pub le_word : List ℕ → ℕ → ℕ → ℕ
le_word ram off n = from_le_bytes (read_at off n ram)

module _ {D : Type 0} (ops : VirtioOps D) where
  -- The lines of the virtio devices from number irq on.
  unfoldable pub virtio_lines : List D → ℕ → ℕ
  virtio_lines [] irq = 0
  virtio_lines (d ∷ rest) irq = bit_or (line (ops.irq_pending d) irq) (virtio_lines rest (suc irq))

  unfoldable pub device_lines : VirtBus D → ℕ
  device_lines b =
      bit_or (bit_or (line (Uart.irq b.uart) uart_irq) (line (Rtc.irq b.rtc) goldfish_rtc_irq))
        (virtio_lines b.virtio virtio_irq_base)

  unfoldable pub refresh_plic : VirtBus D → VirtBus D
  refresh_plic b = record b { plic = record b.plic { pending = device_lines b } }

  unfoldable pub read_clint : VirtBus D → ℕ → ℕ
  read_clint b off =
      if off == 0
      then (if b.msip then 1 else 0)
      else if off == 0x4000
      then b.mtimecmp
      else if off == 0xbff8
      then b.mtime
      else 0

  unfoldable pub read_virtio : VirtBus D → ℕ → ℕ → Option ℕ × VirtBus D
  read_virtio b off size =
      let i = off / virtio_size in
      elim (get_elem? b.virtio i) [
        | none ↦ (none, b)
        | some d ↦
            let (v, d') = ops.read_sized d (off % virtio_size) size in
            (some v, record b { virtio = set b.virtio i d' })
      ]

  unfoldable pub mmio_read : VirtBus D → ℕ → ℕ → Option ℕ × VirtBus D
  mmio_read b addr size =
      if in_region test_base 0x1000 addr
      then (some 0, b)
      else if in_region clint_base clint_size addr
      then (some (read_clint b (addr - clint_base)), b)
      else if in_region plic_base plic_size addr
      then (let (v, p) = Plic.read b.plic (addr - plic_base) in (some v, record b { plic = p }))
      else if in_region uart_base uart_size addr
      then (let (v, u) = Uart.read b.uart (addr - uart_base) in (some v, record b { uart = u }))
      else if in_region goldfish_rtc_base goldfish_rtc_size addr
      then (let (v, r) = Rtc.read b.rtc (addr - goldfish_rtc_base) in
          (some v, record b { rtc = r }))
      else if in_region virtio_base (virtio_count * virtio_size) addr
      then read_virtio b (addr - virtio_base) size
      else (none, b)

  -- The test device: power off and reboot.
  unfoldable pub write_test : VirtBus D → ℕ → VirtBus D
  write_test b val =
      let v = bit_and (val % 2 ^ 32) 0xffff in
      if v == 0x5555 || (v == 0x7777 || v == 0x3333) then record b { power_off = true } else b

  unfoldable pub write_clint : VirtBus D → ℕ → ℕ → VirtBus D
  write_clint b off val =
      if off == 0
      then record b { msip = bit_and val 1 != 0 }
      else if off == 0x4000
      then record b { mtimecmp = val }
      else b

  -- A write that notifies a queue has it served.
  unfoldable pub write_virtio : VirtBus D → ℕ → ℕ → VirtBus D
  write_virtio b off val =
      let i = off / virtio_size in
      elim (get_elem? b.virtio i) [
        | none ↦ b
        | some d ↦
            let (notified, d') = ops.write d (off % virtio_size) (val % 2 ^ 32) in
            elim notified [
              | none ↦ record b { virtio = set b.virtio i d' }
              | some q ↦
                  let (served, ram, jit) = ops.process d' q b.ram ram_base b.jit in
                  record b { virtio = set b.virtio i served; ram = ram; jit = jit }
            ]
      ]

  unfoldable pub mmio_write : VirtBus D → ℕ → ℕ → Bool × VirtBus D
  mmio_write b addr val =
      if in_region test_base 0x1000 addr
      then (true, write_test b val)
      else if in_region clint_base clint_size addr
      then (true, write_clint b (addr - clint_base) val)
      else if in_region plic_base plic_size addr
      then (true, record b { plic = Plic.write b.plic (addr - plic_base) (val % 2 ^ 32) })
      else if in_region uart_base uart_size addr
      then (true, record b { uart = Uart.write b.uart (addr - uart_base) (val % 2 ^ 8) })
      else if in_region goldfish_rtc_base goldfish_rtc_size addr
      then (true, record b { rtc = Rtc.write b.rtc (addr - goldfish_rtc_base) (val % 2 ^ 32) })
      else if in_region virtio_base (virtio_count * virtio_size) addr
      then (true, write_virtio b (addr - virtio_base) val)
      else (false, b)

  -- Both queues of one device, and then of every device.
  unfoldable pub poll_device : D → List ℕ → JitPageState → D × List ℕ × JitPageState
  poll_device d ram jit =
      let (d', ram', jit') = ops.process d 0 ram ram_base jit in ops.process d' 1 ram' ram_base jit'

  unfoldable pub poll_devices : List D → List ℕ → JitPageState → List D × List ℕ × JitPageState
  poll_devices [] ram jit = ([], ram, jit)
  poll_devices (d ∷ rest) ram jit =
      let (d', ram', jit') = poll_device d ram jit in
      let (rest', ram'', jit'') = poll_devices rest ram' jit' in (d' ∷ rest', ram'', jit'')

  unfoldable pub poll_virtio : VirtBus D → VirtBus D
  poll_virtio b =
      let (devices, ram, jit) = poll_devices b.virtio b.ram b.jit in
      record b { virtio = devices; ram = ram; jit = jit }

  -- `virt_rw!`: RAM first, then the devices.
  unfoldable pub read : ℕ → VirtBus D → ℕ → Result ℕ × VirtBus D
  read n b addr = elim (checked_ram_range (length b.ram) ram_base addr n) [
    | some range ↦ (ok (le_word b.ram range.0 n), b)
    | none ↦
        let (v, b') = mmio_read b addr n in
        elim v [ some v ↦ (ok (v % 2 ^ (8 * n)), b') | none ↦ (err (load_access_fault addr), b') ]
  ]

  unfoldable pub write : ℕ → VirtBus D → ℕ → ℕ → Result (Unit {0}) × VirtBus D
  write n before addr val =
      let b = record before { jit = JitPages.note_store before.jit addr } in
      elim (checked_ram_range (length b.ram) ram_base addr n) [
        | some range ↦ (ok tt, record b { ram = write_at range.0 (to_le_bytes n val) b.ram })
        | none ↦
            let (done, b') = mmio_write b addr val in
            (if done then ok tt else err (store_access_fault addr), b')
      ]

  unfoldable pub fetch32_if_safe : VirtBus D → ℕ → Option ℕ
  fetch32_if_safe b addr = elim (checked_ram_range (length b.ram) ram_base addr 4) [
    | none ↦ none
    | some range ↦ some (le_word b.ram range.0 4)
  ]

  unfoldable pub irq_lines : VirtBus D → ℕ × VirtBus D
  irq_lines before =
      let b = refresh_plic before in
      (
        bit_or
            (bit_or
              (bit_or (if not b.direct_sbi && leb b.mtimecmp b.mtime then irq_mtip else 0)
                (if b.msip then irq_msip else 0))
              (if pending_ctx b.plic 0 then irq_meip else 0))
            (if pending_ctx b.plic 1 then irq_seip else 0),
        b,
      )

  -- The distance from a guest address to its host address, for a page that lies in RAM and, for a
  -- store, holds no compiled code.
  unfoldable pub jit_fast_off : ℕ → VirtBus D → ℕ → ℕ → Bool → Option ℤ
  jit_fast_off host_base b va pa for_store =
      if ltb pa ram_base || leb (ram_base + length b.ram) (bit_or pa 0xfff)
      then none
      else if for_store && JitPages.address_marked b.jit pa
      then none
      else let v = signed_of 64 va in
        some (sub_ℕ (host_base + (pa - ram_base) + neg_part v) (pos_part v))

  unfoldable pub virt_bus : ℕ → Bus (VirtBus D)
  virt_bus host_base = record {
    read = read;
    write = write;
    fetch32_if_safe = fetch32_if_safe;
    irq_lines = irq_lines;
    jit_fast_off = jit_fast_off host_base;
  }
