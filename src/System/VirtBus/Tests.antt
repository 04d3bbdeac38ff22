-- ===== src/System/VirtBus/Tests.antt =====
-- Runs of the platform's bus, crates/rv64-system/src/virt.rs.
use lish.Prelude.{
  ℕ, ◌-◌, ◌≡◌, refl, arith, true, false, [], ◌∷◌, replicate, none, bit, shr, bit_and, not64,
}
use lish.Core.Bus
use lish.Core.Cpu
use lish.Core.Cpu.{Cpu}
use lish.Core.Memory.{fill_jtlb, invalidate_store_jtlb_page}
use lish.Core.Memory.Invalidate.{Gone}
use lish.System.JitPages
use lish.System.JitPages.{
  JitPageState, ram_base, jit_page_shift, is_dirty, address_marked, mark_address,
}
use lish.System.Plic.{Plic}
use lish.System.Uart
use lish.System.Uart.{Uart}
use lish.System.Rtc
use lish.System.VirtBus.{VirtBus, VirtioOps, read, write, virt_bus, irq_lines}
use lish.System.VirtBus.Ram.{flat, ram_refines}
use lish.System.VirtBus.Marked.{marked_store}
use lish.System.VirtBus.Lines.{uart_interrupts}

-- A device that does nothing.
abbrev idle : VirtioOps ℕ
idle = record {
  irq_pending = λ d. false;
  read_sized = λ d off size. (0, d);
  write = λ d off v. (none, d);
  process = λ d q ram base jit. (d, ram, jit);
}

-- The controller with source 10 enabled for the supervisor context.
abbrev plic : Plic
plic = record {
  priority = replicate 32 1;
  pending = 0;
  enable = 0 ∷ 1024 ∷ [];
  threshold = 0 ∷ 0 ∷ [];
  claimed = 0;
}

-- A port that holds a byte and has its receive interrupt on.
abbrev uart : Uart
uart = record { ier = 1; lcr = 0; mcr = 0; scr = 0; rx = 65 ∷ []; tx_out = []; thre_ip = false }

-- One page, which holds compiled code.
abbrev pages : JitPageState
pages = record {
  page_count = 1;
  flags = record { marked = 1; dirty = 0 } ∷ [];
  dirty_pages = [];
  write_generations = 0 ∷ [];
}

-- 32 bytes of RAM.
abbrev machine : VirtBus ℕ
machine = record {
  ram = replicate 32 7;
  mtime = 0;
  mtimecmp = 100;
  msip = false;
  rtc = Rtc.new;
  plic = plic;
  uart = uart;
  virtio = 0 ∷ [];
  power_off = false;
  direct_sbi = false;
  jit = pages;
}

ram_refines_example :
    (read idle 4 machine 0x8000_0008 ≡ ((Bus.read 4 (flat machine) 0x8000_0008).0, machine))
    × ((write idle 4 machine 0x8000_0008 99).0 ≡ (Bus.write 4 (flat machine) 0x8000_0008 99).0)
    × (flat (write idle 4 machine 0x8000_0008 99).1 ≡ (Bus.write 4 (flat machine) 0x8000_0008 99).1)
ram_refines_example =
    ram_refines idle machine 4 0x8000_0008 99 (omega arith) (omega arith, omega arith)

-- A fused store entry for the page, which maps addresses to themselves.
abbrev hart : Cpu
hart = record Cpu.new {
  jtlb_tag = λ row i. 0x8_0000;
  tlb_tag = λ row i. 0x8_0000;
  tlb_diff = λ row i. 0;
}

marked_store_example :
    let dropped = (invalidate_store_jtlb_page hart 0x8000_0008).1 in
    let filled = fill_jtlb (virt_bus idle 0) machine 0x8000_0008 0x8000_0008 true dropped in
    Gone (bit_and 0x8000_0008 (not64 0xfff)) filled 0
    × (filled ≡ dropped)
    × (is_dirty
          (write idle 4 machine 0x8000_0008 99).1.jit
          (shr (0x8000_0008 - ram_base) jit_page_shift)
        ≡ true)
unfolding address_marked JitPages.page_for_address
marked_store_example =
    marked_store idle machine hart 0 0x8000_0008 0x8000_0008 4 99 0 (omega arith) (omega arith)
      (omega arith, omega arith) refl (omega arith)

uart_interrupts_example : bit 9 (irq_lines idle machine).0 ≡ 1
unfolding Uart.irq bit
uart_interrupts_example =
    uart_interrupts idle machine refl (omega arith) refl (omega arith) refl (omega arith)
