-- ===== src/System/VirtBus/Ram.antt =====
-- RAM behind the platform's bus: crates/rv64-system/src/virt.rs, `virt_rw!` and `jit_fast_off`.
use lish.Prelude.{ℕ, ◌+◌, ◌-◌, ◌≤◌, ◌<◌, ◌≡◌, arith, Bool, some, length, bit_or}
use lish.Prelude.Int.{ℤ, pos, ◌+ℤ◌}
use lish.Prelude.Signed.{signed_of}
use lish.Core.Bus
use lish.Core.Bus.{FlatMemory, offset, checked_sub, checked_add}
use lish.Core.Bus.Flat.{InRange, Fits, offset-InRange}
use lish.System.Ram.{checked_ram_range}
use lish.System.JitPages.{ram_base}
use lish.System.VirtBus.{VirtBus, VirtioOps, read, write, jit_fast_off}

-- The RAM as a flat memory.
abbrev pub flat : {D : Type 0} → VirtBus D → FlatMemory
flat b = record { base = ram_base; mem = b.ram }

pub range-InRange :
    (f : FlatMemory) (addr n : ℕ)
    → Fits f
    → InRange f addr n
    → checked_ram_range (length f.mem) f.base addr n ≡ some (addr - f.base, addr - f.base + n)
unfolding checked_ram_range checked_sub checked_add
range-InRange f addr n fits r = ground arith

module _ {D : Type 0} (ops : VirtioOps D) where
  -- In the range of the RAM the bus refines a flat memory at the base of the RAM: a read returns
  -- the same and changes nothing, and a write returns the same and leaves the same bytes.
  pub ram_refines :
      (b : VirtBus D) (n addr val : ℕ)
      → Fits (flat b)
      → InRange (flat b) addr n
      → (read ops n b addr ≡ ((Bus.read n (flat b) addr).0, b))
        × ((write ops n b addr val).0 ≡ (Bus.write n (flat b) addr val).0)
        × (flat (write ops n b addr val).1 ≡ (Bus.write n (flat b) addr val).1)
  unfolding read write Bus.read Bus.write
  ram_refines b n addr val fits r =
      ground (arith, range-InRange (flat b) addr n fits r, offset-InRange (flat b) addr n fits r)

  -- Compiled code reaches by an offset of the bus the bytes of the RAM that the bus itself reads:
  -- the whole page lies in RAM, and the guest address plus the offset is the host address.
  pub jit_fast_off-lands :
      (b : VirtBus D) (host_base va pa : ℕ) (off : ℤ) (for_store : Bool)
      → jit_fast_off ops host_base b va pa for_store ≡ some off
      → (ram_base ≤ pa)
        × (bit_or pa 0xfff < ram_base + length b.ram)
        × (off +ℤ signed_of 64 va ≡ pos (host_base + (pa - ram_base)))
  unfolding jit_fast_off ◌+ℤ◌
  jit_fast_off-lands b host_base va pa off for_store e = ground arith
