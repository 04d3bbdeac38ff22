-- ===== src/Core/Csr.antt =====
-- The privileged state of crates/rv64-core/src/csr.rs. A u64 is a number below 2 ^ 64.
pub mod Address
pub mod Bits
use lish.Prelude.{
  ℕ, ◌*◌, ◌^◌, Bool, true, false, List, replicate, ◌==◌, if◌then◌else◌, bit_and, bit_or,
}
use Bits.{mstatus_uxl, mstatus_sxl}

pub data Mode : Type 0 where
  user : Mode
  supervisor : Mode
  machine : Mode

-- `mode as u64`.
unfoldable pub mode_bits : Mode → ℕ
mode_bits user = 0
mode_bits supervisor = 1
mode_bits machine = 3

unfoldable pub from_bits : ℕ → Mode
from_bits b = if bit_and b 3 == 0 then user else if bit_and b 3 == 1 then supervisor else machine

abbrev pub is_user : Mode → Bool
is_user user = true
is_user supervisor = false
is_user machine = false

abbrev pub is_supervisor : Mode → Bool
is_supervisor user = false
is_supervisor supervisor = true
is_supervisor machine = false

abbrev pub is_machine : Mode → Bool
is_machine user = false
is_machine supervisor = false
is_machine machine = true

pub record SysCsrs : Type 0 where
  pub mode : Mode
  pub mstatus : ℕ
  pub medeleg : ℕ
  pub mideleg : ℕ
  pub mie : ℕ
  pub mip : ℕ
  pub mtvec : ℕ
  pub mcounteren : ℕ
  pub mscratch : ℕ
  pub mepc : ℕ
  pub mcause : ℕ
  pub mtval : ℕ
  pub stvec : ℕ
  pub scounteren : ℕ
  pub sscratch : ℕ
  pub sepc : ℕ
  pub scause : ℕ
  pub stval : ℕ
  pub satp : ℕ
  pub mhartid : ℕ
  pub mtime : ℕ
  pub time_scale : ℕ
  pub time_offset : ℕ
  pub pmpcfg : List ℕ
  pub pmpaddr : List ℕ
  pub minstret_off : ℕ

unfoldable pub new : SysCsrs
new = record {
  mode = machine;
  mstatus = bit_or (bit_and mstatus_uxl (2 * 2 ^ 32)) (bit_and mstatus_sxl (2 * 2 ^ 34));
  medeleg = 0;
  mideleg = 0;
  mie = 0;
  mip = 0;
  mtvec = 0;
  mcounteren = 0;
  mscratch = 0;
  mepc = 0;
  mcause = 0;
  mtval = 0;
  stvec = 0;
  scounteren = 0;
  sscratch = 0;
  sepc = 0;
  scause = 0;
  stval = 0;
  satp = 0;
  mhartid = 0;
  mtime = 0;
  time_scale = 0;
  time_offset = 0;
  pmpcfg = replicate 8 0;
  pmpaddr = replicate 64 0;
  minstret_off = 0;
}
