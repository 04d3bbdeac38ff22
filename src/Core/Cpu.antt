-- ===== src/Core/Cpu.antt =====
-- The hart's state and its translation context: crates/rv64-core/src/cpu.rs. The register files and
-- the counters are lists, and a row of a translation cache is a function of its index.
pub mod Context
use lish.Prelude.{
  ℕ, ◌-◌, ◌*◌, ◌/◌, ◌+◌, ◌^◌, ◌%◌, Bool, true, false, ◌&&◌, List, replicate, Option, none, some,
  ◌==◌, ◌!=◌, if◌then◌else◌, bit_and, bit_or, not64, shr, shl, set,
}
use lish.Prelude.Int.{ℤ, pos}
use lish.Core.Csr
use lish.Core.Csr.{SysCsrs, Mode, mode_bits, from_bits}
use lish.Core.Csr.Bits.{mstatus_mprv, mstatus_mpp, mstatus_sum, mstatus_mxr, mstatus_fs}
use lish.Core.Exception.{Exception, illegal_instruction}

pub data Access : Type 0 where
  fetch : Access
  load : Access
  store : Access

-- `access as usize`.
unfoldable pub access_index : Access → ℕ
access_index fetch = 0
access_index load = 1
access_index store = 2

abbrev pub is_fetch : Access → Bool
is_fetch fetch = true
is_fetch load = false
is_fetch store = false

abbrev pub is_store : Access → Bool
is_store fetch = false
is_store load = false
is_store store = true

abbrev pub tlb_size : ℕ
tlb_size = 2 ^ 12

abbrev pub tlb_invalid : ℕ
tlb_invalid = 0xffff_ffff_ffff_ffff

abbrev pub tlb_vpn_mask : ℕ
tlb_vpn_mask = 2 ^ 52 - 1

abbrev pub tlb_context_shift : ℕ
tlb_context_shift = 52

abbrev pub map_generation_mask : ℕ
map_generation_mask = 0xffff_ffff

-- `TlbRows`: rows of entries.
abbrev pub TlbRows : Type 0 → Type 0
TlbRows A = ℕ → ℕ → A

-- `rows[row][index] = v`.
unfoldable pub set_row : {A : Type 0} → TlbRows A → ℕ → ℕ → A → TlbRows A
set_row t row index v r i = if r == row && i == index then v else t r i

pub record Cpu : Type 0 where
  pub x : List ℕ
  pub pc : ℕ
  pub insn_count : ℕ
  pub reservation : Option ℕ
  pub syscall_log : List (ℕ × ℕ)
  pub syscall_log_pos : ℕ
  pub f : List ℕ
  pub fcsr : ℕ
  pub sys : Option SysCsrs
  pub host_sbi : Bool
  pub exc_counts : List ℕ
  pub irq_counts : List ℕ
  pub jit_flush_gen : ℕ
  pub icache_gen : ℕ
  pub irq_poll_cd : ℕ
  pub map_gen : ℕ
  pub tlb_tag : TlbRows ℕ
  pub tlb_diff : TlbRows ℕ
  pub jtlb_tag : TlbRows ℕ
  pub jtlb_off : TlbRows ℤ

unfoldable pub new : Cpu
new = record {
  x = replicate 32 0;
  pc = 0;
  insn_count = 0;
  reservation = none;
  syscall_log = replicate 64 (0xffff_ffff_ffff_ffff, 0);
  syscall_log_pos = 0;
  f = replicate 32 0;
  fcsr = 0;
  sys = none;
  host_sbi = false;
  exc_counts = replicate 16 0;
  irq_counts = replicate 16 0;
  jit_flush_gen = 0;
  icache_gen = 0;
  irq_poll_cd = 0;
  map_gen = 0;
  tlb_tag = λ row index. tlb_invalid;
  tlb_diff = λ row index. 0;
  jtlb_tag = λ row index. tlb_invalid;
  jtlb_off = λ row index. pos 0;
}

unfoldable pub data_mode : SysCsrs → Mode
data_mode sys =
    if bit_and sys.mstatus mstatus_mprv != 0
    then from_bits (shr (bit_and sys.mstatus mstatus_mpp) 11)
    else sys.mode

unfoldable pub eff_mode : SysCsrs → Access → Mode
eff_mode sys access = if is_fetch access then sys.mode else data_mode sys

abbrev pub flag : Bool → ℕ
flag b = if b then 1 else 0

unfoldable pub sys_context : SysCsrs → ℕ
sys_context sys =
    bit_or
      (bit_or (bit_or (mode_bits sys.mode) (shl (mode_bits (data_mode sys)) 2))
        (shl (flag (bit_and sys.mstatus mstatus_sum != 0)) 4))
      (shl (flag (bit_and sys.mstatus mstatus_mxr != 0)) 5)

unfoldable pub translation_context : Cpu → ℕ
translation_context c = elim c.sys [ none ↦ 0 | some sys ↦ sys_context sys ]

unfoldable pub translation_tag : Cpu → ℕ → ℕ
translation_tag c va =
    bit_or (bit_and (shr va 12) tlb_vpn_mask) (shl (translation_context c) tlb_context_shift)

unfoldable pub refresh_jit_tlb_context : Cpu → Cpu
refresh_jit_tlb_context c = record c {
  map_gen =
      bit_or (bit_and c.map_gen map_generation_mask)
        (shl (translation_context c) tlb_context_shift);
}

unfoldable pub jit_tlb_context_tag : Cpu → ℕ
jit_tlb_context_tag c = bit_and c.map_gen (not64 tlb_vpn_mask)

unfoldable pub map_generation : Cpu → ℕ
map_generation c = c.map_gen % 2 ^ 32

unfoldable pub bump_map_generation : Cpu → Cpu
bump_map_generation c = record c {
  map_gen =
      bit_or (bit_and c.map_gen (not64 map_generation_mask)) ((map_generation c + 1) % 2 ^ 32);
}

unfoldable pub enable_system : Cpu → ℕ → Cpu
enable_system c hartid =
    refresh_jit_tlb_context (record c { sys = some (record Csr.new { mhartid = hartid }) })

unfoldable pub enable_host_sbi : Cpu → Cpu
enable_host_sbi c = record c { host_sbi = true }

unfoldable pub flush_tlb : Cpu → Cpu
flush_tlb c = record c { tlb_tag = λ row index. tlb_invalid; jtlb_tag = λ row index. tlb_invalid }

-- `self.sys.is_some()`.
unfoldable pub has_system : Cpu → Bool
has_system c = elim c.sys [ none ↦ false | some sys ↦ true ]

-- `wr`: a write of x0 is dropped.
unfoldable pub wr : Cpu → ℕ → ℕ → Cpu
wr c rd val = if rd != 0 then record c { x = set c.x rd val } else c

-- `fp_check`: none is the `Ok(())`.
unfoldable pub fp_check : Cpu → ℕ → Option Exception
fp_check c insn = elim c.sys [
  | none ↦ none
  | some sys ↦ if bit_and sys.mstatus mstatus_fs == 0 then some (illegal_instruction insn) else none
]

unfoldable pub fp_dirty : Cpu → Cpu
fp_dirty c = elim c.sys [
  | none ↦ c
  | some sys ↦ record c { sys = some (record sys { mstatus = bit_or sys.mstatus mstatus_fs }) }
]
