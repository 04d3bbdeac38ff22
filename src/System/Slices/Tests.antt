-- ===== src/System/Slices/Tests.antt =====
-- Slices on one page of RAM: crates/rv64-system/src/virt.rs, `run_cached_cpu`.
use lish.Prelude.{
  ℕ, suc, ◌<◌, ◌≡◌, refl, Bool, true, false, List, [], ◌∷◌, length, take, replicate, none, some,
  ◌⊎◌, ◌==◌,
}
use lish.Core.Cpu
use lish.Core.Cpu.{Cpu, has_system}
use lish.Core.Compressed.{DecodedInsn, from_word}
use lish.Core.Float.{FloatUnit}
use lish.Core.Exception.{ok}
use lish.System.CodeCache
use lish.System.Rtc
use lish.System.VirtBus.{VirtBus, VirtioOps}
use lish.System.Slices.{CodeDispatch, Interpreter, cut, run_probed}
use lish.System.Slices.Cut.{pc_after, cut_lem}
use lish.System.Slices.Probed.{FromCache, Uncached, run_probed_lem}
use lish.System.CodeCache.Pages.{new-IsCached}

-- addi x1, x1, 1, three times.
abbrev three : List DecodedInsn
three = replicate 3 (from_word 0x0010_8093)

-- The third is compiled.
abbrev contains : ℕ → Bool
contains pc = pc == 0x8000_0008

two_run : length (cut contains 0x8000_0000 three) ≡ 2
unfolding cut from_word
two_run = refl

cut_lem_example :
    (cut contains 0x8000_0000 three ≡ take (length (cut contains 0x8000_0000 three)) three)
    × ((k : ℕ)
        → suc k < length (cut contains 0x8000_0000 three)
        → contains (pc_after (suc k) 0x8000_0000 three) ≡ false)
    × (length (cut contains 0x8000_0000 three) < length three
        → contains (pc_after (length (cut contains 0x8000_0000 three)) 0x8000_0000 three) ≡ true)
cut_lem_example = cut_lem contains 0x8000_0000 three

abbrev no_device : VirtioOps ℕ
no_device = record {
  irq_pending = λ d. false;
  read_sized = λ d off size. (0, d);
  write = λ d off v. (none, d);
  process = λ d q ram base jit. (d, ram, jit);
}

-- No floating-point arithmetic.
abbrev no_floats : FloatUnit
no_floats = record {
  fma32 = λ a b c rm. (0, 0);
  fma64 = λ a b c rm. (0, 0);
  op_fp = λ c insn. (ok tt, c);
}

-- One page of RAM with a jump to itself.
abbrev machine : VirtBus ℕ
machine = record {
  ram = 0x6f ∷ replicate 4095 0;
  mtime = 0;
  mtimecmp = 100;
  msip = false;
  rtc = Rtc.new;
  plic = record {
    priority = replicate 32 0;
    pending = 0;
    enable = 0 ∷ 0 ∷ [];
    threshold = 0 ∷ 0 ∷ [];
    claimed = 0;
  };
  uart = record { ier = 0; lcr = 0; mcr = 0; scr = 0; rx = []; tx_out = []; thre_ip = false };
  virtio = [];
  power_off = false;
  direct_sbi = true;
  jit = record { page_count = 1; flags = []; dirty_pages = []; write_generations = 0 ∷ [] };
}

-- No compiled code.
abbrev nowhere : CodeDispatch ℕ
nowhere = record { contains = λ x pc. false; observe = λ x pc. (false, x) }

abbrev start : Interpreter ℕ ℕ
start = record {
  cpu = record Cpu.new { pc = 0x8000_0000 };
  bus = machine;
  cache = CodeCache.new;
  routes = 0;
  stalled_traps = 0;
}

run_probed_lem_example :
    let out =
      run_probed no_device 0 no_floats nowhere true 3 0x8000_0000 (some 0x8000_0000) start in
    FromCache no_device 0 no_floats nowhere true 3 0x8000_0000 0x8000_0000 start out
    ⊎ Uncached no_device 0 no_floats nowhere true 0x8000_0000 0x8000_0000 start out
run_probed_lem_example =
    run_probed_lem no_device 0 no_floats nowhere true 3 0x8000_0000 0x8000_0000 start
      (new-IsCached start.bus.ram start.cpu.icache_gen)
