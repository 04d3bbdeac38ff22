-- ===== src/System/Slices.antt =====
-- Slices of interpreted execution: `InterpreterStop`, `CodeDispatch` and `run_cpu_until` of
-- crates/rv64-system/src/lib.rs, and `run_cached_cpu` and `run_uncached_one` of
-- crates/rv64-system/src/virt.rs. Each loop takes as fuel the rounds it makes at most; `none` in
-- place of a stop is the end of the fuel. What routes to compiled code is a parameter, with a state.
mod Tests
pub mod Cut
pub mod Probed
use lish.Prelude.{
  ℕ, zero, suc, ◌+◌, ◌-◌, ◌%◌, ◌^◌, min, Bool, true, false, not, ◌||◌, List, [], ◌∷◌, length, take,
  Option, none, some, ltb, leb, ◌==◌, ◌!=◌, if◌then◌else◌, add64, sub64, bit_and, not64,
}
use lish.Core.Cpu.{Cpu}
use lish.Core.Bus.{Bus}
use lish.Core.Compressed.{DecodedInsn}
use lish.Core.SystemOps.{StopReason, budget}
use lish.Core.Float.{FloatUnit}
use lish.Core.Memory.{jit_probe_fetch}
use lish.Core.Step.{DecodedRunOutcome, stop, trapped_out, run, run_decoded}
use lish.System.Ram.{checked_ram_range}
use lish.System.JitPages.{ram_base}
use lish.System.VirtBus.{VirtioOps, VirtBus, virt_bus}
use lish.System.CodeCache.{CodePageCache, block}

pub data InterpreterStop : Type 0 where
  cpu_stop : StopReason → InterpreterStop
  compiled : InterpreterStop

-- The routes to compiled code, X: `observe` may change them.
pub record CodeDispatch (X : Type 0) : Type 0 where
  pub contains : X → ℕ → Bool
  pub observe : X → ℕ → Bool × X

-- What the hart has retired since the count was `start`.
abbrev pub retired_since : ℕ → Cpu → ℕ
retired_since start c = sub64 c.insn_count start

-- `none` for the end of a budget.
abbrev pub other_stop : StopReason → Option InterpreterStop
other_stop budget = none
other_stop reason = some (cpu_stop reason)

module _ {M X : Type 0} (bus : Bus M) (unit : FloatUnit) where
  -- The loop of `run_cpu_until` with a test for compiled code.
  unfoldable pub until_loop :
      ℕ → (X → ℕ → Bool × X) → ℕ → ℕ → Cpu → M → X → Option InterpreterStop × Cpu × M × X
  until_loop zero test start max_insns c m x = (none, c, m, x)
  until_loop (suc fuel) test start max_insns c m x =
      let (reason, c', m') = run bus unit 1 c m in
      let (hit, x') = test x c'.pc in
      let rest = until_loop fuel test start max_insns c' m' x' in
      if ltb (retired_since start c) max_insns
      then elim (other_stop reason) [
        | some s ↦ (some s, c', m', x)
        | none ↦ if hit then (some compiled, c', m', x') else rest
      ]
      else (some (cpu_stop budget), c, m, x)

  unfoldable pub run_cpu_until :
      ℕ → ℕ → Option (X → ℕ → Bool × X) → Cpu → M → X → Option InterpreterStop × Cpu × M × X
  run_cpu_until fuel max_insns none c m x =
      let (reason, c', m') = run bus unit max_insns c m in (some (cpu_stop reason), c', m', x)
  run_cpu_until fuel max_insns (some test) c m x = until_loop fuel test c.insn_count max_insns c m x

-- A block up to the first instruction whose successor is compiled.
unfoldable pub cut : (ℕ → Bool) → ℕ → List DecodedInsn → List DecodedInsn
cut contains pc [] = []
cut contains pc (d ∷ rest) =
    let next_pc = add64 pc d.len in
    let tail = cut contains next_pc rest in d ∷ (if contains next_pc then [] else tail)

-- The hart, its bus, the cache and the routes, with the traps in a row that retired nothing.
pub record Interpreter (D X : Type 0) : Type 0 where
  pub cpu : Cpu
  pub bus : VirtBus D
  pub cache : CodePageCache
  pub routes : X
  pub stalled_traps : ℕ

abbrev pub stalled_after : ℕ → ℕ → Cpu → ℕ
stalled_after before stalled c =
    if c.insn_count == before then min (stalled + 1) (2 ^ 64 - 1) else 0

module _ {D X : Type 0} (ops : VirtioOps D) (host_base : ℕ) (unit : FloatUnit)
    (dispatch : CodeDispatch X) (stop_capable : Bool) where
  unfoldable pub run_uncached_one : Interpreter D X → Option InterpreterStop × Interpreter D X
  run_uncached_one i =
      let (reason, c, b) = run (virt_bus ops host_base) unit 1 i.cpu i.bus in
      (
        other_stop reason,
        record i {
          cpu = c;
          bus = b;
          stalled_traps = stalled_after i.cpu.insn_count i.stalled_traps c;
        },
      )

  -- The instructions of a block that are run.
  unfoldable pub chosen : X → ℕ → ℕ → List DecodedInsn → List DecodedInsn
  chosen x remaining pc ds =
      let natural = take remaining ds in
      if stop_capable then cut (dispatch.contains x) pc natural else natural

  unfoldable pub settle_block :
      ℕ → DecodedRunOutcome → Interpreter D X → Option InterpreterStop × Interpreter D X
  settle_block before (stop reason) i = elim (other_stop reason) [
    | none ↦ (none, record i { stalled_traps = 0 })
    | some s ↦ (some s, i)
  ]
  settle_block before trapped_out i =
      (none, record i { stalled_traps = stalled_after before i.stalled_traps i.cpu })

  unfoldable pub run_block :
      List DecodedInsn → Interpreter D X → Option InterpreterStop × Interpreter D X
  run_block ds i =
      let (outcome, c, b) = run_decoded (virt_bus ops host_base) unit ds i.cpu i.bus in
      settle_block i.cpu.insn_count outcome (record i { cpu = c; bus = b })

  -- A round with the block that the cache answered, with what is left of the budget.
  unfoldable pub run_found :
      ℕ → ℕ → Option (List DecodedInsn) → Interpreter D X → Option InterpreterStop × Interpreter D X
  run_found remaining pc none i = run_uncached_one i
  run_found remaining pc (some ds) i = run_block (chosen i.routes remaining pc ds) i

  -- Whether the page of an address lies in RAM.
  abbrev pub page_in_ram : VirtBus D → ℕ → Bool
  page_in_ram b physical =
      elim (checked_ram_range (length b.ram) ram_base (bit_and physical (not64 0xfff)) 0x1000) [
        | none ↦ false
        | some range ↦ true
      ]

  unfoldable pub run_probed :
      ℕ → ℕ → Option ℕ → Interpreter D X → Option InterpreterStop × Interpreter D X
  run_probed remaining pc none i = run_uncached_one i
  run_probed remaining pc (some physical) i =
      let (found, cache) = block i.cache i.bus.ram physical i.cpu.icache_gen in
      if bit_and physical 0xfff != bit_and pc 0xfff || not (page_in_ram i.bus physical)
      then run_uncached_one i
      else run_found remaining pc found (record i { cache = cache })

  -- A round past the checks.
  unfoldable pub cached_round : ℕ → Interpreter D X → Option InterpreterStop × Interpreter D X
  cached_round remaining i =
      let (probed, c, b) = jit_probe_fetch (virt_bus ops host_base) i.cpu.pc i.cpu i.bus in
      run_probed remaining i.cpu.pc probed (record i { cpu = c; bus = b })

  abbrev pub or_else :
      Option InterpreterStop
      → Interpreter D X
      → Option InterpreterStop × Interpreter D X
      → Option InterpreterStop × Interpreter D X
  or_else (some s) after rest = (some s, after)
  or_else none after rest = rest

  unfoldable pub cached_loop :
      ℕ → Bool → ℕ → ℕ → Interpreter D X → Option InterpreterStop × Interpreter D X
  cached_loop zero first_block start max_insns i = (none, i)
  cached_loop (suc fuel) first_block start max_insns i =
      let (hit, routes) =
        if first_block then (false, i.routes) else dispatch.observe i.routes i.cpu.pc in
      let seen = record i { routes = routes } in
      let retired = retired_since start i.cpu in
      let (stopped, after) = cached_round (max_insns - retired) seen in
      let rest = cached_loop fuel false start max_insns after in
      if hit
      then (some compiled, seen)
      else if leb max_insns retired || leb max_insns i.stalled_traps
      then (some (cpu_stop budget), seen)
      else or_else stopped after rest

  -- The count of traps that retired nothing begins at zero.
  unfoldable pub run_cached_cpu : ℕ → ℕ → Interpreter D X → Option InterpreterStop × Interpreter D X
  run_cached_cpu fuel max_insns i =
      cached_loop fuel true i.cpu.insn_count max_insns (record i { stalled_traps = 0 })
