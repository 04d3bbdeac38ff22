-- ===== src/System/Slices/Probed.antt =====
-- Which instructions a round of the decoded interpreter runs: `run_cached_cpu` of
-- crates/rv64-system/src/virt.rs, after the program counter is translated.
use lish.Prelude.{
  ℕ, zero, suc, ◌+◌, ◌-◌, ◌%◌, ◌≤◌, ◌≡◌, ◌≢◌, ◌⊎◌, inl, inr, refl, ap, ◌∙◌, arith, Bool, true,
  false, List, [], ◌∷◌, ◌++◌, length, take, drop, Option, none, some, Option-cases, Bool-cases,
  ◌!=◌, add64, bit_and, not64,
}
use mathlib.Core.List.{append_assoc}
use lish.Prelude.Memory.{read_at}
use lish.Prelude.Bits.Fields.{and_mask}
use lish.Core.Bus.{checked_sub, checked_add}
use lish.Core.Compressed.{DecodedInsn}
use lish.Core.Float.{FloatUnit}
use lish.System.Ram.{checked_ram_range}
use lish.System.JitPages.{ram_base}
use lish.System.VirtBus.{VirtioOps}
use lish.System.CodeCache.{block}
use lish.System.CodeCache.Decodes.{Decodes}
use lish.System.CodeCache.Pages.{IsCached, block-Decodes, block-IsCached}
use lish.System.Slices.{
  InterpreterStop, CodeDispatch, Interpreter, cut, chosen, run_uncached_one, run_block, run_found,
  run_probed, page_in_ram,
}

take-drop : (n : ℕ) (xs : List DecodedInsn) → xs ≡ take n xs ++ drop n xs
take-drop zero xs = refl
take-drop (suc n) [] = refl
take-drop (suc n) (x ∷ xs) = ap (λ (t : List DecodedInsn). x ∷ t) (take-drop n xs)

length-take_le : (n : ℕ) (xs : List DecodedInsn) → length (take n xs) ≤ n
length-take_le zero xs = omega arith
length-take_le (suc n) [] = omega arith
length-take_le (suc n) (x ∷ xs) = omega (arith, length-take_le n xs)

-- A first part of a block, of a length at most.
abbrev pub IsFirstPart : ℕ → List DecodedInsn → List DecodedInsn → Type 0
IsFirstPart n part ds = (length part ≤ n) × (rest : List DecodedInsn) × (ds ≡ part ++ rest)

cut-first :
    (contains : ℕ → Bool) (pc : ℕ) (ds : List DecodedInsn)
    → IsFirstPart (length ds) (cut contains pc ds) ds
unfolding cut
cut-first contains pc [] = (omega arith, [], refl)
cut-first contains pc (d ∷ ds) =
    let next = add64 pc d.len in
    let (short, rest, same) = cut-first contains next ds in
    elim (Bool-cases (contains next)) [
      | inl hit ↦ rw hit (omega arith, ds, refl)
      | inr miss ↦ rw miss (omega (arith, short), rest, ap (λ (t : List DecodedInsn). d ∷ t) same)
    ]

module _ {D X : Type 0} (ops : VirtioOps D) (host_base : ℕ) (unit : FloatUnit)
    (dispatch : CodeDispatch X) (stop_capable : Bool) where
  chosen-first :
      (x : X) (remaining pc : ℕ) (ds : List DecodedInsn)
      → IsFirstPart remaining (chosen ops host_base unit dispatch stop_capable x remaining pc ds) ds
  unfolding chosen
  chosen-first x remaining pc ds = elim (Bool-cases stop_capable) [
    | inr e ↦ rw e (length-take_le remaining ds, drop remaining ds, take-drop remaining ds)
    | inl e ↦
        let natural = take remaining ds in
        let (short, rest, same) = cut-first (dispatch.contains x) pc natural in
        let all =
          take-drop remaining ds
          ∙ ap (λ (t : List DecodedInsn). t ++ drop remaining ds) same
          ∙ append_assoc (cut (dispatch.contains x) pc natural) rest (drop remaining ds) in
        rw e (omega (arith, short, length-take_le remaining ds), rest ++ drop remaining ds, all)
  ]

  -- The pages of the cache are sound for the RAM of an interpreter.
  abbrev pub IsSoundFor : Interpreter D X → Type 0
  IsSoundFor i = IsCached i.bus.ram i.cpu.icache_gen i.cache

  -- The page of an address, and that it lies in RAM.
  abbrev pub page_of : ℕ → ℕ
  page_of physical = bit_and physical (not64 0xfff)

  abbrev pub LiesInRam : Interpreter D X → ℕ → Type 0
  LiesInRam i page = (ram_base ≤ page) × (page + 0x1000 ≤ ram_base + length i.bus.ram)

  abbrev pub Outcome : Type 0
  Outcome = Option InterpreterStop × Interpreter D X

  -- The instructions that are run from the cache: a first part, no longer than the budget, of the
  -- decoding of the RAM at the address, which has the place in its page of the program counter.
  abbrev pub FromCache : ℕ → ℕ → ℕ → Interpreter D X → Outcome → Type 0
  FromCache remaining pc physical i out =
      (physical % 0x1000 ≡ pc % 0x1000)
      × LiesInRam i (page_of physical)
      × (ds : List DecodedInsn) × (part : List DecodedInsn) × (j : Interpreter D X) × Decodes
          (read_at (page_of physical - ram_base) 0x1000 i.bus.ram) (bit_and physical 0xfff) ds
      × IsFirstPart remaining part ds
      × IsSoundFor j
      × (j ≡ record i { cache = j.cache })
      × (out ≡ run_block ops host_base unit dispatch stop_capable part j)

  -- One instruction is run by `run`, where the cache does not serve.
  abbrev pub Uncached : ℕ → ℕ → Interpreter D X → Outcome → Type 0
  Uncached pc physical i out =
      ((physical % 0x1000 ≢ pc % 0x1000)
        ⊎ (page_in_ram ops host_base unit dispatch stop_capable i.bus physical ≡ false)
        ⊎ ((block i.cache i.bus.ram physical i.cpu.icache_gen).0 ≡ none))
      × (j : Interpreter D X) × IsSoundFor j
      × (j ≡ record i { cache = j.cache })
      × (out ≡ run_uncached_one ops host_base unit dispatch stop_capable j)

  in_ram :
      (i : Interpreter D X) (physical : ℕ)
      → page_in_ram ops host_base unit dispatch stop_capable i.bus physical ≡ true
      → LiesInRam i (page_of physical)
  unfolding checked_ram_range checked_sub checked_add
  in_ram i physical e = (ground arith, ground arith)

  -- Once the program counter is translated, with the cached pages sound for the RAM, a round runs
  -- either a first part, within the budget, of the instructions that decode the RAM's bytes at the
  -- address, where that has the place in its page of the program counter and the page lies in RAM; or
  -- one instruction without the cache, where this is not so or the cache has no block. The hart and
  -- the bus are handed on as they are, and the cached pages stay sound.
  pub run_probed_lem :
      (remaining pc physical : ℕ) (i : Interpreter D X)
      → IsSoundFor i
      → let out =
          run_probed ops host_base unit dispatch stop_capable remaining pc (some physical) i in
        FromCache remaining pc physical i out ⊎ Uncached pc physical i out
  unfolding run_probed run_found
  run_probed_lem remaining pc physical i sound =
      let looked = block i.cache i.bus.ram physical i.cpu.icache_gen in
      let j = record i { cache = looked.1 } in
      let kept : IsSoundFor j = block-IsCached i.cache i.bus.ram physical i.cpu.icache_gen sound in
      elim (Bool-cases (bit_and physical 0xfff != bit_and pc 0xfff)) [
        | inl off ↦ inr (
          inl (ground (arith, off, and_mask 12 physical, and_mask 12 pc)),
          i,
          sound,
          refl,
          rw off refl,
        )
        | inr on ↦
            elim (Bool-cases
              (page_in_ram ops host_base unit dispatch stop_capable i.bus physical)) [
                | inr out ↦ inr (inr (inl out), i, sound, refl, rw (on, out) refl)
                | inl in_page ↦ elim (Option-cases looked.0) [
                  | inl e ↦ inr (inr (inr e), j, kept, refl, rw (on, in_page, e) refl)
                  | inr (ds, e) ↦ inl (
                    ground (arith, on, and_mask 12 physical, and_mask 12 pc),
                    in_ram i physical in_page,
                    ds,
                    chosen ops host_base unit dispatch stop_capable i.routes remaining pc ds,
                    j,
                    block-Decodes i.cache i.bus.ram physical i.cpu.icache_gen ds sound e,
                    chosen-first i.routes remaining pc ds,
                    kept,
                    refl,
                    rw (on, in_page, e) refl,
                  )
                ]
              ]
      ]
