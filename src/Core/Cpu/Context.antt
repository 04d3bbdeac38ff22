-- ===== src/Core/Cpu/Context.antt =====
-- The permission context that is kept above the page number of a translation tag, and its copy for
-- compiled code in `map_gen`: crates/rv64-core/src/cpu.rs.
use lish.Prelude.{
  ℕ, ◌+◌, ◌*◌, ◌/◌, ◌%◌, ◌^◌, ◌<◌, ◌≡◌, ◌≢◌, ap, ◌∙◌, arith, Bool, none, some, Option, bit_and,
  bit_or, ◌!=◌, shr, shl, not64,
}
use lish.Prelude.Bits.{or_comm}
use lish.Prelude.Bits.Fields.{or_fields, and_mask, and_high}
use lish.Core.Csr.{SysCsrs, Mode, user, supervisor, machine, mode_bits}
use lish.Core.Csr.Bits.{mstatus_sum, mstatus_mxr}
use lish.Core.Cpu.{
  Cpu, data_mode, sys_context, translation_context, translation_tag, refresh_jit_tlb_context,
  jit_tlb_context_tag, tlb_invalid, tlb_vpn_mask, map_generation_mask, flag, map_generation,
  bump_map_generation,
}

mode_bits-lt : (m : Mode) → mode_bits m < 4
unfolding mode_bits
mode_bits-lt user = omega arith
mode_bits-lt supervisor = omega arith
mode_bits-lt machine = omega arith

flag-lt : (b : Bool) → flag b < 2
flag-lt b = ground arith

-- The four fields of the context do not overlap.
pub sys_context_sum :
    (sys : SysCsrs)
    → sys_context sys
      ≡ mode_bits sys.mode
        + mode_bits (data_mode sys) * 4
        + flag (bit_and sys.mstatus mstatus_sum != 0) * 16
        + flag (bit_and sys.mstatus mstatus_mxr != 0) * 32
unfolding sys_context
sys_context_sum sys =
    let m = mode_bits sys.mode in
    let d = mode_bits (data_mode sys) in
    let s = flag (bit_and sys.mstatus mstatus_sum != 0) in
    let x = flag (bit_and sys.mstatus mstatus_mxr != 0) in
    fields m d s x (mode_bits-lt sys.mode) (mode_bits-lt (data_mode sys)) (flag-lt _)
  where
    fields :
        (m d s x : ℕ)
        → m < 4
        → d < 4
        → s < 2
        → bit_or (bit_or (bit_or m (shl d 2)) (shl s 4)) (shl x 5) ≡ m + d * 4 + s * 16 + x * 32
    fields m d s x hm hd hs =
        let e = or_fields 2 d m hm in
        let f = ap (λ (t : ℕ). bit_or t (shl s 4)) e ∙ or_fields 4 s (m + d * 4) (omega arith) in
        ap (λ (t : ℕ). bit_or t (shl x 5)) f ∙ or_fields 5 x (m + d * 4 + s * 16) (omega arith)

context-lt : (c : Cpu) → translation_context c < 64
unfolding translation_context
context-lt c = of_sys c.sys
  where
    of_sys : (o : Option SysCsrs) → elim o [ none ↦ 0 | some sys ↦ sys_context sys ] < 64
    of_sys none = omega arith
    of_sys (some sys) = omega (
      arith,
      sys_context_sum sys,
      mode_bits-lt sys.mode,
      mode_bits-lt (data_mode sys),
      flag-lt (bit_and sys.mstatus mstatus_sum != 0),
      flag-lt (bit_and sys.mstatus mstatus_mxr != 0),
    )

pub tag_sum :
    (c : Cpu) (va : ℕ)
    → translation_tag c va ≡ va / 2 ^ 12 % 2 ^ 52 + translation_context c * 2 ^ 52
unfolding translation_tag
tag_sum c va =
    ap (λ (t : ℕ). bit_or t (shl (translation_context c) 52)) (and_mask 52 (shr va 12))
    ∙ or_fields 52 (translation_context c) (va / 2 ^ 12 % 2 ^ 52) (omega arith)

-- No tag is the mark of an empty entry.
pub tag_ne_invalid : (c : Cpu) (va : ℕ) → translation_tag c va ≢ tlb_invalid
tag_ne_invalid c va e = omega (arith, tag_sum c va, context-lt c, e)

context_of : (c : Cpu) (s : SysCsrs) → c.sys ≡ some s → translation_context c ≡ sys_context s
unfolding translation_context
context_of c s h = rw h

-- On harts with privileged state, two tags are equal only for the same virtual page and for
-- contexts that agree in the execution mode, the data mode, SUM and MXR.
tag_separates :
    (c d : Cpu) (s t : SysCsrs) (va vb : ℕ)
    → c.sys ≡ some s
    → d.sys ≡ some t
    → translation_tag c va ≡ translation_tag d vb
    → (va / 2 ^ 12 % 2 ^ 52 ≡ vb / 2 ^ 12 % 2 ^ 52)
      × (mode_bits s.mode ≡ mode_bits t.mode)
      × (mode_bits (data_mode s) ≡ mode_bits (data_mode t))
      × (flag (bit_and s.mstatus mstatus_sum != 0) ≡ flag (bit_and t.mstatus mstatus_sum != 0))
      × (flag (bit_and s.mstatus mstatus_mxr != 0) ≡ flag (bit_and t.mstatus mstatus_mxr != 0))
tag_separates c d s t va vb hs ht e = omega (
  arith,
  tag_sum c va,
  tag_sum d vb,
  context_of c s hs,
  context_of d t ht,
  context-lt c,
  context-lt d,
  sys_context_sum s,
  sys_context_sum t,
  mode_bits-lt s.mode,
  mode_bits-lt t.mode,
  mode_bits-lt (data_mode s),
  mode_bits-lt (data_mode t),
  flag-lt (bit_and s.mstatus mstatus_sum != 0),
  flag-lt (bit_and t.mstatus mstatus_sum != 0),
  flag-lt (bit_and s.mstatus mstatus_mxr != 0),
  flag-lt (bit_and t.mstatus mstatus_mxr != 0),
)

-- What compiled code reads from `map_gen` is the current context.
abbrev pub InSync : Cpu → Type 0
InSync c = jit_tlb_context_tag c ≡ translation_context c * 2 ^ 52

high_part :
    (g k : ℕ)
    → g < 2 ^ 52
    → k < 64
    → bit_and (bit_or g (k * 2 ^ 52)) (not64 tlb_vpn_mask) ≡ k * 2 ^ 52
high_part g k hg hk =
    ap (λ (t : ℕ). bit_and t (not64 tlb_vpn_mask)) (or_fields 52 k g hg)
    ∙ and_high 52 (g + k * 2 ^ 52) 4095
    ∙ omega (arith, and_mask 12 ((g + k * 2 ^ 52) / 2 ^ 52))

-- Refreshing establishes it, whatever the state was, and keeps the generation.
pub refresh-InSync :
    (c : Cpu)
    → InSync (refresh_jit_tlb_context c)
      × (map_generation (refresh_jit_tlb_context c) ≡ map_generation c)
unfolding jit_tlb_context_tag refresh_jit_tlb_context translation_context map_generation
refresh-InSync c =
    let small : bit_and c.map_gen map_generation_mask < 2 ^ 52 =
      omega (arith, and_mask 32 c.map_gen) in
    (
      high_part (bit_and c.map_gen map_generation_mask) (translation_context c) small
          (context-lt c),
      omega (
        arith,
        or_fields 52 (translation_context c) (bit_and c.map_gen map_generation_mask) small,
        and_mask 32 c.map_gen,
      ),
    )

keep_high :
    (g n : ℕ)
    → g < 2 ^ 64
    → n < 2 ^ 32
    → bit_or (bit_and g (not64 map_generation_mask)) n ≡ g / 2 ^ 32 * 2 ^ 32 + n
keep_high g n hg hn =
    or_comm (bit_and g (not64 map_generation_mask)) n
    ∙ ap (bit_or n) (and_high 32 g 0xffff_ffff)
    ∙ or_fields 32 (bit_and (g / 2 ^ 32) 0xffff_ffff) n hn
    ∙ omega (arith, and_mask 32 (g / 2 ^ 32))

-- Moving to the next generation, which wraps at 2 ^ 32, keeps the context.
pub bump-InSync :
    (c : Cpu)
    → c.map_gen < 2 ^ 64
    → InSync c
    → InSync (bump_map_generation c)
      × (map_generation (bump_map_generation c) ≡ (map_generation c + 1) % 2 ^ 32)
unfolding jit_tlb_context_tag bump_map_generation map_generation translation_context
bump-InSync c fits v =
    let n = (c.map_gen % 2 ^ 32 + 1) % 2 ^ 32 in
    let e = keep_high c.map_gen n fits (omega arith) in
    (
      ap (λ (t : ℕ). bit_and t (not64 tlb_vpn_mask)) e
          ∙ and_high 52 (c.map_gen / 2 ^ 32 * 2 ^ 32 + n) 4095
          ∙ omega (
            arith,
            and_mask 12 ((c.map_gen / 2 ^ 32 * 2 ^ 32 + n) / 2 ^ 52),
            and_high 52 c.map_gen 4095,
            and_mask 12 (c.map_gen / 2 ^ 52),
            v,
          ),
      omega (arith, e),
    )
