-- ===== src/System/Plic.antt =====
-- The platform interrupt controller, `struct Plic` of crates/rv64-system/src/virt.rs. A u32 is a
-- number below 2 ^ 32, and the arrays are lists. `plic_dbg` only prints.
pub mod Best
pub mod Service
mod Tests
use lish.Prelude.{
  ℕ, zero, suc, ◌+◌, ◌-◌, ◌*◌, ◌/◌, ◌%◌, ◌^◌, Bool, ◌&&◌, List, ltb, leb, ◌==◌, ◌!=◌, if◌then◌else◌,
  get_or, set, replicate, bit_and, bit_or, not32,
}
use lish.Prelude.Bits.Lowest.{trailing_zeros}

abbrev pub plic_sources : ℕ
plic_sources = 32

abbrev pub plic_contexts : ℕ
plic_contexts = 2

pub record Plic : Type 0 where
  pub priority : List ℕ
  pub pending : ℕ
  pub enable : List ℕ
  pub threshold : List ℕ
  pub claimed : ℕ

unfoldable pub new : Plic
new = record {
  priority = replicate plic_sources 0;
  pending = 0;
  enable = replicate plic_contexts 0;
  threshold = replicate plic_contexts 0;
  claimed = 0;
}

-- The loop of `best`: `m` holds the sources that are still to be looked at. The fuel is one round
-- for each source.
unfoldable pub best_loop : ℕ → List ℕ → ℕ → ℕ → ℕ → ℕ → ℕ
best_loop zero priority thr m best_id best_pri = best_id
best_loop (suc fuel) priority thr m best_id best_pri =
    let i = trailing_zeros 32 m in
    let pri = get_or priority i 0 in
    let hit = ltb thr pri && leb best_pri pri in
    let rest =
      best_loop fuel priority thr (bit_and m (m - 1)) (if hit then i else best_id)
        (if hit then pri else best_pri) in
    if m == 0 then best_id else rest

-- The sources that are pending, enabled and not in service.
unfoldable pub eligible : Plic → ℕ → ℕ
eligible p ctx = bit_and (bit_and p.pending (get_or p.enable ctx 0)) (not32 p.claimed)

unfoldable pub best : Plic → ℕ → ℕ
best p ctx = best_loop plic_sources p.priority (get_or p.threshold ctx 0) (eligible p ctx) 0 0

unfoldable pub pending_ctx : Plic → ℕ → Bool
pending_ctx p ctx = best p ctx != 0

-- The claim register of a context.
unfoldable pub claim : Plic → ℕ → ℕ × Plic
claim p ctx =
    let id = best p ctx in
    (id, if id != 0 then record p { claimed = bit_or p.claimed (2 ^ id) } else p)

-- The registers of one context: the threshold at 0, claim at 4.
unfoldable pub read_context : Plic → ℕ → ℕ → ℕ × Plic
read_context p ctx reg =
    if leb plic_contexts ctx
    then (0, p)
    else if reg == 0
    then (get_or p.threshold ctx 0, p)
    else if reg == 4
    then claim p ctx
    else (0, p)

unfoldable pub read : Plic → ℕ → ℕ × Plic
read p off =
    if leb off 0x0fff
    then (get_or p.priority (off / 4) 0, p)
    else if off == 0x1000
    then (p.pending, p)
    else if off == 0x1004
    then (0, p)
    else if leb 0x2000 off && ltb off (0x2000 + plic_contexts * 0x80)
    then (if (off - 0x2000) % 0x80 == 0 then get_or p.enable ((off - 0x2000) / 0x80) 0 else 0, p)
    else if leb 0x20_0000 off
    then read_context p ((off - 0x20_0000) / 0x1000) ((off - 0x20_0000) % 0x1000)
    else (0, p)

-- Completion takes a source out of service.
unfoldable pub complete : Plic → ℕ → Plic
complete p val =
    if ltb val plic_sources then record p { claimed = bit_and p.claimed (not32 (2 ^ val)) } else p

unfoldable pub write_context : Plic → ℕ → ℕ → ℕ → Plic
write_context p ctx reg val =
    if leb plic_contexts ctx
    then p
    else if reg == 0
    then record p { threshold = set p.threshold ctx val }
    else if reg == 4
    then complete p val
    else p

unfoldable pub write : Plic → ℕ → ℕ → Plic
write p off val =
    if leb off 0x0fff
    then (if off / 4 != 0 then record p { priority = set p.priority (off / 4) val } else p)
    else if leb 0x2000 off && ltb off (0x2000 + plic_contexts * 0x80)
    then (if (off - 0x2000) % 0x80 == 0
        then record p { enable = set p.enable ((off - 0x2000) / 0x80) (bit_and val (not32 1)) }
        else p)
    else if leb 0x20_0000 off
    then write_context p ((off - 0x20_0000) / 0x1000) ((off - 0x20_0000) % 0x1000) val
    else p
