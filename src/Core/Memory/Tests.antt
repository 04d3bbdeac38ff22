-- ===== src/Core/Memory/Tests.antt =====
-- Runs of the loads, the stores and the fused cache of crates/rv64-core/src/cpu.rs.
use lish.Prelude.{◌%◌, ◌*◌, ◌^◌, ◌≡◌, refl, arith, true, replicate, bit_and, not64}
use lish.Prelude.Int.{pos}
use lish.Core.Cpu
use lish.Core.Cpu.{Cpu}
use lish.Core.Exception.{ok}
use lish.Core.Bus.{FlatMemory, flat_bus}
use lish.Core.Memory.{ld, st, set_jtlb, invalidate_store_jtlb_page}
use lish.Core.Memory.RoundTrip.{ld-st}
use lish.Core.Memory.Invalidate.{invalidate_store_jtlb_page-Gone, Gone}

abbrev small : FlatMemory
small = record { base = 0x1000; mem = replicate 32 7 }

ld-st_example :
    let (r, c', f') = st flat_bus 4 0x1008 0x1_1122_3344 Cpu.new small in
    (r ≡ ok tt) × ((ld flat_bus 4 0x1008 c' f').0 ≡ ok (0x1_1122_3344 % 2 ^ (8 * 4)))
unfolding Cpu.new
ld-st_example =
    ld-st Cpu.new small 4 0x1008 0x1_1122_3344 refl (omega arith) (omega arith, omega arith)

-- A hart with a fused store entry for the page at 0x5000.
abbrev filled : Cpu
filled = set_jtlb Cpu.new 0x5000 true (pos 0)

invalidate_store_jtlb_page-Gone_example :
    Gone (bit_and 0x5000 (not64 0xfff)) (invalidate_store_jtlb_page filled 0x5000).1 5
invalidate_store_jtlb_page-Gone_example =
    invalidate_store_jtlb_page-Gone filled 0x5000 5 (omega arith)
