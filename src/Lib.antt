-- ===== src/Lib.antt =====
-- lish runs a RISC-V Linux guest: a hart with privileged state and address translation, a platform
-- with an interrupt controller, a serial port, a clock and virtio devices, and a compiler of guest
-- code to WebAssembly. This library models the hart with
-- its interpreters, the platform's bus with three devices, the tracking of pages that hold compiled
-- code, the virtio devices, the device-tree writer and the integers of the compiler's modules.
--
-- The hart, crates/rv64-core/src:
--   Core/Exception   exception.rs: the exceptions and their codes
--   Core/Csr         csr.rs: modes, register addresses, field masks, `SysCsrs`
--   Core/Cpu         cpu.rs: `Cpu` and the permission context of translation tags
--                    (`translation_context`, `translation_tag`, `refresh_jit_tlb_context`)
--   Core/Trap        cpu.rs: `take_trap`, `exception_to_trap`, `check_interrupts`, MRET and SRET
--   Core/CsrAccess   cpu.rs: `csr_read`, `csr_write`
--   Core/Mmu         cpu.rs: `translate`, `translate_slow`, `flush_tlb_page`
--   Core/Run         the state and the errors of an instruction, as a monad
--   Core/Memory      cpu.rs: `ld`, `st`, `fill_jtlb`, `jit_fill_tlb`, `jit_probe_fetch`,
--                    `invalidate_store_jtlb_page`
--   Core/Alu         cpu.rs, `execute_decoded`: the values of OP, OP-IMM and their 32-bit forms
--   Core/Amo         cpu.rs, `execute_decoded`: the atomics
--   Core/SystemOps   cpu.rs, `execute_decoded`: SYSTEM; `StopReason`
--   Core/Float       cpu.rs, `execute_decoded`: floating-point registers; `get_rm`, `box32`
--   Core/FloatOps    cpu.rs: `op_fp`, `fp_fast32`, `fp_fast64`
--   Core/Exec        cpu.rs, `execute_decoded`: the match on the opcode and the other arms
--   Core/Step        cpu.rs: `step`, `run`, `run_decoded`
--   Core/Bus         bus.rs: the `Bus` trait as a record of functions, `FlatMemory`
--   Core/Decode      decode.rs: the instruction fields
--   Core/Compressed  compressed.rs: `expand`; cpu.rs: `DecodedInsn`
-- The platform, crates/rv64-system/src:
--   System/Plic      virt.rs: `Plic`
--   System/Uart      virt.rs: `Uart`, and `uart_take` and `uart_input` of `VirtBus`
--   System/Rtc       rtc.rs: `GoldfishRtc`
--   System/JitPages  lib.rs: `JitPageState`
--   System/Ram       lib.rs: `checked_ram_range`
--   System/VirtBus   virt.rs: `VirtBus`
--   System/Virtio    virtio.rs: Memory is guest memory, Device the registers and mailboxes of
--                    `VirtioDev`, Disk, External and Net the backends' arms of `service`,
--                    Transport `process`, Completion `complete_block_request`
--   System/CodeCache virt.rs: `CodePageCache`, `DecodedCodePage`
--   System/Slices    lib.rs: `InterpreterStop`, `CodeDispatch`, `run_cpu_until`; virt.rs:
--                    `run_cached_cpu`, `run_uncached_one`
--   System/Dtb       dtb.rs: `Fdt`
-- The compiler, crates/rv64-jit/src:
--   Jit/Leb          wasm_emit.rs: `uleb`, `sleb`
-- Prelude holds what these share: tests on numbers, lists, words and their binary digits, byte
-- memory and integers.
--
-- How the parts meet: an instruction's memory access asks Core/Mmu for a physical address, which
-- walks tables through a Core/Bus record; the walk's entries are cached under a tag that holds the
-- permission context of Core/Cpu, so Core/Trap and Core/CsrAccess, which change the mode and
-- mstatus, refresh the copy of that context that compiled code reads. `check_interrupts` takes the
-- lines that the bus computes from the interrupt controller. Core/Exec runs an instruction over
-- any such bus, Core/Step repeats it, and System/VirtBus is one of the buses: RAM and the devices, of
-- which the virtio ones are a parameter there, as their loop may run for ever; System/Virtio models
-- them, with fuel for that loop, and marks what they write in System/JitPages. System/Slices joins
-- the hart of Core/Step, the bus and System/CodeCache in the loops of the machine.
--
-- Each module's operations are functions from a state to a result and a state, with the source's
-- names; a long match of the source is one function that branches to helpers for its arms. A
-- machine integer is a number below 2 ^ 8, 2 ^ 32 or 2 ^ 64, and sums are cut to the width where
-- the source wraps, as a release build does. A panic is `none` where one can occur.
--
-- Bounds: the arbitration of the interrupt controller loops over the sources left, at most 32
-- rounds, one for each bit of a u32, and the theorem on it needs no more. The page-table walk
-- recurses on the level, from 2 or 3 down to 0. The loops over pages recurse on the number of pages
-- or on the queue. `run` recurses on its budget and `run_decoded` on its block. The integers of a
-- module have ten bytes of fuel, enough for 64 bits at seven a byte, and the padding of the
-- device tree three rounds; the theorems on both need no more. `process` takes as fuel the rounds of
-- its loop, and theorems say how many are enough and when none are. The loops of System/Slices take
-- theirs as fuel too; they have no bound, and the theorems are about one round of them.
--
-- Not modelled: the software floating point, a port of another project's, and the arithmetic of the
-- host, which are parameters of Core/Float and Core/FloatOps; the boot image and the SBI calls of the
-- machine around the bus; the compiler but for its integers; the browser and native hosts. Debug
-- printing is left out of the devices. The host address of the RAM is a number below 2 ^ 63.
pub mod Prelude
pub mod System
pub mod Jit
pub mod Core
