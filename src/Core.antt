-- ===== src/Core.antt =====
-- crates/rv64-core: the hart.
pub mod Exception
pub mod Csr
pub mod Cpu
pub mod Trap
pub mod CsrAccess
pub mod Bus
pub mod Decode
pub mod Compressed
pub mod Mmu
pub mod Run
pub mod Memory
pub mod Alu
pub mod Amo
pub mod SystemOps
pub mod Float
pub mod FloatOps
pub mod Exec
pub mod Step
