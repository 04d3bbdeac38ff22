-- ===== src/Jit.antt =====
-- crates/rv64-jit: the compiler of guest code to WebAssembly.
pub mod Leb
