-- ===== src/System/Virtio.antt =====
-- The virtio devices: crates/rv64-system/src/virtio.rs.
pub mod Memory
pub mod Device
pub mod Disk
pub mod External
pub mod Net
pub mod Transport
pub mod Completion
pub mod Reachable
mod Tests
