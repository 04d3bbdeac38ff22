-- ===== src/System.antt =====
-- crates/rv64-system: the devices and the machine around the hart.
pub mod Plic
pub mod Uart
pub mod Rtc
pub mod JitPages
pub mod Ram
pub mod VirtBus
pub mod Slices
pub mod Virtio
pub mod Dtb
pub mod CodeCache
