-- ===== src/Virtio.antt =====
-- The register file of a virtio device on memory-mapped transport, brig/devices/virtio.
mod Defs
pub mod Queue
pub mod Addresses
pub mod Interrupt
pub mod Setup
mod Tests
unfoldable pub use Defs.*
