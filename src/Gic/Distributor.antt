-- ===== src/Gic/Distributor.antt =====
-- `impl MemoryMappedDevice for DistributorInterface`, and the lines that a register covers.
mod Defs
pub mod Lines
pub mod Safety
unfoldable pub use Defs.*
