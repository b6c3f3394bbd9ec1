-- ===== src/Gic.antt =====
-- The interrupt controller of brig/brig/src/guest/devices/arm/a9gic.rs.
-- Every field of the Rust code is an atomic that one handler at a time reads and writes, so the
-- state is passed from call to call.
mod Defs
mod Bytes
pub mod Chain
pub mod Update
pub mod Serve
pub mod Cpu
pub mod CpuInterface
pub mod Distributor
pub mod Run
pub mod Level
pub mod Cycle
mod Tests
unfoldable pub use Defs.*
