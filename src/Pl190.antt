-- ===== src/Pl190.antt =====
-- The vectored interrupt controller of brig/devices/primecell/pl190.
mod Defs
pub mod Vectors
pub mod Driven
pub mod Service
mod Tests
unfoldable pub use Defs.*
