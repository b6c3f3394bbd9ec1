-- ===== src/Pl011.antt =====
-- The serial port of brig/devices/primecell/pl011/src/lib.rs, as a client of an interrupt
-- controller.
mod Defs
pub mod Driven
mod Tests
unfoldable pub use Defs.*
