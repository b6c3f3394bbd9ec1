-- ===== src/RingBuffer.antt =====
-- The shared ring buffer of common/src/ringbuffer.rs.
mod Defs
pub mod Wrap
pub mod Write
pub mod Read
pub mod Fifo
mod Tests
unfoldable pub use Defs.*
