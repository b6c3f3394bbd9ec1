-- ===== src/Virtio/Queue.antt =====
-- The queue of brig/devices/virtio/src/queue: its rings, and the requests that it takes.
mod Defs
mod Event
pub mod Chain
pub mod Rings
unfoldable pub use Defs.*
unfoldable pub use Event.*
