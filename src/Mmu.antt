-- ===== src/Mmu.antt =====
-- The translation of the guest's virtual addresses, brig/brig/src/guest/devices/arm/mmu.rs.
pub mod Defs
pub mod Walk
pub mod Exception
pub mod Buffers
pub mod Pages
pub mod Coherent
pub mod Saved
pub mod Taken
pub mod Entered
pub mod Cached
pub mod Permitted
pub mod Tests
