-- ===== src/Timer.antt =====
-- The timer of the guest, brig/brig/src/guest/devices/arm/generic_timer.rs.
pub mod Defs
pub mod Tick
pub mod Tests
