-- ===== src/Memory.antt =====
-- Guest regions, brig/common/src/memory.rs, and the translator's allocator,
-- brig/dbt/src/bump_alloc.rs.
pub mod AddressSpace
pub mod Regions
pub mod Bump
pub mod Allocations
pub mod Tests
