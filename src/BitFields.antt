-- ===== src/BitFields.antt =====
-- Fields of words and widths of values: common/src/bits.rs and common/src/width_helpers.rs.
pub mod Defs
pub mod Insert
pub mod Width
pub mod Tests
