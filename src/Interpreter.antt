-- ===== src/Interpreter.antt =====
-- The interpreter of the intermediate representation, brig/dbt/src/interpret.rs, over the register
-- file of brig/dbt/src/register_file.rs.
pub mod Values
pub mod RegisterFile
pub mod Registers
pub mod Stored
pub mod Casts
pub mod Blocks
pub mod Run
pub mod Extends
pub mod Fuel
pub mod Carry
pub mod Tests
