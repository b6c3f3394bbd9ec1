-- ===== src/Rudder.antt =====
-- The types and constants of the intermediate representation, common/src/rudder.
pub mod Types
pub mod Integers
pub mod Constants
pub mod Operations
pub mod Statements
pub mod Replaced
pub mod Typed
pub mod Tests
