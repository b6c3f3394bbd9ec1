-- ===== src/Opt.antt =====
-- The passes over functions of the intermediate representation, borealis/src/rudder/opt and
-- borealis/src/rudder/analysis, with the iterator over blocks of common/src/rudder/block.rs.
pub mod Blocks
pub mod Threading
pub mod Typed
pub mod Simulated
pub mod Preserved
pub mod Formed
pub mod Passed
pub mod Iterated
pub mod Uses
pub mod Substituted
pub mod Dead
pub mod Agreed
pub mod Effects
pub mod Killed
pub mod Eliminated
pub mod Swept
pub mod Purity
pub mod Tests
