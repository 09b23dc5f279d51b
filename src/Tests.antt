-- ===== src/Tests.antt =====
-- Concrete runs of the modelled code, and the theorems at concrete arguments.
pub mod Codec
pub mod Storage
pub mod Runs
pub mod Reading
pub mod Deltas
pub mod Locks
pub mod Plans
pub mod Fronts
pub mod Messages
pub mod Servers
pub mod Statements
pub mod Running
