-- ===== src/Orderer.antt =====
-- pkg/orderer: the two latest epochs and what goes through them.
pub mod State
pub mod Operations
pub mod Timing
pub mod Rounds
pub mod Epochs
pub mod Lookup
pub mod Dags
pub mod Reachable
