-- ===== src/Creator.antt =====
-- pkg/creator: producing new units.
pub mod Consistent
pub mod Consistency
pub mod State
pub mod Candidates
pub mod Running
pub mod Ending
pub mod Freezing
pub mod Proofs
pub mod Shares
