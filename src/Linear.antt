-- ===== src/Linear.antt =====
-- pkg/linear: the linear order of the units of a dag.
pub mod Votes
pub mod Memo
pub mod Primes
pub mod Decider
pub mod Sort
pub mod Crp
pub mod Extender
pub mod TimingRound
pub mod Rotation
pub mod Decisions
pub mod Candidates
pub mod Choosing
pub mod Ordered
pub mod Once
pub mod Accounted
pub mod Below
pub mod Layers
pub mod Advance
pub mod Topology
