-- ===== src/Adder.antt =====
-- pkg/adder: the buffer where preunits wait for their parents.
pub mod Maps
pub mod State
pub mod Waiting
pub mod Ready
pub mod Removal
pub mod Counting
pub mod Kept
pub mod Steps
pub mod Insertion
