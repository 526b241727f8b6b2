-- ===== src/Dag.antt =====
-- pkg/dag: the store of the units of one epoch.
pub mod Slots
pub mod Fibers
pub mod Bag
pub mod Store
pub mod View
pub mod Adding
pub mod Parents
pub mod Insertion
pub mod Check
