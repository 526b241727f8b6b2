-- ===== src/Units.antt =====
-- pkg/unit: the units of the program, which implement the interface of pkg/gomel.
pub mod Node
pub mod Build
