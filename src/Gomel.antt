-- ===== src/Gomel.antt =====
-- pkg/gomel: the vocabulary of the protocol.
pub mod Id
pub mod Hash
pub mod Preunit
pub mod Unit
