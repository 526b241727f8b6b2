-- ===== src/Encoding.antt =====
-- pkg/encoding: the wire format of units, dag infos and chunks.
pub mod Wire
pub mod Chunk
pub mod Encoder
pub mod Decoder
pub mod Crowns
pub mod Units
pub mod Infos
pub mod Canonical
pub mod Sorting
pub mod Cells
