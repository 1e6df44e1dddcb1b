-- ===== src/Samples.antt =====
-- examples/: the sample programs.
pub mod HeaderIndexer
pub mod RequestPeers
mod Examples
