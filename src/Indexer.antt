-- ===== src/Indexer.antt =====
-- indexer/: the indexing node.
pub mod Base
pub mod Config
pub mod Peers
pub mod Resolved
pub mod Lifecycle
pub mod Headers
pub mod Requests
pub mod Connected
pub mod System
mod Examples
