-- ===== src/Btcclient.antt =====
-- Package btcclient (pkg/btcclient): connections to Bitcoin peers.
pub mod Base
pub mod Config
pub mod Peer
pub mod Manager
pub mod Dial
pub mod Client
pub mod Handlers
mod Examples
