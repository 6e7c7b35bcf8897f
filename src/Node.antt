-- ===== src/Node.antt =====
-- The node, crates/taron-node/src.
pub mod Mempool
pub mod Finality
pub mod Sync
pub mod Peers
pub mod Protocol
pub mod State
pub mod Handlers
pub mod Messages
pub mod Status
pub mod Rpc
