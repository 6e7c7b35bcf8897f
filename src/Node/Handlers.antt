-- ===== src/Node/Handlers.antt =====
-- The handlers of crates/taron-node/src/node.rs.
pub mod Gossip
pub mod NewBlocks
pub mod Ibd
pub mod Keepalive
pub mod Connections
