-- ===== src/Pool.antt =====
-- The mining pool, crates/taron-pool/src.
pub mod Scoring
pub mod Dedup
pub mod Server
