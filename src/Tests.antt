-- ===== src/Tests.antt =====
-- Tests on the sample data of Fixtures, and each property applied to them.
mod Accounts
mod Chain
mod Hashes
mod Verdicts
mod Services
mod Nodes
mod Peers
mod Pools
