-- ===== src/Lib.antt =====
-- A verification library for TARON, a proof-of-work ledger with peer acknowledgements.
--
-- The consensus code is crates/taron-core. A block carries transactions; the chain checks a block
-- against its tip, applies the reward and the transactions to the ledger, writes the block and
-- adjusts the difficulty at every tenth block. A reorganisation reverts blocks one by one, down to a
-- checkpoint at most. Beside the chain, a finality tracker collects signed ACKs of peers until a
-- transaction has its quorum.
--
-- - Error: crates/taron-core/src/error.rs and Rust's `Result`.
-- - Wallet: crates/taron-core/src/wallet.rs, and the interface `Crypto` for the crates sha3,
--   ed25519-dalek and hex; `IsSound` is what their documentation promises.
-- - Transaction, Genesis: crates/taron-core/src/transaction.rs and genesis.rs.
-- - Ledger: crates/taron-core/src/ledger.rs. Its children: Entries (reads after writes, the supply),
--   Effects and Supply (what the operations do to the balances), Revert, Replay (what is refused the
--   second time) and Downloads (what `apply_tx_ibd` takes a second time).
-- - Hash: SEQUAL-256, crates/taron-core/src/hash.rs. Scratchpad shows that the memory which a thread
--   keeps between hashes does not matter; Difficulty compares the difficulty test with the count of
--   leading zeros in Pool.Scoring, crates/taron-pool/src/scoring.rs.
-- - Block: crates/taron-core/src/block.rs.
-- - Blockchain: crates/taron-core/src/blockchain.rs. Blocks holds `apply_block`, `apply_block_ibd`,
--   `revert_tip` and `revert_to_height`; Checks, Linked, Supply, Difficulty, Reorg and Rewind hold
--   the proofs; Queries and Fork hold the lists of blocks and `find_fork_point`, and Rebuild
--   holds `rebuild_from_chain` of ledger.rs. Steps has what each call does to a linked chain, and
--   Stack the chain as a stack of blocks, its abstract view.
-- - Finality: `FinalityTracker` of crates/taron-core/src/finality.rs, with its invariant in
--   Invariant and its quorum in Quorum; Sequences is its `SeenSequences`.
-- - Posc: crates/taron-core/src/posc.rs. Transaction.Builder: `TxBuilder` of transaction.rs.
-- - Node: crates/taron-node/src. Mempool, Finality, Sync, Peers and Protocol are mempool.rs,
--   finality.rs, sync.rs, peer.rs and protocol.rs; Peers.Limits and Protocol.Frames hold their proofs.
--   State is `TaronNode` of node.rs with the local variables of a connection, Status its start and its
--   status. Handlers are the arms of `handle_messages`: Gossip (peers and transactions), NewBlocks
--   (`NewBlock`, `submit_mined_block`), Ibd (`ChainHeight`, `Blocks` and the deep reorganisation),
--   Keepalive (the ping interval and the watchdog), Connections (accepting, dialling, closing,
--   reaping). Messages puts them together: `handle_message` for one message, `serve` and `run` for a
--   node with several connections; Messages.Chain, Slot, Ready, Accepted and Gossiped hold the proofs.
-- - Pool.Dedup: `TachyonGuard` of crates/taron-pool/src/dedup.rs, with its window in Window.
-- - Node.Rpc: crates/taron-node/src/rpc.rs, the submission of transactions (Submitted) and the rate
--   limit (Limited).
-- - Pool.Server: crates/taron-pool/src/main.rs, `submit_share` and `build_payout_txs`; Shares and
--   Payouts hold the proofs. Submitter is `block_submitter_task`, and Drained shows that its queue is emptied.
-- - Fixtures and Tests: sample data, tests on it, and each result below applied to it.
--
-- Conventions: a method that changes its object returns the new object beside its result, on the
-- error paths too. A word is a native number with its wrap-around written out, as in a release build.
-- A hash map is an association list (Prelude.Dict). The database of the chain is its families of
-- keys. A panic is `none`. Clocks are arguments.
--
-- Fuel: the loops of `recompute_difficulty_from_chain`, of `revert_to_height` and of
-- `expand_scratchpad` run on fuel, the height for the first two and the length of the scratchpad for
-- the last; every round raises the boundary by ten, lowers the height by one, or writes a word.
--
-- The locks of the node are left out: a message, a tick or a mined block is one step, and the
-- sequences of such steps are the runs of a node. `serde_json` and the sockets are parameters.
--
-- Not modelled: files and migrations (`load_or_create`), the queries over HTTP, discovery, the
-- database of the pool and its floating-point difficulty per worker, the miner, the command line and
-- the transport encryption.
pub mod Prelude
pub mod Error
pub mod Wallet
pub mod Transaction
pub mod Genesis
pub mod Ledger
pub mod Hash
pub mod Pool
pub mod Block
pub mod Blockchain
pub mod Finality
pub mod Posc
pub mod Node
pub mod Fixtures
pub mod Tests
