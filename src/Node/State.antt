-- ===== src/Node/State.antt =====
-- `TaronNode` of crates/taron-node/src/node.rs, and the local variables of `handle_messages`, which
-- serves one connection. The locks are left out: every message is handled in one step. A step
-- returns the new state, the messages it sends, by channel, and whether the connection goes on.
use taron.Prelude.{ℕ, Bool, true, false, Option, none, some, List, [], ◌∷◌, if◌then◌else◌, ite, min}
use taron.Prelude.Words.{Bytes, add64, sub64}
use taron.Wallet.{Crypto}
use taron.Transaction.{Transaction}
use taron.Ledger.{Ledger, account_count, total_supply}
use taron.Block.{Block}
use taron.Blockchain.{Blockchain}
use taron.Node.Mempool.{Mempool, remove, hash_hex}
use taron.Node.Finality.{NodeFinalityManager}
use taron.Node.Peers.{SocketAddr, PeerManager, addr_dec}
use taron.Node.Protocol.{Message}
use taron.Node.Sync.{ibd_chunk_size}

-- The files are the ledger that was saved last; the database of the chain is the chain itself.
pub record TaronNode : Type 0 where
  pub mempool : Mempool
  pub peers : PeerManager
  pub peer_known_txs : List (SocketAddr × Bytes)
  pub discovered_peers : List SocketAddr
  pub ledger : Ledger
  pub blockchain : Blockchain
  pub finality : NodeFinalityManager
  pub has_data_dir : Bool
  pub saved_ledger : Option Ledger
  pub sync_ready : Bool
  pub ibd_peer : Option SocketAddr
  pub chain_height : ℕ
  pub max_seen_height : ℕ
  pub cached_difficulty : ℕ
  pub cached_best_hash : Bytes
  pub cached_account_count : ℕ
  pub cached_total_supply : ℕ

-- The local variables of `handle_messages`; `out_tx` is the channel to the peer.
pub record Connection : Type 0 where
  pub addr : SocketAddr
  pub out_tx : ℕ
  pub peer_height : Option ℕ
  pub last_ibd_progress_height : ℕ
  pub last_ibd_progress_at : ℕ
  pub last_ibd_request_at : Option ℕ
  pub last_recv : ℕ

-- What a step reads from outside: the monotonic clock in nanoseconds, the system clock in
-- milliseconds and in nanoseconds, whether the channel of the peer takes messages, and whether the
-- block semaphore is free.
pub record Env : Type 0 where
  pub now : ℕ
  pub now_ms : ℕ
  pub nonce : ℕ
  pub is_open : Bool
  pub has_permit : Bool

-- `continue`, `return Ok(())` or `return Err(..)`
pub data Verdict : Type 0 where
  going returned failed : Verdict

pub record Turn : Type 0 where
  pub node : TaronNode
  pub conn : Connection
  pub sent : List (ℕ × Message)
  pub verdict : Verdict

abbrev pub stay : Connection → TaronNode → Turn
stay conn n = record { node = n; conn = conn; sent = []; verdict = going }

-- `send_to_peer(..)?`, and what follows it if the message is sent
abbrev pub send_then : Env → Message → Connection → TaronNode → Connection → TaronNode → Turn
send_then env msg conn n conn' n' =
    if env.is_open
    then record { node = n'; conn = conn'; sent = (conn.out_tx, msg) ∷ []; verdict = going }
    else record { node = n; conn = conn; sent = []; verdict = failed }

abbrev pub send_to_peer : Env → Message → Connection → TaronNode → Turn
send_to_peer env msg conn n = send_then env msg conn n conn n

-- The request for the blocks after a height, a chunk at most and up to the height of the peer.
abbrev pub request_after : ℕ → ℕ → Message
request_after our_h peer_h =
    let from = add64 our_h 1 in
    Message.get_blocks from (min (sub64 (add64 from ibd_chunk_size) 1) peer_h)

-- Send the request and note the time.
abbrev pub request_blocks : Env → ℕ → ℕ → Connection → TaronNode → Turn
request_blocks env our_h peer_h conn n =
    send_then env (request_after our_h peer_h) conn n
      (record conn { last_ibd_request_at = some env.now }) n

-- Both are written under their locks, together.
abbrev pub with_chain : Blockchain → Ledger → TaronNode → TaronNode
with_chain c l n = record n { blockchain = c; ledger = l }

-- The difficulty, the accounts and the supply are stored in their atomics.
abbrev pub refresh : TaronNode → TaronNode
refresh n = record n {
  cached_difficulty = n.blockchain.difficulty;
  cached_account_count = account_count n.ledger;
  cached_total_supply = total_supply n.ledger;
}

-- `save_state`: the chain is in its database already.
unfoldable pub save_state : TaronNode → TaronNode
save_state n = record n { saved_ledger = if n.has_data_dir then some n.ledger else n.saved_ledger }

-- The IBD slot is held by another peer.
unfoldable pub other_driver : SocketAddr → TaronNode → Bool
other_driver addr n = elim n.ibd_peer [ none ↦ false | some a ↦ ite (addr_dec a addr) false true ]

unfoldable pub is_driver : SocketAddr → TaronNode → Bool
is_driver addr n = elim n.ibd_peer [ none ↦ false | some a ↦ ite (addr_dec a addr) true false ]

module _ (crypto : Crypto) where
  -- The transactions of a block leave the memory pool.
  unfoldable pub purge : List Transaction → Mempool → Mempool
  purge [] m = m
  purge (t ∷ ts) m = purge ts (remove (hash_hex crypto t) m)

  -- The node after a block has been accepted: all caches are fresh.
  unfoldable pub after_block : Block → List Transaction → TaronNode → TaronNode
  after_block b gone n =
      let fresh = record (refresh n) {
        chain_height = b.index;
        cached_best_hash = crypto.hex_encode b.hash;
      } in
      let saved = save_state fresh in
      record saved { mempool = purge b.transactions (purge gone saved.mempool) }
