-- ===== src/Node/Status.antt =====
-- The start of a node in crates/taron-node/src/node.rs, its status, and what it announces of its own.
-- The chain and the ledger that are loaded, and the wallet that is generated, are arguments.
use taron.Prelude.{ℕ, Bool, false, Option, none, some, List, []}
use taron.Prelude.Words.{Bytes}
use taron.Wallet.{Crypto}
use taron.Transaction.{Transaction}
use taron.Ledger.{Ledger, account_count, total_supply}
use taron.Block.{Block}
use taron.Blockchain.{Blockchain, tip}
use taron.Node.Mempool.{len}
use taron.Node.Finality.{new_manager}
use taron.Node.Peers.{new_peers, count, inbound_count, outbound_count, broadcast}
use taron.Node.Protocol.{Message}
use taron.Node.State.{TaronNode}

pub record NodeStatus : Type 0 where
  pub listen_port : ℕ
  pub peer_count : ℕ
  pub inbound_peers : ℕ
  pub outbound_peers : ℕ
  pub mempool_size : ℕ
  pub account_total : ℕ
  pub supply : ℕ
  pub height : ℕ
  pub difficulty : ℕ
  pub best_hash : Bytes

-- `status` reads the chain and the ledger from the caches.
unfoldable pub status : ℕ → TaronNode → NodeStatus
status listen_port n = record {
  listen_port = listen_port;
  peer_count = count n.peers;
  inbound_peers = inbound_count n.peers;
  outbound_peers = outbound_count n.peers;
  mempool_size = len n.mempool;
  account_total = n.cached_account_count;
  supply = n.cached_total_supply;
  height = n.chain_height;
  difficulty = n.cached_difficulty;
  best_hash = n.cached_best_hash;
}

-- `broadcast_tx`
unfoldable pub broadcast_tx : Transaction → TaronNode → List (ℕ × Message)
broadcast_tx t n = broadcast n.peers (Message.tx t) none

-- `broadcast_block`
unfoldable pub broadcast_block : Block → TaronNode → List (ℕ × Message)
broadcast_block b n = broadcast n.peers (Message.new_block b) none

module _ (crypto : Crypto) where
  -- `TaronNode::new`; `none` is the panic of the blockchain.
  unfoldable pub new_node : Bool → Bytes → Blockchain → Ledger → Option TaronNode
  new_node has_data_dir node_wallet c l = elim (tip c) [
    | none ↦ none
    | some t ↦ some (record {
      mempool = [];
      peers = new_peers;
      peer_known_txs = [];
      discovered_peers = [];
      ledger = l;
      blockchain = c;
      finality = new_manager 1 node_wallet;
      has_data_dir = has_data_dir;
      saved_ledger = none;
      sync_ready = false;
      ibd_peer = none;
      chain_height = c.height;
      max_seen_height = c.height;
      cached_difficulty = c.difficulty;
      cached_best_hash = crypto.hex_encode t.hash;
      cached_account_count = account_count l;
      cached_total_supply = total_supply l;
    })
  ]
