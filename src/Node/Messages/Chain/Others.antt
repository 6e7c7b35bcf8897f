-- ===== src/Node/Messages/Chain/Others.antt =====
-- The messages to a node of crates/taron-node/src/node.rs: those that carry no blocks leave the chain
-- alone, and none of them panics.
use taron.Prelude.{ℕ, suc, ◌+◌, ◌*◌, ◌≡◌, refl, some, List, [], ◌∷◌, map, length, arith}
use taron.Prelude.Words.{Bytes}
use taron.Wallet.{Crypto}
use taron.Transaction.{Transaction}
use taron.Finality.{TxAck}
use taron.Blockchain.Steps.{Fits, Fits-le}
use taron.Node.Mempool.{get_txs}
use taron.Node.Protocol.{Message}
use taron.Node.State.{TaronNode, Connection, Env, Turn, stay, send_then}
use taron.Node.Handlers.Gossip.{
  handle_ping, handle_tx, accept_tx, handle_tx_hashes, handle_get_txs, send_all, handle_tx_ack,
  handle_pong, handle_hello, handle_get_peers, handle_peers, handle_get_tx_hashes,
  handle_get_tx_status,
}
use taron.Node.Handlers.Ibd.{handle_chain_height, handle_get_chain_height, handle_get_blocks}
use taron.Node.Handlers.Keepalive.{handle_tick, then_ping, check_stall, watchdog}
use taron.Node.Messages.{handle_message}
use taron.Node.Messages.Chain.{Keeps, handle_new_block-Keeps}
use taron.Node.Messages.Chain.Ibd.{handle_blocks-Keeps}

-- The blocks that a message carries.
abbrev pub carried : Message → ℕ
carried (Message.new_block _) = 1
carried (Message.blocks bs) = length bs
carried _ = 0

module _ (crypto : Crypto) where
  -- The chain of the node does not depend on the handlers of transactions and peers.
  handle_tx-blockchain :
      (env : Env) (t : Transaction) (conn : Connection) (n : TaronNode)
      → (handle_tx crypto env t conn n).node.blockchain ≡ n.blockchain
  unfolding handle_tx accept_tx
  handle_tx-blockchain env t conn n = ground arith

  handle_tx_hashes-blockchain :
      (env : Env) (hashes : List Bytes) (conn : Connection) (n : TaronNode)
      → (handle_tx_hashes env hashes conn n).node.blockchain ≡ n.blockchain
  unfolding handle_tx_hashes
  handle_tx_hashes-blockchain env hashes conn n = ground arith

  send_all-blockchain :
      (env : Env) (msgs : List Message) (conn : Connection) (n : TaronNode)
      → (send_all env msgs conn n).node.blockchain ≡ n.blockchain
  unfolding send_all
  send_all-blockchain env [] conn n = refl
  send_all-blockchain env (m ∷ ms) conn n = ground arith

  handle_tx_ack-blockchain :
      (env : Env) (ack : TxAck) (conn : Connection) (n : TaronNode)
      → (handle_tx_ack crypto env ack conn n).node.blockchain ≡ n.blockchain
  unfolding handle_tx_ack
  handle_tx_ack-blockchain env ack conn n = ground arith

  handle_chain_height-blockchain :
      (env : Env) (h : ℕ) (conn : Connection) (n : TaronNode)
      → (handle_chain_height env h conn n).node.blockchain ≡ n.blockchain
  unfolding handle_chain_height
  handle_chain_height-blockchain env h conn n = ground arith

  pub handle_tick-blockchain :
      (env : Env) (conn : Connection) (n : TaronNode)
      → (handle_tick env conn n).node.blockchain ≡ n.blockchain
  unfolding handle_tick then_ping check_stall watchdog
  handle_tick-blockchain env conn n = ground arith

  -- A handler that leaves the chain alone.
  same-Keeps :
      (k : ℕ) (turn : Turn) (n : TaronNode)
      → turn.node.blockchain ≡ n.blockchain
      → Fits crypto (3 * 0 + k) n.blockchain
      → Keeps crypto k (some turn)
  same-Keeps k turn n e f =
      (turn, refl, rw e (Fits-le crypto (3 * 0 + k) k n.blockchain (omega arith) f))

  send_to_peer-blockchain :
      (env : Env) (msg : Message) (conn conn' : Connection) (n n' : TaronNode)
      → n'.blockchain ≡ n.blockchain
      → (send_then env msg conn n conn' n').node.blockchain ≡ n.blockchain
  send_to_peer-blockchain env msg conn conn' n n' e = ground arith

  pub handle_message-Keeps :
      (k : ℕ) (env : Env) (msg : Message) (conn : Connection) (n : TaronNode)
      → Fits crypto (3 * carried msg + k) n.blockchain
      → Keeps crypto k (handle_message crypto env msg conn n)
  unfolding handle_message handle_ping handle_pong handle_hello handle_get_peers handle_peers
      handle_get_tx_hashes handle_get_txs handle_get_chain_height handle_get_blocks
      handle_get_tx_status
  handle_message-Keeps k env (Message.hello version port agent) conn n f =
      same-Keeps k (handle_hello env version agent conn n) n refl f
  handle_message-Keeps k env (Message.ping nonce) conn n f =
      same-Keeps k (handle_ping env nonce conn n) n (ground arith) f
  handle_message-Keeps k env (Message.pong nonce) conn n f =
      same-Keeps k (handle_pong env conn n) n refl f
  handle_message-Keeps k env Message.get_peers conn n f =
      same-Keeps k (handle_get_peers env conn n) n (ground arith) f
  handle_message-Keeps k env (Message.peers addrs) conn n f =
      same-Keeps k (handle_peers addrs conn n) n refl f
  handle_message-Keeps k env (Message.tx t) conn n f =
      same-Keeps k (handle_tx crypto env t conn n) n (handle_tx-blockchain env t conn n) f
  handle_message-Keeps k env Message.get_tx_hashes conn n f =
      same-Keeps k (handle_get_tx_hashes env conn n) n (ground arith) f
  handle_message-Keeps k env (Message.tx_hashes hashes) conn n f =
      same-Keeps k (handle_tx_hashes env hashes conn n) n
        (handle_tx_hashes-blockchain env hashes conn n) f
  handle_message-Keeps k env (Message.get_txs hashes) conn n f =
      same-Keeps k (handle_get_txs env hashes conn n) n
        (send_all-blockchain env (map Message.tx (get_txs hashes n.mempool)) conn n) f
  handle_message-Keeps k env (Message.new_block b) conn n f =
      handle_new_block-Keeps crypto k env b conn n
        (Fits-le crypto (3 * 1 + k) (suc (suc (suc k))) n.blockchain (omega arith) f)
  handle_message-Keeps k env Message.get_chain_height conn n f =
      same-Keeps k (handle_get_chain_height env conn n) n (ground arith) f
  handle_message-Keeps k env (Message.chain_height h) conn n f =
      same-Keeps k (handle_chain_height env h conn n) n
        (handle_chain_height-blockchain env h conn n) f
  handle_message-Keeps k env (Message.get_blocks from to) conn n f =
      same-Keeps k (handle_get_blocks env from to conn n) n (ground arith) f
  handle_message-Keeps k env (Message.blocks bs) conn n f =
      handle_blocks-Keeps crypto k env bs conn n (
        Fits-le crypto (3 * length bs + k) (length bs + length bs + k) n.blockchain (omega arith) f)
  handle_message-Keeps k env (Message.tx_ack ack) conn n f =
      same-Keeps k (handle_tx_ack crypto env ack conn n) n (handle_tx_ack-blockchain env ack conn n)
        f
  handle_message-Keeps k env (Message.get_tx_status tx_hash) conn n f =
      same-Keeps k (handle_get_tx_status crypto env tx_hash conn n) n (ground arith) f
  handle_message-Keeps k env (Message.tx_status tx_hash acks final) conn n f =
      same-Keeps k (stay conn n) n refl f
