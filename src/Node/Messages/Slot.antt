-- ===== src/Node/Messages/Slot.antt =====
-- The IBD slot of crates/taron-node/src/node.rs: while one peer drives the download of blocks, the
-- messages of the others touch neither the chain nor the slot.
use taron.Prelude.{ℕ, ◌≡◌, refl, true, some, List, [], ◌∷◌, map, arith}
use taron.Prelude.Words.{Bytes}
use taron.Wallet.{Crypto}
use taron.Transaction.{Transaction}
use taron.Finality.{TxAck}
use taron.Node.Mempool.{get_txs}
use taron.Node.Protocol.{Message}
use taron.Node.State.{TaronNode, Connection, Env, Turn, stay, other_driver}
use taron.Node.Handlers.Gossip.{
  handle_ping, handle_tx, accept_tx, handle_tx_hashes, handle_get_txs, send_all, handle_tx_ack,
  handle_pong, handle_hello, handle_get_peers, handle_peers, handle_get_tx_hashes,
  handle_get_tx_status,
}
use taron.Node.Handlers.Ibd.{
  handle_chain_height, handle_get_chain_height, handle_get_blocks, handle_blocks,
}
use taron.Node.Handlers.NewBlocks.{handle_new_block}
use taron.Node.Messages.{handle_message}

-- The chain and the slot of a node are those of another.
abbrev pub SameChain : TaronNode → TaronNode → Type 0
SameChain n' n = (n'.blockchain ≡ n.blockchain) × (n'.ibd_peer ≡ n.ibd_peer)

module _ (crypto : Crypto) where
  handle_tx-SameChain :
      (env : Env) (t : Transaction) (conn : Connection) (n : TaronNode)
      → SameChain (handle_tx crypto env t conn n).node n
  unfolding handle_tx accept_tx
  handle_tx-SameChain env t conn n = ground arith

  handle_tx_hashes-SameChain :
      (env : Env) (hashes : List Bytes) (conn : Connection) (n : TaronNode)
      → SameChain (handle_tx_hashes env hashes conn n).node n
  unfolding handle_tx_hashes
  handle_tx_hashes-SameChain env hashes conn n = ground arith

  send_all-SameChain :
      (env : Env) (msgs : List Message) (conn : Connection) (n : TaronNode)
      → SameChain (send_all env msgs conn n).node n
  unfolding send_all
  send_all-SameChain env [] conn n = (refl, refl)
  send_all-SameChain env (m ∷ ms) conn n = ground arith

  handle_tx_ack-SameChain :
      (env : Env) (ack : TxAck) (conn : Connection) (n : TaronNode)
      → SameChain (handle_tx_ack crypto env ack conn n).node n
  unfolding handle_tx_ack
  handle_tx_ack-SameChain env ack conn n = ground arith

  handle_chain_height-SameChain :
      (env : Env) (h : ℕ) (conn : Connection) (n : TaronNode)
      → other_driver conn.addr n ≡ true
      → SameChain (handle_chain_height env h conn n).node n
  unfolding handle_chain_height other_driver
  handle_chain_height-SameChain env h conn n other = ground arith

  -- While another peer holds the IBD slot, no message of a peer changes the chain or the slot, nor
  -- does its handler panic.
  pub handle_message-other_driver :
      (env : Env) (msg : Message) (conn : Connection) (n : TaronNode)
      → other_driver conn.addr n ≡ true
      → (turn : Turn) × (handle_message crypto env msg conn n ≡ some turn) × SameChain turn.node n
  unfolding handle_message handle_ping handle_pong handle_hello handle_get_peers handle_peers
      handle_get_tx_hashes handle_get_txs handle_get_chain_height handle_get_blocks
      handle_get_tx_status handle_blocks handle_new_block
  handle_message-other_driver env (Message.hello version port agent) conn n other =
      (handle_hello env version agent conn n, refl, (refl, refl))
  handle_message-other_driver env (Message.ping nonce) conn n other =
      (handle_ping env nonce conn n, refl, ground arith)
  handle_message-other_driver env (Message.pong nonce) conn n other =
      (handle_pong env conn n, refl, (refl, refl))
  handle_message-other_driver env Message.get_peers conn n other =
      (handle_get_peers env conn n, refl, ground arith)
  handle_message-other_driver env (Message.peers addrs) conn n other =
      (handle_peers addrs conn n, refl, (refl, refl))
  handle_message-other_driver env (Message.tx t) conn n other =
      (handle_tx crypto env t conn n, refl, handle_tx-SameChain env t conn n)
  handle_message-other_driver env Message.get_tx_hashes conn n other =
      (handle_get_tx_hashes env conn n, refl, ground arith)
  handle_message-other_driver env (Message.tx_hashes hashes) conn n other =
      (handle_tx_hashes env hashes conn n, refl, handle_tx_hashes-SameChain env hashes conn n)
  handle_message-other_driver env (Message.get_txs hashes) conn n other = (
    handle_get_txs env hashes conn n,
    refl,
    send_all-SameChain env (map Message.tx (get_txs hashes n.mempool)) conn n,
  )
  handle_message-other_driver env (Message.new_block b) conn n other =
      (stay conn n, rw (handle_new_block, other) refl, (refl, refl))
  handle_message-other_driver env Message.get_chain_height conn n other =
      (handle_get_chain_height env conn n, refl, ground arith)
  handle_message-other_driver env (Message.chain_height h) conn n other =
      (handle_chain_height env h conn n, refl, handle_chain_height-SameChain env h conn n other)
  handle_message-other_driver env (Message.get_blocks from to) conn n other =
      (handle_get_blocks env from to conn n, refl, ground arith)
  handle_message-other_driver env (Message.blocks bs) conn n other =
      (stay conn n, rw (handle_blocks, other) refl, (refl, refl))
  handle_message-other_driver env (Message.tx_ack ack) conn n other =
      (handle_tx_ack crypto env ack conn n, refl, handle_tx_ack-SameChain env ack conn n)
  handle_message-other_driver env (Message.get_tx_status tx_hash) conn n other =
      (handle_get_tx_status crypto env tx_hash conn n, refl, ground arith)
  handle_message-other_driver env (Message.tx_status tx_hash acks final) conn n other =
      (stay conn n, refl, (refl, refl))
