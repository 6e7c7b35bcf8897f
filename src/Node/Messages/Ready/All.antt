-- ===== src/Node/Messages/Ready/All.antt =====
-- `sync_ready` of crates/taron-node/src/node.rs over all messages.
use taron.Prelude.{
  ℕ, ◌≤◌, ◌≡◌, ap, true, false, Option, none, some, List, [], ◌∷◌, map, arith, inl, inr,
  Option-cases,
}
use taron.Prelude.Words.{Bytes}
use taron.Wallet.{Crypto}
use taron.Error.{ok, err}
use taron.Transaction.{Transaction}
use taron.Finality.{TxAck}
use taron.Block.{Block}
use taron.Node.Mempool.{get_txs}
use taron.Node.Protocol.{Message}
use taron.Node.State.{TaronNode, Connection, Env, Turn, stay, with_chain, after_block, save_state}
use taron.Node.Handlers.Gossip.{
  handle_ping, handle_tx, accept_tx, handle_tx_hashes, handle_get_txs, send_all, handle_tx_ack,
  handle_pong, handle_hello, handle_get_peers, handle_peers, handle_get_tx_hashes,
  handle_get_tx_status,
}
use taron.Node.Handlers.NewBlocks.{
  request_ahead, accepted, replace_tip, compete, handle_rejected, try_block, handle_new_block,
}
use taron.Node.Handlers.Ibd.{handle_chain_height, handle_get_chain_height, handle_get_blocks}
use taron.Node.Messages.{handle_message}
use taron.Node.Messages.Ready.{RisesAtTip, handle_chain_height-RisesAtTip, handle_blocks-RisesAtTip}

-- The flag stays down.
abbrev StaysDown : TaronNode → Turn → Type 0
StaysDown n turn = n.sync_ready ≡ false → turn.node.sync_ready ≡ false

module _ (crypto : Crypto) where
  handle_tx-StaysDown :
      (env : Env) (t : Transaction) (conn : Connection) (n : TaronNode)
      → StaysDown n (handle_tx crypto env t conn n)
  unfolding handle_tx accept_tx
  handle_tx-StaysDown env t conn n down = ground arith

  handle_tx_hashes-StaysDown :
      (env : Env) (hashes : List Bytes) (conn : Connection) (n : TaronNode)
      → StaysDown n (handle_tx_hashes env hashes conn n)
  unfolding handle_tx_hashes
  handle_tx_hashes-StaysDown env hashes conn n down = ground arith

  send_all-StaysDown :
      (env : Env) (msgs : List Message) (conn : Connection) (n : TaronNode)
      → StaysDown n (send_all env msgs conn n)
  unfolding send_all
  send_all-StaysDown env [] conn n down = down
  send_all-StaysDown env (m ∷ ms) conn n down = ground arith

  handle_tx_ack-StaysDown :
      (env : Env) (ack : TxAck) (conn : Connection) (n : TaronNode)
      → StaysDown n (handle_tx_ack crypto env ack conn n)
  unfolding handle_tx_ack
  handle_tx_ack-StaysDown env ack conn n down = ground arith

  replace_tip-StaysDown :
      (env : Env) (b : Block) (conn : Connection) (n : TaronNode) (turn : Turn)
      → replace_tip crypto env b conn n ≡ some turn
      → StaysDown n turn
  unfolding replace_tip accepted after_block save_state
  replace_tip-StaysDown env b conn n turn h down = ground arith

  handle_rejected-StaysDown :
      (env : Env) (b : Block) (conn : Connection) (n : TaronNode) (turn : Turn)
      → handle_rejected crypto env b conn n ≡ some turn
      → StaysDown n turn
  unfolding handle_rejected compete request_ahead
  handle_rejected-StaysDown env b conn n turn h down =
      ground (arith, replace_tip-StaysDown env b conn n turn)

  handle_new_block-StaysDown :
      (env : Env) (b : Block) (conn : Connection) (n : TaronNode) (turn : Turn)
      → handle_new_block crypto env b conn n ≡ some turn
      → StaysDown n turn
  unfolding handle_new_block accepted after_block save_state request_ahead
  handle_new_block-StaysDown env b conn n turn h down =
      elim (Option-cases (try_block crypto env b n)) [
        | inl panicked ↦ ground arith
        | inr ((ok u, c, l), e) ↦ ground arith
        | inr ((err x, c, l), e) ↦
            ground (arith, handle_rejected-StaysDown env b conn (with_chain c l n) turn)
      ]

  down-RisesAtTip : (n : TaronNode) (turn : Turn) → StaysDown n turn → RisesAtTip n turn.node
  down-RisesAtTip n turn stays down up = absurd (ground (arith, stays down))

  same-RisesAtTip :
      (n : TaronNode) (t turn : Turn)
      → StaysDown n t
      → ◌≡◌ {A = Option Turn} (some t) (some turn)
      → RisesAtTip n turn.node
  same-RisesAtTip n t turn stays e down up =
      let same : t ≡ turn = ground arith in
      absurd (ground (arith, stays down, ap (λ (x : Turn). x.node.sync_ready) same))

  chain_height-RisesAtTip :
      (env : Env) (h : ℕ) (conn : Connection) (n : TaronNode) (turn : Turn)
      → handle_chain_height env h conn n ≡ turn
      → RisesAtTip n turn.node
  chain_height-RisesAtTip env h conn n turn same down up =
      rw (← same) (handle_chain_height-RisesAtTip env h conn n down (rw (← same) at up))

  -- Whenever a message raises the flag that mining waits for, nobody drives a download, and no peer
  -- is known to have a higher chain than ours.
  pub handle_message-RisesAtTip :
      (env : Env) (msg : Message) (conn : Connection) (n : TaronNode) (turn : Turn)
      → handle_message crypto env msg conn n ≡ some turn
      → n.sync_ready ≡ false
      → turn.node.sync_ready ≡ true
      → (turn.node.ibd_peer ≡ none) × (turn.node.max_seen_height ≤ turn.node.blockchain.height)
  unfolding handle_message handle_ping handle_pong handle_hello handle_get_peers handle_peers
      handle_get_tx_hashes handle_get_txs handle_get_chain_height handle_get_blocks
      handle_get_tx_status
  handle_message-RisesAtTip env (Message.hello version port agent) conn n turn e =
      same-RisesAtTip n (handle_hello env version agent conn n) turn (λ d. d) e
  handle_message-RisesAtTip env (Message.ping nonce) conn n turn e =
      same-RisesAtTip n (handle_ping env nonce conn n) turn (λ d. ground arith) e
  handle_message-RisesAtTip env (Message.pong nonce) conn n turn e =
      same-RisesAtTip n (handle_pong env conn n) turn (λ d. d) e
  handle_message-RisesAtTip env Message.get_peers conn n turn e =
      same-RisesAtTip n (handle_get_peers env conn n) turn (λ d. ground arith) e
  handle_message-RisesAtTip env (Message.peers addrs) conn n turn e =
      same-RisesAtTip n (handle_peers addrs conn n) turn (λ d. d) e
  handle_message-RisesAtTip env (Message.tx t) conn n turn e =
      same-RisesAtTip n (handle_tx crypto env t conn n) turn (handle_tx-StaysDown env t conn n) e
  handle_message-RisesAtTip env Message.get_tx_hashes conn n turn e =
      same-RisesAtTip n (handle_get_tx_hashes env conn n) turn (λ d. ground arith) e
  handle_message-RisesAtTip env (Message.tx_hashes hashes) conn n turn e =
      same-RisesAtTip n (handle_tx_hashes env hashes conn n) turn
        (handle_tx_hashes-StaysDown env hashes conn n) e
  handle_message-RisesAtTip env (Message.get_txs hashes) conn n turn e =
      same-RisesAtTip n (handle_get_txs env hashes conn n) turn
        (send_all-StaysDown env (map Message.tx (get_txs hashes n.mempool)) conn n) e
  handle_message-RisesAtTip env Message.get_chain_height conn n turn e =
      same-RisesAtTip n (handle_get_chain_height env conn n) turn (λ d. ground arith) e
  handle_message-RisesAtTip env (Message.get_blocks from to) conn n turn e =
      same-RisesAtTip n (handle_get_blocks env from to conn n) turn (λ d. ground arith) e
  handle_message-RisesAtTip env (Message.tx_ack ack) conn n turn e =
      same-RisesAtTip n (handle_tx_ack crypto env ack conn n) turn
        (handle_tx_ack-StaysDown env ack conn n) e
  handle_message-RisesAtTip env (Message.get_tx_status tx_hash) conn n turn e =
      same-RisesAtTip n (handle_get_tx_status crypto env tx_hash conn n) turn (λ d. ground arith) e
  handle_message-RisesAtTip env (Message.tx_status tx_hash acks final) conn n turn e =
      same-RisesAtTip n (stay conn n) turn (λ d. d) e
  handle_message-RisesAtTip env (Message.new_block b) conn n turn e =
      down-RisesAtTip n turn (handle_new_block-StaysDown env b conn n turn e)
  handle_message-RisesAtTip env (Message.chain_height h) conn n turn e =
      chain_height-RisesAtTip env h conn n turn (ground arith)
  handle_message-RisesAtTip env (Message.blocks bs) conn n turn e =
      handle_blocks-RisesAtTip crypto env bs conn n turn e
