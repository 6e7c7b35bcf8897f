-- ===== src/Node/Messages.antt =====
-- `handle_messages` of crates/taron-node/src/node.rs as a whole: what is done with each message, and
-- the runs of a node that serves several connections, one event after the other.
use taron.Prelude.{
  ℕ, ◌+◌, Bool, true, false, Option, none, some, List, [], ◌∷◌, length, if◌then◌else◌,
}
use taron.Prelude.Dict.{Dict, lookup, insert, erase}
use taron.Wallet.{Crypto}
use taron.Block.{Block}
use taron.Node.Peers.{
  SocketAddr, PeerManager, PeerDirection, inbound, outbound, addr_dec, add_peer, set_broadcast_tx,
}
use taron.Node.Protocol.{Message}
use taron.Node.State.{TaronNode, Connection, Env, Turn, Verdict, going, returned, failed, stay}
use taron.Node.Handlers.Gossip.{
  handle_hello, handle_ping, handle_pong, handle_get_peers, handle_peers, handle_tx,
  handle_get_tx_hashes, handle_tx_hashes, handle_get_txs, handle_tx_ack, handle_get_tx_status,
}
use taron.Node.Handlers.NewBlocks.{handle_new_block, submit_mined_block}
use taron.Node.Handlers.Ibd.{
  handle_get_chain_height, handle_get_blocks, handle_chain_height, handle_blocks,
}
use taron.Node.Handlers.Keepalive.{handle_tick}
use taron.Node.Handlers.Connections.{
  Dial, admit, dial, new_connection, close_inbound, close_outbound, reap,
}
pub mod Chain
pub mod Slot
pub mod Accepted
pub mod Gossiped
pub mod Ready

-- What happens to a node.
pub data Event : Type 0 where
  incoming : (now : ℕ) (addr : SocketAddr) (out_tx : ℕ) → Event
  dialled : (now : ℕ) (outcome : Dial) (addr : SocketAddr) (out_tx : ℕ) → Event
  received : (env : Env) (addr : SocketAddr) (msg : Message) → Event
  ticked : (env : Env) (addr : SocketAddr) → Event
  lost : (addr : SocketAddr) → Event
  reaped : (now : ℕ) → Event
  mined : (now_ms : ℕ) (b : Block) → Event

-- The node and the connections that are served.
pub record System : Type 0 where
  pub node : TaronNode
  pub connections : Dict SocketAddr (PeerDirection × Connection)

-- The end of a connection.
unfoldable pub close : SocketAddr → PeerDirection → System → System
close addr direction s = record {
  node = elim direction [
    | inbound ↦ (close_inbound addr s.node).0
    | outbound ↦ (close_outbound addr s.node).0
  ];
  connections = erase addr_dec addr s.connections;
}

-- The state after a turn of a connection, which ends unless it goes on.
unfoldable pub settle_turn : SocketAddr → PeerDirection → Turn → System → System
settle_turn addr direction turn s = elim turn.verdict [
  | going ↦ record {
    node = turn.node;
    connections = insert addr_dec addr (direction, turn.conn) s.connections;
  }
  | returned ↦ close addr direction (record s { node = turn.node })
  | failed ↦ close addr direction (record s { node = turn.node })
]

-- A connection that is served from now on.
unfoldable pub open_connection : ℕ → SocketAddr → PeerDirection → ℕ → System → System
open_connection now addr direction out_tx s =
    let n = record s.node { peers = set_broadcast_tx addr out_tx s.node.peers } in
    record {
      node = n;
      connections =
          insert addr_dec addr (direction, new_connection now addr out_tx n) s.connections;
    }

-- The peer table has answered; the connection is served if the peer was added.
unfoldable pub join : ℕ → SocketAddr → PeerDirection → ℕ → Bool × PeerManager → System → System
join now addr direction out_tx (added, peers) s =
    let s = record s { node = record s.node { peers = peers } } in
    if added then open_connection now addr direction out_tx s else s

module _ (crypto : Crypto) where
  -- The `match` on the message; `none` is a panic of the blockchain.
  unfoldable pub handle_message : Env → Message → Connection → TaronNode → Option Turn
  handle_message env (Message.hello version _ agent) conn n =
      some (handle_hello env version agent conn n)
  handle_message env (Message.ping nonce) conn n = some (handle_ping env nonce conn n)
  handle_message env (Message.pong _) conn n = some (handle_pong env conn n)
  handle_message env Message.get_peers conn n = some (handle_get_peers env conn n)
  handle_message env (Message.peers addrs) conn n = some (handle_peers addrs conn n)
  handle_message env (Message.tx t) conn n = some (handle_tx crypto env t conn n)
  handle_message env Message.get_tx_hashes conn n = some (handle_get_tx_hashes env conn n)
  handle_message env (Message.tx_hashes hashes) conn n = some (handle_tx_hashes env hashes conn n)
  handle_message env (Message.get_txs hashes) conn n = some (handle_get_txs env hashes conn n)
  handle_message env (Message.new_block b) conn n = handle_new_block crypto env b conn n
  handle_message env Message.get_chain_height conn n = some (handle_get_chain_height env conn n)
  handle_message env (Message.chain_height h) conn n = some (handle_chain_height env h conn n)
  handle_message env (Message.get_blocks from to) conn n =
      some (handle_get_blocks env from to conn n)
  handle_message env (Message.blocks bs) conn n = handle_blocks crypto env bs conn n
  handle_message env (Message.tx_ack ack) conn n = some (handle_tx_ack crypto env ack conn n)
  handle_message env (Message.get_tx_status tx_hash) conn n =
      some (handle_get_tx_status crypto env tx_hash conn n)
  handle_message env (Message.tx_status _ _ _) conn n = some (stay conn n)

  -- One event; one for a connection that is not served does nothing.
  unfoldable pub serve : Event → System → Option System
  serve (incoming now addr out_tx) s =
      some (join now addr inbound out_tx (admit now addr s.node.peers) s)
  serve (dialled now outcome addr out_tx) s =
      some (join now addr outbound out_tx (dial now outcome addr s.node.peers) s)
  serve (received env addr msg) s = elim (lookup addr_dec addr s.connections) [
    | none ↦ some s
    | some (direction, conn) ↦
        elim (handle_message env msg (record conn { last_recv = env.now }) s.node) [
          | none ↦ none
          | some turn ↦ some (settle_turn addr direction turn s)
        ]
  ]
  serve (ticked env addr) s = elim (lookup addr_dec addr s.connections) [
    | none ↦ some s
    | some (direction, conn) ↦ some (settle_turn addr direction (handle_tick env conn s.node) s)
  ]
  serve (lost addr) s = elim (lookup addr_dec addr s.connections) [
    | none ↦ some s
    | some (direction, conn) ↦ some (close addr direction s)
  ]
  serve (reaped now) s = some (record s { node = record s.node { peers = reap now s.node.peers } })
  serve (mined now_ms b) s = elim (submit_mined_block crypto now_ms b s.node) [
    | none ↦ none
    | some (_, n, _) ↦ some (record s { node = n })
  ]

  -- The events one after the other; `none` if one of them panics.
  unfoldable pub run : List Event → System → Option System
  run [] s = some s
  run (e ∷ es) s = elim (serve e s) [ none ↦ none | some s' ↦ run es s' ]
