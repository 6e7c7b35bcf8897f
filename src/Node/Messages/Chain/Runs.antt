-- ===== src/Node/Messages/Chain/Runs.antt =====
-- The runs of a node, crates/taron-node/src/node.rs: the messages of all its peers in any order,
-- the ticks of the watchdog, mined blocks, and connections that begin and end.
use taron.Prelude.{
  ℕ, suc, ◌+◌, ◌*◌, ◌<◌, ◌≡◌, refl, Bool, Option, some, List, [], ◌∷◌, arith, inl, inr,
  Option-cases,
}
use taron.Prelude.Dict.{lookup}
use taron.Prelude.Words.{u64_mod}
use taron.Wallet.{Crypto}
use taron.Blockchain.Linked.{IsLinked}
use taron.Blockchain.Steps.{Fits, Fits-le}
use taron.Node.Peers.{SocketAddr, PeerManager, PeerDirection, inbound, outbound, addr_dec}
use taron.Node.State.{Turn}
use taron.Node.Handlers.Keepalive.{handle_tick}
use taron.Node.Handlers.Connections.{close_inbound, close_outbound, release, admit, dial, reap}
use taron.Node.Messages.{
  Event, System, incoming, dialled, received, ticked, lost, reaped, mined, close, settle_turn,
  open_connection, join, serve, run,
}
use taron.Node.Messages.Chain.{submit_mined_block-Fits}
use taron.Node.Messages.Chain.Others.{carried, handle_message-Keeps, handle_tick-blockchain}

-- The blocks that come with an event.
abbrev pub blocks_in : Event → ℕ
blocks_in (received _ _ msg) = carried msg
blocks_in (mined _ _) = 1
blocks_in _ = 0

abbrev pub blocks_of : List Event → ℕ
blocks_of [] = 0
blocks_of (e ∷ es) = blocks_in e + blocks_of es

module _ (crypto : Crypto) where
  settle_turn-blockchain :
      (addr : SocketAddr) (direction : PeerDirection) (turn : Turn) (s : System)
      → (settle_turn addr direction turn s).node.blockchain ≡ turn.node.blockchain
  unfolding settle_turn close close_inbound close_outbound release
  settle_turn-blockchain addr direction turn s = ground arith

  close-blockchain :
      (addr : SocketAddr) (direction : PeerDirection) (s : System)
      → (close addr direction s).node.blockchain ≡ s.node.blockchain
  unfolding close close_inbound close_outbound release
  close-blockchain addr direction s = ground arith

  join-blockchain :
      (now : ℕ) (addr : SocketAddr) (direction : PeerDirection) (out_tx : ℕ)
      (answer : Bool × PeerManager) (s : System)
      → (join now addr direction out_tx answer s).node.blockchain ≡ s.node.blockchain
  unfolding join open_connection
  join-blockchain now addr direction out_tx answer s = ground arith

  -- An event is served, and the chain has room for `k` blocks.
  abbrev Serves : ℕ → Option System → Type 0
  Serves k o = (s' : System) × (o ≡ some s') × Fits crypto k s'.node.blockchain

  serve-Serves :
      (k : ℕ) (e : Event) (s : System)
      → Fits crypto (3 * blocks_in e + k) s.node.blockchain
      → Serves k (serve crypto e s)
  unfolding serve
  serve-Serves k (incoming now addr out_tx) s f =
      let answer = admit now addr s.node.peers in
      (
        join now addr inbound out_tx answer s,
        refl,
        rw (join-blockchain now addr inbound out_tx answer s)
            (Fits-le crypto (3 * 0 + k) k s.node.blockchain (omega arith) f),
      )
  serve-Serves k (dialled now outcome addr out_tx) s f =
      let answer = dial now outcome addr s.node.peers in
      (
        join now addr outbound out_tx answer s,
        refl,
        rw (join-blockchain now addr outbound out_tx answer s)
            (Fits-le crypto (3 * 0 + k) k s.node.blockchain (omega arith) f),
      )
  serve-Serves k (received env addr msg) s f =
      let f' = Fits-le crypto (3 * carried msg + k) k s.node.blockchain (omega arith) f in
      elim (Option-cases (lookup addr_dec addr s.connections)) [
        | inl closed ↦ (s, rw (serve, closed) refl, f')
        | inr ((direction, conn), served) ↦
            let (turn, e, f₁) =
              handle_message-Keeps crypto k env msg (record conn { last_recv = env.now }) s.node
                f in
            (
              settle_turn addr direction turn s,
              rw (serve, served, e) refl,
              rw (settle_turn-blockchain addr direction turn s) f₁,
            )
      ]
  serve-Serves k (ticked env addr) s f =
      let f' = Fits-le crypto (3 * 0 + k) k s.node.blockchain (omega arith) f in
      elim (Option-cases (lookup addr_dec addr s.connections)) [
        | inl closed ↦ (s, rw (serve, closed) refl, f')
        | inr ((direction, conn), served) ↦
            let turn = handle_tick env conn s.node in
            (
              settle_turn addr direction turn s,
              rw (serve, served) refl,
              rw
                  (
                    settle_turn-blockchain addr direction turn s,
                    handle_tick-blockchain crypto env conn s.node,
                  )
                  f',
            )
      ]
  serve-Serves k (lost addr) s f =
      let f' = Fits-le crypto (3 * 0 + k) k s.node.blockchain (omega arith) f in
      elim (Option-cases (lookup addr_dec addr s.connections)) [
        | inl closed ↦ (s, rw (serve, closed) refl, f')
        | inr ((direction, conn), served) ↦ (
          close addr direction s,
          rw (serve, served) refl,
          rw (close-blockchain addr direction s) f',
        )
      ]
  serve-Serves k (reaped now) s f = (
    record s { node = record s.node { peers = reap now s.node.peers } },
    refl,
    Fits-le crypto (3 * 0 + k) k s.node.blockchain (omega arith) f,
  )
  serve-Serves k (mined now_ms b) s f =
      let (r, n', sent, e, f') =
        submit_mined_block-Fits crypto k now_ms b s.node
          (Fits-le crypto (3 * 1 + k) (suc k) s.node.blockchain (omega arith) f) in
      (record s { node = n' }, rw (serve, e) refl, f')

  run-Serves :
      (k : ℕ) (es : List Event) (s : System)
      → Fits crypto (3 * blocks_of es + k) s.node.blockchain
      → Serves k (run crypto es s)
  unfolding run
  run-Serves k [] s f = (s, refl, Fits-le crypto (3 * 0 + k) k s.node.blockchain (omega arith) f)
  run-Serves k (e ∷ es) s f =
      let later = 3 * blocks_of es + k in
      let (s₁, served, f₁) = serve-Serves later e s (
        Fits-le crypto (3 * (blocks_in e + blocks_of es) + k) (3 * blocks_in e + later)
          s.node.blockchain (omega arith) f) in
      let (s', ran, f') = run-Serves k es s₁ f₁ in (s', rw (run, served) ran, f')

  -- A node whose chain is linked serves every sequence of messages from its peers, ticks, mined
  -- blocks and changes of connections without a panic, and its chain is linked at the end, as long
  -- as its height and three times the number of blocks that arrive stay below 2 ^ 64.
  pub run-IsLinked :
      (es : List Event) (s : System)
      → IsLinked crypto s.node.blockchain
      → s.node.blockchain.height + 3 * blocks_of es < u64_mod
      → (s' : System) × (run crypto es s ≡ some s') × IsLinked crypto s'.node.blockchain
  run-IsLinked es s linked room =
      let (s', e, f) = run-Serves 0 es s (record { linked = linked; room = omega arith }) in
      (s', e, f.linked)
