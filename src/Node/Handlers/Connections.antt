-- ===== src/Node/Handlers/Connections.antt =====
-- How connections begin and end in crates/taron-node/src/node.rs: the loop of `run` that accepts
-- them, `connect_to_peer`, `handle_peer`, and the task that removes stale peers. Sockets and tasks are
-- left out; that a connection is made is an argument.
use taron.Prelude.{ℕ, Bool, true, false, not, none, List, [], ◌∷◌, ◌&&◌, ltb, ◌==◌, if◌then◌else◌}
use taron.Prelude.Words.{saturating_sub}
use taron.Prelude.Text.{codes, eq_bytes}
use taron.Node.Peers.{
  IpAddr, SocketAddr, PeerInfo, PeerManager, inbound, outbound, is_banned, track_connection_attempt,
  can_accept, add_peer, remove_peer, update_peer, take_broadcast_tx, all_peers, broadcast,
}
use taron.Node.Protocol.{Message}
use taron.Node.State.{TaronNode, Connection, is_driver}
use taron.Node.Handlers.Gossip.{has_ip}

-- The checks of `run` before a connection is served; the later ones are made only if the earlier
-- ones pass.
unfoldable pub admit : ℕ → SocketAddr → PeerManager → Bool × PeerManager
admit now addr m =
    let (banned, m) = is_banned now addr.0 m in
    if banned
    then (false, m)
    else (let (within, m) = track_connection_attempt now addr.0 m in
        if within && can_accept inbound m then add_peer now addr inbound m else (false, m))

-- The local variables at the start of `handle_messages`.
unfoldable pub new_connection : ℕ → SocketAddr → ℕ → TaronNode → Connection
new_connection now addr out_tx n = record {
  addr = addr;
  out_tx = out_tx;
  peer_height = none;
  last_ibd_progress_height = n.chain_height;
  last_ibd_progress_at = now;
  last_ibd_request_at = none;
  last_recv = now;
}

unfoldable pub user_agent : List ℕ
user_agent = codes "taron/0.2.0"

-- The first messages of `handle_peer`.
unfoldable pub inbound_greeting : ℕ → List Message
inbound_greeting our_port = Message.hello 1 our_port user_agent ∷ Message.get_chain_height ∷ []

-- The first messages of `connect_to_peer`.
unfoldable pub outbound_greeting : ℕ → List Message
outbound_greeting our_port =
    Message.hello 1 our_port user_agent
    ∷ Message.get_chain_height
    ∷ Message.get_peers
    ∷ Message.get_tx_hashes
    ∷ []

-- The attempt of `connect_to_peer`: registered, refused by the network, our own, or connected.
pub data Dial : Type 0 where
  unreachable own_port reached : Dial

-- The table after the attempt, and whether the peer is served. A peer that cannot be reached stays
-- in the table.
unfoldable pub dial : ℕ → Dial → SocketAddr → PeerManager → Bool × PeerManager
dial now outcome addr m =
    let (added, m) = add_peer now addr outbound m in
    if added
    then elim outcome [
      | unreachable ↦ (false, m)
      | own_port ↦ (false, remove_peer addr m)
      | reached ↦ (true, m)
    ]
    else (false, m)

-- The IBD slot is released if this peer drives the download.
unfoldable pub release : SocketAddr → TaronNode → Bool × TaronNode
release addr n =
    if is_driver addr n
    then (true, record n { ibd_peer = none; sync_ready = false })
    else (false, n)

-- The other peers are asked for their height, if the slot was released.
abbrev pub ask_heights : Bool → TaronNode → List (ℕ × Message)
ask_heights released n = if released then broadcast n.peers Message.get_chain_height none else []

-- The end of `connect_to_peer`.
unfoldable pub close_outbound : SocketAddr → TaronNode → TaronNode × List (ℕ × Message)
close_outbound addr n =
    let (released, n) = release addr n in
    let n = record n { peers = remove_peer addr n.peers } in (n, ask_heights released n)

-- The end of `handle_peer`, and of the task that calls it.
unfoldable pub close_inbound : SocketAddr → TaronNode → TaronNode × List (ℕ × Message)
close_inbound addr n =
    let (released, n) = release addr n in
    let n = record n { peers = update_peer addr (λ p. (take_broadcast_tx p).1) n.peers } in
    (record n { peers = remove_peer addr n.peers }, ask_heights released n)

-- 300 seconds
abbrev pub stale_limit : ℕ
stale_limit = 300_000_000_000

unfoldable pub stale_addrs : ℕ → List PeerInfo → List SocketAddr
stale_addrs now [] = []
stale_addrs now (p ∷ ps) =
    let rest = stale_addrs now ps in
    if ltb stale_limit (saturating_sub now p.last_seen) then p.addr ∷ rest else rest

unfoldable pub remove_all : List SocketAddr → PeerManager → PeerManager
remove_all [] m = m
remove_all (addr ∷ addrs) m =
    remove_all addrs (remove_peer addr (update_peer addr (λ p. (take_broadcast_tx p).1) m))

-- The task that removes peers without a sign of life for five minutes.
unfoldable pub reap : ℕ → PeerManager → PeerManager
reap now m = remove_all (stale_addrs now (all_peers m)) m

unfoldable pub in_ips : IpAddr → List IpAddr → Bool
in_ips ip [] = false
in_ips ip (i ∷ ips) = let rest = in_ips ip ips in if eq_bytes i ip then true else rest

-- The candidates of the task that keeps up the outbound connections: neither an IP address that is
-- connected nor our own listener.
unfoldable pub candidates : List IpAddr → ℕ → List SocketAddr → List SocketAddr → List SocketAddr
candidates own_ips port connected [] = []
candidates own_ips port connected (a ∷ addrs) =
    let rest = candidates own_ips port connected addrs in
    if not (has_ip a.0 connected) && not (in_ips a.0 own_ips && (a.1 == port))
    then a ∷ rest
    else rest
