-- ===== src/Tests/Peers.antt =====
-- The peer table and the frames on sample data.
use taron.Prelude.{ℕ, ◌≡◌, refl, false, Option, none, some, List, [], ◌∷◌, arith}
use taron.Prelude.Dict.{lookup, insert}
use taron.Prelude.Text.{bytes_dec}
use taron.Node.Peers.{
  SocketAddr, PeerManager, new_peers, add_peer, inbound, outbound, is_banned, is_connected,
  can_accept, inbound_count, outbound_count, addr_dec,
}
use taron.Node.Peers.Limits.{IsWithin, start, connect, Reachable-IsWithin}
use taron.Node.Protocol.{
  Message, Json, send_message, write_frames, read_frames, hello, get_peers, peers, tx,
  get_tx_hashes, tx_hashes, get_txs, ping, pong, get_chain_height, chain_height, get_blocks, blocks,
  new_block, tx_ack, get_tx_status, tx_status,
}
use taron.Node.Protocol.Frames.{sendable, read_frames-write_frames}

abbrev home : SocketAddr
home = (127 ∷ 0 ∷ 0 ∷ 1 ∷ [], 8333)

abbrev neighbour : SocketAddr
neighbour = (127 ∷ 0 ∷ 0 ∷ 1 ∷ [], 8334)

abbrev third : SocketAddr
third = (127 ∷ 0 ∷ 0 ∷ 1 ∷ [], 8335)

abbrev two_peers : PeerManager
two_peers = (add_peer 2 neighbour outbound (add_peer 1 home inbound new_peers).1).1

-- A third connection of the same IP address is refused.
third_refused : (add_peer 3 third inbound two_peers).0 ≡ false
unfolding add_peer is_banned lookup new_peers is_connected can_accept inbound_count insert bytes_dec
    addr_dec outbound_count
third_refused = refl

Reachable-IsWithin_example : IsWithin two_peers
Reachable-IsWithin_example =
    Reachable-IsWithin two_peers (connect 2 neighbour outbound (connect 1 home inbound start))

-- Only pings are serialised.
unfoldable toy_to_vec : Message → Option (List ℕ)
toy_to_vec (ping n) = some (n ∷ [])
toy_to_vec _ = none

unfoldable toy_from_slice : List ℕ → Option Message
toy_from_slice (n ∷ []) = some (ping n)
toy_from_slice _ = none

abbrev toy_json : Json
toy_json = record { to_vec = toy_to_vec; from_slice = toy_from_slice }

toy_reads_back :
    (m : Message) (payload : List ℕ) → toy_to_vec m ≡ some payload → toy_from_slice payload ≡ some m
unfolding toy_to_vec toy_from_slice
toy_reads_back (ping n) payload e = let same : payload ≡ n ∷ [] = ground arith in rw same refl
toy_reads_back (hello _ _ _) payload e = absurd (cc)
toy_reads_back get_peers payload e = absurd (cc)
toy_reads_back (peers _) payload e = absurd (cc)
toy_reads_back (tx _) payload e = absurd (cc)
toy_reads_back get_tx_hashes payload e = absurd (cc)
toy_reads_back (tx_hashes _) payload e = absurd (cc)
toy_reads_back (get_txs _) payload e = absurd (cc)
toy_reads_back (pong _) payload e = absurd (cc)
toy_reads_back get_chain_height payload e = absurd (cc)
toy_reads_back (chain_height _) payload e = absurd (cc)
toy_reads_back (get_blocks _ _) payload e = absurd (cc)
toy_reads_back (blocks _) payload e = absurd (cc)
toy_reads_back (new_block _) payload e = absurd (cc)
toy_reads_back (tx_ack _) payload e = absurd (cc)
toy_reads_back (get_tx_status _) payload e = absurd (cc)
toy_reads_back (tx_status _ _ _) payload e = absurd (cc)

abbrev two_pings : List Message
two_pings = ping 3 ∷ ping 5 ∷ get_peers ∷ ping 8 ∷ []

read_frames-write_frames_example :
    read_frames toy_json 5 (write_frames toy_json two_pings) ≡ sendable toy_json two_pings
read_frames-write_frames_example =
    read_frames-write_frames toy_json (record { reads_back = toy_reads_back }) two_pings 5
      (omega arith)

-- What is sent and read are the pings before the request that has no serialised form.
two_sendable : sendable toy_json two_pings ≡ ping 3 ∷ ping 5 ∷ []
unfolding sendable send_message toy_to_vec
two_sendable = refl
