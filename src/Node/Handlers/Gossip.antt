-- ===== src/Node/Handlers/Gossip.antt =====
-- `handle_messages` of crates/taron-node/src/node.rs: the peers and the transactions that a peer
-- announces, asks for or acknowledges.
use taron.Prelude.{
  ℕ, Bool, true, false, Option, none, some, List, [], ◌∷◌, ◌++◌, length, replicate, map, ◌!=◌,
  if◌then◌else◌, ite,
}
use taron.Prelude.Words.{Bytes}
use taron.Prelude.Text.{codes, eq_bytes}
use taron.Error.{ok, err}
use taron.Wallet.{Crypto}
use taron.Transaction.{Transaction, hash}
use taron.Ledger.{apply_tx}
use taron.Finality.{TxAck, TransactionStatus}
use taron.Node.Mempool.{tx_hashes, get_txs, contains, insert_tx, hash_hex}
use taron.Node.Finality.{
  node_check_double_spend, node_reject, record_seen, create_ack, node_record_ack, node_get_status,
}
use taron.Node.Peers.{IpAddr, SocketAddr, addr_dec, update_hello, touch, all_addrs, broadcast}
use taron.Node.Protocol.{Message}
use taron.Node.State.{
  TaronNode, Connection, Env, Turn, going, returned, failed, stay, send_then, send_to_peer,
}

-- `Hello`
unfoldable pub handle_hello : Env → ℕ → Bytes → Connection → TaronNode → Turn
handle_hello env version user_agent conn n =
    stay conn (record n { peers = update_hello env.now conn.addr version user_agent n.peers })

abbrev touched : Env → Connection → TaronNode → TaronNode
touched env conn n = record n { peers = touch env.now conn.addr n.peers }

-- `Ping`
unfoldable pub handle_ping : Env → ℕ → Connection → TaronNode → Turn
handle_ping env nonce conn n = send_then env (Message.pong nonce) conn n conn (touched env conn n)

-- `Pong`
unfoldable pub handle_pong : Env → Connection → TaronNode → Turn
handle_pong env conn n = stay conn (touched env conn n)

-- `GetPeers`
unfoldable pub handle_get_peers : Env → Connection → TaronNode → Turn
handle_get_peers env conn n = send_to_peer env (Message.peers (all_addrs n.peers)) conn n

unfoldable pub has_ip : IpAddr → List SocketAddr → Bool
has_ip ip [] = false
has_ip ip (a ∷ addrs) = let rest = has_ip ip addrs in if eq_bytes a.0 ip then true else rest

unfoldable pub in_addrs : SocketAddr → List SocketAddr → Bool
in_addrs addr [] = false
in_addrs addr (a ∷ addrs) = let rest = in_addrs addr addrs in ite (addr_dec a addr) true rest

-- The addresses of IP addresses without a connection are remembered, in a set.
unfoldable pub discover : List SocketAddr → List SocketAddr → List SocketAddr → List SocketAddr
discover current [] known = known
discover current (a ∷ addrs) known =
    discover current addrs
      (if has_ip a.0 current then known else if in_addrs a known then known else a ∷ known)

-- `Peers`
unfoldable pub handle_peers : List SocketAddr → Connection → TaronNode → Turn
handle_peers addrs conn n =
    stay conn
      (record n { discovered_peers = discover (all_addrs n.peers) addrs n.discovered_peers })

-- Messages to the peer one after the other, up to the first that is not taken.
unfoldable pub send_all : Env → List Message → Connection → TaronNode → Turn
send_all env [] conn n = stay conn n
send_all env (m ∷ ms) conn n =
    if env.is_open
    then record {
      node = n;
      conn = conn;
      sent = map (λ msg. (conn.out_tx, msg)) (m ∷ ms);
      verdict = going;
    }
    else record { node = n; conn = conn; sent = []; verdict = failed }

-- `GetTxHashes`
unfoldable pub handle_get_tx_hashes : Env → Connection → TaronNode → Turn
handle_get_tx_hashes env conn n = send_to_peer env (Message.tx_hashes (tx_hashes n.mempool)) conn n

-- The hashes that the pool does not contain.
unfoldable pub missing : TaronNode → List Bytes → List Bytes
missing n [] = []
missing n (h ∷ hashes) =
    let rest = missing n hashes in if contains h n.mempool then rest else h ∷ rest

-- `TxHashes`
unfoldable pub handle_tx_hashes : Env → List Bytes → Connection → TaronNode → Turn
handle_tx_hashes env hashes conn n = elim (missing n hashes) [
  | [] ↦ stay conn n
  | h ∷ hs ↦ send_to_peer env (Message.get_txs (h ∷ hs)) conn n
]

-- `GetTxs`
unfoldable pub handle_get_txs : Env → List Bytes → Connection → TaronNode → Turn
handle_get_txs env hashes conn n = send_all env (map Message.tx (get_txs hashes n.mempool)) conn n

module _ (crypto : Crypto) where
  -- The transaction and our ACK go to the other peers.
  abbrev relay : Transaction → TxAck → Connection → TaronNode → List (ℕ × Message)
  relay t ack conn n =
      broadcast n.peers (Message.tx t) (some conn.addr)
      ++ broadcast n.peers (Message.tx_ack ack) (some conn.addr)

  -- What follows once the memory pool has taken the transaction: it is recorded, and applied to the
  -- ledger.
  unfoldable pub accept_tx : Env → Transaction → Connection → TaronNode → Turn
  accept_tx env t conn n =
      let n = record n { finality = (record_seen crypto t n.finality).1 } in
      let (r, l) = apply_tx crypto t n.ledger in
      let n = record n { ledger = l } in
      elim r [
        | err _ ↦ record { node = n; conn = conn; sent = []; verdict = returned }
        | ok _ ↦
            let n = record n {
              peer_known_txs = (conn.addr, hash_hex crypto t) ∷ n.peer_known_txs;
            } in
            let ack = create_ack crypto env.now_ms (hash crypto t) n.finality in
            if env.is_open
            then record {
              node = n;
              conn = conn;
              sent = (conn.out_tx, Message.tx_ack ack) ∷ relay t ack conn n;
              verdict = going;
            }
            else record { node = n; conn = conn; sent = []; verdict = failed }
      ]

  -- `Tx`: a conflicting sequence number is rejected, and the ledger is asked on a copy.
  unfoldable pub handle_tx : Env → Transaction → Connection → TaronNode → Turn
  handle_tx env t conn n = elim (node_check_double_spend crypto t n.finality) [
    | some _ ↦
        stay conn
          (record n { finality = node_reject (hash crypto t) (codes "double-spend") n.finality })
    | none ↦ elim (apply_tx crypto t n.ledger).0 [
      | err _ ↦ stay conn n
      | ok _ ↦
          let (r, pool) = insert_tx crypto t n.mempool in
          let n = record n { mempool = pool } in
          elim r [ err _ ↦ stay conn n | ok false ↦ stay conn n | ok true ↦ accept_tx env t conn n ]
    ]
  ]

  -- `TxAck`: an ACK that is recorded goes to the other peers.
  unfoldable pub handle_tx_ack : Env → TxAck → Connection → TaronNode → Turn
  handle_tx_ack env ack conn n =
      let (status, finality) = node_record_ack crypto env.now ack n.finality in
      let n = record n { finality = finality } in
      elim status [
        | none ↦ stay conn n
        | some _ ↦ record {
          node = n;
          conn = conn;
          sent = broadcast n.peers (Message.tx_ack ack) (some conn.addr);
          verdict = going;
        }
      ]

  -- A text that is not 32 bytes in hexadecimal stands for the hash of zeros.
  unfoldable pub decode_hash : Bytes → Bytes
  decode_hash tx_hash = elim (crypto.hex_decode tx_hash) [
    | none ↦ replicate 32 0
    | some v ↦ if length v != 32 then replicate 32 0 else v
  ]

  -- The number of ACKs and whether the status is final.
  abbrev status_parts : Option TransactionStatus → ℕ × Bool
  status_parts (some (TransactionStatus.confirmed acks _)) = (acks, true)
  status_parts (some (TransactionStatus.pending acks _)) = (acks, false)
  status_parts _ = (0, false)

  -- `GetTxStatus`
  unfoldable pub handle_get_tx_status : Env → Bytes → Connection → TaronNode → Turn
  handle_get_tx_status env tx_hash conn n =
      let (acks, is_final) = status_parts (node_get_status (decode_hash tx_hash) n.finality) in
      send_to_peer env (Message.tx_status tx_hash acks is_final) conn n
