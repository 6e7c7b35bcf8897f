-- ===== src/Tests/Nodes.antt =====
-- A node on the sample chain: messages, a mined block, and a transaction that is gossiped.
use taron.Prelude.{
  ℕ, zero, suc, ◌-◌, ◌≤◌, ◌≡◌, ◌≢◌, ◌⊎◌, ◌↔◌, refl, if◌then◌else◌, true, false, none, some, List,
  [], ◌∷◌, ◌++◌, length, arith, ℕ_discrete, if_pos,
}
use taron.Prelude.Words.{Bytes}
use taron.Prelude.Dict.{lookup}
use taron.Prelude.Text.{bytes_dec}
use taron.Error.{ok, IsOk}
use taron.Fixtures.{
  toy, toy-IsSound, alice, carol, payment, unsigned_tx, block_1, chain_0, chain_1, ledger_0,
}
use taron.Wallet.{verify_signature}
use taron.Transaction.{
  Transaction, verify_tx_signature, to_bytes_for_signing, to_bytes_for_posc, total_cost,
}
use taron.Genesis.{spend}
use taron.Hash.{sequal}
use taron.Posc.{verify_posc}
use taron.Ledger.{Ledger, apply_tx, get_account, debit_sender, entry}
use taron.Ledger.Replay.{Reach}
use taron.Block.{Block, genesis}
use taron.Blockchain.{Blockchain, block_at, tip, checkpoint_anchor_at_or_below}
use taron.Blockchain.Blocks.{apply_block, revert_to_height}
use taron.Blockchain.Linked.{IsLinked, Held}
use taron.Blockchain.Stack.{stack, revert_to_height-pops}
use taron.Finality.Sequences.{no_sequences, check_double_spend}
use taron.Node.Mempool.{insert_tx, contains, hash_hex}
use taron.Node.Finality.{new_manager, node_check_double_spend}
use taron.Node.Peers.{SocketAddr, addr_dec, inbound, new_peers, broadcast}
use taron.Node.Protocol.{Message}
use taron.Node.State.{TaronNode, Connection, Env, Turn, other_driver}
use taron.Node.Handlers.Gossip.{handle_tx}
use taron.Node.Handlers.Ibd.{handle_chain_height}
use taron.Node.Handlers.NewBlocks.{submit_mined_block}
use taron.Node.Messages.{Event, System, received, mined, run, handle_message}
use taron.Node.Messages.Chain.Runs.{run-IsLinked}
use taron.Node.Messages.Slot.{SameChain, handle_message-other_driver}
use taron.Node.Messages.Accepted.{IsFresh, is_included, submit_mined_block-IsFresh}
use taron.Node.Messages.Gossiped.{handle_tx-block_refused}
use taron.Node.Rpc.{SubmitTxResponse, submit_tx}
use taron.Node.Rpc.Submitted.{submit_tx-accepted}
use taron.Node.Messages.Ready.All.{handle_message-RisesAtTip}

abbrev peer : SocketAddr
peer = (10 ∷ 0 ∷ 0 ∷ 1 ∷ [], 8333)

abbrev rival : SocketAddr
rival = (10 ∷ 0 ∷ 0 ∷ 2 ∷ [], 8333)

abbrev node_0 : TaronNode
node_0 = record {
  mempool = [];
  peers = new_peers;
  peer_known_txs = [];
  discovered_peers = [];
  ledger = ledger_0;
  blockchain = chain_0;
  finality = new_manager 1 carol;
  has_data_dir = false;
  saved_ledger = none;
  sync_ready = false;
  ibd_peer = none;
  chain_height = 0;
  max_seen_height = 0;
  cached_difficulty = chain_0.difficulty;
  cached_best_hash = [];
  cached_account_count = 2;
  cached_total_supply = 1_050;
}

abbrev conn_0 : Connection
conn_0 = record {
  addr = peer;
  out_tx = 1;
  peer_height = none;
  last_ibd_progress_height = 0;
  last_ibd_progress_at = 0;
  last_ibd_request_at = none;
  last_recv = 0;
}

abbrev env_0 : Env
env_0 = record { now = 7; now_ms = 5_000; nonce = 9; is_open = true; has_permit = true }

abbrev system_0 : System
system_0 = record { node = node_0; connections = (peer, (inbound, conn_0)) ∷ [] }

chain_0-Held : (i : ℕ) → i ≤ chain_0.height → Held chain_0 i
unfolding block_at lookup ℕ_discrete genesis
chain_0-Held zero h = (genesis toy, refl, refl)
chain_0-Held (suc i) h = absurd (omega arith)

linked : IsLinked toy chain_0
linked = record { held = chain_0-Held; link = λ i p b lt ep eb. absurd (omega arith) }

-- A peer announces a block, sends a batch and its height, and the pool mines a block.
abbrev traffic : List Event
traffic =
    received env_0 peer (Message.chain_height 1)
    ∷ received env_0 peer (Message.blocks (block_1 ∷ []))
    ∷ received env_0 peer (Message.new_block block_1)
    ∷ mined 5_000 block_1
    ∷ []

run-IsLinked_example :
    (s : System) × (run toy traffic system_0 ≡ some s) × IsLinked toy s.node.blockchain
run-IsLinked_example = run-IsLinked toy traffic system_0 linked (omega arith)

abbrev busy_node : TaronNode
busy_node = record node_0 { ibd_peer = some rival }

busy : other_driver peer busy_node ≡ true
unfolding other_driver addr_dec bytes_dec
busy = refl

handle_message-other_driver_example :
    (turn : Turn) × (handle_message toy env_0 (Message.new_block block_1) conn_0 busy_node
      ≡ some turn)
    × SameChain turn.node busy_node
handle_message-other_driver_example =
    handle_message-other_driver toy env_0 (Message.new_block block_1) conn_0 busy_node busy

abbrev synced : Turn
synced = handle_chain_height env_0 0 conn_0 node_0

at_tip : handle_message toy env_0 (Message.chain_height 0) conn_0 node_0 ≡ some synced
unfolding handle_message
at_tip = refl

raised : synced.node.sync_ready ≡ true
unfolding handle_chain_height
raised = refl

handle_message-RisesAtTip_example :
    (synced.node.ibd_peer ≡ none) × (synced.node.max_seen_height ≤ synced.node.blockchain.height)
handle_message-RisesAtTip_example =
    handle_message-RisesAtTip toy env_0 (Message.chain_height 0) conn_0 node_0 synced at_tip refl
      raised

abbrev payment_hash : Bytes
payment_hash = hash_hex toy payment

-- The payment is waiting in the memory pool when the block with it is mined.
abbrev waiting_node : TaronNode
waiting_node = record node_0 { mempool = (payment_hash, payment) ∷ [] }

submit_mined_block-IsFresh_example :
    ((n' : TaronNode) × (submit_mined_block toy 5_000 block_1 waiting_node
        ≡ some (true, n', broadcast node_0.peers (Message.new_block block_1) none))
      × (◌≡◌ {A = ℕ} 1 1)
      × (tip n'.blockchain ≡ some block_1)
      × IsFresh toy n'
      × (lookup bytes_dec payment_hash n'.mempool ≡ (
          if is_included toy payment_hash (payment ∷ [])
          then none
          else lookup bytes_dec payment_hash ((payment_hash, payment) ∷ []))))
    ⊎ ((l : Ledger) × (submit_mined_block toy 5_000 block_1 waiting_node
          ≡ some (false, record waiting_node { ledger = l }, [])))
submit_mined_block-IsFresh_example =
    submit_mined_block-IsFresh toy 5_000 block_1 waiting_node payment_hash linked (omega arith)

no_checkpoint : checkpoint_anchor_at_or_below 0 ≡ 0
unfolding checkpoint_anchor_at_or_below
no_checkpoint = refl

revert_to_height-pops_example :
    (blocks : List Block) × (c : Blockchain) × (l : Ledger) × (revert_to_height 0 chain_0 ledger_0
      ≡ some (ok blocks, c, l))
    × (stack chain_0 ≡ blocks ++ stack c)
    × (length blocks ≡ 0 - 0)
revert_to_height-pops_example =
    revert_to_height-pops toy 0 chain_0 ledger_0 linked (omega (arith, no_checkpoint)) (omega arith)

-- A payment whose proof of sequential computation is right.
abbrev proved_tx : Transaction
proved_tx = record unsigned_tx { posc_proof = sequal toy (to_bytes_for_posc unsigned_tx) 2_000 }

abbrev gossiped : Transaction
gossiped = record proved_tx { signature = toy.sign alice (to_bytes_for_signing proved_tx) }

own_signature : toy.verifies alice (to_bytes_for_signing gossiped) gossiped.signature ≡ true
unfolding to_bytes_for_signing to_bytes_for_posc
own_signature = toy-IsSound.own_signature alice (to_bytes_for_signing proved_tx)

gossip_signed : verify_tx_signature toy gossiped ≡ ok tt
unfolding verify_tx_signature verify_signature
gossip_signed = rw (verify_tx_signature, verify_signature, own_signature) refl

gossip_proved : verify_posc toy gossiped ≡ ok tt
unfolding verify_posc to_bytes_for_posc
gossip_proved =
    if_pos (bytes_dec (sequal toy (to_bytes_for_posc unsigned_tx) 2_000) proved_tx.posc_proof) refl
      _ _

gossip_new : contains (hash_hex toy gossiped) [] ≡ false
unfolding contains lookup
gossip_new = refl

gossip_taken : (insert_tx toy gossiped []).0 ≡ ok true
unfolding insert_tx
gossip_taken = rw (insert_tx, gossip_new, gossip_signed, gossip_proved) refl

gossip_fresh : node_check_double_spend toy gossiped node_0.finality ≡ none
unfolding node_check_double_spend new_manager check_double_spend no_sequences lookup
gossip_fresh = refl

gossip_valid : IsOk (apply_tx toy gossiped ledger_0).0
unfolding apply_tx get_account debit_sender spend lookup bytes_dec total_cost entry
gossip_valid = tt

first_sequence : (entry alice ledger_0).sequence ≡ 0
unfolding entry get_account lookup bytes_dec
first_sequence = refl

abbrev after_gossip : Ledger
after_gossip = (handle_tx toy env_0 gossiped conn_0 node_0).node.ledger

abbrev gossip_node : TaronNode
gossip_node = record node_0 { ledger = after_gossip }

abbrev gossip_block : Block
gossip_block = record block_1 { transactions = gossiped ∷ [] }

handle_tx-block_refused_example :
    (apply_block toy 6_000 gossip_block chain_0 after_gossip ≢ some (ok tt, chain_1, ledger_0))
    × (submit_mined_block toy 6_000 gossip_block gossip_node ≢ some (true, gossip_node, []))
handle_tx-block_refused_example =
    handle_tx-block_refused toy env_0 gossiped conn_0 node_0 gossip_node gossip_node 6_000 1 0 0
      gossip_block chain_1 ledger_0 [] gossip_fresh gossip_valid gossip_taken Reach.here refl
      (omega (arith, first_sequence)) (omega arith)

-- The same transaction, submitted over HTTP.
submit_tx-accepted_example :
    ((submit_tx toy gossiped node_0).0 ≡ SubmitTxResponse.tx_accepted)
    ↔ (IsOk (apply_tx toy gossiped ledger_0).0 × ((insert_tx toy gossiped []).0 ≡ ok true))
unfolding total_cost
submit_tx-accepted_example = submit_tx-accepted toy gossiped node_0 (omega arith)

submitted : (submit_tx toy gossiped node_0).0 ≡ SubmitTxResponse.tx_accepted
unfolding total_cost
submitted = (submit_tx-accepted toy gossiped node_0 (omega arith)).1 (gossip_valid, gossip_taken)
