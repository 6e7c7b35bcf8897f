-- ===== src/Node/Finality.antt =====
-- `NodeFinalityManager` of crates/taron-node/src/finality.rs, without its locks: every method takes
-- one lock for one call, so it is one step on the state.
use taron.Prelude.{ℕ, ◌≡◌, refl, Bool, Option, none, List}
use taron.Prelude.Words.{Bytes}
use taron.Error.{ok}
use taron.Wallet.{Crypto, IsSound, verify_signature}
use taron.Transaction.{Transaction, hash}
use taron.Finality.{
  FinalityTracker, TransactionStatus, TxAck, new_tracker, new_ack, ack_message, verify_ack,
  register_tx, record_ack, get_status, reject, set_quorum, calculate_quorum, cleanup_timeouts,
  pending_count, finalized_count,
}
use taron.Finality.Sequences.{SeenSequences, no_sequences, check_double_spend, record_sequence}

pub record NodeFinalityManager : Type 0 where
  pub tracker : FinalityTracker
  pub seen_sequences : SeenSequences
  pub node_wallet : Bytes

-- `NodeFinalityManager::new`
unfoldable pub new_manager : ℕ → Bytes → NodeFinalityManager
new_manager default_quorum node_wallet = record {
  tracker = new_tracker default_quorum;
  seen_sequences = no_sequences;
  node_wallet = node_wallet;
}

module _ (crypto : Crypto) where
  unfoldable pub node_register_tx :
      ℕ → Transaction → NodeFinalityManager → Bool × NodeFinalityManager
  node_register_tx now tx m =
      let (new, tracker) = register_tx now (hash crypto tx) none m.tracker in
      (new, record m { tracker = tracker })

  unfoldable pub node_check_double_spend : Transaction → NodeFinalityManager → Option Bytes
  node_check_double_spend tx m = check_double_spend tx.sender tx.sequence m.seen_sequences

  unfoldable pub record_seen : Transaction → NodeFinalityManager → Bool × NodeFinalityManager
  record_seen tx m =
      let (new, seen) = record_sequence tx.sender tx.sequence (hash crypto tx) m.seen_sequences in
      (new, record m { seen_sequences = seen })

  unfoldable pub create_ack : ℕ → Bytes → NodeFinalityManager → TxAck
  create_ack now_ms tx_hash m = new_ack crypto m.node_wallet tx_hash now_ms

  unfoldable pub node_record_ack :
      ℕ → TxAck → NodeFinalityManager → Option TransactionStatus × NodeFinalityManager
  node_record_ack now ack m =
      let (status, tracker) = record_ack crypto now ack m.tracker in
      (status, record m { tracker = tracker })

  unfoldable pub node_pubkey : NodeFinalityManager → Bytes
  node_pubkey m = crypto.public_key m.node_wallet

unfoldable pub node_get_status : Bytes → NodeFinalityManager → Option TransactionStatus
node_get_status tx_hash m = get_status tx_hash m.tracker

unfoldable pub node_reject : Bytes → Bytes → NodeFinalityManager → NodeFinalityManager
node_reject tx_hash reason m = record m { tracker = reject tx_hash reason m.tracker }

unfoldable pub update_quorum : ℕ → NodeFinalityManager → NodeFinalityManager
update_quorum peer_count m = record m {
  tracker = set_quorum (calculate_quorum peer_count) m.tracker;
}

unfoldable pub node_cleanup_timeouts : ℕ → NodeFinalityManager → List Bytes × NodeFinalityManager
node_cleanup_timeouts now m =
    let (hashes, tracker) = cleanup_timeouts now m.tracker in
    (hashes, record m { tracker = tracker })

unfoldable pub counts : NodeFinalityManager → ℕ × ℕ
counts m = (pending_count m.tracker, finalized_count m.tracker)

-- With cryptography that keeps its promises, the ACK that a node creates is from the node itself, is
-- for the transaction that it was created for, and verifies.
pub create_ack-verifies :
    (crypto : Crypto) (now_ms : ℕ) (tx_hash : Bytes) (m : NodeFinalityManager)
    → IsSound crypto
    → let a = create_ack crypto now_ms tx_hash m in
      (a.peer_pubkey ≡ node_pubkey crypto m) × (a.tx_hash ≡ tx_hash) × (verify_ack crypto a ≡ ok tt)
unfolding create_ack node_pubkey new_ack verify_ack verify_signature
create_ack-verifies crypto now_ms tx_hash m sound =
    let k = m.node_wallet in
    (
      refl,
      refl,
      rw
          (
            verify_ack,
            verify_signature,
            sound.own_key k,
            sound.own_signature k (ack_message tx_hash (crypto.public_key k) now_ms),
          )
          refl,
    )
