-- ===== src/Finality.antt =====
-- `FinalityTracker` (and, in Sequences, `SeenSequences`) of crates/taron-core/src/finality.rs. A time is a number of
-- nanoseconds, and the clock is the argument `now`; a map is a `Dict`. The callback is foreign code:
-- `calls` is the list of the calls that were made to it, newest first.
pub mod Invariant
pub mod Quorum
pub mod Sequences
use taron.Prelude.{
  ℕ, suc, ◌+◌, ◌-◌, ◌/◌, ◌%◌, max, ◌≡◌, refl, Bool, true, false, Option, none, some, List, [], ◌∷◌,
  ◌++◌, arith, ◌||◌, not, length, ltb, leb, ◌==◌, if◌then◌else◌, is_some, ite, ℕ_discrete,
}
use taron.Prelude.Words.{Bytes, u32_mod, u64_mod, to_le_bytes}
use taron.Prelude.Text.{bytes_dec, codes}
use taron.Prelude.Dict.{Dict, lookup, insert, erase}
use taron.Error.{Result, ok, err, TaronError}
use taron.Wallet.{Crypto, verify_signature}

pub data TransactionStatus : Type 0 where
  created : TransactionStatus
  pending : (acks quorum : ℕ) → TransactionStatus
  confirmed : (acks finality_ms : ℕ) → TransactionStatus
  rejected : (reason : Bytes) → TransactionStatus

unfoldable pub is_final : TransactionStatus → Bool
is_final (confirmed acks finality_ms) = true
is_final _ = false

unfoldable pub is_rejected : TransactionStatus → Bool
is_rejected (rejected reason) = true
is_rejected _ = false

unfoldable pub ack_count : TransactionStatus → ℕ
ack_count (pending acks quorum) = acks
ack_count (confirmed acks finality_ms) = acks
ack_count _ = 0

pub record TxAck : Type 0 where
  pub tx_hash : Bytes
  pub peer_pubkey : Bytes
  pub signature : Bytes
  pub timestamp_ms : ℕ

-- The message that an ACK signs.
unfoldable pub ack_message : Bytes → Bytes → ℕ → Bytes
ack_message tx_hash peer_pubkey timestamp_ms =
    tx_hash ++ (peer_pubkey ++ to_le_bytes 8 timestamp_ms)

module _ (crypto : Crypto) where
  -- `TxAck::new`, with the signing key of the wallet and the clock in milliseconds
  unfoldable pub new_ack : Bytes → Bytes → ℕ → TxAck
  unfolding ack_message
  new_ack signing_key tx_hash now_ms =
      let peer_pubkey = crypto.public_key signing_key in
      record {
        tx_hash = tx_hash;
        peer_pubkey = peer_pubkey;
        signature = crypto.sign signing_key (ack_message tx_hash peer_pubkey now_ms);
        timestamp_ms = now_ms;
      }

  unfoldable pub verify_ack : TxAck → Result (Unit {0}) TaronError
  unfolding ack_message
  verify_ack a =
      verify_signature crypto a.peer_pubkey (ack_message a.tx_hash a.peer_pubkey a.timestamp_ms)
        a.signature

pub record PendingTx : Type 0 where
  pub submitted_at : ℕ
  pub acks : Dict Bytes TxAck
  pub quorum : ℕ
  pub callback_data : Option Bytes

pub record FinalityTracker : Type 0 where
  pub pending : Dict Bytes PendingTx
  pub finalized : Dict Bytes TransactionStatus
  pub default_quorum : ℕ
  pub timeout : ℕ
  pub on_final_callback : Bool
  pub calls : List (Bytes × TransactionStatus)

-- `FinalityTracker::new`: a quorum of at least one, 30 seconds, no callback
unfoldable pub new_tracker : ℕ → FinalityTracker
new_tracker default_quorum = record {
  pending = [];
  finalized = [];
  default_quorum = max default_quorum 1;
  timeout = 30_000_000_000;
  on_final_callback = false;
  calls = [];
}

unfoldable pub with_timeout : ℕ → FinalityTracker → FinalityTracker
with_timeout timeout t = record t { timeout = timeout }

unfoldable pub on_final : FinalityTracker → FinalityTracker
on_final t = record t { on_final_callback = true }

-- `register_tx_with_quorum`
unfoldable pub register_tx_with_quorum :
    ℕ → Bytes → ℕ → Option Bytes → FinalityTracker → Bool × FinalityTracker
register_tx_with_quorum now tx_hash quorum callback_data t =
    if is_some (lookup bytes_dec tx_hash t.pending)
      || is_some (lookup bytes_dec tx_hash t.finalized)
    then (false, t)
    else (
      true,
      record t {
        pending =
            insert bytes_dec tx_hash
              (record {
                submitted_at = now;
                acks = [];
                quorum = max quorum 1;
                callback_data = callback_data;
              })
              t.pending;
      },
    )

-- `register_tx` takes the default quorum as it is.
unfoldable pub register_tx : ℕ → Bytes → Option Bytes → FinalityTracker → Bool × FinalityTracker
register_tx now tx_hash callback_data t =
    if is_some (lookup bytes_dec tx_hash t.pending)
      || is_some (lookup bytes_dec tx_hash t.finalized)
    then (false, t)
    else (
      true,
      record t {
        pending =
            insert bytes_dec tx_hash
              (record {
                submitted_at = now;
                acks = [];
                quorum = t.default_quorum;
                callback_data = callback_data;
              })
              t.pending;
      },
    )

-- The end of `record_ack`, once the ACK has been added to its transaction.
unfoldable pub settle :
    ℕ → Bytes → PendingTx → FinalityTracker → Option TransactionStatus × FinalityTracker
settle now tx_hash p t =
    let ack_count = length p.acks % u32_mod in
    if leb p.quorum ack_count
    then (let status = confirmed ack_count ((now - p.submitted_at) / 1_000_000 % u64_mod) in
        (
          some status,
          record t {
            pending = erase bytes_dec tx_hash t.pending;
            finalized = insert bytes_dec tx_hash status t.finalized;
            calls = if t.on_final_callback then (tx_hash, status) ∷ t.calls else t.calls;
          },
        ))
    else (some (pending ack_count p.quorum), t)

unfoldable pub record_ack :
    Crypto → ℕ → TxAck → FinalityTracker → Option TransactionStatus × FinalityTracker
record_ack crypto now ack t = elim (verify_ack crypto ack) [
  | err _ ↦ (none, t)
  | ok _ ↦ elim (lookup bytes_dec ack.tx_hash t.finalized) [
    | some status ↦ (some status, t)
    | none ↦ elim (lookup bytes_dec ack.tx_hash t.pending) [
      | none ↦ (none, t)
      | some p ↦
          if is_some (lookup bytes_dec ack.peer_pubkey p.acks)
          then (some (pending (length p.acks % u32_mod) p.quorum), t)
          else (let p' = record p { acks = insert bytes_dec ack.peer_pubkey ack p.acks } in
              settle now ack.tx_hash p'
                (record t { pending = insert bytes_dec ack.tx_hash p' t.pending }))
    ]
  ]
]

unfoldable pub get_status : Bytes → FinalityTracker → Option TransactionStatus
get_status tx_hash t = elim (lookup bytes_dec tx_hash t.finalized) [
  | some status ↦ some status
  | none ↦ elim (lookup bytes_dec tx_hash t.pending) [
    | some p ↦ some (pending (length p.acks % u32_mod) p.quorum)
    | none ↦ none
  ]
]

unfoldable pub reject : Bytes → Bytes → FinalityTracker → FinalityTracker
reject tx_hash reason t = record t {
  pending = erase bytes_dec tx_hash t.pending;
  finalized = insert bytes_dec tx_hash (rejected reason) t.finalized;
}

-- The hashes of the transactions that have waited longer than the timeout.
unfoldable pub timed_out : ℕ → ℕ → Dict Bytes PendingTx → List Bytes
timed_out now timeout [] = []
timed_out now timeout ((h, p) ∷ d) =
    let rest = timed_out now timeout d in
    if ltb timeout (now - p.submitted_at) then h ∷ rest else rest

unfoldable pub reject_all : List Bytes → FinalityTracker → FinalityTracker
unfolding reject
reject_all [] t = t
reject_all (h ∷ hs) t = reject_all hs (reject h (codes "timeout") t)

unfoldable pub cleanup_timeouts : ℕ → FinalityTracker → List Bytes × FinalityTracker
cleanup_timeouts now t =
    let hashes = timed_out now t.timeout t.pending in (hashes, reject_all hashes t)

unfoldable pub pending_count : FinalityTracker → ℕ
pending_count t = length t.pending

unfoldable pub finalized_count : FinalityTracker → ℕ
finalized_count t = length t.finalized

unfoldable pub set_quorum : ℕ → FinalityTracker → FinalityTracker
set_quorum quorum t = record t { default_quorum = max quorum 1 }

unfoldable pub calculate_quorum : ℕ → ℕ
calculate_quorum peer_count =
    if leb peer_count 3 then max peer_count 1 % u32_mod else (peer_count / 3 + 1) % u32_mod
