-- ===== src/Transaction.antt =====
-- `Transaction` of crates/taron-core/src/transaction.rs: its fields, its byte encodings and its
-- checks. The clock is the argument `now_ms`.
pub mod Builder
use taron.Prelude.{ℕ, ◌-◌, ◌%◌, ◌∷◌, ◌++◌, length, ltb, ◌==◌, if◌then◌else◌}
use taron.Prelude.Words.{Bytes, to_le_bytes, saturating_add64}
use taron.Prelude.Text.{codes}
use taron.Error.{
  Result, ok, err, TaronError, transaction_too_large, serialization, invalid_timestamp,
}
use taron.Wallet.{Crypto, verify_signature}

abbrev pub max_tx_data_bytes : ℕ
max_tx_data_bytes = 256

abbrev pub timestamp_tolerance_ms : ℕ
timestamp_tolerance_ms = 30_000

abbrev pub tx_version : ℕ
tx_version = 1

-- The field `data` is `memo` here, as its setter is called in `TxBuilder`.
pub record Transaction : Type 0 where
  pub version : ℕ
  pub sender : Bytes
  pub recipient : Bytes
  pub amount : ℕ
  pub fee : ℕ
  pub sequence : ℕ
  pub timestamp_ms : ℕ
  pub prev_tx_hash : Bytes
  pub memo : Bytes
  pub posc_proof : Bytes
  pub posc_steps : ℕ
  pub signature : Bytes

-- `self.data.len() as u8` keeps the low byte of the length.
unfoldable pub to_bytes_for_posc : Transaction → Bytes
to_bytes_for_posc tx =
    tx.version
    ∷ (tx.sender
        ++ (tx.recipient
            ++ (to_le_bytes 8 tx.amount
                ++ (to_le_bytes 8 tx.fee
                    ++ (to_le_bytes 8 tx.sequence
                        ++ (to_le_bytes 8 tx.timestamp_ms
                            ++ (tx.prev_tx_hash ++ (length tx.memo % 256 ∷ tx.memo))))))))

unfoldable pub to_bytes_for_signing : Transaction → Bytes
to_bytes_for_signing tx = to_bytes_for_posc tx ++ (tx.posc_proof ++ to_le_bytes 4 tx.posc_steps)

unfoldable pub to_bytes_for_hash : Transaction → Bytes
to_bytes_for_hash tx = to_bytes_for_signing tx ++ tx.signature

unfoldable pub total_cost : Transaction → ℕ
total_cost tx = saturating_add64 tx.amount tx.fee

-- The distance of two times, as both checks of a timestamp compute it.
abbrev pub time_delta : ℕ → ℕ → ℕ
time_delta t now = if ltb now t then t - now else now - t

unfoldable pub validate_structure : ℕ → Transaction → Result (Unit {0}) TaronError
validate_structure now_ms tx =
    if ltb max_tx_data_bytes (length tx.memo)
    then err (transaction_too_large (length tx.memo))
    else if tx.fee == 0
    then err (serialization (codes "fee must be at least 1 µTAR"))
    else if ltb timestamp_tolerance_ms (time_delta tx.timestamp_ms now_ms)
    then err invalid_timestamp
    else ok tt

module _ (crypto : Crypto) where
  unfoldable pub hash : Transaction → Bytes
  hash tx = crypto.sha3_256 (to_bytes_for_hash tx)

  unfoldable pub verify_tx_signature : Transaction → Result (Unit {0}) TaronError
  verify_tx_signature tx = verify_signature crypto tx.sender (to_bytes_for_signing tx) tx.signature
