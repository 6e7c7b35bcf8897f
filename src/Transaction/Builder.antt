-- ===== src/Transaction/Builder.antt =====
-- `TxBuilder` of crates/taron-core/src/transaction.rs: a transaction that is built passes every
-- check that a node makes of a transaction by itself. A wallet is its signing key.
use taron.Prelude.{
  ℕ, ◌≤◌, ◌≡◌, refl, max, false, [], arith, length, ltb, if◌then◌else◌, replicate, if_pos,
}
use taron.Prelude.Words.{Bytes}
use taron.Prelude.Text.{bytes_dec}
use taron.Error.{Result, ok, err, TaronError, transaction_too_large}
use taron.Wallet.{Crypto, IsSound, verify_signature}
use taron.Transaction.{
  Transaction, max_tx_data_bytes, timestamp_tolerance_ms, tx_version, time_delta, to_bytes_for_posc,
  to_bytes_for_signing, validate_structure, verify_tx_signature,
}
use taron.Genesis.{zero_hash}
use taron.Hash.{sequal, posc_steps}
use taron.Posc.{verify_posc}

pub record TxBuilder : Type 0 where
  pub signing_key : Bytes
  pub recipient : Bytes
  pub amount : ℕ
  pub fee : ℕ
  pub sequence : ℕ
  pub prev_tx_hash : Bytes
  pub memo : Bytes

-- `TxBuilder::new`
unfoldable pub new_builder : Bytes → TxBuilder
new_builder wallet = record {
  signing_key = wallet;
  recipient = zero_hash;
  amount = 0;
  fee = 1;
  sequence = 1;
  prev_tx_hash = zero_hash;
  memo = [];
}

-- The setters.
unfoldable pub with_recipient : Bytes → TxBuilder → TxBuilder
with_recipient pubkey b = record b { recipient = pubkey }

unfoldable pub with_amount : ℕ → TxBuilder → TxBuilder
with_amount utar b = record b { amount = utar }

unfoldable pub with_fee : ℕ → TxBuilder → TxBuilder
with_fee utar b = record b { fee = max utar 1 }

unfoldable pub with_sequence : ℕ → TxBuilder → TxBuilder
with_sequence seq b = record b { sequence = seq }

unfoldable pub with_prev_tx_hash : Bytes → TxBuilder → TxBuilder
with_prev_tx_hash hash b = record b { prev_tx_hash = hash }

unfoldable pub with_memo : Bytes → TxBuilder → TxBuilder
with_memo memo b = record b { memo = memo }

-- The builders that the setters, from a new builder on, lead to.
pub data Built (wallet : Bytes) : TxBuilder → Type 0 where
  start : Built wallet (new_builder wallet)
  recipient :
      {b : TxBuilder} (pubkey : Bytes) → Built wallet b → Built wallet (with_recipient pubkey b)
  amount : {b : TxBuilder} (utar : ℕ) → Built wallet b → Built wallet (with_amount utar b)
  fee : {b : TxBuilder} (utar : ℕ) → Built wallet b → Built wallet (with_fee utar b)
  sequence : {b : TxBuilder} (seq : ℕ) → Built wallet b → Built wallet (with_sequence seq b)
  prev_tx_hash :
      {b : TxBuilder} (hash : Bytes) → Built wallet b → Built wallet (with_prev_tx_hash hash b)
  memo : {b : TxBuilder} (bytes : Bytes) → Built wallet b → Built wallet (with_memo bytes b)

-- The transaction before it is proved and signed.
unfoldable pub partial_tx : Crypto → ℕ → TxBuilder → Transaction
partial_tx crypto timestamp_ms b = record {
  version = tx_version;
  sender = crypto.public_key b.signing_key;
  recipient = b.recipient;
  amount = b.amount;
  fee = b.fee;
  sequence = b.sequence;
  timestamp_ms = timestamp_ms;
  prev_tx_hash = b.prev_tx_hash;
  memo = b.memo;
  posc_proof = zero_hash;
  posc_steps = posc_steps;
  signature = replicate 64 0;
}

unfoldable pub build_and_prove : Crypto → ℕ → TxBuilder → Result Transaction TaronError
unfolding partial_tx
build_and_prove crypto now_ms b =
    if ltb max_tx_data_bytes (length b.memo)
    then err (transaction_too_large (length b.memo))
    else (let tx = partial_tx crypto now_ms b in
        let proved = record tx { posc_proof = sequal crypto (to_bytes_for_posc tx) posc_steps } in
        ok (record proved { signature = crypto.sign b.signing_key (to_bytes_for_signing proved) }))

Built-fee : (wallet : Bytes) (b : TxBuilder) → Built wallet b → 1 ≤ b.fee
unfolding new_builder with_recipient with_amount with_fee with_sequence with_prev_tx_hash with_memo
Built-fee wallet b start = omega arith
Built-fee wallet b (recipient pubkey s) = Built-fee wallet _ s
Built-fee wallet b (amount utar s) = Built-fee wallet _ s
Built-fee wallet b (fee utar s) = omega arith
Built-fee wallet b (sequence seq s) = Built-fee wallet _ s
Built-fee wallet b (prev_tx_hash hash s) = Built-fee wallet _ s
Built-fee wallet b (memo bytes s) = Built-fee wallet _ s

module _ (crypto : Crypto) (now_ms : ℕ) (b : TxBuilder) where
  proved_tx : Transaction
  unfolding partial_tx
  proved_tx = record (partial_tx crypto now_ms b) {
    posc_proof = sequal crypto (to_bytes_for_posc (partial_tx crypto now_ms b)) posc_steps;
  }

  -- The transaction that is returned.
  unfoldable pub built_tx : Transaction
  unfolding proved_tx partial_tx
  built_tx = record proved_tx {
    signature = crypto.sign b.signing_key (to_bytes_for_signing proved_tx);
  }

  built_tx-verify_posc : verify_posc crypto built_tx ≡ ok tt
  unfolding verify_posc built_tx proved_tx partial_tx to_bytes_for_posc
  built_tx-verify_posc = if_pos (bytes_dec built_tx.posc_proof built_tx.posc_proof) refl _ _

  built_tx-verify_tx_signature : IsSound crypto → verify_tx_signature crypto built_tx ≡ ok tt
  unfolding verify_tx_signature verify_signature built_tx proved_tx partial_tx to_bytes_for_posc
      to_bytes_for_signing
  built_tx-verify_tx_signature sound =
      rw
        (
          verify_tx_signature,
          verify_signature,
          sound.own_key b.signing_key,
          sound.own_signature b.signing_key (to_bytes_for_signing proved_tx),
        )
        refl

  built_tx-validate_structure :
      (later : ℕ)
      → length b.memo ≤ max_tx_data_bytes
      → 1 ≤ b.fee
      → time_delta now_ms later ≤ timestamp_tolerance_ms
      → validate_structure later built_tx ≡ ok tt
  unfolding validate_structure built_tx proved_tx partial_tx
  built_tx-validate_structure later small paid soon = ground arith

-- With cryptography that keeps its promises, a transaction whose memo has at most 256 bytes is built
-- from any sequence of setters, and it passes the check of its signature, the check of its proof, and
-- the check of its structure at every time within 30 seconds of its own.
pub build_and_prove-valid :
    (crypto : Crypto) (wallet : Bytes) (b : TxBuilder) (now_ms later : ℕ)
    → IsSound crypto
    → Built wallet b
    → length b.memo ≤ max_tx_data_bytes
    → time_delta now_ms later ≤ timestamp_tolerance_ms
    → (tx : Transaction) × (build_and_prove crypto now_ms b ≡ ok tx)
      × (verify_tx_signature crypto tx ≡ ok tt)
      × (verify_posc crypto tx ≡ ok tt)
      × (validate_structure later tx ≡ ok tt)
unfolding build_and_prove built_tx proved_tx partial_tx
build_and_prove-valid crypto wallet b now_ms later sound steps small soon =
    let short : ltb max_tx_data_bytes (length b.memo) ≡ false = ground arith in
    (
      built_tx crypto now_ms b,
      rw (build_and_prove, short) refl,
      built_tx-verify_tx_signature crypto now_ms b sound,
      built_tx-verify_posc crypto now_ms b,
      built_tx-validate_structure crypto now_ms b later small (Built-fee wallet b steps) soon,
    )
