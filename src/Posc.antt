-- ===== src/Posc.antt =====
-- crates/taron-core/src/posc.rs: the proof of sequential computation that a transaction carries.
use taron.Prelude.{ℕ, Bool, false, leb, ite}
use taron.Prelude.Words.{Bytes}
use taron.Prelude.Text.{bytes_dec}
use taron.Error.{Result, ok, err, TaronError, invalid_posc}
use taron.Wallet.{Crypto}
use taron.Transaction.{Transaction, to_bytes_for_posc}
use taron.Genesis.{zero_hash}
use taron.Hash.{sequal, posc_steps}

module _ (crypto : Crypto) where
  -- `PoscProof::compute_with_steps`
  unfoldable pub compute_with_steps : Bytes → ℕ → Bytes
  compute_with_steps tx_bytes steps = sequal crypto tx_bytes steps

  -- `PoscProof::compute`
  unfoldable pub compute : Bytes → Bytes
  compute tx_bytes = sequal crypto tx_bytes posc_steps

  -- `PoscVerifier::verify`
  unfoldable pub verify_posc : Transaction → Result (Unit {0}) TaronError
  verify_posc tx =
      ite (bytes_dec (sequal crypto (to_bytes_for_posc tx) tx.posc_steps) tx.posc_proof) (ok tt)
        (err invalid_posc)

-- `PoscVerifier::is_non_trivial`
unfoldable pub is_non_trivial : Transaction → Bool
is_non_trivial tx = ite (bytes_dec tx.posc_proof zero_hash) false (leb 100 tx.posc_steps)
