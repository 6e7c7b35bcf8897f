-- ===== src/Node/Rpc/Submitted.antt =====
-- Transactions that are submitted over HTTP, crates/taron-node/src/rpc.rs: the answer compared with
-- the checks of the ledger and of the memory pool.
use taron.Prelude.{◌≤◌, ◌<◌, ◌≡◌, ◌↔◌, true, arith, inl, inr, Option-cases}
use taron.Error.{ok, IsOk, Result-cases}
use taron.Wallet.{Crypto}
use taron.Transaction.{Transaction, total_cost}
use taron.Ledger.{balance, get_account, apply_tx}
use taron.Ledger.Supply.{apply_tx-IsOk_iff}
use taron.Node.Mempool.{insert_tx}
use taron.Node.State.{TaronNode}
use taron.Node.Rpc.{submit_tx, SubmitTxResponse, expected_sequence}

module _ (crypto : Crypto) (t : Transaction) (n : TaronNode) where
  -- A submission passes the checks on the balance and on the sequence number.
  abbrev Passes : Type 0
  Passes = (total_cost t ≤ balance t.sender n.ledger) × (t.sequence ≡ expected_sequence t.sender n)

  Passes-IsOk : 0 < total_cost t → Passes → IsOk (apply_tx crypto t n.ledger).0
  unfolding balance get_account expected_sequence
  Passes-IsOk costs (covered, numbered) = elim (Option-cases (get_account t.sender n.ledger)) [
    | inl missing ↦ absurd (ground arith)
    | inr (a, found) ↦
        (apply_tx-IsOk_iff crypto t n.ledger).1 (record {
          account = a;
          found = found;
          covered = ground arith;
          in_sequence = ground arith;
        })
  ]

  IsOk-Passes : IsOk (apply_tx crypto t n.ledger).0 → Passes
  unfolding balance get_account expected_sequence
  IsOk-Passes good =
      let a = (apply_tx-IsOk_iff crypto t n.ledger).0 good in
      (ground (arith, a.found, a.covered), ground (arith, a.found, a.in_sequence))

  -- A transaction that costs something is accepted exactly if the ledger would apply it now and the
  -- memory pool takes it as new.
  pub submit_tx-accepted :
      0 < total_cost t
      → ((submit_tx crypto t n).0 ≡ SubmitTxResponse.tx_accepted)
        ↔ (IsOk (apply_tx crypto t n.ledger).0 × ((insert_tx crypto t n.mempool).0 ≡ ok true))
  unfolding submit_tx
  submit_tx-accepted costs = (
    λ taken. elim (Result-cases (insert_tx crypto t n.mempool).0) [
      | inl (new, fine) ↦ (Passes-IsOk costs (ground arith, ground arith), ground arith)
      | inr (e, bad) ↦ absurd (ground arith)
    ],
    λ (good, new). ground (arith, IsOk-Passes good),
  )
