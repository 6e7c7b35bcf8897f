-- ===== src/Ledger/Downloads.antt =====
-- `apply_tx_ibd` of crates/taron-core/src/ledger.rs after `apply_tx`: a transaction that a node has taken
-- by gossip, and that a block of a download brings again.
use taron.Prelude.{◌+◌, ◌*◌, ◌<◌, ◌≤◌, ◌≡◌, sym, ap, ◌∙◌, false, arith, inl, inr, ltb}
use taron.Prelude.Words.{Bytes, u64_mod}
use taron.Error.{IsOk}
use taron.Wallet.{Crypto}
use taron.Transaction.{Transaction, total_cost, hash}
use taron.Ledger.{Ledger, entry, balance, apply_tx, apply_tx_ibd}
use taron.Ledger.Entries.{balance-entry, supply}
use taron.Ledger.Effects.{
  at, apply_tx-Accepted, apply_tx-cases, debit_sender-settled, amount-le-total_cost,
}
use taron.Ledger.Replay.{apply_tx_ibd-sequence, Accepted-sequence, accepted_sequence}
use taron.Ledger.Supply.{apply_tx-Burns, apply_tx_effects, apply_tx_ibd_effects, apply_tx-IsOk_iff}

module _ (crypto : Crypto) where
  -- `apply_tx_ibd` looks at the balance only.
  apply_tx_ibd-IsOk :
      (t : Transaction) (l : Ledger)
      → total_cost t ≤ (entry t.sender l).balance
      → IsOk (apply_tx_ibd crypto t l).0
  unfolding apply_tx_ibd
  apply_tx_ibd-IsOk t l cover =
      let enough : ltb (balance t.sender l) (total_cost t) ≡ false =
        ground (arith, balance-entry t.sender l) in
      rw
        (
          enough,
          debit_sender-settled t (hash crypto t) (λ s. record s { sequence = t.sequence }) l cover,
        )
        tt

  burnt :
      (t : Transaction) (l : Ledger)
      → supply l < u64_mod
      → t.amount < u64_mod
      → IsOk (apply_tx crypto t l).0
      → supply (apply_tx crypto t l).1 ≤ supply l
  burnt t l fits word good = elim (apply_tx-cases crypto t l) [
    | inl a ↦
        let burns = rw (apply_tx-Accepted crypto t l a) at (apply_tx-Burns crypto t l fits word) in
        rw (apply_tx-Accepted crypto t l a) (omega (arith, burns, amount-le-total_cost t word))
    | inr (e, failed) ↦ rw failed (omega arith)
  ]

  -- A transaction that `apply_tx` has accepted is accepted by `apply_tx_ibd` once more if the sender
  -- still holds the total cost, and takes effect twice: the sender pays twice and the recipient is paid
  -- twice, while the sequence number of every account stays what the first made it. The balances add up
  -- to less than 2 ^ 64, and the amount is below 2 ^ 64.
  pub apply_tx_ibd-apply_tx :
      (t : Transaction) (l : Ledger) (j : Bytes)
      → supply l < u64_mod
      → t.amount < u64_mod
      → IsOk (apply_tx crypto t l).0
      → total_cost t ≤ (entry t.sender (apply_tx crypto t l).1).balance
      → let l₁ = (apply_tx crypto t l).1 in
        let l₂ = (apply_tx_ibd crypto t l₁).1 in
        IsOk (apply_tx_ibd crypto t l₁).0
        × ((entry j l₂).balance + 2 * at t.sender j (total_cost t)
            ≡ (entry j l).balance + 2 * at t.recipient j t.amount)
        × ((entry j l₂).sequence ≡ (entry j l₁).sequence)
  apply_tx_ibd-apply_tx t l j fits word good cover =
      let l₁ = (apply_tx crypto t l).1 in
      let again = apply_tx_ibd-IsOk t l₁ cover in
      let (first, _, _) = apply_tx_effects crypto t l fits word j good in
      let (second, _, _) =
        apply_tx_ibd_effects crypto t l₁ (omega (arith, burnt t l fits word good)) word j again in
      let same : (entry j (apply_tx_ibd crypto t l₁).1).sequence ≡ (entry j l₁).sequence =
        elim (apply_tx_ibd-sequence crypto t l₁ j) [
          | inl kept ↦ kept
          | inr (set, own) ↦
              let first_set = accepted_sequence crypto t l good in
              let number = Accepted-sequence crypto t l ((apply_tx-IsOk_iff crypto t l).0 good) in
              set ∙ number ∙ sym first_set ∙ ap (λ k. (entry k l₁).sequence) own
        ] in
      (again, omega (arith, first, second), same)
