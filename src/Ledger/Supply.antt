-- ===== src/Ledger/Supply.antt =====
-- What the operations on the ledger do to the sum of the balances and to each balance.
use taron.Prelude.{ℕ, ◌+◌, ◌<◌, ◌≤◌, ◌≡◌, ◌↔◌, refl, arith, ite, inl, inr, Bool-cases, ltb}
use taron.Prelude.Words.{Bytes, u64_mod, add64}
use taron.Prelude.Text.{bytes_dec}
use taron.Error.{Result, ok, err, TaronError, IsOk}
use taron.Wallet.{Crypto}
use taron.Transaction.{Transaction, total_cost, hash}
use taron.Genesis.{AccountState, credit}
use taron.Ledger.{Ledger, entry, balance, apply_tx, apply_tx_ibd, apply_coinbase, coinbase_hash}
use taron.Ledger.Entries.{balance-entry, supply, supply-update, entry-update, entry-le-supply}
use taron.Ledger.Effects.{
  at, Accepted, apply_tx-Accepted, apply_tx-cases, supply-settled, balance-settled,
  sequence-settled, amount-le-total_cost, debit_sender-settled,
}

-- What a call has done to the supply: a success burns what the sender pays beyond the amount, and
-- a failure changes nothing.
abbrev pub Burns : Transaction → Ledger → Result (Unit {0}) TaronError × Ledger → Type 0
Burns tx l (ok _, l') = supply l' + total_cost tx ≡ supply l + tx.amount
Burns tx l (err _, l') = l' ≡ l

module _ (crypto : Crypto) (tx : Transaction) (l : Ledger) (fits : supply l < u64_mod)
    (word : tx.amount < u64_mod) where
  Accepted-covered : Accepted crypto tx l → total_cost tx ≤ (entry tx.sender l).balance
  unfolding entry
  Accepted-covered a = ground (arith, a.found, a.covered)

  -- If the balances add up to less than 2 ^ 64 and the amount is below 2 ^ 64, then a transaction
  -- that `apply_tx` accepts lowers their sum by exactly what the sender pays beyond the amount, also
  -- from an account to itself, and one that it refuses leaves the ledger as it was.
  pub apply_tx-Burns : Burns tx l (apply_tx crypto tx l)
  apply_tx-Burns = elim (apply_tx-cases crypto tx l) [
    | inl a ↦ rw (apply_tx-Accepted crypto tx l a) (
        supply-settled tx (hash crypto tx) (λ s. s) l (λ s. refl) (Accepted-covered a) fits
          (amount-le-total_cost tx word))
    | inr (e, failed) ↦ rw failed refl
  ]

  -- If the balances add up to less than 2 ^ 64 and the amount is below 2 ^ 64, then a transaction
  -- that `apply_tx_ibd` accepts lowers their sum by exactly what the sender pays beyond the amount,
  -- and one that it refuses leaves the ledger as it was.
  pub apply_tx_ibd-Burns : Burns tx l (apply_tx_ibd crypto tx l)
  unfolding apply_tx_ibd
  apply_tx_ibd-Burns = elim (Bool-cases (ltb (balance tx.sender l) (total_cost tx))) [
    | inl short ↦ rw short refl
    | inr enough ↦
        let cover : total_cost tx ≤ (entry tx.sender l).balance =
          ground (arith, balance-entry tx.sender l) in
        rw
          (
            enough,
            debit_sender-settled tx (hash crypto tx) (λ s. record s { sequence = tx.sequence }) l
                cover,
          )
          (supply-settled tx (hash crypto tx) (λ s. record s { sequence = tx.sequence }) l
            (λ s. refl) cover fits (amount-le-total_cost tx word))
  ]

  -- If the balances add up to less than 2 ^ 64 and the amount is below 2 ^ 64, then after a
  -- transaction that `apply_tx` accepted every account holds what it held, less the total cost if it
  -- is the sender, plus the amount if it is the recipient; the sender's sequence number has gone up
  -- by one, modulo 2 ^ 64, and no other has changed; and the sender held the total cost.
  pub apply_tx_effects :
      (j : Bytes)
      → IsOk (apply_tx crypto tx l).0
      → let l' = (apply_tx crypto tx l).1 in
        ((entry j l').balance + at tx.sender j (total_cost tx)
          ≡ (entry j l).balance + at tx.recipient j tx.amount)
        × ((entry j l').sequence
            ≡ ite
                (bytes_dec tx.sender j)
                (add64 (entry tx.sender l).sequence 1)
                (entry j l).sequence)
        × (total_cost tx ≤ (entry tx.sender l).balance)
  apply_tx_effects j good = elim (apply_tx-cases crypto tx l) [
    | inl a ↦ rw (apply_tx-Accepted crypto tx l a) (
      balance-settled tx (hash crypto tx) (λ s. s) l (λ s. refl) (Accepted-covered a) fits
          (amount-le-total_cost tx word) j,
      sequence-settled tx (hash crypto tx) (λ s. s) l j,
      Accepted-covered a,
    )
    | inr (e, failed) ↦ absurd (rw failed at good)
  ]

  -- If the balances add up to less than 2 ^ 64 and the amount is below 2 ^ 64, then after a
  -- transaction that `apply_tx_ibd` accepted every account holds what it held, less the total cost
  -- if it is the sender, plus the amount if it is the recipient; the sender's sequence number is the
  -- transaction's and no other has changed; and the sender held the total cost.
  pub apply_tx_ibd_effects :
      (j : Bytes)
      → IsOk (apply_tx_ibd crypto tx l).0
      → let l' = (apply_tx_ibd crypto tx l).1 in
        ((entry j l').balance + at tx.sender j (total_cost tx)
          ≡ (entry j l).balance + at tx.recipient j tx.amount)
        × ((entry j l').sequence ≡ ite (bytes_dec tx.sender j) tx.sequence (entry j l).sequence)
        × (total_cost tx ≤ (entry tx.sender l).balance)
  unfolding apply_tx_ibd
  apply_tx_ibd_effects j good = elim (Bool-cases (ltb (balance tx.sender l) (total_cost tx))) [
    | inl short ↦ absurd (rw short at good)
    | inr enough ↦
        let cover : total_cost tx ≤ (entry tx.sender l).balance =
          ground (arith, balance-entry tx.sender l) in
        let set_sequence : AccountState → AccountState = λ s. record s { sequence = tx.sequence } in
        rw (enough, debit_sender-settled tx (hash crypto tx) set_sequence l cover)
          (
            balance-settled tx (hash crypto tx) set_sequence l (λ s. refl) cover fits
                (amount-le-total_cost tx word) j,
            sequence-settled tx (hash crypto tx) set_sequence l j,
            cover,
          )
  ]

module _ (crypto : Crypto) (tx : Transaction) (l : Ledger) where
  -- `apply_tx` succeeds exactly if the sender has an account that covers the total cost, and the
  -- transaction carries the number after the account's sequence number, modulo 2 ^ 64.
  pub apply_tx-IsOk_iff : IsOk (apply_tx crypto tx l).0 ↔ Accepted crypto tx l
  apply_tx-IsOk_iff = (
    λ good. elim (apply_tx-cases crypto tx l) [
      | inl a ↦ a
      | inr (e, failed) ↦ absurd (rw failed at good)
    ],
    λ a. rw (apply_tx-Accepted crypto tx l a) tt,
  )

-- A mining reward that keeps the sum of the balances below 2 ^ 64 raises it by the reward, and
-- credits the miner's account and no other.
pub apply_coinbase-supply :
    (crypto : Crypto) (miner : Bytes) (reward : ℕ) (l : Ledger) (j : Bytes)
    → supply l + reward < u64_mod
    → let l' = apply_coinbase crypto miner reward l in
      (supply l' ≡ supply l + reward)
      × ((entry j l').balance ≡ (entry j l).balance + at miner j reward)
unfolding apply_coinbase credit
apply_coinbase-supply crypto miner reward l j h =
    let f : AccountState → AccountState =
      λ a. record (credit reward a) { last_tx_hash = coinbase_hash crypto miner reward } in
    (
      omega (arith, entry-le-supply miner l, supply-update miner f l),
      ground (arith, entry-le-supply miner l, entry-update j miner f l),
    )
