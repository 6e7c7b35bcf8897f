-- ===== src/Ledger/Revert.antt =====
-- `revert_tx` and `revert_coinbase` undo what `apply_tx`, `apply_tx_ibd` and `apply_coinbase` did to
-- the balances; what they do to the sequence numbers and to `last_tx_hash`.
use taron.Prelude.{ℕ, ◌+◌, ◌-◌, ◌<◌, ◌≤◌, ◌≡◌, arith, ite}
use taron.Prelude.Words.{Bytes, u64_mod, add64, saturating_sub}
use taron.Prelude.Text.{bytes_dec}
use taron.Error.{IsOk}
use taron.Wallet.{Crypto}
use taron.Transaction.{Transaction, total_cost}
use taron.Genesis.{AccountState, credit}
use taron.Ledger.{
  Ledger, entry, update, apply_tx, apply_tx_ibd, apply_coinbase, coinbase_hash, revert_tx,
  revert_coinbase,
}
use taron.Ledger.Entries.{supply, entry-update, entry-le-supply}
use taron.Ledger.Effects.{at}
use taron.Ledger.Supply.{apply_tx_effects, apply_tx_ibd_effects}

-- What `revert_tx` does to the recipient's account, and then to the sender's.
abbrev take_back : Transaction → AccountState → AccountState
take_back tx a = record a { balance = saturating_sub a.balance tx.amount }

abbrev give_back : Transaction → AccountState → AccountState
give_back tx a = record a {
  balance = add64 a.balance (total_cost tx);
  sequence = saturating_sub a.sequence 1;
}

module _ (tx : Transaction) (l : Ledger) where
  -- The balances and sequence numbers after `revert_tx`, from those before it.
  pub revert_tx_balance :
      (j : Bytes) (old : ℕ)
      → old < u64_mod
      → at tx.sender j (total_cost tx) ≤ old
      → (entry j l).balance + at tx.sender j (total_cost tx) ≡ old + at tx.recipient j tx.amount
      → (entry j (revert_tx tx l)).balance ≡ old
  unfolding revert_tx
  revert_tx_balance j old fits covered moved = ground (
    arith,
    entry-update j tx.sender (give_back tx) (update tx.recipient (take_back tx) l),
    entry-update tx.sender tx.recipient (take_back tx) l,
    entry-update j tx.recipient (take_back tx) l,
  )

  pub revert_tx_sequence :
      (j : Bytes)
      → (entry j (revert_tx tx l)).sequence
        ≡ ite (bytes_dec tx.sender j) (saturating_sub (entry j l).sequence 1) (entry j l).sequence
  unfolding revert_tx
  revert_tx_sequence j = ground (
    arith,
    entry-update j tx.sender (give_back tx) (update tx.recipient (take_back tx) l),
    entry-update j tx.recipient (take_back tx) l,
  )

-- What the sender is charged it held, if it held the total cost.
at-le :
    (tx : Transaction) (l : Ledger) (j : Bytes)
    → total_cost tx ≤ (entry tx.sender l).balance
    → at tx.sender j (total_cost tx) ≤ (entry j l).balance
at-le tx l j cover = ground arith

module _ (crypto : Crypto) (tx : Transaction) (l : Ledger) (fits : supply l < u64_mod)
    (word : tx.amount < u64_mod) (j : Bytes) where
  -- Reverting a transaction that `apply_tx` accepted gives every account its balance and its
  -- sequence number back, if the balances add up to less than 2 ^ 64, the amount is below 2 ^ 64 and
  -- the sender's sequence number is below the largest 64-bit word.
  pub revert_tx-apply_tx :
      (entry tx.sender l).sequence + 1 < u64_mod
      → IsOk (apply_tx crypto tx l).0
      → let l' = revert_tx tx (apply_tx crypto tx l).1 in
        ((entry j l').balance ≡ (entry j l).balance)
        × ((entry j l').sequence ≡ (entry j l).sequence)
  revert_tx-apply_tx room good =
      let (moved, counted, cover) = apply_tx_effects crypto tx l fits word j good in
      let l' = (apply_tx crypto tx l).1 in
      (
        revert_tx_balance tx l' j (entry j l).balance (omega (arith, entry-le-supply j l))
            (at-le tx l j cover) moved,
        ground (arith, revert_tx_sequence tx l' j),
      )

  -- Reverting a transaction that `apply_tx_ibd` accepted gives every account its balance back, if
  -- the balances add up to less than 2 ^ 64 and the amount is below 2 ^ 64. The sender's sequence
  -- number becomes one less than the transaction's (0 for 0), whatever it was before; the others stay.
  pub revert_tx-apply_tx_ibd :
      IsOk (apply_tx_ibd crypto tx l).0
      → let l' = revert_tx tx (apply_tx_ibd crypto tx l).1 in
        ((entry j l').balance ≡ (entry j l).balance)
        × ((entry j l').sequence
            ≡ ite (bytes_dec tx.sender j) (tx.sequence - 1) (entry j l).sequence)
  revert_tx-apply_tx_ibd good =
      let (moved, counted, cover) = apply_tx_ibd_effects crypto tx l fits word j good in
      let l' = (apply_tx_ibd crypto tx l).1 in
      (
        revert_tx_balance tx l' j (entry j l).balance (omega (arith, entry-le-supply j l))
            (at-le tx l j cover) moved,
        ground (arith, revert_tx_sequence tx l' j),
      )

-- Reverting a mining reward gives every account its balance and its sequence number back, if the
-- balances and the reward add up to less than 2 ^ 64.
pub revert_coinbase-apply_coinbase :
    (crypto : Crypto) (miner : Bytes) (reward : ℕ) (l : Ledger) (j : Bytes)
    → supply l + reward < u64_mod
    → let l' = revert_coinbase miner reward (apply_coinbase crypto miner reward l) in
      ((entry j l').balance ≡ (entry j l).balance) × ((entry j l').sequence ≡ (entry j l).sequence)
unfolding revert_coinbase apply_coinbase credit
revert_coinbase-apply_coinbase crypto miner reward l j h =
    let f : AccountState → AccountState =
      λ a. record (credit reward a) { last_tx_hash = coinbase_hash crypto miner reward } in
    let g : AccountState → AccountState =
      λ a. record a { balance = saturating_sub a.balance reward } in
    ground (
      arith,
      entry-le-supply j l,
      entry-update j miner f l,
      entry-update j miner g (update miner f l),
      entry-update miner miner f l,
    )

-- Two ledgers that hold the same balances.
abbrev pub SameBalances : Ledger → Ledger → Type 0
SameBalances l l' = (j : Bytes) → (entry j l).balance ≡ (entry j l').balance

-- The balances come back whatever the sequence numbers are.
pub revert_tx-apply_tx_balances :
    (crypto : Crypto) (tx : Transaction) (l : Ledger)
    → supply l < u64_mod
    → tx.amount < u64_mod
    → IsOk (apply_tx crypto tx l).0
    → SameBalances (revert_tx tx (apply_tx crypto tx l).1) l
revert_tx-apply_tx_balances crypto tx l fits word good j =
    let (moved, counted, cover) = apply_tx_effects crypto tx l fits word j good in
    revert_tx_balance tx (apply_tx crypto tx l).1 j (entry j l).balance
      (omega (arith, entry-le-supply j l)) (at-le tx l j cover) moved

-- Reverting reads balances and nothing else to give the new balances.
pub revert_tx-SameBalances :
    (tx : Transaction) (l l' : Ledger)
    → SameBalances l l'
    → SameBalances (revert_tx tx l) (revert_tx tx l')
unfolding revert_tx
revert_tx-SameBalances tx l l' same j = ground (
  arith,
  same j,
  same tx.sender,
  same tx.recipient,
  entry-update j tx.sender (give_back tx) (update tx.recipient (take_back tx) l),
  entry-update j tx.recipient (take_back tx) l,
  entry-update tx.sender tx.recipient (take_back tx) l,
  entry-update j tx.sender (give_back tx) (update tx.recipient (take_back tx) l'),
  entry-update j tx.recipient (take_back tx) l',
  entry-update tx.sender tx.recipient (take_back tx) l',
)

pub revert_coinbase-SameBalances :
    (miner : Bytes) (reward : ℕ) (l l' : Ledger)
    → SameBalances l l'
    → SameBalances (revert_coinbase miner reward l) (revert_coinbase miner reward l')
unfolding revert_coinbase
revert_coinbase-SameBalances miner reward l l' same j =
    let f : AccountState → AccountState =
      λ a. record a { balance = saturating_sub a.balance reward } in
    ground (arith, same j, same miner, entry-update j miner f l, entry-update j miner f l')
