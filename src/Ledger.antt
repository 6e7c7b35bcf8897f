-- ===== src/Ledger.antt =====
-- `Ledger` of crates/taron-core/src/ledger.rs. The struct has one field, the map `accounts`, so it
-- is the map. A method that changes it returns the new ledger beside its result, on the error
-- paths too. The arithmetic is that of a release build, which wraps.
pub mod Entries
pub mod Effects
pub mod Supply
pub mod Revert
pub mod Downloads
pub mod Replay
use taron.Prelude.{
  ℕ, ◌+◌, ◌-◌, Bool, Option, none, some, List, [], ◌∷◌, ◌++◌, length, ltb, ◌!=◌, if◌then◌else◌,
}
use taron.Prelude.Words.{Bytes, add64, saturating_sub, to_le_bytes}
use taron.Prelude.Text.{bytes_dec, codes}
use taron.Prelude.Dict.{Dict, lookup, insert}
use taron.Error.{Result, ok, err, TaronError, insufficient_balance, invalid_sequence}
use taron.Wallet.{Crypto}
use taron.Transaction.{Transaction, hash, total_cost}
use taron.Genesis.{AccountState, new_account, spend, credit, testnet_accounts}

abbrev pub Ledger : Type 0
Ledger = Dict Bytes AccountState

unfoldable pub new_testnet : Ledger
unfolding testnet_accounts
new_testnet = testnet_accounts

unfoldable pub get_account : Bytes → Ledger → Option AccountState
get_account pubkey l = lookup bytes_dec pubkey l

-- The account, or the fresh one that `get_account_mut` would insert.
abbrev pub or_new : Option AccountState → AccountState
or_new none = new_account 0
or_new (some a) = a

unfoldable pub entry : Bytes → Ledger → AccountState
entry pubkey l = or_new (get_account pubkey l)

unfoldable pub balance : Bytes → Ledger → ℕ
balance pubkey l = elim (get_account pubkey l) [ none ↦ 0 | some a ↦ a.balance ]

-- `get_account_mut`, and a write through the reference that it returns
unfoldable pub update : Bytes → (AccountState → AccountState) → Ledger → Ledger
update pubkey f l = insert bytes_dec pubkey (f (entry pubkey l)) l

-- `total_supply` adds the balances as `u64`.
unfoldable pub total_supply_from : ℕ → Ledger → ℕ
total_supply_from acc [] = acc
total_supply_from acc ((_, a) ∷ l) = total_supply_from (add64 acc a.balance) l

unfoldable pub total_supply : Ledger → ℕ
unfolding total_supply_from
total_supply l = total_supply_from 0 l

unfoldable pub account_count : Ledger → ℕ
account_count l = length l

-- The second block of `apply_tx` and `apply_tx_ibd`: credit the recipient.
unfoldable pub credit_recipient : Transaction → Bytes → Ledger → Ledger
credit_recipient tx tx_hash l =
    update tx.recipient (λ a. record (credit tx.amount a) { last_tx_hash = tx_hash }) l

-- The first block: debit the sender, and go on if that succeeds.
unfoldable pub debit_sender :
    Transaction
    → Bytes
    → (AccountState → AccountState)
    → Ledger
    → Result (Unit {0}) TaronError × Ledger
debit_sender tx tx_hash after l =
    let (r, a) = spend (total_cost tx) tx_hash (entry tx.sender l) in
    elim r [
      | err _ ↦
          (err (insufficient_balance a.balance (total_cost tx)), insert bytes_dec tx.sender a l)
      | ok _ ↦ (ok tt, credit_recipient tx tx_hash (insert bytes_dec tx.sender (after a) l))
    ]

module _ (crypto : Crypto) where
  unfoldable pub apply_tx : Transaction → Ledger → Result (Unit {0}) TaronError × Ledger
  apply_tx tx l = elim (get_account tx.sender l) [
    | none ↦ (err (insufficient_balance 0 (total_cost tx)), l)
    | some a ↦
        if ltb a.balance (total_cost tx)
        then (err (insufficient_balance a.balance (total_cost tx)), l)
        else if tx.sequence != add64 a.sequence 1
        then (err (invalid_sequence (add64 a.sequence 1) tx.sequence), l)
        else debit_sender tx (hash crypto tx) (λ s. s) l
  ]

  unfoldable pub apply_tx_ibd : Transaction → Ledger → Result (Unit {0}) TaronError × Ledger
  apply_tx_ibd tx l =
      if ltb (balance tx.sender l) (total_cost tx)
      then (err (insufficient_balance (balance tx.sender l) (total_cost tx)), l)
      else debit_sender tx (hash crypto tx) (λ s. record s { sequence = tx.sequence }) l

  unfoldable pub coinbase_hash : Bytes → ℕ → Bytes
  coinbase_hash pubkey amount =
      crypto.sha3_256 (pubkey ++ (to_le_bytes 8 amount ++ codes "coinbase"))

  unfoldable pub apply_coinbase : Bytes → ℕ → Ledger → Ledger
  apply_coinbase pubkey amount l =
      update pubkey (λ a. record (credit amount a) { last_tx_hash = coinbase_hash pubkey amount }) l

unfoldable pub revert_tx : Transaction → Ledger → Ledger
revert_tx tx l =
    update tx.sender
      (λ a. record a {
        balance = add64 a.balance (total_cost tx);
        sequence = saturating_sub a.sequence 1;
      })
      (update tx.recipient (λ a. record a { balance = saturating_sub a.balance tx.amount }) l)

unfoldable pub revert_coinbase : Bytes → ℕ → Ledger → Ledger
revert_coinbase pubkey amount l =
    update pubkey (λ a. record a { balance = saturating_sub a.balance amount }) l
