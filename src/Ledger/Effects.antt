-- ===== src/Ledger/Effects.antt =====
-- What `apply_tx` accepts, and what an accepted transaction does to every account.
use taron.Prelude.{
  ℕ, ◌+◌, ◌-◌, ◌≤◌, ◌<◌, ◌≡◌, refl, some, arith, ite, inl, inr, Option-cases, Bool-cases, ◌⊎◌, ltb,
  ◌==◌,
}
use taron.Prelude.Words.{Bytes, add64, u64_mod}
use taron.Prelude.Text.{bytes_dec}
use taron.Prelude.Dict.{insert}
use taron.Error.{ok, err, TaronError, insufficient_balance, invalid_sequence}
use taron.Wallet.{Crypto}
use taron.Transaction.{Transaction, total_cost, hash}
use taron.Genesis.{AccountState, spend, credit}
use taron.Ledger.{Ledger, get_account, entry, credit_recipient, debit_sender, apply_tx}
use taron.Ledger.Entries.{
  entry-insert, entry-update, supply, supply-insert, supply-update, entry-le-supply,
}

-- The sender's account after the debit.
abbrev pub spent : Transaction → Bytes → AccountState → AccountState
spent tx h a = record {
  balance = a.balance - total_cost tx;
  sequence = add64 a.sequence 1;
  last_tx_hash = h;
}

-- An amount that falls on the account `j` if it is `k`.
abbrev pub at : Bytes → Bytes → ℕ → ℕ
at k j n = ite (bytes_dec k j) n 0

module _ (tx : Transaction) (h : Bytes) (after : AccountState → AccountState) (l : Ledger) where
  -- The ledger that a covered debit leads to.
  abbrev pub settled : Ledger
  settled =
      credit_recipient tx h (insert bytes_dec tx.sender (after (spent tx h (entry tx.sender l))) l)

  pub debit_sender-settled :
      total_cost tx ≤ (entry tx.sender l).balance → debit_sender tx h after l ≡ (ok tt, settled)
  unfolding debit_sender spend
  debit_sender-settled cover = ground arith

  pub sequence-settled :
      (j : Bytes)
      → (entry j settled).sequence
        ≡ ite
            (bytes_dec tx.sender j)
            (after (spent tx h (entry tx.sender l))).sequence
            (entry j l).sequence
  unfolding credit_recipient credit
  sequence-settled j = ground (
    arith,
    entry-insert j tx.sender (after (spent tx h (entry tx.sender l))) l,
    entry-update j tx.recipient
        (λ (a : AccountState). record (credit tx.amount a) { last_tx_hash = h })
        (insert bytes_dec tx.sender (after (spent tx h (entry tx.sender l))) l),
  )

  module _ (keep : (a : AccountState) → (after a).balance ≡ a.balance)
      (cover : total_cost tx ≤ (entry tx.sender l).balance) (fits : supply l < u64_mod)
      (small : tx.amount ≤ total_cost tx) where
    abbrev debited : Ledger
    debited = insert bytes_dec tx.sender (after (spent tx h (entry tx.sender l))) l

    supply-debited : supply debited + total_cost tx ≡ supply l
    supply-debited = omega (
      arith,
      supply-insert tx.sender (after (spent tx h (entry tx.sender l))) l,
      keep (spent tx h (entry tx.sender l)),
    )

    pub supply-settled : supply settled + total_cost tx ≡ supply l + tx.amount
    unfolding credit_recipient credit
    supply-settled = omega (
      arith,
      supply-debited,
      entry-le-supply tx.recipient debited,
      supply-update tx.recipient (λ a. record (credit tx.amount a) { last_tx_hash = h }) debited,
    )

    pub balance-settled :
        (j : Bytes)
        → (entry j settled).balance + at tx.sender j (total_cost tx)
          ≡ (entry j l).balance + at tx.recipient j tx.amount
    unfolding credit_recipient credit
    balance-settled j = ground (
      arith,
      supply-debited,
      entry-le-supply tx.recipient debited,
      keep (spent tx h (entry tx.sender l)),
      entry-insert j tx.sender (after (spent tx h (entry tx.sender l))) l,
      entry-update j tx.recipient
          (λ (a : AccountState). record (credit tx.amount a) { last_tx_hash = h }) debited,
    )

-- The amount of a transaction is at most its cost, as both are words.
pub amount-le-total_cost : (tx : Transaction) → tx.amount < u64_mod → tx.amount ≤ total_cost tx
unfolding total_cost
amount-le-total_cost tx h = omega arith

module _ (crypto : Crypto) (tx : Transaction) (l : Ledger) where
  -- The three conditions under which `apply_tx` accepts a transaction.
  pub record Accepted : Type 0 where
    pub account : AccountState
    pub found : get_account tx.sender l ≡ some account
    pub covered : total_cost tx ≤ account.balance
    pub in_sequence : tx.sequence ≡ add64 account.sequence 1

  abbrev pub after_tx : Ledger
  after_tx = settled tx (hash crypto tx) (λ s. s) l

  pub apply_tx-Accepted : Accepted → apply_tx crypto tx l ≡ (ok tt, after_tx)
  unfolding apply_tx entry
  apply_tx-Accepted a = ground (
    arith,
    a.found,
    a.covered,
    a.in_sequence,
    debit_sender-settled tx (hash crypto tx) (λ (s : AccountState). s) l,
  )

  -- Either the transaction is accepted, or the call fails and leaves the ledger alone.
  pub apply_tx-cases : Accepted ⊎ ((e : TaronError) × (apply_tx crypto tx l ≡ (err e, l)))
  unfolding apply_tx
  apply_tx-cases = elim (Option-cases (get_account tx.sender l)) [
    | inl missing ↦ inr (insufficient_balance 0 (total_cost tx), ground arith)
    | inr (a, found) ↦ elim (Bool-cases (ltb a.balance (total_cost tx))) [
      | inl short ↦ inr (insufficient_balance a.balance (total_cost tx), ground arith)
      | inr enough ↦ elim (Bool-cases (tx.sequence == add64 a.sequence 1)) [
        | inl eq ↦ inl (record {
          account = a;
          found = found;
          covered = ground arith;
          in_sequence = ground arith;
        })
        | inr ne ↦ inr (invalid_sequence (add64 a.sequence 1) tx.sequence, ground arith)
      ]
    ]
  ]

  -- A refused transaction leaves the ledger as it was.
  pub apply_tx-err :
      (e : TaronError) → (apply_tx crypto tx l).0 ≡ err e → (apply_tx crypto tx l).1 ≡ l
  apply_tx-err e h = elim apply_tx-cases [
    | inl a ↦ absurd (ground (arith, apply_tx-Accepted a))
    | inr (e', failed) ↦ rw failed refl
  ]
