-- ===== src/Blockchain/Supply.antt =====
-- What a block does to the supply of the ledger: it mints the canonical reward and burns fees. A
-- block that fails on a transaction has minted its reward all the same.
use taron.Prelude.{
  ℕ, ◌+◌, ◌-◌, ◌<◌, ◌≡◌, inl, inr, true, false, none, some, Option, List, [], ◌∷◌, arith, All,
  Option-cases,
}
use taron.Prelude.Words.{u64_mod}
use taron.Error.{Result, ok, err, TaronError, invalid_block, Result-cases}
use taron.Wallet.{Crypto}
use taron.Transaction.{Transaction, total_cost}
use taron.Genesis.{testnet_reward}
use taron.Ledger.{Ledger, apply_tx, apply_tx_ibd, apply_coinbase}
use taron.Ledger.Entries.{supply}
use taron.Ledger.Effects.{amount-le-total_cost, apply_tx-err}
use taron.Ledger.Supply.{Burns, apply_tx-Burns, apply_tx_ibd-Burns, apply_coinbase-supply}
use taron.Block.{Block}
use taron.Blockchain.{Blockchain, Outcome, append_block}
use taron.Blockchain.Blocks.{apply_txs, passes_checks, commit, apply_block, apply_block_ibd}
use taron.Blockchain.Checks.{Checked, passes_checks-Checked}

-- What the senders of a list of transactions pay beyond the amounts.
unfoldable pub burned : List Transaction → ℕ
burned [] = 0
burned (tx ∷ txs) = (total_cost tx - tx.amount) + burned txs

-- The amounts are words.
abbrev pub AllWords : List Transaction → Type 0
AllWords txs = All (λ tx. tx.amount < u64_mod) txs

module _ (apply : Transaction → Ledger → Result (Unit {0}) TaronError × Ledger)
    (burns : (tx : Transaction) (l : Ledger)
      → supply l < u64_mod
      → tx.amount < u64_mod
      → Burns tx l (apply tx l)) where
  apply_txs-burned :
      (txs : List Transaction) (l : Ledger)
      → AllWords txs
      → supply l < u64_mod
      → (apply_txs apply txs l).0 ≡ ok tt
      → supply (apply_txs apply txs l).1 + burned txs ≡ supply l
  unfolding apply_txs burned
  apply_txs-burned [] l words fits h = omega arith
  apply_txs-burned (tx ∷ txs) l words fits h =
      ground (arith, burns tx l, amount-le-total_cost tx, apply_txs-burned txs (apply tx l).1)

-- What a call has done to the supply: a block that is accepted mints the canonical reward and burns
-- what its senders pay beyond the amounts.
abbrev pub Mints : Block → Ledger → Option (Outcome (Unit {0})) → Type 0
Mints b l none = Unit
Mints b l (some (err _, c', l')) = Unit
Mints b l (some (ok _, c', l')) = supply l' + burned b.transactions ≡ supply l + testnet_reward

module _ (crypto : Crypto) (b : Block) (c : Blockchain) (l : Ledger) where
  commit-Mints :
      (apply : Transaction → Ledger → Result (Unit {0}) TaronError × Ledger)
      → ((tx : Transaction) (l' : Ledger)
          → supply l' < u64_mod
          → tx.amount < u64_mod
          → Burns tx l' (apply tx l'))
      → b.reward ≡ testnet_reward
      → AllWords b.transactions
      → supply l + testnet_reward < u64_mod
      → Mints b l (commit crypto apply b c l)
  unfolding commit
  commit-Mints apply burns reward words fits =
      let l₁ = apply_coinbase crypto b.miner b.reward l in
      elim (Result-cases (apply_txs apply b.transactions l₁).0) [
        | inr (e, failed) ↦ rw (commit, failed) tt
        | inl (_, applied) ↦ elim (Option-cases (append_block b c)) [
          | inl panicked ↦ rw (commit, applied, panicked) tt
          | inr (c', appended) ↦
              rw (commit, applied, appended)
                (omega (
                  arith,
                  apply_coinbase-supply crypto b.miner b.reward l b.miner,
                  apply_txs-burned apply burns b.transactions l₁ words
                      (omega (arith, apply_coinbase-supply crypto b.miner b.reward l b.miner))
                      applied,
                ))
        ]
      ]

  -- A block that `apply_block` accepts has passed every check, and it raises the sum of the balances
  -- by the canonical reward less what its senders pay beyond the amounts, if the sum and the reward
  -- stay below 2 ^ 64 and the amounts are words.
  pub apply_block-mints :
      (now_ms : ℕ) (c' : Blockchain) (l' : Ledger)
      → AllWords b.transactions
      → supply l + testnet_reward < u64_mod
      → apply_block crypto now_ms b c l ≡ some (ok tt, c', l')
      → Checked crypto now_ms true b c
        × (supply l' + burned b.transactions ≡ supply l + testnet_reward)
  unfolding apply_block
  apply_block-mints now_ms c' l' words fits h =
      elim (Option-cases (passes_checks crypto now_ms true b c)) [
        | inl e ↦ absurd (ground arith)
        | inr (false, e) ↦ absurd (ground arith)
        | inr (true, e) ↦
            let ch = passes_checks-Checked crypto now_ms true b c e in
            let done : commit crypto (apply_tx crypto) b c l ≡ some (ok tt, c', l') =
              ground arith in
            (
              ch,
              rw done at (
                  commit-Mints (apply_tx crypto) (λ tx k f w. apply_tx-Burns crypto tx k f w)
                    ch.canonical_reward words fits),
            )
      ]

  -- A block that `apply_block_ibd` accepts has passed every check but the one of the timestamp, and
  -- it raises the sum of the balances by the canonical reward less what its senders pay beyond the
  -- amounts, if the sum and the reward stay below 2 ^ 64 and the amounts are words.
  pub apply_block_ibd-mints :
      (c' : Blockchain) (l' : Ledger)
      → AllWords b.transactions
      → supply l + testnet_reward < u64_mod
      → apply_block_ibd crypto b c l ≡ some (ok tt, c', l')
      → Checked crypto 0 false b c × (supply l' + burned b.transactions ≡ supply l + testnet_reward)
  unfolding apply_block_ibd
  apply_block_ibd-mints c' l' words fits h =
      elim (Option-cases (passes_checks crypto 0 false b c)) [
        | inl e ↦ absurd (ground arith)
        | inr (false, e) ↦ absurd (ground arith)
        | inr (true, e) ↦
            let ch = passes_checks-Checked crypto 0 false b c e in
            let done : commit crypto (apply_tx_ibd crypto) b c l ≡ some (ok tt, c', l') =
              ground arith in
            (
              ch,
              rw done at (
                  commit-Mints (apply_tx_ibd crypto)
                    (λ tx k f w. apply_tx_ibd-Burns crypto tx k f w) ch.canonical_reward words
                    fits),
            )
      ]

  -- If a block passes the checks, and the ledger then refuses its first transaction, `apply_block`
  -- fails and leaves the chain alone, but the reward stays in the ledger: the sum of the balances
  -- has gone up by it, if the two add up to less than 2 ^ 64.
  pub apply_block-failed_tx :
      (now_ms : ℕ) (tx : Transaction) (txs : List Transaction) (e : TaronError)
      → supply l + b.reward < u64_mod
      → passes_checks crypto now_ms true b c ≡ some true
      → b.transactions ≡ tx ∷ txs
      → (apply_tx crypto tx (apply_coinbase crypto b.miner b.reward l)).0 ≡ err e
      → (l' : Ledger) × (apply_block crypto now_ms b c l ≡ some (err invalid_block, c, l'))
        × (supply l' ≡ supply l + b.reward)
  unfolding apply_block commit apply_txs
  apply_block-failed_tx now_ms tx txs e fits passed first failed = (
    (apply_tx crypto tx (apply_coinbase crypto b.miner b.reward l)).1,
    ground arith,
    rw (apply_tx-err crypto tx (apply_coinbase crypto b.miner b.reward l) e failed)
        (apply_coinbase-supply crypto b.miner b.reward l b.miner fits).0,
  )
