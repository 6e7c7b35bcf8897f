-- ===== src/Blockchain/Reorg.antt =====
-- Reverting the tip undoes the block that was applied last: the height, the difficulty, the blocks
-- below it and every balance. A revert stops at the target and never passes a checkpoint.
use taron.Prelude.{
  ℕ, suc, ◌+◌, ◌-◌, ◌%◌, ◌≤◌, ◌<◌, ◌≡◌, ◌≢◌, refl, ◌∙◌, some, List, [], ◌∷◌, arith, ℕ_discrete,
}
use taron.Prelude.Words.{u64_mod}
use taron.Prelude.Dict.{lookup, erase, lookup-erase, lookup-insert_self}
use taron.Error.{ok}
use taron.Wallet.{Crypto}
use taron.Transaction.{Transaction}
use taron.Genesis.{testnet_reward}
use taron.Ledger.{Ledger, apply_tx, apply_coinbase, revert_coinbase}
use taron.Ledger.Entries.{supply}
use taron.Ledger.Effects.{amount-le-total_cost}
use taron.Ledger.Supply.{apply_tx-Burns, apply_coinbase-supply}
use taron.Ledger.Revert.{
  SameBalances, revert_tx-SameBalances, revert_coinbase-SameBalances, revert_tx-apply_tx_balances,
  revert_coinbase-apply_coinbase,
}
use taron.Block.{Block}
use taron.Blockchain.{Blockchain, block_at, append_block, daa_window}
use taron.Blockchain.Blocks.{
  apply_txs, revert_txs, commit, apply_block, restore_difficulty, revert_tip, write_difficulty,
}
use taron.Blockchain.Linked.{
  IsLinked, apply_block-appended, apply_block-tip, block_at-append, height-append,
}
use taron.Blockchain.Supply.{AllWords, apply_block-mints}

-- The chain that `revert_tip` hands to `restore_difficulty`.
abbrev pub lowered : Blockchain → Blockchain
lowered c = record c {
  db = record c.db {
    blocks = erase ℕ_discrete c.height c.db.blocks;
    key_height = some (c.height - 1);
  };
  height = c.height - 1;
}

-- Below the old tip the blocks of a chain are those of another, as are its height and difficulty.
pub record Agrees (c c' : Blockchain) : Type 0 where
  pub same_height : c'.height ≡ c.height
  pub same_difficulty : c'.difficulty ≡ c.difficulty
  pub same_blocks : (i : ℕ) → i ≤ c.height → block_at c' i ≡ block_at c i

lowered-blocks :
    (b : Block) (c c' : Blockchain) (i : ℕ)
    → b.index ≡ suc c.height
    → append_block b c ≡ some c'
    → i ≤ c.height
    → block_at (lowered c') i ≡ block_at c i
unfolding block_at
lowered-blocks b c c' i ix h le = ground (
  arith,
  lookup-erase ℕ_discrete i c'.height c'.db.blocks,
  height-append b c c' h,
  block_at-append b c c' i h,
)

append_block-inside :
    (b : Block) (c c' : Blockchain)
    → append_block b c ≡ some c'
    → b.index % daa_window ≢ 0
    → c'.difficulty ≡ c.difficulty
unfolding append_block
append_block-inside b c c' h inside = ground arith

append_block-boundary :
    (b : Block) (c c' : Blockchain)
    → append_block b c ≡ some c'
    → 0 < b.index
    → b.index % daa_window ≡ 0
    → lookup ℕ_discrete b.index c'.db.prev_diffs ≡ some c.difficulty
unfolding append_block
append_block-boundary b c c' h pos boundary =
    ground (arith, lookup-insert_self ℕ_discrete b.index c.difficulty c.db.prev_diffs)

restore_difficulty-append :
    (b : Block) (c c' : Blockchain)
    → b.index ≡ suc c.height
    → append_block b c ≡ some c'
    → (c'' : Blockchain) × (restore_difficulty (lowered c') ≡ some c'') × Agrees c c''
unfolding restore_difficulty block_at
restore_difficulty-append b c c' ix h =
    let height : c'.height ≡ suc c.height = height-append b c c' h ∙ ix in
    elim (ℕ_discrete (b.index % daa_window) 0) [
      | yes boundary ↦
          let at : c'.height - 1 + 1 ≡ b.index = omega arith in
          let snapshot = append_block-boundary b c c' h (omega arith) boundary in
          (
            write_difficulty c.difficulty (lowered c'),
            rw (restore_difficulty, at, snapshot) (ground arith),
            record {
              same_height = omega arith;
              same_difficulty = refl;
              same_blocks = λ i le. lowered-blocks b c c' i ix h le;
            },
          )
      | no inside ↦ (
        lowered c',
        ground arith,
        record {
          same_height = omega arith;
          same_difficulty = append_block-inside b c c' h inside;
          same_blocks = λ i le. lowered-blocks b c c' i ix h le;
        },
      )
    ]

module _ (crypto : Crypto) where
  -- What a success of the loop says of its first round.
  apply_txs-cons :
      (tx : Transaction) (txs : List Transaction) (l : Ledger)
      → (apply_txs (apply_tx crypto) (tx ∷ txs) l).0 ≡ ok tt
      → ((apply_tx crypto tx l).0 ≡ ok tt)
        × (apply_txs (apply_tx crypto) (tx ∷ txs) l
            ≡ apply_txs (apply_tx crypto) txs (apply_tx crypto tx l).1)
  unfolding apply_txs
  apply_txs-cons tx txs l h = ground arith

  -- Reverting the transactions that were applied gives every balance back.
  revert_txs-apply_txs :
      (txs : List Transaction) (l : Ledger)
      → AllWords txs
      → supply l < u64_mod
      → (apply_txs (apply_tx crypto) txs l).0 ≡ ok tt
      → SameBalances (revert_txs txs (apply_txs (apply_tx crypto) txs l).1) l
  unfolding revert_txs
  revert_txs-apply_txs [] l words fits h = λ j. unfold apply_txs in refl
  revert_txs-apply_txs (tx ∷ txs) l words fits h =
      let (good, rest) = apply_txs-cons tx txs l h in
      let l₁ = (apply_tx crypto tx l).1 in
      let shrunk : supply l₁ < u64_mod =
        ground (arith, apply_tx-Burns crypto tx l fits words.0, amount-le-total_cost tx words.0) in
      let again : SameBalances (revert_txs txs (apply_txs (apply_tx crypto) (tx ∷ txs) l).1) l₁ =
        rw rest (revert_txs-apply_txs txs l₁ words.1 shrunk (rw rest at h)) in
      λ j.
        revert_tx-SameBalances tx _ l₁ again j
        ∙ revert_tx-apply_tx_balances crypto tx l fits words.0 (rw good tt) j

  apply_block-applied :
      (now_ms : ℕ) (b : Block) (c c' : Blockchain) (l l' : Ledger)
      → apply_block crypto now_ms b c l ≡ some (ok tt, c', l')
      → apply_txs (apply_tx crypto) b.transactions (apply_coinbase crypto b.miner b.reward l)
        ≡ (ok tt, l')
  unfolding apply_block commit
  apply_block-applied now_ms b c c' l l' h = ground arith

  -- If a block that `apply_block` has accepted is reverted at once, on a linked chain that was below
  -- the largest index, then
  -- `revert_tip` returns that block, the height and the difficulty are what they were, so is every
  -- block up to the old tip, and every account holds what it held, if the balances and the reward
  -- add up to less than 2 ^ 64 and the amounts are words.
  pub revert_tip-apply_block :
      (now_ms : ℕ) (b : Block) (c c' : Blockchain) (l l' : Ledger)
      → IsLinked crypto c
      → c.height + 1 < u64_mod
      → AllWords b.transactions
      → supply l + testnet_reward < u64_mod
      → apply_block crypto now_ms b c l ≡ some (ok tt, c', l')
      → (c'' : Blockchain) × (l'' : Ledger) × (revert_tip c' l' ≡ some (ok b, c'', l''))
        × Agrees c c''
        × SameBalances l'' l
  unfolding revert_tip
  revert_tip-apply_block now_ms b c c' l l' linked room words fits h =
      let (appended, index, linked') =
        apply_block-appended crypto now_ms b c c' l l' linked room h in
      let (c'', restored, agrees) = restore_difficulty-append b c c' index appended in
      let l₁ = apply_coinbase crypto b.miner b.reward l in
      let applied = apply_block-applied now_ms b c c' l l' h in
      let reward = (apply_block-mints crypto b c l now_ms c' l' words fits h).0.canonical_reward in
      let fits' : supply l + b.reward < u64_mod = omega arith in
      let fits₁ : supply l₁ < u64_mod =
        omega (arith, (apply_coinbase-supply crypto b.miner b.reward l b.miner fits').0) in
      let txs_back : SameBalances (revert_txs b.transactions l') l₁ =
        rw applied at (revert_txs-apply_txs b.transactions l₁ words fits₁ (rw applied refl)) in
      (
        c'',
        revert_coinbase b.miner b.reward (revert_txs b.transactions l'),
        ground (
          arith,
          restored,
          apply_block-tip crypto now_ms b c c' l l' linked room h,
          height-append b c c' appended,
        ),
        agrees,
        λ j.
            revert_coinbase-SameBalances b.miner b.reward (revert_txs b.transactions l') l₁ txs_back
              j
            ∙ (revert_coinbase-apply_coinbase crypto b.miner b.reward l j fits').0,
      )
