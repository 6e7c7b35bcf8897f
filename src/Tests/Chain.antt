-- ===== src/Tests/Chain.antt =====
-- The chain on the sample block.
use taron.Prelude.{
  ℕ, zero, suc, ◌+◌, ◌*◌, ◌≤◌, ◌<◌, ◌≡◌, ◌↔◌, ◌⊎◌, refl, ap, true, false, Option, some, List, [],
  ◌∷◌, arith, ℕ_discrete,
}
use taron.Prelude.Dict.{lookup, insert}
use taron.Prelude.Text.{bytes_dec}
use taron.Error.{Result, TaronError, ok, err, invalid_block, insufficient_balance}
use taron.Fixtures.{toy, bob, carol, payment, block_1, chain_0, chain_1, ledger_0, ledger_1}
use taron.Wallet.{verify_signature}
use taron.Transaction.{verify_tx_signature, to_bytes_for_signing, to_bytes_for_posc, total_cost}
use taron.Genesis.{new_account, testnet_reward, premine_balance, testnet_difficulty, credit, spend}
use taron.Hash.{hash_fast, hash_with_scratchpad, meets_difficulty, zero_bytes}
use taron.Ledger.{
  Ledger, apply_tx, apply_tx_ibd, apply_coinbase, get_account, debit_sender, entry, update, balance,
}
use taron.Ledger.Entries.{supply}
use taron.Ledger.Revert.{SameBalances}
use taron.Block.{Block, hash_header, header_bytes, validate_inner, genesis}
use taron.Blockchain.{
  Blockchain, Outcome, append_block, find_checkpoint, tip, block_at,
  recompute_difficulty_from_chain, checkpoint_anchor_at_or_below,
}
use taron.Blockchain.Blocks.{
  apply_block, apply_block_ibd, commit, apply_txs, passes_checks, signatures_verify, revert_tip,
  revert_to_height,
}
use taron.Blockchain.Checks.{Checked, passes_checks_iff}
use taron.Blockchain.Linked.{Held, IsLinked, Extends, apply_block-Extends}
use taron.Blockchain.Supply.{
  burned, apply_block-mints, apply_block_ibd-mints, apply_block-failed_tx,
}
use taron.Blockchain.Difficulty.{apply_block-difficulty}
use taron.Blockchain.Reorg.{Agrees, revert_tip-apply_block}
use taron.Blockchain.Rebuild.{rebuild_from_chain, rebuild_from_chain-supply}
use taron.Blockchain.Rewind.{revert_to_height-reaches}

own_hash : block_1.hash ≡ hash_header toy block_1
unfolding hash_header hash_fast hash_with_scratchpad header_bytes genesis
own_hash = refl

passes : passes_checks toy 5_000 true block_1 chain_0 ≡ some true
unfolding passes_checks tip validate_inner hash_header hash_fast hash_with_scratchpad header_bytes
    genesis find_checkpoint block_at lookup ℕ_discrete bytes_dec meets_difficulty zero_bytes
    signatures_verify verify_tx_signature verify_signature to_bytes_for_signing to_bytes_for_posc
passes = refl

good_result : (apply_tx toy payment (apply_coinbase toy carol testnet_reward ledger_0)).0 ≡ ok tt
unfolding apply_tx get_account debit_sender spend lookup bytes_dec total_cost entry apply_coinbase
    update insert credit
good_result = refl

applied :
    apply_txs
      (apply_tx toy)
      block_1.transactions
      (apply_coinbase toy block_1.miner block_1.reward ledger_0)
    ≡ (ok tt, ledger_1)
unfolding apply_txs
applied = rw (apply_txs, good_result) refl

extended : append_block block_1 chain_0 ≡ some chain_1
unfolding append_block
extended = refl

abbrev with_ledger : Result (Unit {0}) TaronError × Ledger → Option (Outcome (Unit {0}))
with_ledger p = some (ok tt, chain_1, p.1)

applies : apply_block toy 5_000 block_1 chain_0 ledger_0 ≡ some (ok tt, chain_1, ledger_1)
unfolding apply_block commit
applies = rw (apply_block, passes, commit, applied, extended) (ap with_ledger applied)

passes_ibd : passes_checks toy 0 false block_1 chain_0 ≡ some true
unfolding passes_checks tip validate_inner hash_header hash_fast hash_with_scratchpad header_bytes
    genesis find_checkpoint block_at lookup ℕ_discrete bytes_dec meets_difficulty zero_bytes
    signatures_verify verify_tx_signature verify_signature to_bytes_for_signing to_bytes_for_posc
passes_ibd = refl

good_result_ibd :
    (apply_tx_ibd toy payment (apply_coinbase toy carol testnet_reward ledger_0)).0 ≡ ok tt
unfolding apply_tx_ibd get_account debit_sender spend lookup bytes_dec total_cost entry
    apply_coinbase update insert credit balance
good_result_ibd = refl

abbrev ledger_1_ibd : Ledger
ledger_1_ibd = (apply_tx_ibd toy payment (apply_coinbase toy carol testnet_reward ledger_0)).1

applied_ibd :
    apply_txs
      (apply_tx_ibd toy)
      block_1.transactions
      (apply_coinbase toy block_1.miner block_1.reward ledger_0)
    ≡ (ok tt, ledger_1_ibd)
unfolding apply_txs
applied_ibd = rw (apply_txs, good_result_ibd) refl

applies_ibd : apply_block_ibd toy block_1 chain_0 ledger_0 ≡ some (ok tt, chain_1, ledger_1_ibd)
unfolding apply_block_ibd commit
applies_ibd =
    rw (apply_block_ibd, passes_ibd, commit, applied_ibd, extended) (ap with_ledger applied_ibd)

-- The genesis chain is linked.
chain_0-Held : (i : ℕ) → i ≤ chain_0.height → Held chain_0 i
unfolding block_at lookup ℕ_discrete genesis
chain_0-Held zero h = (genesis toy, refl, refl)
chain_0-Held (suc i) h = absurd (omega arith)

chain_0-IsLinked : IsLinked toy chain_0
chain_0-IsLinked = record { held = chain_0-Held; link = λ i p b lt ep eb. absurd (omega arith) }

-- Alice has no account: the ledger refuses her payment.
abbrev ledger_poor : Ledger
ledger_poor = (bob, new_account 50) ∷ []

refused :
    (apply_tx toy payment (apply_coinbase toy carol testnet_reward ledger_poor)).0
    ≡ err (insufficient_balance 0 105)
unfolding apply_tx get_account lookup bytes_dec total_cost entry apply_coinbase update insert credit
refused = refl

supply_poor : supply ledger_poor ≡ 50
unfolding supply
supply_poor = refl

recomputed_0 : recompute_difficulty_from_chain chain_0 ≡ chain_0.difficulty
unfolding recompute_difficulty_from_chain
recomputed_0 = refl

supply_0 : supply ledger_0 ≡ 1_050
unfolding supply
supply_0 = refl

apply_block-Extends_example :
    Extends toy block_1 chain_0 (apply_block toy 5_000 block_1 chain_0 ledger_0)
apply_block-Extends_example =
    apply_block-Extends toy 5_000 block_1 chain_0 ledger_0 chain_0-IsLinked (omega arith)

apply_block-mints_example :
    Checked toy 5_000 true block_1 chain_0
    × (supply ledger_1 + burned block_1.transactions ≡ supply ledger_0 + testnet_reward)
apply_block-mints_example =
    apply_block-mints toy block_1 chain_0 ledger_0 5_000 chain_1 ledger_1 (omega arith, tt)
      (omega (arith, supply_0)) applies

apply_block_ibd-mints_example :
    Checked toy 0 false block_1 chain_0
    × (supply ledger_1_ibd + burned block_1.transactions ≡ supply ledger_0 + testnet_reward)
apply_block_ibd-mints_example =
    apply_block_ibd-mints toy block_1 chain_0 ledger_0 chain_1 ledger_1_ibd (omega arith, tt)
      (omega (arith, supply_0)) applies_ibd

apply_block-difficulty_example : recompute_difficulty_from_chain chain_1 ≡ chain_1.difficulty
apply_block-difficulty_example =
    apply_block-difficulty toy 5_000 block_1 chain_0 chain_1 ledger_0 ledger_1 chain_0-IsLinked
      (omega arith) recomputed_0 applies

revert_tip-apply_block_example :
    (c : Blockchain) × (l : Ledger) × (revert_tip chain_1 ledger_1 ≡ some (ok block_1, c, l))
    × Agrees chain_0 c
    × SameBalances l ledger_0
revert_tip-apply_block_example =
    revert_tip-apply_block toy 5_000 block_1 chain_0 chain_1 ledger_0 ledger_1 chain_0-IsLinked
      (omega arith) (omega arith, tt) (omega (arith, supply_0)) applies

chain_1-IsLinked : IsLinked toy chain_1
chain_1-IsLinked =
    (rw applies at
      (apply_block-Extends toy 5_000 block_1 chain_0 ledger_0 chain_0-IsLinked (omega arith))).0

revert_to_height-reaches_example :
    (0 < checkpoint_anchor_at_or_below 1
      × (revert_to_height 0 chain_1 ledger_1 ≡ some (err invalid_block, chain_1, ledger_1)))
    ⊎ (checkpoint_anchor_at_or_below 1 ≤ 0
        × ((blocks : List Block) × (c : Blockchain) × (l : Ledger) × (revert_to_height 0 chain_1
                ledger_1
              ≡ some (ok blocks, c, l))
            × (c.height ≡ 0)
            × IsLinked toy c
            × (◌≡◌ {A = ℕ} 0 0 → c.difficulty ≡ testnet_difficulty)))
revert_to_height-reaches_example =
    revert_to_height-reaches toy 0 chain_1 ledger_1 chain_1-IsLinked (omega arith)

apply_block-failed_tx_example :
    (l : Ledger) × (apply_block toy 5_000 block_1 chain_0 ledger_poor
      ≡ some (err invalid_block, chain_0, l))
    × (supply l ≡ supply ledger_poor + block_1.reward)
apply_block-failed_tx_example =
    apply_block-failed_tx toy block_1 chain_0 ledger_poor 5_000 payment []
      (insufficient_balance 0 105) (omega (arith, supply_poor)) passes refl refused

passes_checks_iff_example :
    (passes_checks toy 5_000 true block_1 chain_0 ≡ some true)
    ↔ Checked toy 5_000 true block_1 chain_0
passes_checks_iff_example = passes_checks_iff toy 5_000 true block_1 chain_0

rebuild_from_chain-supply_example :
    supply (rebuild_from_chain toy chain_1) ≡ premine_balance + testnet_reward * 1
rebuild_from_chain-supply_example =
    rebuild_from_chain-supply toy chain_1 chain_1-IsLinked (omega arith)
