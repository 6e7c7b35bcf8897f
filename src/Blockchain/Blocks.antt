-- ===== src/Blockchain/Blocks.antt =====
-- Applying and reverting blocks: `apply_block`, `apply_block_ibd`, `revert_tip` and
-- `revert_to_height` of crates/taron-core/src/blockchain.rs.
use taron.Prelude.{
  ℕ, zero, suc, ◌+◌, ◌-◌, ◌%◌, Bool, true, false, Option, none, some, List, [], ◌∷◌, reverse, ltb,
  ◌==◌, ◌!=◌, if◌then◌else◌, ite, ℕ_discrete,
}
use taron.Prelude.Text.{bytes_dec}
use taron.Prelude.Dict.{lookup, erase}
use taron.Error.{Result, ok, err, TaronError, invalid_block}
use taron.Wallet.{Crypto}
use taron.Transaction.{Transaction, verify_tx_signature}
use taron.Genesis.{testnet_difficulty, testnet_reward}
use taron.Ledger.{Ledger, apply_tx, apply_tx_ibd, apply_coinbase, revert_tx, revert_coinbase}
use taron.Block.{Block, validate_inner}
use taron.Blockchain.{
  Blockchain, Outcome, tip, append_block, find_checkpoint, checkpoints,
  checkpoint_anchor_at_or_below, daa_window, compute_next_difficulty,
}

-- The loop over the transactions, which ends at the first that fails; what was applied stays.
unfoldable pub apply_txs :
    (Transaction → Ledger → Result (Unit {0}) TaronError × Ledger)
    → List Transaction
    → Ledger
    → Result (Unit {0}) TaronError × Ledger
apply_txs apply [] l = (ok tt, l)
apply_txs apply (tx ∷ txs) l =
    let (r, l') = apply tx l in
    elim r [ err _ ↦ (err invalid_block, l') | ok _ ↦ apply_txs apply txs l' ]

-- `tip.transactions.iter().rev()`
unfoldable pub revert_txs : List Transaction → Ledger → Ledger
revert_txs [] l = l
revert_txs (tx ∷ txs) l = revert_tx tx (revert_txs txs l)

module _ (crypto : Crypto) where
  unfoldable pub signatures_verify : List Transaction → Bool
  signatures_verify [] = true
  signatures_verify (tx ∷ txs) = elim (verify_tx_signature crypto tx) [
    | err _ ↦ false
    | ok _ ↦ signatures_verify txs
  ]

  -- The checks that `apply_block` and `apply_block_ibd` make before they change anything; `none` is
  -- the panic of `tip`.
  unfoldable pub passes_checks : ℕ → Bool → Block → Blockchain → Option Bool
  unfolding signatures_verify
  passes_checks now_ms check_timestamp b c =
      let at_checkpoint : Bool = elim (find_checkpoint b.index checkpoints) [
        | none ↦ true
        | some expected ↦ ite (bytes_dec (crypto.hex_encode b.hash) expected) true false
      ] in
      if at_checkpoint
      then elim (tip c) [
        | none ↦ none
        | some prev ↦ elim (validate_inner crypto now_ms b prev c.difficulty check_timestamp) [
          | some _ ↦ some false
          | none ↦
              some (if b.reward != testnet_reward then false else signatures_verify b.transactions)
        ]
      ]
      else some false

  -- What follows the checks: the reward, the transactions, and the block itself.
  unfoldable pub commit :
      (Transaction → Ledger → Result (Unit {0}) TaronError × Ledger)
      → Block
      → Blockchain
      → Ledger
      → Option (Outcome (Unit {0}))
  commit apply b c l =
      let (r, l') = apply_txs apply b.transactions (apply_coinbase crypto b.miner b.reward l) in
      elim r [
        | err _ ↦ some (err invalid_block, c, l')
        | ok _ ↦ elim (append_block b c) [ none ↦ none | some c' ↦ some (ok tt, c', l') ]
      ]

  unfoldable pub apply_block : ℕ → Block → Blockchain → Ledger → Option (Outcome (Unit {0}))
  apply_block now_ms b c l = elim (passes_checks now_ms true b c) [
    | none ↦ none
    | some false ↦ some (err invalid_block, c, l)
    | some true ↦ commit (apply_tx crypto) b c l
  ]

  unfoldable pub apply_block_ibd : Block → Blockchain → Ledger → Option (Outcome (Unit {0}))
  apply_block_ibd b c l = elim (passes_checks 0 false b c) [
    | none ↦ none
    | some false ↦ some (err invalid_block, c, l)
    | some true ↦ commit (apply_tx_ibd crypto) b c l
  ]

abbrev pub write_difficulty : ℕ → Blockchain → Blockchain
write_difficulty d c = record c { db = record c.db { key_diff = some d }; difficulty = d }

-- The difficulty after the tip has been removed; `c` has the new height. At a boundary it is read
-- from its snapshot, or computed where there is none.
unfoldable pub restore_difficulty : Blockchain → Option Blockchain
restore_difficulty c =
    if (c.height + 1) % daa_window == 0
    then elim (lookup ℕ_discrete (c.height + 1) c.db.prev_diffs) [
      | some d ↦ some (write_difficulty d c)
      | none ↦ elim (compute_next_difficulty c) [
        | none ↦ none
        | some d ↦ some (write_difficulty d c)
      ]
    ]
    else some c

unfoldable pub revert_tip : Blockchain → Ledger → Option (Outcome Block)
revert_tip c l = if c.height == 0 then some (err invalid_block, c, l) else elim (tip c) [
  | none ↦ none
  | some b ↦
      let l' = revert_coinbase b.miner b.reward (revert_txs b.transactions l) in
      let c' : Blockchain = record c {
        db = record c.db {
          blocks = erase ℕ_discrete c.height c.db.blocks;
          key_height = some (c.height - 1);
        };
        height = c.height - 1;
      } in
      elim (restore_difficulty c') [ none ↦ none | some c'' ↦ some (ok b, c'', l') ]
]

-- The loop of `revert_to_height`, with the list of what was reverted, newest first. Every round
-- lowers the height by one, so the height is fuel enough.
unfoldable pub revert_loop :
    ℕ → ℕ → List Block → Blockchain → Ledger → Option (Outcome (List Block))
revert_loop zero target reverted c l = some (ok (reverse reverted), c, l)
revert_loop (suc fuel) target reverted c l = elim (ltb target c.height) [
  | false ↦ some (ok (reverse reverted), c, l)
  | true ↦ elim (revert_tip c l) [
    | none ↦ none
    | some (err e, c', l') ↦ some (err e, c', l')
    | some (ok b, c', l') ↦ revert_loop fuel target (b ∷ reverted) c' l'
  ]
]

-- At genesis the difficulty is reset.
abbrev pub reset_at_genesis : Blockchain → Blockchain
reset_at_genesis c = if c.height == 0 then write_difficulty testnet_difficulty c else c

unfoldable pub revert_to_height : ℕ → Blockchain → Ledger → Option (Outcome (List Block))
revert_to_height target_height c l =
    if ltb target_height (checkpoint_anchor_at_or_below c.height)
    then some (err invalid_block, c, l)
    else elim (revert_loop c.height target_height [] c l) [
      | none ↦ none
      | some (err e, c', l') ↦ some (err e, c', l')
      | some (ok blocks, c', l') ↦ some (ok blocks, reset_at_genesis c', l')
    ]
