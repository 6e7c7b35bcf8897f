-- ===== src/Blockchain.antt =====
-- `Blockchain` of crates/taron-core/src/blockchain.rs. The RocksDB database is modelled by its four
-- families of keys: the blocks by index, the height, the difficulty, and the difficulty before each
-- boundary. A call that panics, where the source unwraps an absent block, is `none`.
pub mod Blocks
pub mod Checks
pub mod Rewind
pub mod Reorg
pub mod Difficulty
pub mod Supply
pub mod Linked
pub mod Queries
pub mod Fork
pub mod Rebuild
pub mod Steps
pub mod Stack
use taron.Prelude.{
  ℕ, zero, suc, ◌+◌, ◌-◌, ◌*◌, ◌/◌, ◌%◌, Bool, true, false, Option, none, some, List, [], ◌∷◌, ◌++◌,
  reverse, ◌&&◌, ltb, leb, ◌==◌, ◌!=◌, if◌then◌else◌, ite, ℕ_discrete, min, max, is_some,
}
use taron.Prelude.Words.{Bytes, add64, saturating_sub, saturating_add32, to_le_bytes, u32_mod}
use taron.Prelude.Text.{bytes_dec, codes}
use taron.Prelude.Dict.{Dict, lookup, insert, erase}
use taron.Error.{Result, ok, err, TaronError, invalid_block}
use taron.Wallet.{Crypto}
use taron.Transaction.{Transaction, verify_tx_signature}
use taron.Genesis.{testnet_difficulty, testnet_reward}
use taron.Ledger.{Ledger, apply_tx, apply_tx_ibd, apply_coinbase, revert_tx, revert_coinbase}
use taron.Block.{Block, validate_inner, genesis}

abbrev pub daa_window : ℕ
daa_window = 10

abbrev pub target_block_ms : ℕ
target_block_ms = 30_000

abbrev pub checkpoints : List (ℕ × Bytes)
checkpoints =
    (500, codes "000004828f46af7c3c3052bac3ef571fc5b805031c66dcb009c427a51da92066")
    ∷ (1000, codes "000002972377958419f026f52436738aaa63be77143e711da89d1fb8f0742acb")
    ∷ (1500, codes "0000004b4c622a9f708071b52013e0f7844ec972e0582e0c9a46a30a84477f2c")
    ∷ (2000, codes "000016349cc475ac88095d4a720b63c9e3972bd7fcb8388ddb45265ebfbb2f67")
    ∷ (2500, codes "0000020bdb99172bb4dcb259a8eeb2e1211ec2ae8568a5e1e31eb9854a19018c")
    ∷ (3000, codes "0000016ef4c1110ffc985192a6a0769d540a5b71bb5885b0ff250a021bfbeb46")
    ∷ (3500, codes "0000058896f4201e9809feae8bdf990889997c533ee6937e556ecbe9a36077c8")
    ∷ (4000, codes "000000a46de28179b3c2b0a438a3828bda276fa390f08dd3e703e0fa7f3c9125")
    ∷ (4500, codes "00000d5b9bf012e94151c4256c258401dc592cb2b27d2119445f74a9fec654eb")
    ∷ (5000, codes "000006737ab2a41d65938e6c2b5b9556eec9bea25907ae4e14903950b00f1309")
    ∷ (5500, codes "000001d111bd6436d4a32e0ea6bc6c2d5359d06c7cd0af0dcaa619e255594a45")
    ∷ (6000, codes "00000465333670900ed90e49a10897aebc4a8a45d0c6eb68d2e14d4b0ffcec68")
    ∷ (6500, codes "00001bc7de79a5fec2b857e72345410c89aeb2e675d32776ad77a5e6b857e386")
    ∷ (7000, codes "00001cc75eddfc930b3c4994715803bd93460b7ac9f5d70abe8bbdfe86dbb637")
    ∷ (7500, codes "0000000f97070e40af63fc6055b82644813e37e3a24d425c5e0b79594d7b6371")
    ∷ (7937, codes "00002d675599959f39f33cbb7224bfdedd2780355f227ec7cc33a04d8e65f80e")
    ∷ []

pub record Db : Type 0 where
  pub blocks : Dict ℕ Block
  pub key_height : Option ℕ
  pub key_diff : Option ℕ
  pub prev_diffs : Dict ℕ ℕ

pub record Blockchain : Type 0 where
  pub db : Db
  pub height : ℕ
  pub difficulty : ℕ

unfoldable pub block_at : Blockchain → ℕ → Option Block
block_at c index = lookup ℕ_discrete index c.db.blocks

-- `none` is the panic of `expect`.
unfoldable pub tip : Blockchain → Option Block
tip c = block_at c c.height

-- The step of the difficulty in the recomputation from the chain. `compute_next_difficulty` below
-- has the same arithmetic written out once more, as in the source.
unfoldable pub adjust_difficulty_step : ℕ → ℕ → ℕ → ℕ
adjust_difficulty_step current_diff actual_ms target_ms =
    if actual_ms == 0
    then min ((current_diff + 1) % u32_mod) 30
    else min
        (max
          (if ltb actual_ms (target_ms / 4)
            then saturating_add32 current_diff 2
            else if ltb actual_ms target_ms
            then saturating_add32 current_diff 1
            else if ltb (target_ms * 4) actual_ms
            then saturating_sub current_diff 2
            else if ltb target_ms actual_ms
            then saturating_sub current_diff 1
            else current_diff)
          1)
        30

-- `none` is the panic of an `unwrap`.
unfoldable pub compute_next_difficulty : Blockchain → Option ℕ
compute_next_difficulty c =
    if ltb c.height daa_window then some testnet_difficulty else elim (block_at c c.height) [
      | none ↦ none
      | some window_end ↦ elim (block_at c (c.height - daa_window)) [
        | none ↦ none
        | some window_start ↦
            let actual_ms = saturating_sub window_end.timestamp window_start.timestamp in
            let target_ms = target_block_ms * daa_window in
            some (
              if actual_ms == 0
              then min ((c.difficulty + 1) % u32_mod) 30
              else min
                  (max
                    (if ltb actual_ms (target_ms / 4)
                      then saturating_add32 c.difficulty 2
                      else if ltb actual_ms target_ms
                      then saturating_add32 c.difficulty 1
                      else if ltb (target_ms * 4) actual_ms
                      then saturating_sub c.difficulty 2
                      else if ltb target_ms actual_ms
                      then saturating_sub c.difficulty 1
                      else c.difficulty)
                    1)
                  30)
      ]
    ]

-- The loop of `recompute_difficulty_from_chain`. Every round raises `boundary` by ten, so the
-- height is fuel enough.
unfoldable pub recompute_loop : ℕ → Blockchain → ℕ → ℕ → ℕ
recompute_loop zero c boundary diff = diff
recompute_loop (suc fuel) c boundary diff = elim (leb boundary c.height) [
  | false ↦ diff
  | true ↦ elim (block_at c boundary) [
    | none ↦ diff
    | some window_end ↦ elim (block_at c (boundary - daa_window)) [
      | none ↦ diff
      | some window_start ↦ recompute_loop fuel c (boundary + daa_window) (
          adjust_difficulty_step diff (saturating_sub window_end.timestamp window_start.timestamp)
            (target_block_ms * daa_window))
    ]
  ]
]

unfoldable pub recompute_difficulty_from_chain : Blockchain → ℕ
unfolding recompute_loop
recompute_difficulty_from_chain c =
    if ltb c.height daa_window
    then testnet_difficulty
    else recompute_loop c.height c daa_window testnet_difficulty

-- The block and the height are written first.
abbrev pub write_block : Block → Blockchain → Blockchain
write_block b c = record c {
  db = record c.db { blocks = insert ℕ_discrete b.index b c.db.blocks; key_height = some b.index };
  height = b.index;
}

-- The end of `apply_block` and `apply_block_ibd`: write the block, and adjust the difficulty at
-- every boundary of the window.
unfoldable pub append_block : Block → Blockchain → Option Blockchain
append_block b c =
    let c' = write_block b c in
    if ltb 0 b.index && (b.index % daa_window == 0)
    then elim (compute_next_difficulty c') [
      | none ↦ none
      | some difficulty ↦ some (record c' {
        db = record c'.db {
          prev_diffs = insert ℕ_discrete b.index c.difficulty c'.db.prev_diffs;
          key_diff = some difficulty;
        };
        difficulty = difficulty;
      })
    ]
    else some c'

-- `CHECKPOINTS.iter().find(..)`
unfoldable pub find_checkpoint : ℕ → List (ℕ × Bytes) → Option Bytes
find_checkpoint index [] = none
find_checkpoint index ((h, expected) ∷ cs) =
    if h == index then some expected else find_checkpoint index cs

-- The highest checkpoint at or below a height, 0 if there is none: `filter`, `map` and `max`.
unfoldable pub checkpoint_anchor : ℕ → List (ℕ × Bytes) → ℕ
checkpoint_anchor height [] = 0
checkpoint_anchor height ((h, _) ∷ cs) =
    max (if leb h height then h else 0) (checkpoint_anchor height cs)

unfoldable pub checkpoint_anchor_at_or_below : ℕ → ℕ
unfolding checkpoint_anchor
checkpoint_anchor_at_or_below height = checkpoint_anchor height checkpoints

-- `block_key` and `prev_diff_key`
unfoldable pub block_key : ℕ → Bytes
block_key index = codes "b:" ++ to_le_bytes 8 index

unfoldable pub prev_diff_key : ℕ → Bytes
prev_diff_key boundary_height = codes "meta:pd:" ++ to_le_bytes 8 boundary_height

-- What a method returns: its result, the chain and the ledger.
abbrev pub Outcome : Type 0 → Type 0
Outcome A = Result A TaronError × Blockchain × Ledger
