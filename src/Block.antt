-- ===== src/Block.antt =====
-- `Block` of crates/taron-core/src/block.rs: the header hash and the checks of a block against its
-- predecessor. The clock is the argument `now_ms`.
use taron.Prelude.{
  ℕ, Bool, true, false, Option, none, some, List, [], ◌++◌, ltb, ◌!=◌, if◌then◌else◌, ite,
  replicate, is_some, not,
}
use taron.Prelude.Words.{Bytes, add64, to_le_bytes}
use taron.Prelude.Text.{bytes_dec, codes}
use taron.Wallet.{Crypto}
use taron.Transaction.{Transaction, time_delta}
use taron.Genesis.{zero_hash}
use taron.Hash.{hash_fast, meets_difficulty, mining_steps, mining_scratchpad_u64s}

abbrev pub block_timestamp_tolerance_ms : ℕ
block_timestamp_tolerance_ms = 120_000

pub record Block : Type 0 where
  pub index : ℕ
  pub prev_hash : Bytes
  pub timestamp : ℕ
  pub miner : Bytes
  pub nonce : ℕ
  pub hash : Bytes
  pub reward : ℕ
  pub transactions : List Transaction

-- The reasons that `validate_inner` gives, without the text around them.
pub data Rejection : Type 0 where
  bad_index : (got expected : ℕ) → Rejection
  bad_prev_hash bad_hash : (got expected : Bytes) → Rejection
  insufficient_difficulty : (hash : Bytes) (required : ℕ) → Rejection
  timestamp_too_far : (block now delta : ℕ) → Rejection

-- The bytes that `hash_header` hashes.
unfoldable pub header_bytes : Block → Bytes
header_bytes b =
    to_le_bytes 8 b.index
    ++ (b.prev_hash
        ++ (to_le_bytes 8 b.timestamp
            ++ (b.miner ++ (to_le_bytes 8 b.nonce ++ to_le_bytes 8 b.reward))))

module _ (crypto : Crypto) where
  -- The scratchpad of the thread is taken to be new; what it holds does not matter.
  unfoldable pub hash_header : Block → Bytes
  unfolding header_bytes
  hash_header b =
      hash_fast crypto (replicate mining_scratchpad_u64s 0) (header_bytes b) mining_steps

  unfoldable pub genesis : Block
  genesis = record {
    index = 0;
    prev_hash = zero_hash;
    timestamp = 1_772_975_700_000;
    miner = zero_hash;
    nonce = 0;
    hash = crypto.sha3_256 (codes "TARON_GENESIS_V2_2026_PREMINE");
    reward = 0;
    transactions = [];
  }

  unfoldable pub validate_inner : ℕ → Block → Block → ℕ → Bool → Option Rejection
  validate_inner now_ms b prev_block difficulty check_timestamp =
      if b.index != add64 prev_block.index 1
      then some (bad_index b.index (add64 prev_block.index 1))
      else ite (bytes_dec b.prev_hash prev_block.hash)
          (ite (bytes_dec b.hash (hash_header b))
            (if meets_difficulty b.hash difficulty
              then (if check_timestamp
                  then (if ltb block_timestamp_tolerance_ms (time_delta b.timestamp now_ms)
                      then some
                          (timestamp_too_far b.timestamp now_ms (time_delta b.timestamp now_ms))
                      else none)
                  else none)
              else some (insufficient_difficulty b.hash difficulty))
            (some (bad_hash b.hash (hash_header b))))
          (some (bad_prev_hash b.prev_hash prev_block.hash))

  unfoldable pub is_valid : ℕ → Block → Block → ℕ → Bool
  unfolding validate_inner
  is_valid now_ms b prev_block difficulty =
      not (is_some (validate_inner now_ms b prev_block difficulty true))

  -- Without the check of the timestamp the clock is not read.
  unfoldable pub is_valid_ibd : Block → Block → ℕ → Bool
  unfolding validate_inner
  is_valid_ibd b prev_block difficulty =
      not (is_some (validate_inner 0 b prev_block difficulty false))
