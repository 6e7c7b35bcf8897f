-- ===== src/Pool/Server.antt =====
-- crates/taron-pool/src/main.rs: the shares that miners submit, and the payouts of a round. The
-- database, the difficulty per worker and the hash rates, which are floats, are left out; so are HTTP
-- and the locks: a request is one step.
pub mod Payouts
pub mod Shares
pub mod Submitter
use taron.Prelude.{
  ℕ, ◌+◌, ◌-◌, ◌*◌, ◌/◌, ◌%◌, Bool, true, false, Option, none, some, List, [], ◌∷◌, ◌++◌, length,
  replicate, take, ltb, leb, ◌==◌, ◌!=◌, if◌then◌else◌, or_else, not,
}
use taron.Prelude.Words.{Bytes, u64_mod, add64, saturating_sub}
use taron.Prelude.Text.{bytes_dec, eq_bytes, codes}
use taron.Prelude.Dict.{Dict, lookup, insert}
use taron.Error.{Result, ok, err}
use taron.Wallet.{Crypto, address_from_pubkey}
use taron.Transaction.{Transaction}
use taron.Transaction.Builder.{
  new_builder, with_recipient, with_amount, with_sequence, build_and_prove,
}
use taron.Genesis.{testnet_reward, zero_hash}
use taron.Hash.{meets_difficulty}
use taron.Block.{Block, hash_header}
use taron.Pool.Dedup.{TachyonGuard, is_duplicate}

abbrev pub pool_fee_permille : ℕ
pool_fee_permille = 10

abbrev pub share_diff_offset : ℕ
share_diff_offset = 4

pub record BlockTemplate : Type 0 where
  pub index : ℕ
  pub prev_hash : Bytes
  pub timestamp : ℕ
  pub difficulty : ℕ
  pub share_difficulty : ℕ

-- The shares of each miner address in this round.
pub record Round : Type 0 where
  pub shares : Dict Bytes ℕ
  pub total_shares : ℕ

unfoldable pub new_round : Round
new_round = record { shares = []; total_shares = 0 }

pub record FoundBlock : Type 0 where
  pub candidate : Block
  pub found_hash : Bytes

-- `found` is the queue of the block submitter.
pub record PoolState : Type 0 where
  pub template : BlockTemplate
  pub round : Round
  pub dedup : TachyonGuard
  pub wallet : Bytes
  pub found : List FoundBlock

pub record ShareRequest : Type 0 where
  pub miner_address : Bytes
  pub miner_pubkey : Bytes
  pub worker_name : Bytes
  pub nonce : ℕ
  pub block_index : ℕ
  pub timestamp : ℕ
  pub prev_hash : Bytes

-- The answers, by the reason.
pub data ShareResponse : Type 0 where
  bad_pubkey wrong_address stale_index stale_prev_hash stale_timestamp : ShareResponse
  duplicate low_difficulty share_accepted block_found : ShareResponse

-- `accepted` in the answer
unfoldable pub is_accepted : ShareResponse → Bool
is_accepted share_accepted = true
is_accepted block_found = true
is_accepted _ = false

-- One more share of a miner in this round.
unfoldable pub record_share : Bytes → Round → Round
record_share address r = record {
  shares =
      insert bytes_dec address (add64 (or_else (lookup bytes_dec address r.shares) 0) 1) r.shares;
  total_shares = add64 r.total_shares 1;
}

-- A new block: a fresh template and a fresh round.
unfoldable pub new_template : BlockTemplate → PoolState → PoolState
new_template tmpl p = record p { template = tmpl; round = new_round }

abbrev pub distance : ℕ → ℕ → ℕ
distance a b = if ltb b a then a - b else b - a

-- The bytes copied into an array of 32 zeros.
abbrev pub to_array : Bytes → Bytes
to_array bs = take 32 (bs ++ replicate 32 0)

module _ (crypto : Crypto) where
  -- The candidate that the share is a nonce for.
  unfoldable pub candidate_block : ShareRequest → PoolState → Block
  candidate_block req p = record {
    index = req.block_index;
    prev_hash = to_array (or_else (crypto.hex_decode req.prev_hash) []);
    timestamp = req.timestamp;
    miner = crypto.public_key p.wallet;
    nonce = req.nonce;
    hash = zero_hash;
    reward = testnet_reward;
    transactions = [];
  }

  -- The address belongs to the public key.
  unfoldable pub check_identity : ShareRequest → Option ShareResponse
  check_identity req = elim (crypto.hex_decode req.miner_pubkey) [
    | none ↦ some bad_pubkey
    | some k ↦
        if length k != 32
        then some bad_pubkey
        else if eq_bytes (address_from_pubkey crypto k) req.miner_address
        then none
        else some wrong_address
  ]

  -- The checks before the hash is computed.
  unfoldable pub check_fresh : ℕ → ShareRequest → BlockTemplate → Option ShareResponse
  check_fresh now_ms req tmpl =
      if req.block_index != tmpl.index
      then some stale_index
      else if not (eq_bytes req.prev_hash (crypto.hex_encode tmpl.prev_hash))
      then some stale_prev_hash
      else if ltb 90_000 (distance req.timestamp now_ms)
      then some stale_timestamp
      else none

  abbrev pub worker_key : ShareRequest → Bytes
  worker_key req = req.miner_address ++ codes ":" ++ req.worker_name

  -- A share that is new and hard enough counts; one that meets the difficulty of the block is a block.
  unfoldable pub count_share : ShareRequest → PoolState → ShareResponse × PoolState
  count_share req p =
      let candidate = candidate_block req p in
      let hash = hash_header crypto candidate in
      if not (meets_difficulty hash p.template.share_difficulty)
      then (low_difficulty, p)
      else (let counted = record p { round = record_share req.miner_address p.round } in
          if meets_difficulty hash p.template.difficulty
          then (
            block_found,
            record counted {
              found = p.found ++ (record { candidate = candidate; found_hash = hash } ∷ []);
            },
          )
          else (share_accepted, counted))

  -- `submit_share`
  unfoldable pub submit_share : ℕ → ℕ → ShareRequest → PoolState → ShareResponse × PoolState
  submit_share now now_ms req p = elim (check_identity req) [
    | some refusal ↦ (refusal, p)
    | none ↦ elim (check_fresh now_ms req p.template) [
      | some refusal ↦ (refusal, p)
      | none ↦
          let (seen, dedup) = is_duplicate now req.block_index req.nonce (worker_key req) p.dedup in
          let p = record p { dedup = dedup } in if seen then (duplicate, p) else count_share req p
    ]
  ]

-- The block that the submitter sends to the node: the payouts first, then the pending transactions.
unfoldable pub final_block : FoundBlock → List Transaction → List Transaction → Block
final_block f payouts pending = record f.candidate {
  hash = f.found_hash;
  transactions = payouts ++ pending;
}

-- The reward without the fee of the pool.
unfoldable pub to_distribute : ℕ
to_distribute = testnet_reward - testnet_reward * pool_fee_permille / 1000

-- The share of a miner.
unfoldable pub payout_of : ℕ → ℕ → ℕ
payout_of miner_shares total_shares = to_distribute * miner_shares % u64_mod / total_shares

module _ (crypto : Crypto) (now_ms : ℕ) (wallet : Bytes) (pubkeys : Dict Bytes Bytes) where
  -- The payout of one miner, unless it is nothing, the key is unknown or it cannot be built.
  unfoldable pub payout_tx : ℕ → Bytes → ℕ → ℕ → Option Transaction
  payout_tx total_shares address miner_shares sequence =
      let payout = payout_of miner_shares total_shares in
      if payout == 0 then none else elim (lookup bytes_dec address pubkeys) [
        | none ↦ none
        | some pubkey_hex ↦ elim (crypto.hex_decode pubkey_hex) [
          | none ↦ none
          | some k ↦
              if length k != 32
              then none
              else elim (build_and_prove crypto now_ms (
                  with_sequence sequence
                    (with_amount payout (with_recipient k (new_builder wallet))))) [
                      | err _ ↦ none
                      | ok t ↦ some t
                    ]
        ]
      ]

  -- The loop over the miners.
  unfoldable pub payout_loop : ℕ → Dict Bytes ℕ → ℕ → List Transaction
  payout_loop total_shares [] sequence = []
  payout_loop total_shares ((address, n) ∷ shares) sequence =
      elim (payout_tx total_shares address n sequence) [
        | none ↦ payout_loop total_shares shares sequence
        | some t ↦ t ∷ payout_loop total_shares shares (add64 sequence 1)
      ]

  -- `build_payout_txs`, with the sequence number of the account of the pool
  unfoldable pub build_payout_txs : Round → ℕ → List Transaction
  build_payout_txs r account_sequence =
      if r.total_shares == 0
      then []
      else payout_loop r.total_shares r.shares (add64 account_sequence 1)
