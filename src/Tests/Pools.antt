-- ===== src/Tests/Pools.antt =====
-- A pool with a round of shares, and a node that serves requests over HTTP.
use taron.Prelude.{
  ℕ, ◌+◌, ◌%◌, true, length, replicate, ◌≤◌, ◌≡◌, refl, some, List, [], ◌∷◌, arith, get_elem?,
  get_or, none,
}
use taron.Prelude.Words.{Bytes, u64_mod}
use taron.Prelude.Dict.{Dict, lookup, insert}
use taron.Prelude.Text.{bytes_dec, codes}
use taron.Genesis.{zero_hash}
use taron.Transaction.Builder.{
  new_builder, with_recipient, with_amount, with_sequence, build_and_prove, partial_tx,
}
use taron.Fixtures.{toy, alice, bob, carol, block_1, payment, toy_hex_encode, toy_hex_decode}
use taron.Wallet.{address_from_pubkey}
use taron.Transaction.{Transaction}
use taron.Pool.Dedup.{new_guard}
use taron.Pool.Server.{
  Round, PoolState, FoundBlock, final_block, ShareRequest, submit_share, build_payout_txs,
  payout_loop, payout_tx, payout_of, to_distribute, check_fresh, check_identity,
}
use taron.Pool.Server.Submitter.{
  Submitter, Event, block_found, turn, submitter_step, take_found, note_submitted, drain, submitted,
  IsRising, submitted-IsRising,
}
use taron.Pool.Server.Submitter.Drained.{turns, turns-drain}
use taron.Pool.Server.Payouts.{amounts, build_payout_txs-bounded, payout_loop-sequence}
use taron.Pool.Server.Shares.{Counts, submit_share-Counts}
use taron.Node.Peers.{IpAddr}
use taron.Node.Rpc.{RateLimiter, check_rate_limit, is_exempt}
use taron.Node.Rpc.Limited.{allowed, check_rate_limit-bounded}

-- Alice has three shares and Bob one.
abbrev round_4 : Round
round_4 = record { shares = (alice, 3) ∷ (bob, 1) ∷ []; total_shares = 4 }

abbrev pubkeys_2 : Dict Bytes Bytes
pubkeys_2 = (alice, toy_hex_encode alice) ∷ (bob, toy_hex_encode bob) ∷ []

-- The reward of 15,850,000 less one percent, three quarters and one quarter of it.
payout_4 : amounts (build_payout_txs toy 1_000 carol pubkeys_2 round_4 7) ≡ 15_691_500
unfolding build_payout_txs payout_loop payout_tx payout_of to_distribute lookup bytes_dec
    toy_hex_decode toy_hex_encode build_and_prove partial_tx with_recipient with_amount
    with_sequence new_builder
payout_4 = refl

-- A miner whose key is unknown is not paid.
payout_unknown : amounts (build_payout_txs toy 1_000 carol [] round_4 7) ≡ 0
unfolding build_payout_txs payout_loop payout_tx payout_of to_distribute lookup bytes_dec
    toy_hex_decode toy_hex_encode build_and_prove partial_tx with_recipient with_amount
    with_sequence new_builder
payout_unknown = refl

build_payout_txs-bounded_example :
    amounts (build_payout_txs toy 1_000 carol pubkeys_2 round_4 7) ≤ to_distribute
unfolding to_distribute
build_payout_txs-bounded_example =
    build_payout_txs-bounded toy 1_000 carol pubkeys_2 round_4 7 refl (omega arith)

payout_to_bob : Transaction
unfolding build_payout_txs payout_loop payout_tx payout_of to_distribute lookup bytes_dec
    toy_hex_decode toy_hex_encode build_and_prove partial_tx with_recipient with_amount
    with_sequence new_builder
payout_to_bob = get_or (payout_loop toy 1_000 carol pubkeys_2 4 round_4.shares 8) 1 payment

second_payout :
    get_elem? (payout_loop toy 1_000 carol pubkeys_2 4 round_4.shares 8) 1 ≡ some payout_to_bob
unfolding build_payout_txs payout_loop payout_tx payout_of to_distribute lookup bytes_dec
    toy_hex_decode toy_hex_encode build_and_prove partial_tx with_recipient with_amount
    with_sequence new_builder payout_to_bob
second_payout = refl

second_number : payout_to_bob.sequence ≡ 9
second_number =
    (payout_loop-sequence toy 1_000 carol pubkeys_2 4 round_4.shares 8 1 payout_to_bob (omega arith)
      second_payout).0

-- A share that every hash satisfies, from Alice.
abbrev share : ShareRequest
share = record {
  miner_address = address_from_pubkey toy alice;
  miner_pubkey = toy_hex_encode alice;
  worker_name = codes "default";
  nonce = 5;
  block_index = 1;
  timestamp = 2_000;
  prev_hash = toy_hex_encode zero_hash;
}

abbrev pool_0 : PoolState
pool_0 = record {
  template = record {
    index = 1;
    prev_hash = zero_hash;
    timestamp = 1_000;
    difficulty = 256;
    share_difficulty = 0;
  };
  round = round_4;
  dedup = new_guard 0;
  wallet = carol;
  found = [];
}

submit_share-Counts_example :
    Counts share (submit_share toy 2_000 2_500 share pool_0) pool_0 (address_from_pubkey toy alice)
submit_share-Counts_example =
    submit_share-Counts toy 2_000 2_500 share pool_0 (address_from_pubkey toy alice) (omega arith)
      refl

not_stale : check_fresh toy 2_500 share pool_0.template ≡ none
unfolding check_fresh bytes_dec toy_hex_encode
not_stale = refl

known_miner : check_identity toy share ≡ none
unfolding check_identity bytes_dec toy_hex_encode toy_hex_decode address_from_pubkey
known_miner = refl

abbrev found_1 : FoundBlock
found_1 = record { candidate = block_1; found_hash = replicate 32 0 }

abbrev found_2 : FoundBlock
found_2 = record { candidate = record block_1 { index = 2 }; found_hash = replicate 32 0 }

-- Two blocks of height 1 and one of height 2 are in the queue.
abbrev submitter_0 : Submitter
submitter_0 = record {
  last_submitted_index = 0;
  blocks_found = 7;
  queue = found_1 ∷ found_1 ∷ found_2 ∷ [];
}

abbrev events_3 : List Event
events_3 = turn (λ b. true) [] [] ∷ block_found found_1 ∷ turn (λ b. true) [] [] ∷ []

two_submitted : length (submitted events_3 submitter_0).0 ≡ 2
unfolding submitted submitter_step take_found note_submitted drain final_block
two_submitted = refl

submitted-IsRising_example :
    IsRising 0 (submitted events_3 submitter_0).0
    × ((submitted events_3 submitter_0).1.blocks_found
        ≡ (7 + length (submitted events_3 submitter_0).0) % u64_mod)
submitted-IsRising_example = submitted-IsRising events_3 submitter_0 (omega arith)

turns-drain_example :
    ((turns [] [] 3 submitter_0).queue ≡ [])
    × ((turns [] [] 3 submitter_0).last_submitted_index ≡ 2)
turns-drain_example = turns-drain [] [] 3 submitter_0 (omega arith)

abbrev visitor : IpAddr
visitor = 8 ∷ 8 ∷ 8 ∷ 8 ∷ []

-- 599 requests have been counted; of two more, one goes on.
abbrev limiter_0 : RateLimiter
limiter_0 = (visitor, (599, 1_000)) ∷ []

abbrev requests_2 : List (ℕ × IpAddr)
requests_2 = (2_000, visitor) ∷ (3_000, bob) ∷ (4_000, visitor) ∷ []

one_goes_on : allowed visitor requests_2 limiter_0 ≡ 1
unfolding check_rate_limit is_exempt bytes_dec lookup insert
one_goes_on = refl

check_rate_limit-bounded_example : allowed visitor requests_2 limiter_0 ≤ 1
unfolding is_exempt lookup bytes_dec
check_rate_limit-bounded_example =
    check_rate_limit-bounded visitor requests_2 599 1_000 limiter_0 refl refl
      (omega arith, (omega arith, (omega arith, tt))) (omega arith)
