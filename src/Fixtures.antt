-- ===== src/Fixtures.antt =====
-- Sample data for the tests: a toy cryptography that keeps the promises of the real one, two
-- accounts, a transaction, and a chain with one block on it.
use taron.Prelude.{
  ◌+◌, ◌*◌, ◌/◌, ◌%◌, ◌≡◌, refl, true, false, Option, none, some, [], ◌∷◌, ◌++◌, arith, length,
  replicate, length-replicate, ite, if_pos,
}
use taron.Prelude.Words.{Bytes}
use taron.Prelude.Text.{bytes_dec}
use taron.Wallet.{Crypto, IsSound}
use taron.Transaction.{Transaction, to_bytes_for_signing}
use taron.Genesis.{new_account, zero_hash, testnet_difficulty, testnet_reward}
use taron.Ledger.{Ledger, apply_tx, apply_coinbase}
use taron.Block.{Block, genesis}
use taron.Blockchain.{Blockchain, write_block}

-- A byte is written as its two digits.
unfoldable pub toy_hex_encode : Bytes → Bytes
toy_hex_encode [] = []
toy_hex_encode (b ∷ bs) = b / 16 ∷ b % 16 ∷ toy_hex_encode bs

unfoldable pub toy_hex_decode : Bytes → Option Bytes
toy_hex_decode [] = some []
toy_hex_decode (a ∷ []) = none
toy_hex_decode (a ∷ b ∷ bs) = elim (toy_hex_decode bs) [
  | none ↦ none
  | some m ↦ some ((a * 16 + b) ∷ m)
]

-- A digest repeats one byte, taken from the length of the message; a signature is the key and the
-- message.
abbrev pub toy : Crypto
toy = record {
  sha3_256 = λ m. replicate 32 (length m % 128);
  bad_key = λ k. none;
  verifies = λ k m s. ite (bytes_dec s (k ++ m)) true false;
  public_key = λ k. k;
  sign = λ k m. k ++ m;
  hex_encode = toy_hex_encode;
  hex_decode = toy_hex_decode;
}

toy_hex_encode-length : (m : Bytes) → length (toy_hex_encode m) ≡ 2 * length m
unfolding toy_hex_encode
toy_hex_encode-length [] = refl
toy_hex_encode-length (b ∷ bs) = omega (arith, toy_hex_encode-length bs)

toy_hex_decode-toy_hex_encode : (m : Bytes) → toy_hex_decode (toy_hex_encode m) ≡ some m
unfolding toy_hex_encode toy_hex_decode
toy_hex_decode-toy_hex_encode [] = refl
toy_hex_decode-toy_hex_encode (b ∷ bs) =
    let whole : b / 16 * 16 + b % 16 ≡ b = omega arith in
    rw (toy_hex_decode-toy_hex_encode bs, whole) refl

pub toy-IsSound : IsSound toy
toy-IsSound = record {
  digest_length = λ m. length-replicate 32 (length m % 128);
  own_key = λ k. refl;
  own_signature = λ k m. if_pos (bytes_dec (k ++ m) (k ++ m)) refl _ _;
  hex_length = toy_hex_encode-length;
  hex_round_trip = toy_hex_decode-toy_hex_encode;
}

abbrev pub alice : Bytes
alice = replicate 32 1

abbrev pub bob : Bytes
bob = replicate 32 2

abbrev pub carol : Bytes
carol = replicate 32 3

-- Alice pays Bob 100 and a fee of 5; she has sent nothing before.
abbrev pub unsigned_tx : Transaction
unsigned_tx = record {
  version = 1;
  sender = alice;
  recipient = bob;
  amount = 100;
  fee = 5;
  sequence = 1;
  timestamp_ms = 1_000;
  prev_tx_hash = zero_hash;
  memo = 7 ∷ [];
  posc_proof = zero_hash;
  posc_steps = 2_000;
  signature = [];
}

abbrev pub payment : Transaction
payment = record unsigned_tx { signature = toy.sign alice (to_bytes_for_signing unsigned_tx) }

-- Alice has 1,000 and Bob 50.
abbrev pub ledger_0 : Ledger
ledger_0 = (alice, new_account 1_000) ∷ (bob, new_account 50) ∷ []

abbrev pub chain_0 : Blockchain
chain_0 = record {
  db = record {
    blocks = (0, genesis toy) ∷ [];
    key_height = some 0;
    key_diff = some testnet_difficulty;
    prev_diffs = [];
  };
  height = 0;
  difficulty = testnet_difficulty;
}

-- Carol mines the payment; her header hash is all zeros, which meets every difficulty.
abbrev pub block_1 : Block
block_1 = record {
  index = 1;
  prev_hash = (genesis toy).hash;
  timestamp = 5_000;
  miner = carol;
  nonce = 0;
  hash = replicate 32 0;
  reward = testnet_reward;
  transactions = payment ∷ [];
}

abbrev pub chain_1 : Blockchain
chain_1 = write_block block_1 chain_0

abbrev pub ledger_1 : Ledger
ledger_1 = (apply_tx toy payment (apply_coinbase toy carol testnet_reward ledger_0)).1
