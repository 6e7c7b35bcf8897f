-- ===== src/Blockchain/Checks.antt =====
-- What a block has met that passes the checks of `apply_block` and `apply_block_ibd`.
use taron.Prelude.{
  ℕ, ◌≤◌, ◌≡◌, ◌↔◌, refl, inl, inr, Bool, true, none, some, List, [], ◌∷◌, arith, All, Option-cases,
}
use taron.Prelude.Words.{Bytes, add64}
use taron.Error.{ok}
use taron.Wallet.{Crypto}
use taron.Transaction.{Transaction, verify_tx_signature, time_delta}
use taron.Genesis.{testnet_reward}
use taron.Hash.{meets_difficulty}
use taron.Block.{Block, hash_header, validate_inner, block_timestamp_tolerance_ms}
use taron.Blockchain.{Blockchain, tip, find_checkpoint, checkpoints}
use taron.Blockchain.Blocks.{signatures_verify, passes_checks}

module _ (crypto : Crypto) where
  -- A block that follows `prev` and carries the work of the given difficulty.
  pub record Follows (b prev : Block) (difficulty : ℕ) : Type 0 where
    pub next_index : b.index ≡ add64 prev.index 1
    pub parent : b.prev_hash ≡ prev.hash
    pub own_hash : b.hash ≡ hash_header crypto b
    pub work : meets_difficulty b.hash difficulty ≡ true

  -- Every transaction carries a signature of its sender that verifies.
  abbrev pub AllSigned : List Transaction → Type 0
  AllSigned txs = All (λ tx. verify_tx_signature crypto tx ≡ ok tt) txs

  pub record Checked (now_ms : ℕ) (check_timestamp : Bool) (b : Block) (c : Blockchain)
      : Type 0 where
    pub prev : Block
    pub at_tip : tip c ≡ some prev
    pub follows : Follows b prev c.difficulty
    pub canonical_reward : b.reward ≡ testnet_reward
    pub all_signed : AllSigned b.transactions
    pub in_time :
        check_timestamp ≡ true → time_delta b.timestamp now_ms ≤ block_timestamp_tolerance_ms
    pub at_checkpoint :
        (expected : Bytes)
        → find_checkpoint b.index checkpoints ≡ some expected
        → crypto.hex_encode b.hash ≡ expected

  signatures_verify-AllSigned :
      (txs : List Transaction) → signatures_verify crypto txs ≡ true → AllSigned txs
  unfolding signatures_verify
  signatures_verify-AllSigned [] h = tt
  signatures_verify-AllSigned (tx ∷ txs) h = ground (arith, signatures_verify-AllSigned txs)

  validate_inner-Follows :
      (now_ms : ℕ) (b prev : Block) (difficulty : ℕ) (check_timestamp : Bool)
      → validate_inner crypto now_ms b prev difficulty check_timestamp ≡ none
      → Follows b prev difficulty
        × (check_timestamp ≡ true → time_delta b.timestamp now_ms ≤ block_timestamp_tolerance_ms)
  unfolding validate_inner
  validate_inner-Follows now_ms b prev difficulty check h = (ground arith, λ t. ground arith)

  pub passes_checks-Checked :
      (now_ms : ℕ) (check_timestamp : Bool) (b : Block) (c : Blockchain)
      → passes_checks crypto now_ms check_timestamp b c ≡ some true
      → Checked now_ms check_timestamp b c
  unfolding passes_checks
  passes_checks-Checked now_ms check b c h = elim (Option-cases (tip c)) [
    | inl e ↦ ground arith
    | inr (p, e) ↦
        let valid : validate_inner crypto now_ms b p c.difficulty check ≡ none = ground arith in
        let (follows, in_time) = validate_inner-Follows now_ms b p c.difficulty check valid in
        record {
          prev = p;
          at_tip = e;
          follows = follows;
          canonical_reward = ground arith;
          all_signed = signatures_verify-AllSigned b.transactions (ground arith);
          in_time = in_time;
          at_checkpoint = λ expected found. ground arith;
        }
  ]

  signatures_verify-all :
      (txs : List Transaction) → AllSigned txs → signatures_verify crypto txs ≡ true
  unfolding signatures_verify
  signatures_verify-all [] h = refl
  signatures_verify-all (tx ∷ txs) h = ground (arith, h.0, signatures_verify-all txs h.1)

  Follows-validate_inner :
      (now_ms : ℕ) (b prev : Block) (difficulty : ℕ) (check_timestamp : Bool)
      → Follows b prev difficulty
      → (check_timestamp ≡ true → time_delta b.timestamp now_ms ≤ block_timestamp_tolerance_ms)
      → validate_inner crypto now_ms b prev difficulty check_timestamp ≡ none
  unfolding validate_inner
  Follows-validate_inner now_ms b prev difficulty check f in_time =
      ground (arith, f.next_index, f.parent, f.own_hash, f.work, in_time)

  Checked-passes_checks :
      (now_ms : ℕ) (check_timestamp : Bool) (b : Block) (c : Blockchain)
      → Checked now_ms check_timestamp b c
      → passes_checks crypto now_ms check_timestamp b c ≡ some true
  unfolding passes_checks
  Checked-passes_checks now_ms check b c ch =
      let valid =
        Follows-validate_inner now_ms b ch.prev c.difficulty check ch.follows ch.in_time in
      let signed = signatures_verify-all b.transactions ch.all_signed in
      elim (Option-cases (find_checkpoint b.index checkpoints)) [
        | inl none_here ↦ ground (arith, none_here, ch.at_tip, valid, ch.canonical_reward, signed)
        | inr (expected, found) ↦ ground (
          arith,
          found,
          ch.at_checkpoint expected found,
          ch.at_tip,
          valid,
          ch.canonical_reward,
          signed,
        )
      ]

  -- A block passes the checks of `apply_block` and `apply_block_ibd` exactly if the chain has a tip,
  -- the block follows it by index, parent, header hash and work, it has the canonical reward, every
  -- transaction is signed, the timestamp is near the clock where it is checked, and the hash is the
  -- one of the checkpoint, where there is one at its height.
  pub passes_checks_iff :
      (now_ms : ℕ) (check_timestamp : Bool) (b : Block) (c : Blockchain)
      → (passes_checks crypto now_ms check_timestamp b c ≡ some true)
        ↔ Checked now_ms check_timestamp b c
  passes_checks_iff now_ms check b c =
      (passes_checks-Checked now_ms check b c, Checked-passes_checks now_ms check b c)
