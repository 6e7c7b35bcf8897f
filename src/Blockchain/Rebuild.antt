-- ===== src/Blockchain/Rebuild.antt =====
-- `Ledger::rebuild_from_chain` of crates/taron-core/src/ledger.rs, which needs the chain. It replays
-- the rewards and no transactions.
use taron.Prelude.{ℕ, zero, suc, ◌+◌, ◌*◌, ◌≤◌, ◌<◌, ◌≡◌, refl, none, some, arith}
use taron.Prelude.Words.{u64_mod}
use taron.Wallet.{Crypto}
use taron.Prelude.Dict.{insert}
use taron.Genesis.{testnet_reward, premine_balance, testnet_accounts}
use taron.Ledger.{Ledger, new_testnet, apply_coinbase}
use taron.Ledger.Entries.{supply}
use taron.Ledger.Supply.{apply_coinbase-supply}
use taron.Blockchain.{Blockchain, block_at}
use taron.Blockchain.Linked.{IsLinked}

module _ (crypto : Crypto) where
  -- The rewards of the blocks from 1 to `n`.
  unfoldable pub replay_rewards : ℕ → Blockchain → Ledger
  replay_rewards zero c = new_testnet
  replay_rewards (suc n) c =
      let l = replay_rewards n c in
      elim (block_at c (suc n)) [ none ↦ l | some b ↦ apply_coinbase crypto b.miner b.reward l ]

  unfoldable pub rebuild_from_chain : Blockchain → Ledger
  unfolding replay_rewards
  rebuild_from_chain c = replay_rewards c.height c

  supply-new_testnet : supply new_testnet ≡ premine_balance
  unfolding supply new_testnet testnet_accounts insert
  supply-new_testnet = refl

  supply-replay_rewards :
      (n : ℕ) (c : Blockchain)
      → IsLinked crypto c
      → n ≤ c.height
      → premine_balance + testnet_reward * c.height < u64_mod
      → supply (replay_rewards n c) ≡ premine_balance + testnet_reward * n
  unfolding replay_rewards
  supply-replay_rewards zero c linked le fits = omega (arith, supply-new_testnet)
  supply-replay_rewards (suc n) c linked le fits =
      let (b, found, _) = linked.held (suc n) le in
      let (p, before, _) = linked.held n (omega arith) in
      let reward = (linked.link n p b (omega arith) before found).canonical_reward in
      let l = replay_rewards n c in
      let sofar = supply-replay_rewards n c linked (omega arith) fits in
      rw (replay_rewards, found)
        (omega (
          arith,
          sofar,
          reward,
          (apply_coinbase-supply crypto b.miner b.reward l b.miner (omega arith)).0,
        ))

  -- On a linked chain the rebuilt ledger holds the premine and one canonical reward for each block
  -- after genesis, as long as this sum is below 2 ^ 64: fees are not burned, whatever the blocks hold.
  pub rebuild_from_chain-supply :
      (c : Blockchain)
      → IsLinked crypto c
      → premine_balance + testnet_reward * c.height < u64_mod
      → supply (rebuild_from_chain c) ≡ premine_balance + testnet_reward * c.height
  unfolding rebuild_from_chain
  rebuild_from_chain-supply c linked fits =
      supply-replay_rewards c.height c linked (omega arith) fits
