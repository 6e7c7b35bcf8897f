-- ===== src/Blockchain/Rewind.antt =====
-- `revert_to_height` stops at its target with a linked chain, and never passes a checkpoint.
use taron.Prelude.{
  ℕ, zero, suc, ◌+◌, ◌-◌, ◌≤◌, ◌<◌, ◌≡◌, ◌≢◌, ◌⊎◌, inl, inr, refl, ◌∙◌, none, some, List, [], ◌∷◌,
  reverse, arith, ltb, ◌==◌, ℕ_discrete, Option-cases, Bool-cases, ltb→lt,
}
use taron.Prelude.Dict.{lookup-erase}
use taron.Error.{ok, err, invalid_block}
use taron.Wallet.{Crypto}
use taron.Genesis.{testnet_difficulty}
use taron.Ledger.{Ledger, revert_coinbase}
use taron.Block.{Block}
use taron.Blockchain.{Blockchain, block_at, tip, daa_window, checkpoint_anchor_at_or_below}
use taron.Blockchain.Blocks.{
  revert_txs, restore_difficulty, revert_tip, revert_loop, revert_to_height, reset_at_genesis,
}
use taron.Blockchain.Linked.{IsLinked, compute_next_difficulty-total}
use taron.Blockchain.Reorg.{lowered}

pub restore_difficulty-blocks :
    (c c' : Blockchain) (i : ℕ)
    → restore_difficulty c ≡ some c'
    → (c'.height ≡ c.height) × (block_at c' i ≡ block_at c i)
unfolding restore_difficulty block_at
restore_difficulty-blocks c c' i h = ground arith

restore_difficulty-total :
    (c : Blockchain) (b b' : Block)
    → block_at c c.height ≡ some b
    → block_at c (c.height - daa_window) ≡ some b'
    → restore_difficulty c ≢ none
unfolding restore_difficulty
restore_difficulty-total c b b' e e' h = ground (arith, compute_next_difficulty-total c b b' e e')

pub block_at-lowered :
    (c : Blockchain) (i : ℕ) → i < c.height → block_at (lowered c) i ≡ block_at c i
unfolding block_at
block_at-lowered c i lt = ground (arith, lookup-erase ℕ_discrete i c.height c.db.blocks)

module _ (crypto : Crypto) where
  -- A chain is linked up to any lower height.
  IsLinked-below :
      (c c' : Blockchain)
      → IsLinked crypto c
      → c'.height ≤ c.height
      → ((i : ℕ) → i ≤ c'.height → block_at c' i ≡ block_at c i)
      → IsLinked crypto c'
  IsLinked-below c c' linked le same = record {
    held = λ i h. let (b, e, ix) = linked.held i (omega arith) in (b, same i h ∙ e, ix);
    link = λ i p b lt ep eb.
        linked.link i p b (omega arith) (rw (same i (omega arith)) at ep)
          (rw (same (suc i) lt) at eb);
  }

  pub reset-IsLinked : (c : Blockchain) → IsLinked crypto c → IsLinked crypto (reset_at_genesis c)
  unfolding block_at
  reset-IsLinked c linked = elim (Bool-cases (c.height == 0)) [
    | inl e ↦ rw e (record { held = linked.held; link = linked.link })
    | inr e ↦ rw e linked
  ]

  -- On a linked chain above genesis `revert_tip` returns the tip and leaves a linked chain, one lower.
  pub revert_tip-lowers :
      (c : Blockchain) (l : Ledger)
      → IsLinked crypto c
      → 0 < c.height
      → (b : Block) × (c' : Blockchain) × (l' : Ledger) × (revert_tip c l ≡ some (ok b, c', l'))
        × (tip c ≡ some b)
        × (suc c'.height ≡ c.height)
        × IsLinked crypto c'
  unfolding revert_tip tip
  revert_tip-lowers c l linked pos =
      let k = c.height - 1 in
      let (b, found, _) = linked.held c.height (omega arith) in
      let (p, before, _) = linked.held k (omega arith) in
      let (s, start, _) = linked.held (k - daa_window) (omega arith) in
      elim (Option-cases (restore_difficulty (lowered c))) [
        | inl stuck ↦ absurd (
            restore_difficulty-total (lowered c) p s (block_at-lowered c k (omega arith) ∙ before)
              (block_at-lowered c (k - daa_window) (omega arith) ∙ start) stuck)
        | inr (c', restored) ↦
            let height : c'.height ≡ k = (restore_difficulty-blocks (lowered c) c' 0 restored).0 in
            (
              b,
              c',
              revert_coinbase b.miner b.reward (revert_txs b.transactions l),
              ground arith,
              found,
              omega arith,
              IsLinked-below c c' linked (omega arith) (λ i le.
                  (restore_difficulty-blocks (lowered c) c' i restored).1
                  ∙ block_at-lowered c i (omega arith)),
            )
      ]

  revert_loop-reaches :
      (fuel target : ℕ) (reverted : List Block) (c : Blockchain) (l : Ledger)
      → IsLinked crypto c
      → target ≤ c.height
      → c.height ≤ fuel + target
      → (blocks : List Block) × (c' : Blockchain) × (l' : Ledger) × (revert_loop fuel target
            reverted c l
          ≡ some (ok blocks, c', l'))
        × (c'.height ≡ target)
        × IsLinked crypto c'
  unfolding revert_loop
  revert_loop-reaches zero target reverted c l linked le enough =
      (reverse reverted, c, l, refl, omega arith, linked)
  revert_loop-reaches (suc fuel) target reverted c l linked le enough =
      elim (Bool-cases (ltb target c.height)) [
        | inr there ↦ (reverse reverted, c, l, rw (revert_loop, there) refl, ground arith, linked)
        | inl more ↦
            let (b, c₁, l₁, e, _, height, linked₁) =
              revert_tip-lowers c l linked (omega (arith, ltb→lt _ _ more)) in
            let (blocks, c', l', e', at, linked') =
              revert_loop-reaches fuel target (b ∷ reverted) c₁ l₁ linked₁
                (omega (arith, ltb→lt _ _ more)) (omega arith) in
            (blocks, c', l', rw (revert_loop, more, e) e', at, linked')
      ]

  -- On a linked chain, `revert_to_height` with a target at or below the tip refuses to go below the
  -- highest checkpoint that the chain has passed, and changes nothing then; otherwise it ends,
  -- without an error, exactly at the target with a linked chain, which has the initial difficulty
  -- if the target is genesis.
  pub revert_to_height-reaches :
      (target : ℕ) (c : Blockchain) (l : Ledger)
      → IsLinked crypto c
      → target ≤ c.height
      → (target < checkpoint_anchor_at_or_below c.height
          × (revert_to_height target c l ≡ some (err invalid_block, c, l)))
        ⊎ (checkpoint_anchor_at_or_below c.height ≤ target
            × ((blocks : List Block) × (c' : Blockchain) × (l' : Ledger) × (revert_to_height target
                    c l
                  ≡ some (ok blocks, c', l'))
                × (c'.height ≡ target)
                × IsLinked crypto c'
                × (target ≡ 0 → c'.difficulty ≡ testnet_difficulty)))
  unfolding revert_to_height
  revert_to_height-reaches target c l linked le =
      elim (Bool-cases (ltb target (checkpoint_anchor_at_or_below c.height))) [
        | inl below ↦ inl (ltb→lt _ _ below, rw (revert_to_height, below) refl)
        | inr above ↦
            let (blocks, c', l', e, at, linked') =
              revert_loop-reaches c.height target [] c l linked le (omega arith) in
            inr (
              ground arith,
              (
                blocks,
                reset_at_genesis c',
                l',
                rw (revert_to_height, above, e) refl,
                ground arith,
                reset-IsLinked c' linked',
                λ z. ground arith,
              ),
            )
      ]
