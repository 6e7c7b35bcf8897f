-- ===== src/Blockchain/Stack.antt =====
-- `Blockchain` of crates/taron-core/src/blockchain.rs as a stack of blocks, the newest first: what a
-- client needs to know of the database, its keys and its difficulty snapshots.
use taron.Prelude.{
  ℕ, zero, suc, ◌+◌, ◌-◌, ◌≤◌, ◌<◌, ◌≡◌, refl, ◌∙◌, ap, sym, false, Option, none, some, List, [],
  ◌∷◌, ◌++◌, reverse, arith, length, ltb, ◌==◌, inl, inr, Bool-cases, Option-cases, ltb→lt,
}
use mathlib.Core.List.{reverse-cons, append-nil, append_assoc}
use taron.Error.{ok}
use taron.Wallet.{Crypto}
use taron.Genesis.{testnet_difficulty}
use taron.Ledger.{Ledger}
use taron.Block.{Block}
use taron.Blockchain.{Blockchain, block_at, tip, checkpoint_anchor_at_or_below}
use taron.Blockchain.Blocks.{
  restore_difficulty, revert_tip, revert_loop, revert_to_height, reset_at_genesis, write_difficulty,
}
use taron.Blockchain.Linked.{IsLinked}
use taron.Blockchain.Reorg.{lowered}
use taron.Blockchain.Rewind.{restore_difficulty-blocks, block_at-lowered, revert_tip-lowers}

abbrev on_top : Option Block → List Block → List Block
on_top none s = s
on_top (some b) s = b ∷ s

-- The blocks from a height down to genesis.
unfoldable pub blocks_down : ℕ → Blockchain → List Block
blocks_down zero c = on_top (block_at c 0) []
blocks_down (suc i) c = on_top (block_at c (suc i)) (blocks_down i c)

-- The stack that a chain stands for.
abbrev pub stack : Blockchain → List Block
stack c = blocks_down c.height c

blocks_down-agree :
    (n : ℕ) (c c' : Blockchain)
    → ((i : ℕ) → i ≤ n → block_at c' i ≡ block_at c i)
    → blocks_down n c' ≡ blocks_down n c
unfolding blocks_down
blocks_down-agree zero c c' same = rw (blocks_down, same 0 (omega arith)) refl
blocks_down-agree (suc n) c c' same =
    let below = blocks_down-agree n c c' (λ i le. same i (omega arith)) in
    rw (blocks_down, same (suc n) (omega arith), below) refl

blocks_down-suc :
    (n : ℕ) (c : Blockchain) (b : Block)
    → block_at c (suc n) ≡ some b
    → blocks_down (suc n) c ≡ b ∷ blocks_down n c
unfolding blocks_down
blocks_down-suc n c b e = rw (blocks_down, e) refl

module _ (crypto : Crypto) where
  revert_tip-same :
      (c c' : Blockchain) (l l' : Ledger) (b : Block) (i : ℕ)
      → revert_tip c l ≡ some (ok b, c', l')
      → i < c.height
      → block_at c' i ≡ block_at c i
  unfolding revert_tip
  revert_tip-same c c' l l' b i h lt = elim (Option-cases (restore_difficulty (lowered c))) [
    | inl stuck ↦ absurd (ground arith)
    | inr (c'', restored) ↦
        let same : c'' ≡ c' = ground arith in
        rw (← same)
          ((restore_difficulty-blocks (lowered c) c'' i restored).1 ∙ block_at-lowered c i lt)
  ]

  revert_tip-pops :
      (c : Blockchain) (l : Ledger)
      → IsLinked crypto c
      → 0 < c.height
      → (b : Block) × (c' : Blockchain) × (l' : Ledger) × (revert_tip c l ≡ some (ok b, c', l'))
        × (stack c ≡ b ∷ stack c')
        × (suc c'.height ≡ c.height)
        × IsLinked crypto c'
  unfolding tip block_at
  revert_tip-pops c l linked pos =
      let (b, c', l', e, top, height, linked') = revert_tip-lowers crypto c l linked pos in
      let top' : block_at c (suc c'.height) ≡ some b = rw (← height) at top in
      (
        b,
        c',
        l',
        e,
        ap (λ h. blocks_down h c) (sym height)
            ∙ blocks_down-suc c'.height c b top'
            ∙ ap (λ s. b ∷ s)
                (sym (
                  blocks_down-agree c'.height c c'
                    (λ i le. revert_tip-same c c' l l' b i e (omega arith)))),
        height,
        linked',
      )

  revert_loop-pops :
      (fuel target : ℕ) (reverted : List Block) (c : Blockchain) (l : Ledger)
      → IsLinked crypto c
      → target ≤ c.height
      → c.height ≤ fuel + target
      → (blocks : List Block) × (c' : Blockchain) × (l' : Ledger) × (revert_loop fuel target
            reverted c l
          ≡ some (ok (reverse reverted ++ blocks), c', l'))
        × (stack c ≡ blocks ++ stack c')
        × (length blocks ≡ c.height - target)
  unfolding revert_loop
  revert_loop-pops zero target reverted c l linked le enough = (
    [],
    c,
    l,
    ap (λ r. some (ok r, c, l)) (sym (append-nil (reverse reverted))),
    refl,
    omega arith,
  )
  revert_loop-pops (suc fuel) target reverted c l linked le enough =
      elim (Bool-cases (ltb target c.height)) [
        | inr there ↦ (
          [],
          c,
          l,
          rw (revert_loop, there)
              (ap (λ r. some (ok r, c, l)) (sym (append-nil (reverse reverted)))),
          refl,
          ground arith,
        )
        | inl more ↦
            let (b, c₁, l₁, e, popped, height, linked₁) =
              revert_tip-pops c l linked (omega (arith, ltb→lt _ _ more)) in
            let (blocks, c', l', e', rest, long) =
              revert_loop-pops fuel target (b ∷ reverted) c₁ l₁ linked₁
                (omega (arith, ltb→lt _ _ more)) (omega arith) in
            let order : reverse (b ∷ reverted) ++ blocks ≡ reverse reverted ++ (b ∷ blocks) =
              ap (λ r. r ++ blocks) (reverse-cons b reverted)
              ∙ append_assoc (reverse reverted) (b ∷ []) blocks in
            (
              b ∷ blocks,
              c',
              l',
              rw (revert_loop, more, e) (rw order at e'),
              popped ∙ ap (λ s. b ∷ s) rest,
              omega (arith, ltb→lt _ _ more),
            )
      ]

  reset-stack : (c : Blockchain) → stack (reset_at_genesis c) ≡ stack c
  unfolding blocks_down block_at
  reset-stack c = elim (Bool-cases (c.height == 0)) [
    | inl e ↦
        rw e (blocks_down-agree c.height c (write_difficulty testnet_difficulty c) (λ i le. refl))
    | inr e ↦ rw e refl
  ]

  -- On a linked chain, `revert_to_height` with a target between the highest passed checkpoint and
  -- the tip pops as many blocks off the stack as the tip is above the target, and returns them, the
  -- newest first.
  pub revert_to_height-pops :
      (target : ℕ) (c : Blockchain) (l : Ledger)
      → IsLinked crypto c
      → checkpoint_anchor_at_or_below c.height ≤ target
      → target ≤ c.height
      → (blocks : List Block) × (c' : Blockchain) × (l' : Ledger) × (revert_to_height target c l
          ≡ some (ok blocks, c', l'))
        × (stack c ≡ blocks ++ stack c')
        × (length blocks ≡ c.height - target)
  unfolding revert_to_height
  revert_to_height-pops target c l linked anchored le =
      let (blocks, c', l', e, popped, long) =
        revert_loop-pops c.height target [] c l linked le (omega arith) in
      let allowed : ltb target (checkpoint_anchor_at_or_below c.height) ≡ false = ground arith in
      (
        blocks,
        reset_at_genesis c',
        l',
        rw (revert_to_height, allowed, e) refl,
        popped ∙ ap (λ s. blocks ++ s) (sym (reset-stack c')),
        long,
      )
