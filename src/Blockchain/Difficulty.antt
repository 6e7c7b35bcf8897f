-- ===== src/Blockchain/Difficulty.antt =====
-- The adjustment of the difficulty: its bounds, and that the value which the node carries along is
-- the one that `recompute_difficulty_from_chain` finds from the timestamps.
use taron.Prelude.{
  ℕ, zero, suc, ◌+◌, ◌-◌, ◌*◌, ◌/◌, ◌%◌, ◌≤◌, ◌<◌, ◌≡◌, inl, inr, refl, sym, ap, ◌∙◌, true, false,
  none, some, arith, leb, ltb, ite, if_pos, if_neg, ℕ_discrete, Bool-cases, leb→le,
}
use taron.Prelude.Words.{u64_mod}
use taron.Wallet.{Crypto}
use taron.Genesis.{testnet_difficulty}
use taron.Error.{ok}
use taron.Ledger.{Ledger}
use taron.Block.{Block}
use taron.Blockchain.{
  Blockchain, block_at, adjust_difficulty_step, compute_next_difficulty, recompute_loop,
  recompute_difficulty_from_chain, append_block, write_block, daa_window, target_block_ms,
}
use taron.Blockchain.Linked.{
  Held, IsLinked, block_at-append, block_at-write_block, height-append, apply_block-appended,
}
use taron.Blockchain.Blocks.{apply_block}

-- A difficulty between 1 and 30 stays there, and moves by two bits at most.
pub adjust_difficulty_step_bounds :
    (d actual_ms target_ms : ℕ)
    → 1 ≤ d
    → d ≤ 30
    → let d' = adjust_difficulty_step d actual_ms target_ms in
      (1 ≤ d') × (d' ≤ 30) × (d' ≤ d + 2) × (d ≤ d' + 2)
unfolding adjust_difficulty_step
adjust_difficulty_step_bounds d actual_ms target_ms lo hi = ground arith

-- From a difficulty between 1 and 30, a window that took longer never leads to a higher difficulty
-- than one that took less time, as long as it took some time at all.
pub adjust_difficulty_step-antitone :
    (d a a' target_ms : ℕ)
    → 1 ≤ d
    → d ≤ 30
    → 0 < a
    → a ≤ a'
    → adjust_difficulty_step d a' target_ms ≤ adjust_difficulty_step d a target_ms
unfolding adjust_difficulty_step
adjust_difficulty_step-antitone d a a' target_ms lo hi pos le = ground arith

abbrev pub target_ms : ℕ
target_ms = target_block_ms * daa_window

-- The timestamp at a height, 0 where there is no block.
unfoldable pub timestamp_at : Blockchain → ℕ → ℕ
timestamp_at c i = elim (block_at c i) [ none ↦ 0 | some b ↦ b.timestamp ]

-- The difficulty after `n` windows, by the timestamps at their ends.
unfoldable pub canonical_after : ℕ → Blockchain → ℕ
canonical_after zero c = testnet_difficulty
canonical_after (suc n) c =
    adjust_difficulty_step (canonical_after n c)
      (timestamp_at c (daa_window * suc n) - timestamp_at c (daa_window * n)) target_ms

-- The difficulty that a chain should have.
abbrev pub canonical_difficulty : Blockchain → ℕ
canonical_difficulty c = canonical_after (c.height / daa_window) c

recompute_loop_stop :
    (fuel : ℕ) (c : Blockchain) (boundary diff : ℕ)
    → leb boundary c.height ≡ false
    → recompute_loop fuel c boundary diff ≡ diff
unfolding recompute_loop
recompute_loop_stop zero c boundary diff h = refl
recompute_loop_stop (suc fuel) c boundary diff h = ground arith

recompute_loop_step :
    (fuel : ℕ) (c : Blockchain) (boundary diff : ℕ) (b b' : Block)
    → leb boundary c.height ≡ true
    → block_at c boundary ≡ some b
    → block_at c (boundary - daa_window) ≡ some b'
    → recompute_loop (suc fuel) c boundary diff
      ≡ recompute_loop fuel c
          (boundary + daa_window)
          (adjust_difficulty_step diff (b.timestamp - b'.timestamp) target_ms)
unfolding recompute_loop
recompute_loop_step fuel c boundary diff b b' h e e' = ground arith

timestamp_at_held :
    (c : Blockchain) (i : ℕ) (b : Block) → block_at c i ≡ some b → timestamp_at c i ≡ b.timestamp
unfolding timestamp_at
timestamp_at_held c i b e = ground arith

timestamp_at-agree :
    (c c' : Blockchain) (i : ℕ)
    → block_at c' i ≡ block_at c i
    → timestamp_at c' i ≡ timestamp_at c i
unfolding timestamp_at
timestamp_at-agree c c' i e = ground arith

-- The canonical difficulty reads only the blocks up to the last boundary.
canonical_after-agree :
    (n : ℕ) (c c' : Blockchain)
    → ((i : ℕ) → i ≤ daa_window * n → block_at c' i ≡ block_at c i)
    → canonical_after n c' ≡ canonical_after n c
unfolding canonical_after
canonical_after-agree zero c c' same = refl
canonical_after-agree (suc n) c c' same = rw (
  timestamp_at-agree c c' (daa_window * suc n) (same (daa_window * suc n) (omega arith)),
  timestamp_at-agree c c' (daa_window * n) (same (daa_window * n) (omega arith)),
  canonical_after-agree n c c' (λ i le. same i (omega arith)),
)

canonical_after_step :
    (n : ℕ) (c : Blockchain) (b b' : Block)
    → block_at c (daa_window * suc n) ≡ some b
    → block_at c (daa_window * n) ≡ some b'
    → canonical_after (suc n) c
      ≡ adjust_difficulty_step (canonical_after n c) (b.timestamp - b'.timestamp) target_ms
unfolding canonical_after
canonical_after_step n c b b' e e' =
    rw (timestamp_at_held c (daa_window * suc n) b e, timestamp_at_held c (daa_window * n) b' e')

module _ (c : Blockchain) (held : (i : ℕ) → i ≤ c.height → Held c i) where
  recompute_loop-canonical :
      (fuel k boundary : ℕ)
      → boundary ≡ daa_window * suc k
      → k ≤ c.height / daa_window
      → c.height / daa_window ≤ fuel + k
      → recompute_loop fuel c boundary (canonical_after k c) ≡ canonical_difficulty c
  recompute_loop-canonical zero k boundary at lo hi =
      let e : k ≡ c.height / daa_window = omega arith in
      recompute_loop_stop zero c boundary (canonical_after k c) (ground arith)
      ∙ ap (λ n. canonical_after n c) e
  recompute_loop-canonical (suc fuel) k boundary at lo hi =
      elim (Bool-cases (leb boundary c.height)) [
        | inr past ↦
            let e : k ≡ c.height / daa_window = ground arith in
            recompute_loop_stop (suc fuel) c boundary (canonical_after k c) past
            ∙ ap (λ n. canonical_after n c) e
        | inl more ↦
            let (b, found, _) = held boundary (leb→le _ _ more) in
            let (b', found', _) = held (daa_window * k) (omega (arith, leb→le _ _ more)) in
            let before : boundary - daa_window ≡ daa_window * k = omega arith in
            recompute_loop_step fuel c boundary (canonical_after k c) b b' more found
              (rw before found')
            ∙ (rw (← canonical_after_step k c b b' (rw (← at) found) found') (
                recompute_loop-canonical fuel (suc k) (boundary + daa_window) (omega arith)
                  (omega (arith, leb→le _ _ more)) (omega arith)))
      ]

  -- If the database holds the block of every height, then recomputing the difficulty gives the
  -- canonical one: the loop ends by its test, with fuel left.
  pub recompute-canonical : recompute_difficulty_from_chain c ≡ canonical_difficulty c
  unfolding recompute_difficulty_from_chain canonical_after
  recompute-canonical = elim (Bool-cases (ltb c.height daa_window)) [
    | inl young ↦
        let e : c.height / daa_window ≡ 0 = ground arith in
        rw (recompute_difficulty_from_chain, young, e) refl
    | inr old ↦
        rw (recompute_difficulty_from_chain, old)
          (recompute_loop-canonical c.height 0 daa_window refl (omega arith) (omega arith))
  ]

-- The two copies of the adjustment in the source agree: from the tenth block on, where the blocks
-- at both ends of the window are there, `compute_next_difficulty` takes the step of
-- `adjust_difficulty_step` by the difference of their timestamps.
pub compute_next_difficulty-adjust :
    (c : Blockchain) (b b' : Block)
    → daa_window ≤ c.height
    → block_at c c.height ≡ some b
    → block_at c (c.height - daa_window) ≡ some b'
    → compute_next_difficulty c
      ≡ some (adjust_difficulty_step c.difficulty (b.timestamp - b'.timestamp) target_ms)
unfolding compute_next_difficulty adjust_difficulty_step
compute_next_difficulty-adjust c b b' h e e' =
    let old : ltb c.height daa_window ≡ false = ground arith in
    rw (compute_next_difficulty, old, e, e') refl

append_block-difficulty :
    (b b' : Block) (c c' : Blockchain)
    → block_at c (b.index - daa_window) ≡ some b'
    → 0 < b.index
    → append_block b c ≡ some c'
    → c'.difficulty
      ≡ ite
          (ℕ_discrete (b.index % daa_window) 0)
          (adjust_difficulty_step c.difficulty (b.timestamp - b'.timestamp) target_ms)
          c.difficulty
unfolding append_block
append_block-difficulty b b' c c' e pos h = ground (
  arith,
  compute_next_difficulty-adjust (write_block b c) b b',
  block_at-write_block b c b.index,
  block_at-write_block b c (b.index - daa_window),
)

module _ (crypto : Crypto) where
  -- If the chain is linked and carries its canonical difficulty, then so does the chain that a
  -- block which was appended to it leads to.
  append_block-canonical :
      (b : Block) (c c' : Blockchain)
      → IsLinked crypto c
      → b.index ≡ suc c.height
      → append_block b c ≡ some c'
      → c.difficulty ≡ canonical_difficulty c
      → c'.difficulty ≡ canonical_difficulty c'
  append_block-canonical b c c' linked ix h carried =
      let (start, found, _) = linked.held (b.index - daa_window) (omega arith) in
      let height : c'.height ≡ suc c.height = height-append b c c' h ∙ ix in
      let kept : (i : ℕ) → i ≤ c.height → block_at c' i ≡ block_at c i =
        λ i le. ground (arith, block_at-append b c c' i h) in
      let moved = append_block-difficulty b start c c' found (omega arith) h in
      elim (ℕ_discrete (b.index % daa_window) 0) [
        | no inside ↦
            let same : c'.height / daa_window ≡ c.height / daa_window = omega arith in
            moved
            ∙ (if_neg (ℕ_discrete (b.index % daa_window) 0) inside _ _
                ∙ (carried
                    ∙ rw same (
                        sym (
                          canonical_after-agree (c.height / daa_window) c c'
                            (λ i le. kept i (omega arith))))))
        | yes boundary ↦
            let n = c.height / daa_window in
            let next : c'.height / daa_window ≡ suc n = omega arith in
            let last : daa_window * suc n ≡ b.index = omega arith in
            let first : b.index - daa_window ≡ daa_window * n = omega arith in
            let at_end : block_at c' (daa_window * suc n) ≡ some b =
              rw last (ground (arith, block_at-append b c c' b.index h)) in
            let at_start : block_at c' (daa_window * n) ≡ some start =
              kept (daa_window * n) (omega arith) ∙ rw (← first) found in
            let before : canonical_after n c' ≡ c.difficulty =
              canonical_after-agree n c c' (λ i le. kept i (omega arith)) ∙ sym carried in
            moved
            ∙ (if_pos (ℕ_discrete (b.index % daa_window) 0) boundary _ _
                ∙ rw (next, canonical_after_step n c' b start at_end at_start, before) refl)
      ]

  -- On a linked chain below the largest index, whose difficulty is the one that
  -- `recompute_difficulty_from_chain` finds, a block that `apply_block` accepts leads to a chain with
  -- that property again.
  pub apply_block-difficulty :
      (now_ms : ℕ) (b : Block) (c c' : Blockchain) (l l' : Ledger)
      → IsLinked crypto c
      → c.height + 1 < u64_mod
      → recompute_difficulty_from_chain c ≡ c.difficulty
      → apply_block crypto now_ms b c l ≡ some (ok tt, c', l')
      → recompute_difficulty_from_chain c' ≡ c'.difficulty
  apply_block-difficulty now_ms b c c' l l' linked room carried h =
      let (appended, index, linked') =
        apply_block-appended crypto now_ms b c c' l l' linked room h in
      recompute-canonical c' linked'.held
      ∙ sym (
          append_block-canonical b c c' linked index appended
            (sym carried ∙ recompute-canonical c linked.held))
