-- ===== src/Blockchain/Queries.antt =====
-- The queries of crates/taron-core/src/blockchain.rs that return lists of blocks.
use taron.Prelude.{
  ℕ, zero, suc, ◌+◌, ◌-◌, ◌≤◌, ◌<◌, ◌≡◌, refl, min, none, some, List, [], ◌∷◌, reverse, arith,
  length, get_elem?, ltb, ◌==◌, ◌&&◌, if◌then◌else◌, ite, ap,
}
use taron.Prelude.Words.{Bytes, add64, saturating_sub}
use taron.Prelude.Text.{bytes_dec}
use taron.Block.{Block}
use taron.Blockchain.{Blockchain, block_at}
use taron.Blockchain.Linked.{Held}

-- `filter_map` of `block_at` over `n` heights, from `i` on.
unfoldable pub blocks_from : ℕ → ℕ → Blockchain → List Block
blocks_from zero i c = []
blocks_from (suc n) i c =
    let rest = blocks_from n (i + 1) c in elim (block_at c i) [ none ↦ rest | some b ↦ b ∷ rest ]

unfoldable pub total_blocks : Blockchain → ℕ
total_blocks c = add64 c.height 1

unfoldable pub blocks_range : ℕ → ℕ → Blockchain → List Block
blocks_range from to c = let to' = min to c.height in blocks_from (to' + 1 - from) from c

-- `(end..=start).rev()`
unfoldable pub blocks_paginated : ℕ → ℕ → Blockchain → List Block
blocks_paginated offset limit c =
    if (c.height == 0) && ltb 0 offset
    then []
    else (let start = saturating_sub c.height offset in
        let end = saturating_sub start (saturating_sub limit 1) in
        reverse (blocks_from (start + 1 - end) end c))

unfoldable pub mined_by : Bytes → List Block → List Block
mined_by pubkey [] = []
mined_by pubkey (b ∷ bs) =
    let rest = mined_by pubkey bs in ite (bytes_dec b.miner pubkey) (b ∷ rest) rest

unfoldable pub blocks_by_miner : Bytes → Blockchain → List Block
blocks_by_miner pubkey c = mined_by pubkey (blocks_from (c.height + 1) 0 c)

module _ (c : Blockchain) (held : (i : ℕ) → i ≤ c.height → Held c i) where
  blocks_from-held :
      (n i k : ℕ)
      → i + n ≤ c.height + 1
      → (length (blocks_from n i c) ≡ n)
        × (k < n → get_elem? (blocks_from n i c) k ≡ block_at c (i + k))
  unfolding blocks_from
  blocks_from-held zero i k le = (refl, λ lt. absurd (omega arith))
  blocks_from-held (suc n) i zero le =
      let (b, found, _) = held i (omega arith) in
      let same : i + 0 ≡ i = omega arith in
      let (long, _) = blocks_from-held n (i + 1) 0 (omega arith) in
      (rw (blocks_from, found) (ap suc long), λ lt. rw (blocks_from, found, same, found) refl)
  blocks_from-held (suc n) i (suc k) le =
      let (b, found, _) = held i (omega arith) in
      let same : i + 1 + k ≡ i + suc k = omega arith in
      let (long, inside) = blocks_from-held n (i + 1) k (omega arith) in
      (
        rw (blocks_from, found) (ap suc long),
        λ lt. rw (blocks_from, found, ← same) (inside (omega arith)),
      )

  -- On a chain whose database holds the block of every height, `blocks_range` returns one block for
  -- each height from the first to the last, or to the tip, in order.
  pub blocks_range-held :
      (from to k : ℕ)
      → from ≤ min to c.height
      → k ≤ min to c.height - from
      → (length (blocks_range from to c) ≡ min to c.height + 1 - from)
        × (get_elem? (blocks_range from to c) k ≡ block_at c (from + k))
  unfolding blocks_range
  blocks_range-held from to k le inside =
      let (long, at) = blocks_from-held (min to c.height + 1 - from) from k (omega arith) in
      (long, at (omega arith))
