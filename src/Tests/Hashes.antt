-- ===== src/Tests/Hashes.antt =====
-- The hash function on the toy digest, and a hash against the difficulty.
use taron.Prelude.{◌≡◌, refl, [], ◌∷◌, arith, leb, replicate}
use taron.Fixtures.{toy, toy-IsSound, alice}
use taron.Hash.{hash_with_scratchpad, meets_difficulty}
use taron.Hash.Scratchpad.{hash_with_scratchpad-fresh}
use taron.Hash.Difficulty.{meets_difficulty-leading_zeros}
use taron.Pool.Scoring.{leading_zeros_256}

hash_with_scratchpad-fresh_example :
    hash_with_scratchpad toy alice 5 (1 ∷ 2 ∷ 3 ∷ [])
    ≡ hash_with_scratchpad toy alice 5 (replicate 3 0)
hash_with_scratchpad-fresh_example =
    hash_with_scratchpad-fresh toy toy-IsSound alice 5 (1 ∷ 2 ∷ 3 ∷ []) (replicate 3 0) refl

meets_difficulty-leading_zeros_example :
    meets_difficulty (0 ∷ 31 ∷ 255 ∷ []) 11 ≡ leb 11 (leading_zeros_256 (0 ∷ 31 ∷ 255 ∷ []))
meets_difficulty-leading_zeros_example =
    meets_difficulty-leading_zeros (0 ∷ 31 ∷ 255 ∷ []) 11
      (omega arith, (omega arith, (omega arith, tt))) (omega arith)
