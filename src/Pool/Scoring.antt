-- ===== src/Pool/Scoring.antt =====
-- crates/taron-pool/src/scoring.rs: the leading zero bits of a hash. The weights and payouts there
-- are floats, and are not modelled.
use taron.Prelude.{ℕ, ◌+◌, [], ◌∷◌, ltb, if◌then◌else◌}
use taron.Prelude.Words.{Bytes}

-- `u8::leading_zeros`
unfoldable pub byte_leading_zeros : ℕ → ℕ
byte_leading_zeros b =
    if ltb b 1
    then 8
    else if ltb b 2
    then 7
    else if ltb b 4
    then 6
    else if ltb b 8
    then 5
    else if ltb b 16
    then 4
    else if ltb b 32
    then 3
    else if ltb b 64
    then 2
    else if ltb b 128
    then 1
    else 0

-- The loop over the bytes, which ends at the first byte that is not zero.
unfoldable pub count_zeros : ℕ → Bytes → ℕ
unfolding byte_leading_zeros
count_zeros count [] = count
count_zeros count (byte ∷ hash) =
    let lz = byte_leading_zeros byte in
    let rest = count_zeros (count + lz) hash in if ltb lz 8 then count + lz else rest

unfoldable pub leading_zeros_256 : Bytes → ℕ
unfolding count_zeros
leading_zeros_256 hash = count_zeros 0 hash
