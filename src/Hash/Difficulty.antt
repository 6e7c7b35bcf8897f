-- ===== src/Hash/Difficulty.antt =====
-- `meets_difficulty` of crates/taron-core/src/hash.rs against the leading zero bits that
-- crates/taron-pool/src/scoring.rs counts.
use Prim.Native.Nat.{bit_and}
use taron.Prelude.{
  ℕ, zero, suc, ◌+◌, ◌-◌, ◌*◌, ◌/◌, ◌%◌, ◌≤◌, ◌<◌, ◌≡◌, ◌↔◌, refl, Bool, true, false, [], ◌∷◌,
  arith, ◌&&◌, leb, ltb, ◌==◌, length, All, if◌then◌else◌, inl, inr, Bool-cases,
}
use native.Mathlib.Numerals.{add-one}
use taron.Prelude.Words.{Bytes, IsByte}
use taron.Hash.{mask, zero_bytes, meets_difficulty}
use taron.Pool.Scoring.{byte_leading_zeros, count_zeros, leading_zeros_256}

abbrev same : Bool → Bool → Bool
same true b = b
same false true = false
same false false = true

same-eq : (a b : Bool) → same a b ≡ true → a ≡ b
same-eq true b h = ground arith
same-eq false b h = ground arith

-- A test passes for every number below a bound.
holds_below : (ℕ → Bool) → ℕ → Bool
holds_below test zero = true
holds_below test (suc bound) = holds_below test bound && test bound

holds_below_lem :
    (test : ℕ → Bool) (bound k : ℕ) → k < bound → holds_below test bound ≡ true → test k ≡ true
unfolding holds_below
holds_below_lem test zero k small passed = absurd (omega arith)
holds_below_lem test (suc bound) k small passed = ground (arith, holds_below_lem test bound k)

-- A masked byte is zero exactly if it has enough leading zeros: every byte, every mask.
mask_row : ℕ → Bool
unfolding holds_below byte_leading_zeros
mask_row r =
    holds_below (λ b. same (bit_and b (mask (r + 1)) == 0) (leb (r + 1) (byte_leading_zeros b))) 256

mask_table : holds_below mask_row 7 ≡ true
unfolding holds_below mask_row
mask_table = refl

mask-byte_leading_zeros :
    (b r : ℕ)
    → b < 256
    → r < 7
    → (bit_and b (mask (r + 1)) == 0) ≡ leb (r + 1) (byte_leading_zeros b)
unfolding mask_row
mask-byte_leading_zeros b r hb hr = same-eq _ _ (
    holds_below_lem (λ x. same (bit_and x (mask (r + 1)) == 0) (leb (r + 1) (byte_leading_zeros x)))
      256 b hb (holds_below_lem mask_row 7 r hr mask_table))

byte_leading_zeros_bounds :
    (b : ℕ) → b < 256 → (byte_leading_zeros b ≤ 8) × ((b ≡ 0) ↔ (byte_leading_zeros b ≡ 8))
unfolding byte_leading_zeros
byte_leading_zeros_bounds b h = ground arith

count_zeros-acc : (count : ℕ) (bs : Bytes) → count_zeros count bs ≡ count + count_zeros 0 bs
unfolding count_zeros
count_zeros-acc count [] = omega arith
count_zeros-acc count (b ∷ bs) = ground (
  arith,
  count_zeros-acc (count + byte_leading_zeros b) bs,
  count_zeros-acc (0 + byte_leading_zeros b) bs,
)

zero_bytes-cons : (n i : ℕ) (b : ℕ) (bs : Bytes) → zero_bytes n (suc i) (b ∷ bs) ≡ zero_bytes n i bs
unfolding zero_bytes
zero_bytes-cons zero i b bs = refl
zero_bytes-cons (suc n) i b bs =
    ground (arith, add-one i, add-one (suc i), zero_bytes-cons n (suc i) b bs)

-- The first byte decides a difficulty below 8; beyond that it has to be zero, and 8 bits are used up.
meets_difficulty-small :
    (b : ℕ) (bs : Bytes) (d : ℕ)
    → b < 256
    → d < 8
    → meets_difficulty (b ∷ bs) d ≡ leb d (byte_leading_zeros b)
unfolding meets_difficulty
meets_difficulty-small b bs zero hb h = ground arith
meets_difficulty-small b bs (suc r) hb h =
    let quotient : suc r / 8 ≡ 0 = omega arith in
    let rest : suc r % 8 ≡ suc r = omega arith in
    let table : (bit_and b (mask (suc r)) == 0) ≡ leb (suc r) (byte_leading_zeros b) =
      rw (← add-one r) (mask-byte_leading_zeros b r hb (omega arith)) in
    let nonzero : (suc r == 0) ≡ false = ground arith in
    rw (meets_difficulty, quotient, rest, nonzero) table

meets_difficulty-cons :
    (b : ℕ) (bs : Bytes) (d : ℕ)
    → 8 ≤ d
    → meets_difficulty (b ∷ bs) d ≡ (if b == 0 then meets_difficulty bs (d - 8) else false)
unfolding meets_difficulty
meets_difficulty-cons b bs d h =
    let k = (d - 8) / 8 in
    let quotient : d / 8 ≡ suc k = omega arith in
    let rest : d % 8 ≡ (d - 8) % 8 = omega arith in
    rw (meets_difficulty, quotient, rest) (ground (arith, zero_bytes-cons k 0 b bs, add-one 0))

meets_difficulty-count :
    (bs : Bytes) (d : ℕ)
    → All IsByte bs
    → d ≤ 8 * length bs
    → meets_difficulty bs d ≡ leb d (count_zeros 0 bs)
unfolding count_zeros
meets_difficulty-count [] d hb h =
    let e : d ≡ 0 = omega arith in rw e (unfold meets_difficulty in refl)
meets_difficulty-count (b ∷ bs) d hb h = elim (Bool-cases (ltb d 8)) [
  | inl small ↦ ground (
    arith,
    meets_difficulty-small b bs d,
    byte_leading_zeros_bounds b,
    count_zeros-acc (0 + byte_leading_zeros b) bs,
  )
  | inr large ↦ ground (
    arith,
    meets_difficulty-cons b bs d,
    byte_leading_zeros_bounds b,
    count_zeros-acc (0 + byte_leading_zeros b) bs,
    meets_difficulty-count bs (d - 8),
  )
]

-- For a hash of bytes and a difficulty of at most its bits, `meets_difficulty` holds exactly if the
-- pool counts at least that many leading zero bits.
pub meets_difficulty-leading_zeros :
    (hash : Bytes) (difficulty_bits : ℕ)
    → All IsByte hash
    → difficulty_bits ≤ 8 * length hash
    → meets_difficulty hash difficulty_bits ≡ leb difficulty_bits (leading_zeros_256 hash)
unfolding leading_zeros_256
meets_difficulty-leading_zeros hash d bytes h = meets_difficulty-count hash d bytes h

-- A hash of bytes that meets a difficulty of at most its bits meets every lower one.
pub meets_difficulty-antitone :
    (hash : Bytes) (d d' : ℕ)
    → All IsByte hash
    → d ≤ 8 * length hash
    → d' ≤ d
    → meets_difficulty hash d ≡ true
    → meets_difficulty hash d' ≡ true
meets_difficulty-antitone hash d d' bytes h le met =
    ground (arith, meets_difficulty-leading_zeros hash d, meets_difficulty-leading_zeros hash d')
