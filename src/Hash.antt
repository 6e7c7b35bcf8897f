-- ===== src/Hash.antt =====
-- SEQUAL-256, crates/taron-core/src/hash.rs: the sequential hash over a scratchpad, and the test of
-- a hash against a difficulty. SHA3-256 is a parameter. A word is a number below 2 ^ 64; a
-- scratchpad is the list of its words, and its length is 2 ^ 19 for `hash` and 2 ^ 15 for
-- `hash_fast`. Steps and rounds of the loops are counted by the recursion.
pub mod Scratchpad
pub mod Difficulty
use Prim.Native.Nat.{bit_xor, bit_or, bit_and}
use taron.Prelude.{
  ℕ, zero, suc, ◌+◌, ◌-◌, ◌*◌, ◌/◌, ◌%◌, ◌^◌, Bool, true, false, none, some, List, [], ◌∷◌, ◌++◌,
  length, ltb, ◌==◌, ◌!=◌, leb, if◌then◌else◌, get_elem?, get_or, set, take, drop, replicate,
}
use taron.Prelude.Words.{Bytes, add64, u64_mod, to_le_bytes, from_le_bytes}
use taron.Wallet.{Crypto}

abbrev pub scratchpad_u64s : ℕ
scratchpad_u64s = 524_288

abbrev pub mining_scratchpad_u64s : ℕ
mining_scratchpad_u64s = 32_768

abbrev pub golden_ratio : ℕ
golden_ratio = 0x9e37_79b9_7f4a_7c15

abbrev pub posc_steps : ℕ
posc_steps = 2_000

abbrev pub mining_steps : ℕ
mining_steps = 1_000

-- `u64::rotate_left`, `u64::rotate_right` and `u64::wrapping_mul`
unfoldable pub rotate_left : ℕ → ℕ → ℕ
rotate_left x n = x * 2 ^ n % u64_mod + x / 2 ^ (64 - n)

unfoldable pub rotate_right : ℕ → ℕ → ℕ
rotate_right x n = x / 2 ^ n + x * 2 ^ (64 - n) % u64_mod

unfoldable pub wrapping_mul : ℕ → ℕ → ℕ
wrapping_mul x y = x * y % u64_mod

-- The four words of `state`.
pub record Words : Type 0 where
  pub w0 : ℕ
  pub w1 : ℕ
  pub w2 : ℕ
  pub w3 : ℕ

-- `u64::from_le_bytes` of the four slices of the digest
unfoldable pub initial_words : Bytes → Words
initial_words h = record {
  w0 = from_le_bytes (take 8 h);
  w1 = from_le_bytes (take 8 (drop 8 h));
  w2 = from_le_bytes (take 8 (drop 16 h));
  w3 = from_le_bytes (take 8 (drop 24 h));
}

-- The arithmetic of one step, before the scratchpad is read.
unfoldable pub mix : Words → Words
unfolding rotate_left rotate_right wrapping_mul
mix s =
    let a = add64 s.w0 golden_ratio in
    let a' = bit_xor a (rotate_left a 13) in
    let b = wrapping_mul s.w1 (bit_or golden_ratio 1) in
    let b' = bit_xor b (rotate_right b 27) in
    let c = add64 s.w2 (bit_xor a' b') in
    let c' = bit_xor c (rotate_left c 37) in
    let d = wrapping_mul s.w3 (bit_or c' 1) in
    let d' = bit_xor d (rotate_right d 19) in record { w0 = a'; w1 = b'; w2 = c'; w3 = d' }

-- The mixing across the words at every fourth step.
unfoldable pub cross : Words → Words
cross s =
    let a = bit_xor s.w0 s.w3 in
    let b = bit_xor s.w1 a in
    let c = bit_xor s.w2 b in record { w0 = a; w1 = b; w2 = c; w3 = bit_xor s.w3 c }

-- One step: mix, read the scratchpad at an address taken from the state, write back.
unfoldable pub step : ℕ → Words × List ℕ → Words × List ℕ
unfolding mix cross rotate_left
step i (s, scratchpad) =
    let m = mix s in
    let addr = add64 m.w0 i % length scratchpad in
    let read = record m { w1 = bit_xor m.w1 (get_or scratchpad addr 0) } in
    let written = set scratchpad addr (rotate_left (add64 read.w1 read.w2) (i % 64)) in
    (if i % 4 == 3 then cross read else read, written)

-- `for i in i..i + n`
unfoldable pub steps_from : ℕ → ℕ → Words × List ℕ → Words × List ℕ
unfolding step
steps_from zero i st = st
steps_from (suc n) i st = steps_from n (i + 1) (step i st)

-- `chunks(8)` of a slice, at most `n` of them
unfoldable pub chunks : ℕ → Bytes → List Bytes
chunks zero bs = []
chunks (suc n) [] = []
chunks (suc n) (b ∷ bs) = take 8 (b ∷ bs) ∷ chunks n (drop 8 (b ∷ bs))

-- The inner loop of `expand_scratchpad`, which stops at the end of the scratchpad.
unfoldable pub fill_chunks : List Bytes → ℕ → List ℕ → ℕ × List ℕ
fill_chunks [] idx scratchpad = (idx, scratchpad)
fill_chunks (c ∷ cs) idx scratchpad = elim (ltb idx (length scratchpad)) [
  | true ↦ fill_chunks cs (idx + 1) (set scratchpad idx (from_le_bytes c))
  | false ↦ (idx, scratchpad)
]

module _ (crypto : Crypto) where
  open crypto use {sha3_256}

  -- The outer loop, with fuel: every round writes a word, so the length of the scratchpad suffices.
  unfoldable pub expand_loop : ℕ → Bytes → ℕ → List ℕ → List ℕ
  unfolding fill_chunks chunks
  expand_loop zero current idx scratchpad = scratchpad
  expand_loop (suc fuel) current idx scratchpad = elim (ltb idx (length scratchpad)) [
    | false ↦ scratchpad
    | true ↦
        let (idx', filled) = fill_chunks (chunks 4 current) idx scratchpad in
        expand_loop fuel (sha3_256 (current ++ to_le_bytes 8 idx')) idx' filled
  ]

  unfoldable pub expand_scratchpad : Bytes → List ℕ → List ℕ
  unfolding expand_loop
  expand_scratchpad seed scratchpad = expand_loop (length scratchpad) (sha3_256 seed) 0 scratchpad

  -- `hash_fast_with_scratchpad`; `hash` has the same body over a new scratchpad.
  unfoldable pub hash_with_scratchpad : Bytes → ℕ → List ℕ → Bytes
  unfolding steps_from expand_scratchpad initial_words to_le_bytes
  hash_with_scratchpad seed steps scratchpad =
      let (s, _) =
        steps_from steps 0 (initial_words (sha3_256 seed), expand_scratchpad seed scratchpad) in
      sha3_256 (
        to_le_bytes 8 s.w0
        ++ (to_le_bytes 8 s.w1 ++ (to_le_bytes 8 s.w2 ++ (to_le_bytes 8 s.w3 ++ seed))))

  unfoldable pub sequal : Bytes → ℕ → Bytes
  sequal seed steps = hash_with_scratchpad seed steps (replicate scratchpad_u64s 0)

  -- `hash_fast`: `kept` is the scratchpad of the thread, as the previous hash left it.
  unfoldable pub hash_fast : List ℕ → Bytes → ℕ → Bytes
  hash_fast kept seed steps = hash_with_scratchpad seed steps kept

  unfoldable pub mine_step_fast : List ℕ → Bytes → ℕ → ℕ → Bytes
  mine_step_fast kept block_header nonce steps =
      hash_fast kept (block_header ++ to_le_bytes 8 nonce) steps

  unfoldable pub mine_step : Bytes → ℕ → ℕ → Bytes
  mine_step block_header nonce steps = sequal (block_header ++ to_le_bytes 8 nonce) steps

-- The loop over the full zero bytes: `n` rounds from the index `i` on.
unfoldable pub zero_bytes : ℕ → ℕ → Bytes → Bool
zero_bytes zero i hash = true
zero_bytes (suc n) i hash = elim (get_elem? hash i) [
  | none ↦ false
  | some b ↦ if b != 0 then false else zero_bytes n (i + 1) hash
]

-- `0xFF_u8 << (8 - bits)`
abbrev pub mask : ℕ → ℕ
mask bits = 255 * 2 ^ (8 - bits) % 256

unfoldable pub meets_difficulty : Bytes → ℕ → Bool
unfolding zero_bytes
meets_difficulty hash difficulty_bits =
    let full_bytes = difficulty_bits / 8 in
    let remaining_bits = difficulty_bits % 8 in
    if zero_bytes full_bytes 0 hash
    then (if remaining_bits == 0 then true else elim (get_elem? hash full_bytes) [
      | none ↦ true
      | some b ↦ bit_and b (mask remaining_bits) == 0
    ])
    else false
