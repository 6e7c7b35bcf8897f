-- ===== src/Pool/Dedup.antt =====
-- `TachyonGuard` of crates/taron-pool/src/dedup.rs: the three buckets of the shares that were seen,
-- and how long a share is remembered. A set is the list of its elements; the clock is an argument.
pub mod Window
use Prim.Native.Nat.{bit_xor, bit_or}
use taron.Prelude.{
  ℕ, zero, suc, ◌+◌, ◌-◌, ◌*◌, ◌%◌, ◌≤◌, ◌<◌, ◌≡◌, ◌≢◌, ◌⊎◌, inl, inr, refl, Bool, true, false,
  List, [], ◌∷◌, arith, ◌||◌, length, leb, ◌==◌, if◌then◌else◌, get_or, set, length-set, Bool-cases,
}
use taron.Prelude.Words.{Bytes, u64_mod, saturating_sub}
use taron.Hash.{wrapping_mul}

abbrev pub bucket_ttl_ms : ℕ
bucket_ttl_ms = 60_000

pub record TachyonGuard : Type 0 where
  pub buckets : List (List ℕ)
  pub current : ℕ
  pub last_rotate_ms : ℕ

unfoldable pub new_guard : ℕ → TachyonGuard
new_guard now_ms = record { buckets = [] ∷ [] ∷ [] ∷ []; current = 0; last_rotate_ms = now_ms }

-- The loop of `fnv1a_64`
unfoldable pub fnv_loop : ℕ → Bytes → ℕ
fnv_loop hash [] = hash
fnv_loop hash (byte ∷ bytes) = fnv_loop (wrapping_mul (bit_xor hash byte) 0x100_0000_01b3) bytes

unfoldable pub fnv1a_64 : Bytes → ℕ
unfolding fnv_loop
fnv1a_64 bytes = fnv_loop 0xcbf2_9ce4_8422_2325 bytes

unfoldable pub make_key : ℕ → ℕ → Bytes → ℕ
unfolding fnv1a_64
make_key block_index nonce worker = bit_or (block_index * u64_mod) (bit_xor nonce (fnv1a_64 worker))

-- `HashSet::contains`
unfoldable pub member : ℕ → List ℕ → Bool
member key [] = false
member key (k ∷ ks) = (k == key) || member key ks

-- The loop over the buckets.
unfoldable pub in_some : ℕ → List (List ℕ) → Bool
in_some key [] = false
in_some key (b ∷ bs) = member key b || in_some key bs

unfoldable pub maybe_rotate : ℕ → TachyonGuard → TachyonGuard
maybe_rotate now g =
    if leb bucket_ttl_ms (saturating_sub now g.last_rotate_ms)
    then (let next = (g.current + 1) % 3 in
        record { buckets = set g.buckets next []; current = next; last_rotate_ms = now })
    else g

-- `insert` into the bucket that is written to.
unfoldable pub remember : ℕ → TachyonGuard → TachyonGuard
remember key g = record g {
  buckets = set g.buckets g.current (key ∷ get_or g.buckets g.current []);
}

unfoldable pub is_duplicate : ℕ → ℕ → ℕ → Bytes → TachyonGuard → Bool × TachyonGuard
is_duplicate now block_index nonce worker g =
    let rotated = maybe_rotate now g in
    let key = make_key block_index nonce worker in
    if in_some key rotated.buckets then (true, rotated) else (false, remember key rotated)
