-- ===== src/Pool/Server/Shares.antt =====
-- The shares that are submitted, crates/taron-pool/src/main.rs: what `submit_share` does to the counters
-- of the round.
use taron.Prelude.{
  ℕ, ◌+◌, ◌≤◌, ◌<◌, ◌≡◌, false, some, arith, if◌then◌else◌, or_else, ite, inl, inr, Bool-cases,
  Option-cases,
}
use taron.Prelude.Words.{Bytes, u64_mod, add64}
use taron.Prelude.Text.{bytes_dec}
use taron.Prelude.Dict.{lookup, lookup-insert, sum, sum-insert, sum-insert_new, lookup-le-sum}
use taron.Wallet.{Crypto}
use taron.Pool.Dedup.{is_duplicate}
use taron.Pool.Server.{
  Round, record_share, PoolState, ShareRequest, submit_share, count_share, is_accepted,
  ShareResponse, BlockTemplate, check_identity, check_fresh, worker_key,
}

abbrev pub shares_of : ℕ → ℕ
shares_of n = n

-- The total is the sum of the shares of the miners.
abbrev pub IsCounted : Round → Type 0
IsCounted r = sum shares_of r.shares ≡ r.total_shares

record_share-IsCounted :
    (address : Bytes) (r : Round)
    → r.total_shares + 1 < u64_mod
    → IsCounted r
    → IsCounted (record_share address r)
unfolding record_share
record_share-IsCounted address r room counted =
    elim (Option-cases (lookup bytes_dec address r.shares)) [
      | inl new ↦ ground (arith, sum-insert_new bytes_dec shares_of address 1 r.shares new)
      | inr (n, known) ↦ ground (
        arith,
        sum-insert bytes_dec shares_of address (n + 1) n r.shares known,
        lookup-le-sum bytes_dec shares_of address n r.shares known,
      )
    ]

-- The shares that a miner has in a round.
abbrev pub shares_at : Bytes → Round → ℕ
shares_at address r = or_else (lookup bytes_dec address r.shares) 0

-- An accepted share counts for the address of its miner and for no other; and the counters stay right.
abbrev pub Counts : ShareRequest → ShareResponse × PoolState → PoolState → Bytes → Type 0
Counts req (answer, p') p address =
    IsCounted p'.round
    × (p'.round.total_shares ≡ p.round.total_shares + (if is_accepted answer then 1 else 0))
    × (shares_at address p'.round
        ≡ shares_at address p.round
          + ite (bytes_dec req.miner_address address) (if is_accepted answer then 1 else 0) 0)

shares_at-le-total :
    (address : Bytes) (r : Round) → IsCounted r → shares_at address r ≤ r.total_shares
shares_at-le-total address r counted = elim (Option-cases (lookup bytes_dec address r.shares)) [
  | inl new ↦ rw new (omega arith)
  | inr (n, known) ↦
      rw known (omega (arith, counted, lookup-le-sum bytes_dec shares_of address n r.shares known))
]

record_share-shares_at :
    (own address : Bytes) (r : Round)
    → r.total_shares + 1 < u64_mod
    → IsCounted r
    → shares_at address (record_share own r) ≡ shares_at address r + ite (bytes_dec own address) 1 0
unfolding record_share
record_share-shares_at own address r room counted = ground (
  arith,
  shares_at-le-total own r counted,
  lookup-insert bytes_dec address own (add64 (shares_at own r) 1) r.shares,
)

record_share-total :
    (own : Bytes) (r : Round)
    → r.total_shares + 1 < u64_mod
    → (record_share own r).total_shares ≡ r.total_shares + 1
unfolding record_share
record_share-total own r room = omega arith

count_share-Counts :
    (crypto : Crypto) (req : ShareRequest) (p : PoolState) (address : Bytes)
    → p.round.total_shares + 1 < u64_mod
    → IsCounted p.round
    → Counts req (count_share crypto req p) p address
unfolding count_share is_accepted
count_share-Counts crypto req p address room counted = ground (
  arith,
  record_share-IsCounted req.miner_address p.round room counted,
  record_share-total req.miner_address p.round room,
  record_share-shares_at req.miner_address address p.round room counted,
)

check_identity-refuses :
    (crypto : Crypto) (req : ShareRequest) (answer : ShareResponse)
    → check_identity crypto req ≡ some answer
    → is_accepted answer ≡ false
unfolding check_identity is_accepted
check_identity-refuses crypto req answer h = ground arith

check_fresh-refuses :
    (crypto : Crypto) (now_ms : ℕ) (req : ShareRequest) (tmpl : BlockTemplate)
    (answer : ShareResponse)
    → check_fresh crypto now_ms req tmpl ≡ some answer
    → is_accepted answer ≡ false
unfolding check_fresh is_accepted
check_fresh-refuses crypto now_ms req tmpl answer h = ground arith

-- A share is counted in the round of the pool exactly if the answer says that it is accepted: the
-- counter of the address in the request goes up by one, that of every other address stays, the total
-- goes up with it, and it stays the sum of the counters, as long as it stays below 2 ^ 64.
pub submit_share-Counts :
    (crypto : Crypto) (now now_ms : ℕ) (req : ShareRequest) (p : PoolState) (address : Bytes)
    → p.round.total_shares + 1 < u64_mod
    → IsCounted p.round
    → Counts req (submit_share crypto now now_ms req p) p address
unfolding submit_share is_accepted
submit_share-Counts crypto now now_ms req p address room counted =
    elim (Option-cases (check_identity crypto req)) [
      | inr (refusal, wrong) ↦
          let no = check_identity-refuses crypto req refusal wrong in
          rw (submit_share, wrong, no) (counted, omega arith, ground arith)
      | inl known ↦ elim (Option-cases (check_fresh crypto now_ms req p.template)) [
        | inr (refusal, stale) ↦
            let no = check_fresh-refuses crypto now_ms req p.template refusal stale in
            rw (submit_share, known, stale, no) (counted, omega arith, ground arith)
        | inl fresh ↦
            let (seen, dedup) =
              is_duplicate now req.block_index req.nonce (worker_key crypto req) p.dedup in
            elim (Bool-cases seen) [
              | inl again ↦
                  rw (submit_share, known, fresh, again) (counted, omega arith, ground arith)
              | inr new ↦
                  rw (submit_share, known, fresh, new)
                    (count_share-Counts crypto req (record p { dedup = dedup }) address room
                      counted)
            ]
      ]
    ]
