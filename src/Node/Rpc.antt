-- ===== src/Node/Rpc.antt =====
-- crates/taron-node/src/rpc.rs: transactions and blocks that are submitted over HTTP, and the limit on
-- the requests of an IP address. Instants are nanoseconds; the answers are kept by their reason.
pub mod Limited
pub mod Submitted
use taron.Prelude.{
  ℕ, ◌+◌, ◌-◌, ◌<◌, ◌≤◌, ◌≡◌, refl, Bool, true, false, Option, none, some, List, [], ◌∷◌, ◌++◌,
  replicate, ◌&&◌, ◌||◌, ltb, ◌%◌, ◌==◌, ◌!=◌, if◌then◌else◌, or_else, arith, inl, inr, Bool-cases,
  Option-cases,
}
use taron.Prelude.Words.{Bytes, u32_mod, add64, saturating_sub}
use taron.Prelude.Text.{bytes_dec, eq_bytes}
use taron.Prelude.Dict.{Dict, lookup, insert}
use taron.Error.{Result, ok, err, IsOk}
use taron.Wallet.{Crypto}
use taron.Transaction.{Transaction, total_cost}
use taron.Ledger.{balance, get_account, apply_tx}
use taron.Block.{Block}
use taron.Node.Mempool.{insert_tx, InsertError}
use taron.Node.Peers.{IpAddr}
use taron.Node.Protocol.{Message}
use taron.Node.State.{TaronNode}
use taron.Node.Status.{broadcast_tx}
use taron.Node.Handlers.NewBlocks.{submit_mined_block}

pub data SubmitTxResponse : Type 0 where
  low_balance : (have need : ℕ) → SubmitTxResponse
  wrong_sequence : (expected got : ℕ) → SubmitTxResponse
  tx_accepted duplicate_tx : SubmitTxResponse
  invalid_tx : (e : InsertError) → SubmitTxResponse

-- The sequence number that the next transaction of an account has.
unfoldable pub expected_sequence : Bytes → TaronNode → ℕ
expected_sequence sender n = elim (get_account sender n.ledger) [
  | none ↦ 1
  | some a ↦ add64 a.sequence 1
]

module _ (crypto : Crypto) where
  -- `submit_tx`: the answer, the node and what is sent.
  unfoldable pub submit_tx :
      Transaction → TaronNode → SubmitTxResponse × TaronNode × List (ℕ × Message)
  submit_tx t n =
      let have = balance t.sender n.ledger in
      if ltb have (total_cost t)
      then (low_balance have (total_cost t), n, [])
      else if t.sequence != expected_sequence t.sender n
      then (wrong_sequence (expected_sequence t.sender n) t.sequence, n, [])
      else (let (r, pool) = insert_tx crypto t n.mempool in
          let n = record n { mempool = pool } in
          elim r [
            | ok true ↦ (tx_accepted, n, broadcast_tx t n)
            | ok false ↦ (duplicate_tx, n, [])
            | err e ↦ (invalid_tx e, n, [])
          ])

-- 60 seconds
abbrev pub request_window : ℕ
request_window = 60_000_000_000

abbrev pub rate_max_req : ℕ
rate_max_req = 600

-- The requests of an IP address since the start of its window, and that start.
abbrev pub RateLimiter : Type 0
RateLimiter = Dict IpAddr (ℕ × ℕ)

-- The local machine (also as `::1`) and private networks are exempt.
unfoldable pub is_exempt : IpAddr → Bool
is_exempt (a ∷ b ∷ c ∷ d ∷ []) = (a == 127) || (a == 10) || (a == 172) || ((a == 192) && (b == 168))
is_exempt ip = eq_bytes ip (replicate 15 0 ++ 1 ∷ [])

-- `check_rate_limit`; `true`: the request goes on.
unfoldable pub check_rate_limit : ℕ → IpAddr → RateLimiter → Bool × RateLimiter
check_rate_limit now ip m =
    if is_exempt ip
    then (true, m)
    else (let (count, since) = or_else (lookup bytes_dec ip m) (0, now) in
        if ltb request_window (saturating_sub now since)
        then (true, insert bytes_dec ip (1, now) m)
        else (let count = (count + 1) % u32_mod in
            let m = insert bytes_dec ip (count, since) m in
            if ltb rate_max_req count then (false, m) else (true, m)))
