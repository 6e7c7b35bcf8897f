-- ===== src/Node/Rpc/Limited.antt =====
-- The limit on the requests of an IP address, crates/taron-node/src/rpc.rs, over a sequence of
-- requests of any addresses.
use taron.Prelude.{
  ℕ, ◌+◌, ◌-◌, ◌≤◌, ◌<◌, ◌≡◌, ◌≢◌, sym, ◌∙◌, or_else, ◌%◌, true, false, some, List, [], ◌∷◌, arith,
  length, ltb, if◌then◌else◌, ite,
}
use taron.Prelude.Words.{u32_mod}
use taron.Prelude.Text.{bytes_dec}
use taron.Prelude.Dict.{lookup, lookup-insert, lookup-insert_ne}
use taron.Node.Peers.{IpAddr}
use taron.Node.Rpc.{RateLimiter, request_window, rate_max_req, is_exempt, check_rate_limit}

-- How many of the requests of an address go on.
abbrev pub allowed : IpAddr → List (ℕ × IpAddr) → RateLimiter → ℕ
allowed ip [] m = 0
allowed ip ((now, from) ∷ requests) m =
    let rest = allowed ip requests (check_rate_limit now from m).1 in
    ite (bytes_dec from ip) (if (check_rate_limit now from m).0 then 1 else 0) 0 + rest

-- All requests come in the window that starts at `since`.
abbrev pub InWindow : ℕ → List (ℕ × IpAddr) → Type 0
InWindow since [] = Unit {0}
InWindow since ((now, from) ∷ requests) = (now ≤ since + request_window) × InWindow since requests

check_rate_limit-own :
    (now count since : ℕ) (ip : IpAddr) (m : RateLimiter)
    → is_exempt ip ≡ false
    → lookup bytes_dec ip m ≡ some (count, since)
    → now ≤ since + request_window
    → count + 1 < u32_mod
    → ((check_rate_limit now ip m).0 ≡ (if ltb rate_max_req (count + 1) then false else true))
      × (lookup bytes_dec ip (check_rate_limit now ip m).1 ≡ some (count + 1, since))
unfolding check_rate_limit
check_rate_limit-own now count since ip m limited known inside room =
    ground (arith, lookup-insert bytes_dec ip ip (count + 1, since) m)

check_rate_limit-other :
    (now : ℕ) (ip from : IpAddr) (m : RateLimiter)
    → from ≢ ip
    → lookup bytes_dec ip (check_rate_limit now from m).1 ≡ lookup bytes_dec ip m
unfolding check_rate_limit
check_rate_limit-other now ip from m other =
    let (count, since) = or_else (lookup bytes_dec from m) (0, now) in
    let apart : ip ≢ from = λ e. other (sym e) in
    ground (
      arith,
      lookup-insert_ne bytes_dec ip from (1, now) m apart,
      lookup-insert_ne bytes_dec ip from ((count + 1) % u32_mod, since) m apart,
    )

-- In the window of an address that is not exempt, whatever other addresses request in between, at
-- most 600 requests go on in all, those that were counted before included, as long as the counter
-- stays below 2 ^ 32.
pub check_rate_limit-bounded :
    (ip : IpAddr) (requests : List (ℕ × IpAddr)) (count since : ℕ) (m : RateLimiter)
    → is_exempt ip ≡ false
    → lookup bytes_dec ip m ≡ some (count, since)
    → InWindow since requests
    → count + length requests < u32_mod
    → allowed ip requests m ≤ rate_max_req - count
check_rate_limit-bounded ip [] count since m limited known inside room = omega arith
check_rate_limit-bounded ip ((now, from) ∷ requests) count since m limited known (inside, later)
      room =
    elim (bytes_dec from ip) [
      | yes same ↦
          let (goes, counted) =
            check_rate_limit-own now count since ip m limited known inside (omega arith) in
          let rest =
            check_rate_limit-bounded ip requests (count + 1) since (check_rate_limit now ip m).1
              limited counted later (omega arith) in
          rw same (ground arith)
      | no other ↦
          let rest =
            check_rate_limit-bounded ip requests count since (check_rate_limit now from m).1 limited
              (check_rate_limit-other now ip from m other ∙ known) later (omega arith) in
          ground arith
    ]
