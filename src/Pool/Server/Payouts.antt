-- ===== src/Pool/Server/Payouts.antt =====
-- The payouts of a round in crates/taron-pool/src/main.rs: what all miners together are paid.
use taron.Prelude.{
  ℕ, suc, ◌+◌, ◌*◌, ◌%◌, ◌≤◌, ◌<◌, ◌≡◌, ◌∙◌, ap, some, List, [], ◌∷◌, arith, ◌==◌, get_elem?, inl,
  inr, Bool-cases, Option-cases, zero,
}
use native.Mathlib.Nat.{div-mul-le_self, add-mul, le_of_mul-le-mul_right}
use taron.Prelude.Words.{Bytes, u64_mod, add64}
use taron.Prelude.Dict.{Dict, sum}
use taron.Wallet.{Crypto}
use taron.Transaction.{Transaction}
use taron.Transaction.Builder.{
  new_builder, with_recipient, with_amount, with_sequence, build_and_prove, partial_tx,
}
use taron.Pool.Server.{Round, to_distribute, payout_of, payout_tx, payout_loop, build_payout_txs}
use taron.Pool.Server.Shares.{shares_of, IsCounted}

abbrev pub amounts : List Transaction → ℕ
amounts [] = 0
amounts (t ∷ ts) = t.amount + amounts ts

payout_of-bound :
    (n total : ℕ) → to_distribute * n < u64_mod → payout_of n total * total ≤ to_distribute * n
unfolding payout_of
payout_of-bound n total h =
    let whole : to_distribute * n % u64_mod ≡ to_distribute * n = omega arith in
    rw whole (div-mul-le_self (to_distribute * n) total)

module _ (crypto : Crypto) (now_ms : ℕ) (wallet : Bytes) (pubkeys : Dict Bytes Bytes) where
  payout_tx-amount :
      (total : ℕ) (address : Bytes) (n sequence : ℕ) (t : Transaction)
      → payout_tx crypto now_ms wallet pubkeys total address n sequence ≡ some t
      → (t.amount ≡ payout_of n total)
        × (t.sequence ≡ sequence)
        × (t.sender ≡ crypto.public_key wallet)
  unfolding payout_tx build_and_prove partial_tx with_sequence with_amount with_recipient
      new_builder
  payout_tx-amount total address n sequence t h = ground arith

  -- What is paid for a list of miners, times the total, is at most the reward times their shares.
  payout_loop-bound :
      (total : ℕ) (shares : Dict Bytes ℕ) (sequence : ℕ)
      → to_distribute * sum shares_of shares < u64_mod
      → amounts (payout_loop crypto now_ms wallet pubkeys total shares sequence) * total
        ≤ to_distribute * sum shares_of shares
  unfolding payout_loop to_distribute
  payout_loop-bound total [] sequence h = omega arith
  payout_loop-bound total ((address, n) ∷ shares) sequence h =
      elim (Option-cases (payout_tx crypto now_ms wallet pubkeys total address n sequence)) [
        | inl skipped ↦
            let rest = payout_loop-bound total shares sequence (omega arith) in
            rw (payout_loop, skipped) (omega arith)
        | inr (t, paid) ↦
            let rest = payout_loop-bound total shares (add64 sequence 1) (omega arith) in
            let amount = (payout_tx-amount total address n sequence t paid).0 in
            let own = payout_of-bound n total (omega arith) in
            let later =
              amounts (payout_loop crypto now_ms wallet pubkeys total shares (add64 sequence 1)) in
            let split = add-mul (payout_of n total) later total in
            rw (payout_loop, paid, amount) (omega arith)
      ]

  -- If the total of a round is the sum of the shares of its miners, and the reward times the total
  -- is below 2 ^ 64, the payouts of the round add up to at most the reward less the fee.
  pub build_payout_txs-bounded :
      (r : Round) (account_sequence : ℕ)
      → IsCounted r
      → to_distribute * r.total_shares < u64_mod
      → amounts (build_payout_txs crypto now_ms wallet pubkeys r account_sequence) ≤ to_distribute
  unfolding build_payout_txs
  build_payout_txs-bounded r account_sequence counted room =
      elim (Bool-cases (r.total_shares == 0)) [
        | inl empty ↦ rw (build_payout_txs, empty) (omega arith)
        | inr some_shares ↦
            let bound =
              payout_loop-bound r.total_shares r.shares (add64 account_sequence 1)
                (rw counted room) in
            rw (build_payout_txs, some_shares)
              (le_of_mul-le-mul_right (rw counted at bound) (ground arith))
      ]

  -- The payouts of a round are from the wallet of the pool and follow the sequence number of its
  -- account without a gap, modulo 2 ^ 64.
  pub payout_loop-sequence :
      (total : ℕ) (shares : Dict Bytes ℕ) (sequence i : ℕ) (t : Transaction)
      → sequence < u64_mod
      → get_elem? (payout_loop crypto now_ms wallet pubkeys total shares sequence) i ≡ some t
      → (t.sequence ≡ (sequence + i) % u64_mod) × (t.sender ≡ crypto.public_key wallet)
  unfolding payout_loop
  payout_loop-sequence total [] sequence i t word h = absurd (ground arith)
  payout_loop-sequence total ((address, n) ∷ shares) sequence zero t word h =
      elim (Option-cases (payout_tx crypto now_ms wallet pubkeys total address n sequence)) [
        | inl skipped ↦
            payout_loop-sequence total shares sequence 0 t word (rw (payout_loop, skipped) at h)
        | inr (t', paid) ↦
            let same : t' ≡ t = ground arith in
            let (_, number, own) =
              payout_tx-amount total address n sequence t (paid ∙ ap some same) in
            (number ∙ omega arith, own)
      ]
  payout_loop-sequence total ((address, n) ∷ shares) sequence (suc i) t word h =
      elim (Option-cases (payout_tx crypto now_ms wallet pubkeys total address n sequence)) [
        | inl skipped ↦
            payout_loop-sequence total shares sequence (suc i) t word
              (rw (payout_loop, skipped) at h)
        | inr (t', paid) ↦
            let (number, own) =
              payout_loop-sequence total shares (add64 sequence 1) i t (omega arith)
                (rw (payout_loop, paid) at h) in
            (number ∙ omega arith, own)
      ]
