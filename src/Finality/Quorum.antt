-- ===== src/Finality/Quorum.antt =====
-- When a transaction becomes final: the quorum of the finality tracker, and how long a verdict lasts.
use taron.Prelude.{
  ℕ, ◌*◌, ◌-◌, ◌/◌, ◌%◌, ◌⊎◌, ◌≤◌, ◌<◌, ◌≡◌, refl, inl, inr, none, some, arith, length, leb, max,
  Bool-cases,
}
use taron.Prelude.Words.{Bytes, u32_mod, u64_mod}
use taron.Prelude.Text.{bytes_dec}
use taron.Prelude.Dict.{lookup, insert, IsUnique, lookup-insert}
use taron.Error.{ok}
use taron.Wallet.{Crypto}
use taron.Finality.{
  TransactionStatus, confirmed, TxAck, PendingTx, FinalityTracker, verify_ack, settle, record_ack,
  calculate_quorum,
}
use taron.Finality.Invariant.{
  IsValid, Genuine, with_ack, with_ack-length, with_ack-quorum, with_ack-Genuine, with_ack-IsUnique,
  record_ack-new, record_ack-cases,
}

-- The quorum of a network of `n` peers, of which there are fewer than 2 ^ 32, is at least one, more
-- than a third of the peers, and no more than the peers unless there are none.
pub calculate_quorum_bounds :
    (n : ℕ)
    → n < u32_mod
    → (1 ≤ calculate_quorum n) × (n < 3 * calculate_quorum n) × (calculate_quorum n ≤ max n 1)
unfolding calculate_quorum
calculate_quorum_bounds n h = ground arith

-- The three outcomes of a new ACK.
settle_cases :
    (now : ℕ) (h : Bytes) (p : PendingTx) (t : FinalityTracker)
    → ((settle now h p t).1.finalized ≡ t.finalized)
      ⊎ ((ms : ℕ) × (p.quorum ≤ length p.acks % u32_mod)
          × ((settle now h p t).1.finalized
              ≡ insert bytes_dec h (confirmed (length p.acks % u32_mod) ms) t.finalized))
unfolding settle
settle_cases now h p t = elim (Bool-cases (leb p.quorum (length p.acks % u32_mod))) [
  | inl reached ↦
      inr ((now - p.submitted_at) / 1_000_000 % u64_mod, ground arith, rw (settle, reached) refl)
  | inr missing ↦ inl (rw (settle, missing) refl)
]

module _ (crypto : Crypto) (now : ℕ) (a : TxAck) (t : FinalityTracker) where
  -- What an ACK can do to the verdicts: nothing, or confirm its own transaction, which was waiting.
  pub record_ack_verdicts :
      ((record_ack crypto now a t).1.finalized ≡ t.finalized)
      ⊎ ((p : PendingTx) × (ms : ℕ) × (lookup bytes_dec a.tx_hash t.finalized ≡ none)
          × (lookup bytes_dec a.tx_hash t.pending ≡ some p)
          × (verify_ack crypto a ≡ ok tt)
          × (lookup bytes_dec a.peer_pubkey p.acks ≡ none)
          × (p.quorum ≤ length (with_ack crypto a p).acks % u32_mod)
          × ((record_ack crypto now a t).1.finalized
              ≡ insert bytes_dec a.tx_hash
                  (confirmed (length (with_ack crypto a p).acks % u32_mod) ms)
                  t.finalized))
  record_ack_verdicts = elim (record_ack-cases crypto now a t) [
    | inl same ↦ inl (rw (same) refl)
    | inr (p, good, open_, waits, new) ↦
        let t' = record t {
          pending = insert bytes_dec a.tx_hash (with_ack crypto a p) t.pending;
        } in
        elim (settle_cases now a.tx_hash (with_ack crypto a p) t') [
          | inl same ↦ inl (rw (record_ack-new crypto now a p t good open_ waits new, same) refl)
          | inr (ms, reached, e) ↦ inr (
            p,
            ms,
            open_,
            waits,
            good,
            new,
            rw (with_ack-quorum crypto a p) at reached,
            rw (record_ack-new crypto now a p t good open_ waits new, e) refl,
          )
        ]
  ]

  -- A verdict once given stays: an ACK, of whatever transaction, changes no status of a finalized
  -- transaction.
  pub record_ack-keeps_verdict :
      (h : Bytes) (s : TransactionStatus)
      → lookup bytes_dec h t.finalized ≡ some s
      → lookup bytes_dec h (record_ack crypto now a t).1.finalized ≡ some s
  record_ack-keeps_verdict h s done = elim record_ack_verdicts [
    | inl same ↦ rw (same) done
    | inr (p, ms, open_, waits, good, new, reached, e) ↦ ground (
      arith,
      e,
      lookup-insert bytes_dec h a.tx_hash
          (confirmed (length (with_ack crypto a p).acks % u32_mod) ms) t.finalized,
    )
  ]

  -- If an ACK turns a transaction that had no verdict into one with status `s`, in a tracker that
  -- satisfies the invariant, then `s` is a confirmation and its number of ACKs is the quorum that
  -- the transaction was registered with; these are ACKs of this transaction from as many different
  -- peers, each with a signature that verifies.
  pub record_ack-confirms :
      (h : Bytes) (s : TransactionStatus)
      → IsValid crypto t
      → lookup bytes_dec h t.finalized ≡ none
      → lookup bytes_dec h (record_ack crypto now a t).1.finalized ≡ some s
      → (p : PendingTx) × (ms : ℕ) × (lookup bytes_dec h t.pending ≡ some p)
        × (s ≡ confirmed p.quorum ms)
        × (length (with_ack crypto a p).acks ≡ p.quorum)
        × IsUnique bytes_dec (with_ack crypto a p).acks
        × Genuine crypto h (with_ack crypto a p)
  record_ack-confirms h s v before after = elim record_ack_verdicts [
    | inl same ↦ absurd (ground (arith, rw same at after))
    | inr (p, ms, open_, waits, good, new, reached, e) ↦
        let w = v.waiting a.tx_hash p waits in
        let own : a.tx_hash ≡ h = ground (
          arith,
          e,
          lookup-insert bytes_dec h a.tx_hash
              (confirmed (length (with_ack crypto a p).acks % u32_mod) ms) t.finalized,
        ) in
        let full : length (with_ack crypto a p).acks ≡ p.quorum =
          ground (arith, w.short, w.word, with_ack-length crypto a p new) in
        let status : s ≡ confirmed p.quorum ms = ground (
          arith,
          w.word,
          e,
          lookup-insert bytes_dec h a.tx_hash
              (confirmed (length (with_ack crypto a p).acks % u32_mod) ms) t.finalized,
        ) in
        rw (← own) (
          p,
          ms,
          waits,
          status,
          full,
          with_ack-IsUnique crypto a p w.one_each,
          with_ack-Genuine crypto a p good w.genuine,
        )
  ]
