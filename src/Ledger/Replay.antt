-- ===== src/Ledger/Replay.antt =====
-- crates/taron-core/src/ledger.rs: `apply_tx` takes no transaction twice, since sequence numbers only go
-- up as long as no revert and no download of older transactions lowers them.
use taron.Prelude.{ℕ, suc, ◌+◌, ◌<◌, ◌≤◌, ◌≡◌, ◌⊎◌, refl, ap, arith, inl, inr, ltb, Bool-cases}
use taron.Prelude.Words.{Bytes, u64_mod, add64}
use taron.Error.{IsOk}
use taron.Wallet.{Crypto}
use taron.Transaction.{Transaction, hash, total_cost}
use taron.Genesis.{AccountState, credit}
use taron.Ledger.{Ledger, entry, balance, apply_tx, apply_tx_ibd, apply_coinbase, coinbase_hash}
use taron.Ledger.Entries.{entry-update, balance-entry}
use taron.Ledger.Effects.{
  Accepted, apply_tx-Accepted, apply_tx-cases, sequence-settled, debit_sender-settled,
}
use taron.Ledger.Supply.{apply_tx-IsOk_iff}

module _ (crypto : Crypto) where
  -- What blocks and gossip do to the ledger: rewards, transactions that may fail, and transactions of
  -- a download, which set the sequence number of the sender. These last are limited to the ones that
  -- do not lower the number, nor set it above `limit`. Reverts are left out.
  pub data Step (limit : ℕ) (l : Ledger) : Ledger → Type 0 where
    tx : (t : Transaction) → Step limit l (apply_tx crypto t l).1
    tx_ibd :
        (t : Transaction) (not_lower : (entry t.sender l).sequence ≤ t.sequence)
        (limited : t.sequence ≤ limit)
        → Step limit l (apply_tx_ibd crypto t l).1
    coinbase : (miner : Bytes) (reward : ℕ) → Step limit l (apply_coinbase crypto miner reward l)

  -- `n` steps
  pub data Reach (limit : ℕ) (l : Ledger) : ℕ → Ledger → Type 0 where
    here : Reach limit l 0 l
    next :
        {n : ℕ} {l₁ l₂ : Ledger} → Reach limit l n l₁ → Step limit l₁ l₂ → Reach limit l (suc n) l₂

  -- From `s` to `s'`: the same, one more, or a jump up to the limit.
  abbrev Raised : ℕ → ℕ → ℕ → Type 0
  Raised limit s s' = (s' ≡ s) ⊎ ((s' ≡ add64 s 1) ⊎ ((s ≤ s') × (s' ≤ limit)))

  pub apply_tx_ibd-sequence :
      (t : Transaction) (l : Ledger) (j : Bytes)
      → let s' = (entry j (apply_tx_ibd crypto t l).1).sequence in
        (s' ≡ (entry j l).sequence) ⊎ ((s' ≡ t.sequence) × (t.sender ≡ j))
  unfolding apply_tx_ibd
  apply_tx_ibd-sequence t l j = elim (Bool-cases (ltb (balance t.sender l) (total_cost t))) [
    | inl short ↦ rw short (inl refl)
    | inr enough ↦
        let set_sequence : AccountState → AccountState = λ s. record s { sequence = t.sequence } in
        let cover : total_cost t ≤ (entry t.sender l).balance =
          ground (arith, balance-entry t.sender l) in
        rw (enough, debit_sender-settled t (hash crypto t) set_sequence l cover)
          (ground (arith, sequence-settled t (hash crypto t) set_sequence l j))
  ]

  Step-Raised :
      {limit : ℕ} {l l' : Ledger} (j : Bytes)
      → Step limit l l'
      → Raised limit (entry j l).sequence (entry j l').sequence
  unfolding apply_coinbase credit
  Step-Raised {limit} {l} j (tx t) = elim (apply_tx-cases crypto t l) [
    | inl a ↦
        rw (apply_tx-Accepted crypto t l a)
          (ground (arith, sequence-settled t (hash crypto t) (λ (s : AccountState). s) l j))
    | inr (e, failed) ↦ rw failed (inl refl)
  ]
  Step-Raised {limit} {l} j (tx_ibd t not_lower limited) = elim (apply_tx_ibd-sequence t l j) [
    | inl kept ↦ inl kept
    | inr (set, own) ↦
        let before : (entry j l).sequence ≤ t.sequence = rw own at not_lower in
        inr (inr (omega (arith, set), omega (arith, set)))
  ]
  Step-Raised {limit} {l} j (coinbase miner reward) = ground (
    arith,
    entry-update j miner
        (λ (a : AccountState). record (credit reward a) {
          last_tx_hash = coinbase_hash crypto miner reward;
        })
        l,
  )

  Reach-bounds :
      {limit : ℕ} {l : Ledger} {n : ℕ} {l' : Ledger} (j : Bytes)
      → (entry j l).sequence ≤ limit
      → limit + n < u64_mod
      → Reach limit l n l'
      → ((entry j l).sequence ≤ (entry j l').sequence) × ((entry j l').sequence ≤ limit + n)
  Reach-bounds j low h here = omega arith
  Reach-bounds j low h (next r s) =
      omega (arith, Reach-bounds j low (omega arith) r, Step-Raised j s)

  pub Accepted-sequence :
      (t : Transaction) (l : Ledger)
      → Accepted crypto t l
      → t.sequence ≡ add64 (entry t.sender l).sequence 1
  unfolding entry
  Accepted-sequence t l a = ground (arith, a.found, a.in_sequence)

  pub accepted_sequence :
      (t : Transaction) (l : Ledger)
      → IsOk (apply_tx crypto t l).0
      → (entry t.sender (apply_tx crypto t l).1).sequence ≡ add64 (entry t.sender l).sequence 1
  accepted_sequence t l good =
      rw (apply_tx-Accepted crypto t l ((apply_tx-IsOk_iff crypto t l).0 good))
        (ground (arith, sequence-settled t (hash crypto t) (λ (s : AccountState). s) l t.sender))

  -- After `apply_tx` has accepted a transaction, it accepts neither that one nor any other of the same
  -- sender with the same sequence number, whatever comes in between of rewards, of transactions
  -- through `apply_tx`, and of transactions through `apply_tx_ibd` that do not lower the sequence
  -- number of their sender nor set it above a limit. The limit is at least the number of the accepted
  -- transaction; the limit, the number of these steps and one add up to less than 2 ^ 64.
  pub apply_tx-no_replay :
      (t t' : Transaction) (l l' : Ledger) (limit n : ℕ)
      → IsOk (apply_tx crypto t l).0
      → Reach limit (apply_tx crypto t l).1 n l'
      → t'.sender ≡ t.sender
      → t'.sequence ≡ t.sequence
      → (entry t.sender l).sequence < limit
      → limit + n + 1 < u64_mod
      → ¬ IsOk (apply_tx crypto t' l').0
  apply_tx-no_replay t t' l l' limit n good r same_sender same_sequence low room again =
      let first = Accepted-sequence t l ((apply_tx-IsOk_iff crypto t l).0 good) in
      let second = Accepted-sequence t' l' ((apply_tx-IsOk_iff crypto t' l').0 again) in
      let raised : (entry t.sender (apply_tx crypto t l).1).sequence
          ≡ add64 (entry t.sender l).sequence 1 =
        accepted_sequence t l good in
      let e : (entry t'.sender l').sequence ≡ (entry t.sender l').sequence =
        ap (λ k. (entry k l').sequence) same_sender in
      omega (arith, Reach-bounds t.sender (omega arith) (omega arith) r)
