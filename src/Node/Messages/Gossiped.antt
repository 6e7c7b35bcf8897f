-- ===== src/Node/Messages/Gossiped.antt =====
-- A transaction that a node has taken from a peer, crates/taron-node/src/node.rs: it is applied to the
-- ledger at once, and a new block that includes it applies it again.
use taron.Prelude.{
  ℕ, zero, suc, ◌+◌, ◌≤◌, ◌<◌, ◌≡◌, ◌≢◌, refl, true, none, some, List, [], ◌∷◌, arith, get_elem?,
  Option-cases, inl, inr,
}
use taron.Prelude.Words.{u64_mod}
use taron.Error.{ok, err, IsOk, Result-cases}
use taron.Wallet.{Crypto}
use taron.Transaction.{Transaction}
use taron.Ledger.{Ledger, entry, apply_tx, apply_coinbase}
use taron.Ledger.Replay.{Reach, next, Step, apply_tx-no_replay}
use taron.Block.{Block}
use taron.Blockchain.{Blockchain}
use taron.Blockchain.Blocks.{apply_txs, commit, apply_block}
use taron.Node.Protocol.{Message}
use taron.Node.Handlers.NewBlocks.{submit_mined_block}
use taron.Node.Mempool.{insert_tx}
use taron.Node.Finality.{node_check_double_spend}
use taron.Node.State.{TaronNode, Connection, Env}
use taron.Node.Handlers.Gossip.{handle_tx, accept_tx}

module _ (crypto : Crypto) where
  -- A list of transactions that is applied whole accepts each of them, in a ledger on the way.
  apply_txs-accepts :
      (t : Transaction) (txs : List Transaction) (limit i n : ℕ) (l₀ l : Ledger)
      → get_elem? txs i ≡ some t
      → Reach crypto limit l₀ n l
      → IsOk (apply_txs (apply_tx crypto) txs l).0
      → (m : ℕ) × (l' : Ledger) × (m ≤ n + i)
        × Reach crypto limit l₀ m l'
        × IsOk (apply_tx crypto t l').0
  unfolding apply_txs
  apply_txs-accepts t [] limit i n l₀ l e r good = absurd (ground arith)
  apply_txs-accepts t (tx ∷ txs) limit zero n l₀ l e r good =
      let same : tx ≡ t = ground arith in
      elim (Result-cases (apply_tx crypto tx l).0) [
        | inl (_, fine) ↦ (n, l, omega arith, r, rw (← same, fine) tt)
        | inr (x, failed) ↦ absurd (rw (apply_txs, failed) at good)
      ]
  apply_txs-accepts t (tx ∷ txs) limit (suc i) n l₀ l e r good =
      elim (Result-cases (apply_tx crypto tx l).0) [
        | inl (_, fine) ↦
            let (m, l', le, r', ok') =
              apply_txs-accepts t txs limit i (suc n) l₀ (apply_tx crypto tx l).1 e
                (next r (Step.tx tx)) (rw (apply_txs, fine) at good) in
            (m, l', omega arith, r', ok')
        | inr (x, failed) ↦ absurd (rw (apply_txs, failed) at good)
      ]

  -- An accepted block applies all its transactions after the reward.
  apply_block-IsOk :
      (now_ms : ℕ) (b : Block) (c c' : Blockchain) (l l' : Ledger)
      → apply_block crypto now_ms b c l ≡ some (ok tt, c', l')
      → IsOk
          (apply_txs (apply_tx crypto) b.transactions (apply_coinbase crypto b.miner b.reward l)).0
  unfolding apply_block commit
  apply_block-IsOk now_ms b c c' l l' h =
      let start = apply_coinbase crypto b.miner b.reward l in
      elim (Result-cases (apply_txs (apply_tx crypto) b.transactions start).0) [
        | inl (_, fine) ↦ rw fine tt
        | inr (x, failed) ↦ absurd (ground arith)
      ]

  handle_tx-ledger :
      (env : Env) (t : Transaction) (conn : Connection) (n : TaronNode)
      → node_check_double_spend crypto t n.finality ≡ none
      → IsOk (apply_tx crypto t n.ledger).0
      → (insert_tx crypto t n.mempool).0 ≡ ok true
      → (handle_tx crypto env t conn n).node.ledger ≡ (apply_tx crypto t n.ledger).1
  unfolding handle_tx accept_tx
  handle_tx-ledger env t conn n fresh valid new =
      elim (Result-cases (apply_tx crypto t n.ledger).0) [
        | inl (_, fine) ↦ ground arith
        | inr (x, failed) ↦ absurd (rw failed at valid)
      ]

  -- A node that accepts a mined block has applied it.
  submit_mined_block-applied :
      (now_ms : ℕ) (b : Block) (m m' : TaronNode) (out : List (ℕ × Message))
      → submit_mined_block crypto now_ms b m ≡ some (true, m', out)
      → (c : Blockchain) × (l : Ledger) × (apply_block crypto now_ms b m.blockchain m.ledger
          ≡ some (ok tt, c, l))
  unfolding submit_mined_block
  submit_mined_block-applied now_ms b m m' out h =
      elim (Option-cases (apply_block crypto now_ms b m.blockchain m.ledger)) [
        | inl panicked ↦ absurd (ground arith)
        | inr ((err x, c, l), e) ↦ absurd (ground arith)
        | inr ((ok u, c, l), e) ↦ (c, l, e)
      ]

  -- After a node has taken a transaction from a peer, which is no double spend, valid in its ledger and
  -- new to its memory pool, neither `apply_block` nor `submit_mined_block` accepts a block that
  -- includes it, whatever comes in between of rewards, of transactions through `apply_tx`, and of
  -- transactions through `apply_tx_ibd` that do not lower the sequence number of their sender nor set
  -- it above a limit. The limit is at least the number of the transaction; the limit, the number of
  -- these steps, the place in the block and two add up to less than 2 ^ 64.
  pub handle_tx-block_refused :
      (env : Env) (t : Transaction) (conn : Connection) (n m m' : TaronNode) (now_ms limit k i : ℕ)
      (b : Block) (c' : Blockchain) (l' : Ledger) (out : List (ℕ × Message))
      → node_check_double_spend crypto t n.finality ≡ none
      → IsOk (apply_tx crypto t n.ledger).0
      → (insert_tx crypto t n.mempool).0 ≡ ok true
      → Reach crypto limit (handle_tx crypto env t conn n).node.ledger k m.ledger
      → get_elem? b.transactions i ≡ some t
      → (entry t.sender n.ledger).sequence < limit
      → limit + k + i + 2 < u64_mod
      → (apply_block crypto now_ms b m.blockchain m.ledger ≢ some (ok tt, c', l'))
        × (submit_mined_block crypto now_ms b m ≢ some (true, m', out))
  handle_tx-block_refused env t conn n m m' now_ms limit k i b c' l' out fresh valid new r at low
        room =
      let refused : (c : Blockchain) (l : Ledger)
          → apply_block crypto now_ms b m.blockchain m.ledger ≢ some (ok tt, c, l) =
        λ c l h.
          let r₀ : Reach crypto limit (apply_tx crypto t n.ledger).1 k m.ledger =
            rw (handle_tx-ledger env t conn n fresh valid new) at r in
          let (j, l₂, le, r₂, again) =
            apply_txs-accepts t b.transactions limit i (suc k) (apply_tx crypto t n.ledger).1
              (apply_coinbase crypto b.miner b.reward m.ledger) at
              (next r₀ (Step.coinbase b.miner b.reward))
              (apply_block-IsOk now_ms b m.blockchain c m.ledger l h) in
          apply_tx-no_replay crypto t t n.ledger l₂ limit j valid r₂ refl refl low (omega arith)
            again in
      (
        refused c' l',
        λ taken.
            let (c, l, h) = submit_mined_block-applied now_ms b m m' out taken in refused c l h,
      )
