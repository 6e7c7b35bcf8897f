-- ===== src/Node/Messages/Chain/Ibd.antt =====
-- `Blocks` in crates/taron-node/src/node.rs: a batch of blocks, and the reorganisation that it leads
-- to, never panic and keep the chain linked.
use taron.Prelude.{
  ℕ, zero, suc, ◌+◌, ◌≡◌, refl, false, some, List, [], ◌∷◌, ◌&&◌, ◌||◌, length, arith, ltb, leb,
  ◌==◌, inl, inr, Bool-cases, Option-cases, or_else,
}
use taron.Prelude.Words.{add64, sub64, saturating_sub}
use taron.Wallet.{Crypto}
use taron.Block.{Block}
use taron.Blockchain.{Blockchain, block_at, checkpoint_anchor_at_or_below}
use taron.Blockchain.Fork.{find_fork_point}
use taron.Blockchain.Steps.{
  Fits, succeeds, fails, Fits-le, Fits-less, Fits-tip, apply_block_ibd-Leaves,
  revert_to_height-Leaves,
}
use taron.Node.State.{
  TaronNode, Connection, Env, stay, with_chain, other_driver, save_state, request_after,
  request_blocks, refresh,
}
use taron.Node.Handlers.Ibd.{
  incoming_max, end_ibd, Progress, note_applied, replay, at_anchor, roll_back, max_reorg,
  reorg_from, safe_anchor, reset_difficulty, reorg_from_anchor, deep_reorg, apply_blocks,
  continue_ibd, see_last, handle_blocks,
}
use taron.Node.Messages.Chain.{Keeps, Advances, send_then-Fits, save_state-blockchain}

module _ (crypto : Crypto) where
  replay-Advances :
      (k : ℕ) (env : Env) (fp : ℕ) (bs : List Block) (applied : ℕ) (conn : Connection)
      (n : TaronNode)
      → Fits crypto (length bs + k) n.blockchain
      → Advances crypto k (replay crypto env fp bs applied conn n)
  unfolding replay note_applied
  replay-Advances k env fp [] applied conn n f =
      ((applied, conn, n), refl, Fits-le crypto (0 + k) k n.blockchain (omega arith) f)
  replay-Advances k env fp (b ∷ bs) applied conn n f =
      let f₀ =
        Fits-le crypto (suc (length bs) + k) (suc (length bs + k)) n.blockchain (omega arith) f in
      elim (Bool-cases (leb b.index fp)) [
        | inl below ↦
            let (p, e, f') =
              replay-Advances k env fp bs applied conn n
                (Fits-less crypto (length bs + k) n.blockchain f₀) in
            (p, rw (replay, below) e, f')
        | inr above ↦
            elim (apply_block_ibd-Leaves crypto (length bs + k) b n.blockchain n.ledger f₀) [
              | fails x c l e f₁ ↦ (
                (applied, conn, with_chain c l n),
                rw (replay, above, e) refl,
                Fits-le crypto (length bs + k) k c (omega arith) f₁,
              )
              | succeeds u c l e f₁ ↦
                  let (conn', n') = note_applied env b conn (with_chain c l n) in
                  let (p, e', f') = replay-Advances k env fp bs (applied + 1) conn' n' f₁ in
                  (p, rw (replay, above, e) e', f')
            ]
      ]

  at_anchor-total :
      (k anchor : ℕ) (n : TaronNode)
      → Fits crypto k n.blockchain
      → (n' : TaronNode) × (at_anchor crypto anchor n ≡ some n') × Fits crypto k n'.blockchain
  unfolding at_anchor
  at_anchor-total k anchor n f =
      let (t, at_tip) = Fits-tip crypto k n.blockchain f in
      (
        record (refresh n) { chain_height = anchor; cached_best_hash = crypto.hex_encode t.hash },
        rw (at_anchor, at_tip) refl,
        f,
      )

  roll_back-Advances :
      (k anchor : ℕ) (adjust : Blockchain → Blockchain) (applied : ℕ) (conn : Connection)
      (n : TaronNode)
      → ((c : Blockchain) → Fits crypto k c → Fits crypto k (adjust c))
      → Fits crypto k n.blockchain
      → Advances crypto k (roll_back crypto anchor adjust applied conn n)
  unfolding roll_back
  roll_back-Advances k anchor adjust applied conn n keeps f =
      elim (revert_to_height-Leaves crypto k anchor n.blockchain n.ledger f) [
        | fails x c l e f₁ ↦ ((applied, conn, with_chain c l n), rw (roll_back, e) refl, f₁)
        | succeeds blocks c l e f₁ ↦
            let (n', e', f₂) = at_anchor-total k anchor (with_chain (adjust c) l n) (keeps c f₁) in
            ((1, conn, n'), rw (roll_back, e, e') refl, f₂)
      ]

  reset_difficulty-Fits :
      (k anchor : ℕ) (c : Blockchain) → Fits crypto k c → Fits crypto k (reset_difficulty anchor c)
  unfolding block_at
  reset_difficulty-Fits k anchor c f = record {
    linked = record { held = f.linked.held; link = f.linked.link };
    room = f.room;
  }

  reorg_from-Advances :
      (k : ℕ) (env : Env) (batch : List Block) (fp applied : ℕ) (conn : Connection) (n : TaronNode)
      → Fits crypto (length batch + k) n.blockchain
      → Advances crypto k (reorg_from crypto env batch fp applied conn n)
  unfolding reorg_from
  reorg_from-Advances k env batch fp applied conn n f =
      let h = n.blockchain.height in
      let anchor = checkpoint_anchor_at_or_below (saturating_sub h 1) in
      let f' = Fits-le crypto (length batch + k) k n.blockchain (omega arith) f in
      elim (Bool-cases
        ((fp == h) && (applied == 0) && ltb (add64 h 50) (incoming_max batch) && ltb anchor h)) [
          | inl stall ↦
              let (p, e, f₁) = roll_back-Advances k anchor (λ c. c) applied conn n (λ c g. g) f' in
              (p, rw (reorg_from, stall) e, f₁)
          | inr fork ↦ elim (Bool-cases (leb (sub64 h fp) (max_reorg batch n.blockchain))) [
            | inr deep ↦ ((applied, conn, n), rw (reorg_from, fork, deep) refl, f')
            | inl near ↦
                elim (revert_to_height-Leaves crypto (length batch + k) fp n.blockchain n.ledger
                  f) [
                    | fails x c l e f₁ ↦ (
                      (applied, conn, with_chain c l n),
                      rw (reorg_from, fork, near, e) refl,
                      Fits-le crypto (length batch + k) k c (omega arith) f₁,
                    )
                    | succeeds reverted c l e f₁ ↦
                        let (p, e', f₂) =
                          replay-Advances k env fp batch applied conn (with_chain c l n) f₁ in
                        (p, rw (reorg_from, fork, near, e) e', f₂)
                  ]
          ]
        ]

  reorg_from_anchor-Advances :
      (k : ℕ) (batch : List Block) (applied : ℕ) (conn : Connection) (n : TaronNode)
      → Fits crypto k n.blockchain
      → Advances crypto k (reorg_from_anchor crypto batch applied conn n)
  unfolding reorg_from_anchor
  reorg_from_anchor-Advances k batch applied conn n f =
      let h = n.blockchain.height in
      let peer_announced = or_else conn.peer_height (incoming_max batch) in
      elim (Bool-cases (
        ltb (add64 h 10) (incoming_max batch) && (ltb h 200 || ltb (add64 h 300) peer_announced))) [
          | inl lost ↦
              let (p, e, f₁) =
                roll_back-Advances k (safe_anchor h) (reset_difficulty (safe_anchor h)) applied conn
                  n (reset_difficulty-Fits k (safe_anchor h)) f in
              (p, rw (reorg_from_anchor, lost) e, f₁)
          | inr close ↦ ((applied, conn, n), rw (reorg_from_anchor, close) refl, f)
        ]

  deep_reorg-Advances :
      (k : ℕ) (env : Env) (batch : List Block) (applied : ℕ) (conn : Connection) (n : TaronNode)
      → Fits crypto (length batch + k) n.blockchain
      → Advances crypto k (deep_reorg crypto env batch applied conn n)
  unfolding deep_reorg
  deep_reorg-Advances k env batch applied conn n f =
      let h = n.blockchain.height in
      let f' = Fits-le crypto (length batch + k) k n.blockchain (omega arith) f in
      elim (Bool-cases (leb (incoming_max batch) h)) [
        | inl shorter ↦ ((applied, conn, n), rw (deep_reorg, shorter) refl, f')
        | inr longer ↦ elim (Option-cases (find_fork_point n.blockchain batch)) [
          | inr (fp, found) ↦
              let (p, e, f₁) = reorg_from-Advances k env batch fp applied conn n f in
              (p, rw (deep_reorg, longer, found) e, f₁)
          | inl unknown ↦
              let (p, e, f₁) = reorg_from_anchor-Advances k batch applied conn n f' in
              (p, rw (deep_reorg, longer, unknown) e, f₁)
        ]
      ]

  apply_blocks-Advances :
      (k : ℕ) (env : Env) (batch bs : List Block) (applied : ℕ) (conn : Connection) (n : TaronNode)
      → Fits crypto (length bs + length batch + k) n.blockchain
      → Advances crypto k (apply_blocks crypto env batch bs applied conn n)
  unfolding apply_blocks note_applied
  apply_blocks-Advances k env batch [] applied conn n f = (
    (applied, conn, n),
    refl,
    Fits-le crypto (0 + length batch + k) k n.blockchain (omega arith) f,
  )
  apply_blocks-Advances k env batch (b ∷ bs) applied conn n f =
      let m = length bs + length batch + k in
      let f₀ =
        Fits-le crypto (suc (length bs) + length batch + k) (suc m) n.blockchain (omega arith) f in
      elim (apply_block_ibd-Leaves crypto m b n.blockchain n.ledger f₀) [
        | fails x c l e f₁ ↦
            let (p, e', f₂) =
              deep_reorg-Advances k env batch applied conn (with_chain c l n)
                (Fits-le crypto m (length batch + k) c (omega arith) f₁) in
            (p, rw (apply_blocks, e) e', f₂)
        | succeeds u c l e f₁ ↦
            let (conn', n') = note_applied env b conn (with_chain c l n) in
            let (p, e', f₂) =
              apply_blocks-Advances k env batch bs (applied + 1) conn'
                (record n' { cached_best_hash = crypto.hex_encode b.hash }) f₁ in
            (p, rw (apply_blocks, e) e', f₂)
      ]

  end_ibd-Fits :
      (k our_h : ℕ) (conn : Connection) (n : TaronNode)
      → Fits crypto k n.blockchain
      → Fits crypto k (end_ibd our_h conn n).node.blockchain
  unfolding end_ibd
  end_ibd-Fits k our_h conn n f = f

  see_last-blockchain :
      (bs : List Block) (n : TaronNode) → (see_last bs n).blockchain ≡ n.blockchain
  unfolding see_last
  see_last-blockchain [] n = refl
  see_last-blockchain (b ∷ []) n = refl
  see_last-blockchain (b ∷ b' ∷ bs) n = see_last-blockchain (b' ∷ bs) n

  continue_ibd-Keeps :
      (k : ℕ) (env : Env) (conn : Connection) (n : TaronNode)
      → Fits crypto k n.blockchain
      → Keeps crypto k (continue_ibd crypto env conn n)
  unfolding continue_ibd
  continue_ibd-Keeps k env conn n f =
      let (t, at_tip) = Fits-tip crypto k n.blockchain f in
      let fresh : TaronNode = record n { cached_best_hash = crypto.hex_encode t.hash } in
      let n' = save_state fresh in
      let f' : Fits crypto k n'.blockchain = rw (save_state-blockchain crypto fresh) f in
      let our_h = n'.blockchain.height in
      elim (Option-cases conn.peer_height) [
        | inl unknown ↦ (stay conn n', simp (continue_ibd, at_tip, unknown), f')
        | inr (ph, known) ↦ elim (Bool-cases (ltb our_h ph)) [
          | inl more ↦ (
            request_blocks env our_h ph conn n',
            simp (continue_ibd, at_tip, known, more),
            send_then-Fits crypto k env (request_after our_h ph) conn
                (record conn { last_ibd_request_at = some env.now }) n' n' f' f',
          )
          | inr enough ↦ (
            end_ibd our_h conn n',
            simp (continue_ibd, at_tip, known, enough),
            end_ibd-Fits k our_h conn n' f',
          )
        ]
      ]

  finish :
      (k : ℕ) (env : Env) (b : Block) (bs : List Block) (conn : Connection) (n : TaronNode)
      (p : Progress)
      → other_driver conn.addr n ≡ false
      → apply_blocks crypto env (b ∷ bs) (b ∷ bs) 0 conn (see_last (b ∷ bs) n) ≡ some p
      → Fits crypto k p.2.blockchain
      → Keeps crypto k (handle_blocks crypto env (b ∷ bs) conn n)
  unfolding handle_blocks
  finish k env b bs conn n (zero, conn', n') mine e f =
      (stay conn' n', rw (handle_blocks, mine, e) refl, f)
  finish k env b bs conn n (suc m, conn', n') mine e f =
      let (turn, e', f') = continue_ibd-Keeps k env conn' n' f in
      (turn, rw (handle_blocks, mine, e) e', f')

  handle_mine :
      (k : ℕ) (env : Env) (batch : List Block) (conn : Connection) (n : TaronNode)
      → other_driver conn.addr n ≡ false
      → Fits crypto (length batch + length batch + k) n.blockchain
      → Keeps crypto k (handle_blocks crypto env batch conn n)
  unfolding handle_blocks
  handle_mine k env [] conn n mine f = (
    end_ibd n.blockchain.height conn n,
    rw (handle_blocks, mine) refl,
    end_ibd-Fits k n.blockchain.height conn n
        (Fits-le crypto (0 + 0 + k) k n.blockchain (omega arith) f),
  )
  handle_mine k env (b ∷ bs) conn n mine f =
      let batch : List Block = b ∷ bs in
      let start = see_last batch n in
      let f₀ : Fits crypto (length batch + length batch + k) start.blockchain =
        rw (see_last-blockchain batch n) f in
      let (p, e, f₁) = apply_blocks-Advances k env batch batch 0 conn start f₀ in
      finish k env b bs conn n p mine e f₁

  pub handle_blocks-Keeps :
      (k : ℕ) (env : Env) (batch : List Block) (conn : Connection) (n : TaronNode)
      → Fits crypto (length batch + length batch + k) n.blockchain
      → Keeps crypto k (handle_blocks crypto env batch conn n)
  unfolding handle_blocks
  handle_blocks-Keeps k env batch conn n f =
      let f' = Fits-le crypto (length batch + length batch + k) k n.blockchain (omega arith) f in
      elim (Bool-cases (other_driver conn.addr n)) [
        | inl other ↦ (stay conn n, rw (handle_blocks, other) refl, f')
        | inr mine ↦ handle_mine k env batch conn n mine f
      ]
