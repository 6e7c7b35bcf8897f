-- ===== src/Node/Messages/Chain.antt =====
-- The chain of a node, crates/taron-node/src/node.rs: whatever arrives, no handler panics, and the
-- chain stays linked.
use taron.Prelude.{
  ℕ, zero, suc, ◌+◌, ◌*◌, ◌≤◌, ◌≡◌, refl, ◌∙◌, Bool, true, false, not, Option, none, some, List, [],
  ◌∷◌, ◌&&◌, ◌||◌, length, arith, ltb, leb, ◌==◌, ◌!=◌, if◌then◌else◌, inl, inr, Bool-cases,
  Option-cases, or_else,
}
use taron.Prelude.Words.{u64_mod, add64, sub64, saturating_sub}
use taron.Prelude.Text.{eq_bytes, lt_bytes}
use taron.Error.{Result, ok, err, invalid_block}
use taron.Wallet.{Crypto}
use taron.Transaction.{Transaction}
use taron.Genesis.{testnet_reward}
use taron.Block.{Block, is_valid}
use taron.Blockchain.{Blockchain, tip, block_at, checkpoint_anchor_at_or_below}
use taron.Blockchain.Blocks.{apply_block, apply_block_ibd, revert_tip, revert_to_height}
use taron.Blockchain.Fork.{find_fork_point}
use taron.Blockchain.Steps.{
  Fits, Leaves, succeeds, fails, Fits-le, Fits-less, Fits-tip, apply_block-Leaves,
  apply_block_ibd-Leaves, revert_tip-Leaves, revert_to_height-Leaves,
}
use taron.Node.Peers.{broadcast}
use taron.Node.Protocol.{Message}
use taron.Node.State.{
  TaronNode, Connection, Env, Turn, stay, with_chain, refresh, other_driver, after_block,
  save_state, send_then, send_to_peer,
}
use taron.Node.Handlers.NewBlocks.{
  request_ahead, fork_start, accepted, replace_tip, compete, handle_rejected, try_block,
  handle_new_block, submit_mined_block,
}
use taron.Node.Handlers.Ibd.{
  incoming_max, end_ibd, Progress, note_applied, replay, at_anchor, roll_back, max_reorg,
  reorg_from, safe_anchor, reset_difficulty, reorg_from_anchor, deep_reorg, apply_blocks,
  continue_ibd, see_last, handle_blocks,
}
pub mod Ibd
pub mod Others
pub mod Runs

module _ (crypto : Crypto) where
  -- A handler returns, and its chain has room for `k` blocks.
  abbrev pub Keeps : ℕ → Option Turn → Type 0
  Keeps k o = (turn : Turn) × (o ≡ some turn) × Fits crypto k turn.node.blockchain

  abbrev pub Advances : ℕ → Option Progress → Type 0
  Advances k o = (p : Progress) × (o ≡ some p) × Fits crypto k p.2.blockchain

  pub save_state-blockchain : (n : TaronNode) → (save_state n).blockchain ≡ n.blockchain
  unfolding save_state
  save_state-blockchain n = refl

  after_block-blockchain :
      (b : Block) (gone : List Transaction) (n : TaronNode)
      → (after_block crypto b gone n).blockchain ≡ n.blockchain
  unfolding after_block
  after_block-blockchain b gone n =
      save_state-blockchain
        (record (refresh n) { chain_height = b.index; cached_best_hash = crypto.hex_encode b.hash })

  accepted-Fits :
      (k : ℕ) (b : Block) (gone : List Transaction) (conn : Connection) (n : TaronNode)
      → Fits crypto k n.blockchain
      → Fits crypto k (accepted crypto b gone conn n).node.blockchain
  unfolding accepted
  accepted-Fits k b gone conn n f = rw (after_block-blockchain b gone n) f

  replace_tip-Keeps :
      (k : ℕ) (env : Env) (b : Block) (conn : Connection) (n : TaronNode)
      → Fits crypto (suc (suc k)) n.blockchain
      → Keeps k (replace_tip crypto env b conn n)
  unfolding replace_tip
  replace_tip-Keeps k env b conn n f =
      elim (revert_tip-Leaves crypto (suc (suc k)) n.blockchain n.ledger f) [
        | fails e c l stuck f₁ ↦ (
          stay conn (with_chain c l n),
          rw (replace_tip, stuck) refl,
          Fits-le crypto (suc (suc k)) k c (omega arith) f₁,
        )
        | succeeds reverted c l back f₁ ↦
            elim (apply_block-Leaves crypto (suc k) env.now_ms b c l f₁) [
              | succeeds u c' l' better f₂ ↦ (
                accepted crypto b reverted.transactions conn (with_chain c' l' n),
                rw (replace_tip, back, better) refl,
                accepted-Fits k b reverted.transactions conn (with_chain c' l' n)
                    (Fits-less crypto k c' f₂),
              )
              | fails e c' l' refused f₂ ↦
                  elim (apply_block-Leaves crypto k env.now_ms reverted c' l' f₂) [
                    | succeeds u c'' l'' again f₃ ↦ (
                      stay conn (with_chain c'' l'' n),
                      rw (replace_tip, back, refused, again) refl,
                      f₃,
                    )
                    | fails e' c'' l'' again f₃ ↦ (
                      stay conn (with_chain c'' l'' n),
                      rw (replace_tip, back, refused, again) refl,
                      f₃,
                    )
                  ]
            ]
      ]

  pub send_then-Fits :
      (k : ℕ) (env : Env) (msg : Message) (conn conn' : Connection) (n n' : TaronNode)
      → Fits crypto k n.blockchain
      → Fits crypto k n'.blockchain
      → Fits crypto k (send_then env msg conn n conn' n').node.blockchain
  send_then-Fits k env msg conn conn' n n' f f' = elim (Bool-cases env.is_open) [
    | inl e ↦ rw e f'
    | inr e ↦ rw e f
  ]

  request_ahead-Fits :
      (k : ℕ) (env : Env) (b : Block) (our_h : ℕ) (conn : Connection) (n : TaronNode)
      → Fits crypto k n.blockchain
      → Fits crypto k (request_ahead env b our_h conn n).node.blockchain
  unfolding request_ahead
  request_ahead-Fits k env b our_h conn n f = elim (Bool-cases env.is_open) [
    | inl e ↦ rw (request_ahead, e) f
    | inr e ↦ rw (request_ahead, e) f
  ]

  compete-Keeps :
      (k : ℕ) (env : Env) (b : Block) (our_h : ℕ) (conn : Connection) (n : TaronNode)
      → Fits crypto (suc (suc k)) n.blockchain
      → Keeps k (compete crypto env b our_h conn n)
  unfolding compete
  compete-Keeps k env b our_h conn n f =
      let (t, at_tip) = Fits-tip crypto (suc (suc k)) n.blockchain f in
      let f' = Fits-le crypto (suc (suc k)) k n.blockchain (omega arith) f in
      elim (Bool-cases (lt_bytes b.hash t.hash)) [
        | inr worse ↦ (stay conn n, rw (compete, at_tip, worse) refl, f')
        | inl better ↦ elim (Option-cases (block_at n.blockchain (sub64 our_h 1))) [
          | inl orphan ↦ (stay conn n, rw (compete, at_tip, better, orphan) refl, f')
          | inr (p, parent) ↦
              elim (Bool-cases (
                eq_bytes b.prev_hash p.hash
                && is_valid crypto env.now_ms b p n.blockchain.difficulty
                && (b.reward == testnet_reward))) [
                  | inr unfit ↦ (stay conn n, rw (compete, at_tip, better, parent, unfit) refl, f')
                  | inl fit ↦
                      let (turn, e, f₁) = replace_tip-Keeps k env b conn n f in
                      (turn, rw (compete, at_tip, better, parent, fit) e, f₁)
                ]
        ]
      ]

  handle_rejected-Keeps :
      (k : ℕ) (env : Env) (b : Block) (conn : Connection) (n : TaronNode)
      → Fits crypto (suc (suc k)) n.blockchain
      → Keeps k (handle_rejected crypto env b conn n)
  unfolding handle_rejected
  handle_rejected-Keeps k env b conn n f =
      let our_h = n.blockchain.height in
      let f' = Fits-le crypto (suc (suc k)) k n.blockchain (omega arith) f in
      elim (Bool-cases (ltb (add64 our_h 1) b.index)) [
        | inl ahead ↦ (
          request_ahead env b our_h conn n,
          rw (handle_rejected, ahead) refl,
          request_ahead-Fits k env b our_h conn n f',
        )
        | inr near ↦ elim (Bool-cases (b.index == add64 our_h 1)) [
          | inl next ↦
              let msg = Message.get_blocks (fork_start our_h) b.index in
              (
                send_to_peer env msg conn n,
                rw (handle_rejected, near, next) refl,
                send_then-Fits k env msg conn conn n n f' f',
              )
          | inr past ↦ elim (Bool-cases (b.index == our_h)) [
            | inl same ↦
                let (turn, e, f₁) = compete-Keeps k env b our_h conn n f in
                (turn, rw (handle_rejected, near, past, same) e, f₁)
            | inr old ↦ (stay conn n, rw (handle_rejected, near, past, old) refl, f')
          ]
        ]
      ]

  try_block-Leaves :
      (k : ℕ) (env : Env) (b : Block) (n : TaronNode)
      → Fits crypto (suc k) n.blockchain
      → Leaves crypto k (try_block crypto env b n)
  unfolding try_block
  try_block-Leaves k env b n f =
      let (t, at_tip) = Fits-tip crypto (suc k) n.blockchain f in
      let applied = apply_block-Leaves crypto k env.now_ms b n.blockchain n.ledger f in
      elim (Bool-cases ((b.index == add64 n.blockchain.height 1) && eq_bytes b.prev_hash t.hash)) [
        | inl next ↦ rw (try_block, at_tip, next) applied
        | inr other ↦ elim (Bool-cases (leb b.index n.blockchain.height)) [
          | inl behind ↦
              fails invalid_block n.blockchain n.ledger (rw (try_block, at_tip, other, behind) refl)
                (Fits-less crypto k n.blockchain f)
          | inr fork ↦ rw (try_block, at_tip, other, fork) applied
        ]
      ]

  pub handle_new_block-Keeps :
      (k : ℕ) (env : Env) (b : Block) (conn : Connection) (n : TaronNode)
      → Fits crypto (suc (suc (suc k))) n.blockchain
      → Keeps k (handle_new_block crypto env b conn n)
  unfolding handle_new_block
  handle_new_block-Keeps k env b conn n f =
      let f' = Fits-le crypto (suc (suc (suc k))) k n.blockchain (omega arith) f in
      elim (Bool-cases (other_driver conn.addr n)) [
        | inl other ↦ (stay conn n, rw (handle_new_block, other) refl, f')
        | inr mine ↦ elim (Bool-cases (ltb (add64 n.chain_height 1) b.index)) [
          | inl ahead ↦ (
            request_ahead env b n.chain_height conn n,
            rw (handle_new_block, mine, ahead) refl,
            request_ahead-Fits k env b n.chain_height conn n f',
          )
          | inr near ↦ elim (Bool-cases (ltb b.index n.chain_height)) [
            | inl stale ↦ (stay conn n, rw (handle_new_block, mine, near, stale) refl, f')
            | inr fresh ↦ elim (Bool-cases env.has_permit) [
              | inr busy ↦ (stay conn n, rw (handle_new_block, mine, near, fresh, busy) refl, f')
              | inl free ↦ elim (try_block-Leaves (suc (suc k)) env b n f) [
                | succeeds u c l e f₁ ↦ (
                  accepted crypto b [] conn (with_chain c l n),
                  simp (handle_new_block, mine, near, fresh, free, e),
                  accepted-Fits k b [] conn (with_chain c l n)
                      (Fits-le crypto (suc (suc k)) k c (omega arith) f₁),
                )
                | fails x c l e f₁ ↦
                    let (turn, e', f₂) = handle_rejected-Keeps k env b conn (with_chain c l n) f₁ in
                    (turn, simp (handle_new_block, mine, near, fresh, free, e) e', f₂)
              ]
            ]
          ]
        ]
      ]

  pub submit_mined_block-Fits :
      (k now_ms : ℕ) (b : Block) (n : TaronNode)
      → Fits crypto (suc k) n.blockchain
      → (r : Bool) × (n' : TaronNode) × (sent : List (ℕ × Message)) × (submit_mined_block crypto
            now_ms b n
          ≡ some (r, n', sent))
        × Fits crypto k n'.blockchain
  unfolding submit_mined_block
  submit_mined_block-Fits k now_ms b n f = elim (Bool-cases (b.index != add64 n.chain_height 1)) [
    | inl other ↦
        (false, n, [], rw (submit_mined_block, other) refl, Fits-less crypto k n.blockchain f)
    | inr next ↦ elim (apply_block-Leaves crypto k now_ms b n.blockchain n.ledger f) [
      | fails x c l e f₁ ↦ (false, with_chain c l n, [], rw (submit_mined_block, next, e) refl, f₁)
      | succeeds u c l e f₁ ↦
          let n' = after_block crypto b [] (with_chain c l n) in
          (
            true,
            n',
            broadcast n'.peers (Message.new_block b) none,
            rw (submit_mined_block, next, e) refl,
            rw (after_block-blockchain b [] (with_chain c l n)) f₁,
          )
    ]
  ]
