-- ===== src/Node/Messages/Ready.antt =====
-- `sync_ready` of crates/taron-node/src/node.rs, which mining waits for: when a message sets it.
use taron.Prelude.{
  ℕ, zero, suc, ◌+◌, ◌≤◌, ◌≡◌, ◌⊎◌, refl, ◌∙◌, Bool, true, false, not, Option, none, some, List, [],
  ◌∷◌, ◌&&◌, map, arith, ltb, leb, ◌==◌, if◌then◌else◌, inl, inr, Bool-cases, Option-cases, is_some,
  max,
}
use taron.Wallet.{Crypto}
use taron.Block.{Block}
use taron.Prelude.Words.{add64, sub64, saturating_sub}
use taron.Blockchain.Fork.{find_fork_point}
use taron.Blockchain.{Blockchain, tip, checkpoint_anchor_at_or_below}
use taron.Error.{Result, ok, err}
use taron.Blockchain.Blocks.{apply_block_ibd, revert_to_height}
use taron.Node.State.{TaronNode, Connection, Env, Turn, stay, with_chain, other_driver, save_state}
use taron.Node.Handlers.Ibd.{
  incoming_max, safe_anchor, reset_difficulty, handle_chain_height, end_ibd, Progress, note_applied,
  replay, at_anchor, roll_back, max_reorg, reorg_from, reorg_from_anchor, deep_reorg, apply_blocks,
  continue_ibd, see_last, handle_blocks,
}
pub mod All

-- If the flag goes up, nobody drives a download, and no higher chain is known than ours.
abbrev pub RisesAtTip : TaronNode → TaronNode → Type 0
RisesAtTip n n' =
    n.sync_ready ≡ false
    → n'.sync_ready ≡ true
    → (n'.ibd_peer ≡ none) × (n'.max_seen_height ≤ n'.blockchain.height)

handle_chain_height-RisesAtTip :
    (env : Env) (h : ℕ) (conn : Connection) (n : TaronNode)
    → RisesAtTip n (handle_chain_height env h conn n).node
unfolding handle_chain_height
handle_chain_height-RisesAtTip env h conn n down up = ground arith

module _ (crypto : Crypto) where
  replay-sync_ready :
      (env : Env) (fp : ℕ) (bs : List Block) (applied : ℕ) (conn : Connection) (n : TaronNode)
      (p : Progress)
      → replay crypto env fp bs applied conn n ≡ some p
      → p.2.sync_ready ≡ n.sync_ready
  unfolding replay note_applied
  replay-sync_ready env fp [] applied conn n p h = ground arith
  replay-sync_ready env fp (b ∷ bs) applied conn n p h = elim (Bool-cases (leb b.index fp)) [
    | inl below ↦ replay-sync_ready env fp bs applied conn n p (rw (replay, below) at h)
    | inr above ↦ elim (Option-cases (apply_block_ibd crypto b n.blockchain n.ledger)) [
      | inl panicked ↦ absurd (ground arith)
      | inr ((err x, c, l), e) ↦ ground arith
      | inr ((ok u, c, l), e) ↦
          let (conn', n') = note_applied env b conn (with_chain c l n) in
          replay-sync_ready env fp bs (applied + 1) conn' n' p (rw (replay, above, e) at h)
    ]
  ]

  roll_back-sync_ready :
      (anchor : ℕ) (adjust : Blockchain → Blockchain) (applied : ℕ) (conn : Connection)
      (n : TaronNode) (p : Progress)
      → roll_back crypto anchor adjust applied conn n ≡ some p
      → p.2.sync_ready ≡ n.sync_ready
  unfolding roll_back at_anchor
  roll_back-sync_ready anchor adjust applied conn n p h = ground arith

  reorg_from-sync_ready :
      (env : Env) (batch : List Block) (fp applied : ℕ) (conn : Connection) (n : TaronNode)
      (p : Progress)
      → reorg_from crypto env batch fp applied conn n ≡ some p
      → p.2.sync_ready ≡ n.sync_ready
  unfolding reorg_from
  reorg_from-sync_ready env batch fp applied conn n p h =
      let h₀ = n.blockchain.height in
      let anchor = checkpoint_anchor_at_or_below (saturating_sub h₀ 1) in
      elim (Bool-cases
        ((fp == h₀) && (applied == 0) && ltb (add64 h₀ 50) (incoming_max batch) && ltb anchor h₀)) [
          | inl stall ↦
              roll_back-sync_ready anchor (λ c. c) applied conn n p (rw (reorg_from, stall) at h)
          | inr fork ↦ elim (Bool-cases (leb (sub64 h₀ fp) (max_reorg batch n.blockchain))) [
            | inr deep ↦ ground arith
            | inl near ↦ elim (Option-cases (revert_to_height fp n.blockchain n.ledger)) [
              | inl panicked ↦ absurd (ground arith)
              | inr ((err x, c, l), e) ↦ ground arith
              | inr ((ok u, c, l), e) ↦
                  replay-sync_ready env fp batch applied conn (with_chain c l n) p
                    (rw (reorg_from, fork, near, e) at h)
            ]
          ]
        ]

  deep_reorg-sync_ready :
      (env : Env) (batch : List Block) (applied : ℕ) (conn : Connection) (n : TaronNode)
      (p : Progress)
      → deep_reorg crypto env batch applied conn n ≡ some p
      → p.2.sync_ready ≡ n.sync_ready
  unfolding deep_reorg reorg_from_anchor
  deep_reorg-sync_ready env batch applied conn n p h =
      let h₀ = n.blockchain.height in
      elim (Bool-cases (leb (incoming_max batch) h₀)) [
        | inl shorter ↦ ground arith
        | inr longer ↦ elim (Option-cases (find_fork_point n.blockchain batch)) [
          | inr (fp, found) ↦
              reorg_from-sync_ready env batch fp applied conn n p
                (rw (deep_reorg, longer, found) at h)
          | inl unknown ↦ ground (
            arith,
            roll_back-sync_ready (safe_anchor h₀) (reset_difficulty (safe_anchor h₀)) applied conn n
                p,
          )
        ]
      ]

  apply_blocks-sync_ready :
      (env : Env) (batch bs : List Block) (applied : ℕ) (conn : Connection) (n : TaronNode)
      (p : Progress)
      → apply_blocks crypto env batch bs applied conn n ≡ some p
      → p.2.sync_ready ≡ n.sync_ready
  unfolding apply_blocks note_applied
  apply_blocks-sync_ready env batch [] applied conn n p h = ground arith
  apply_blocks-sync_ready env batch (b ∷ bs) applied conn n p h =
      elim (Option-cases (apply_block_ibd crypto b n.blockchain n.ledger)) [
        | inl panicked ↦ absurd (ground arith)
        | inr ((err x, c, l), e) ↦
            deep_reorg-sync_ready env batch applied conn (with_chain c l n) p
              (rw (apply_blocks, e) at h)
        | inr ((ok u, c, l), e) ↦
            let (conn', n') = note_applied env b conn (with_chain c l n) in
            apply_blocks-sync_ready env batch bs (applied + 1) conn'
              (record n' { cached_best_hash = crypto.hex_encode b.hash }) p
              (rw (apply_blocks, e) at h)
      ]

  see_last-sync_ready :
      (bs : List Block) (n : TaronNode) → (see_last bs n).sync_ready ≡ n.sync_ready
  unfolding see_last
  see_last-sync_ready [] n = refl
  see_last-sync_ready (b ∷ []) n = refl
  see_last-sync_ready (b ∷ b' ∷ bs) n = see_last-sync_ready (b' ∷ bs) n

  continue_ibd-RisesAtTip :
      (env : Env) (conn : Connection) (n : TaronNode) (turn : Turn)
      → continue_ibd crypto env conn n ≡ some turn
      → RisesAtTip n turn.node
  unfolding continue_ibd end_ibd save_state
  continue_ibd-RisesAtTip env conn n turn h down up = elim (Option-cases (tip n.blockchain)) [
    | inl panicked ↦ absurd (ground arith)
    | inr (t, at_tip) ↦ elim (Option-cases conn.peer_height) [
      | inl unknown ↦ absurd (ground arith)
      | inr (ph, known) ↦ elim (Bool-cases (ltb n.blockchain.height ph)) [
        | inl more ↦ absurd (ground arith)
        | inr enough ↦ ground arith
      ]
    ]
  ]

  finish-RisesAtTip :
      (env : Env) (b : Block) (bs : List Block) (conn : Connection) (n : TaronNode) (p : Progress)
      (turn : Turn)
      → other_driver conn.addr n ≡ false
      → apply_blocks crypto env (b ∷ bs) (b ∷ bs) 0 conn (see_last (b ∷ bs) n) ≡ some p
      → handle_blocks crypto env (b ∷ bs) conn n ≡ some turn
      → RisesAtTip n turn.node
  unfolding handle_blocks
  finish-RisesAtTip env b bs conn n (zero, conn', n') turn mine e h down up =
      let kept : n'.sync_ready ≡ n.sync_ready =
        apply_blocks-sync_ready env (b ∷ bs) (b ∷ bs) 0 conn (see_last (b ∷ bs) n) (0, conn', n') e
        ∙ see_last-sync_ready (b ∷ bs) n in
      absurd (ground arith)
  finish-RisesAtTip env b bs conn n (suc m, conn', n') turn mine e h down up =
      let kept : n'.sync_ready ≡ n.sync_ready =
        apply_blocks-sync_ready env (b ∷ bs) (b ∷ bs) 0 conn (see_last (b ∷ bs) n)
          (suc m, conn', n') e
        ∙ see_last-sync_ready (b ∷ bs) n in
      continue_ibd-RisesAtTip env conn' n' turn (rw (handle_blocks, mine, e) at h) (kept ∙ down) up

  mine-RisesAtTip :
      (env : Env) (batch : List Block) (conn : Connection) (n : TaronNode) (turn : Turn)
      → other_driver conn.addr n ≡ false
      → handle_blocks crypto env batch conn n ≡ some turn
      → RisesAtTip n turn.node
  unfolding handle_blocks end_ibd
  mine-RisesAtTip env [] conn n turn mine h down up = ground arith
  mine-RisesAtTip env (b ∷ bs) conn n turn mine h down up =
      elim (Option-cases (apply_blocks crypto env (b ∷ bs) (b ∷ bs) 0 conn (see_last (b ∷ bs) n))) [
        | inl panicked ↦ absurd (ground arith)
        | inr (p, e) ↦ finish-RisesAtTip env b bs conn n p turn mine e h down up
      ]

  -- Whenever a batch of blocks raises the flag that mining waits for, nobody
  -- drives a download any more, and no peer is known to have a higher chain than ours.
  pub handle_blocks-RisesAtTip :
      (env : Env) (batch : List Block) (conn : Connection) (n : TaronNode) (turn : Turn)
      → handle_blocks crypto env batch conn n ≡ some turn
      → RisesAtTip n turn.node
  unfolding handle_blocks
  handle_blocks-RisesAtTip env batch conn n turn h down up =
      elim (Bool-cases (other_driver conn.addr n)) [
        | inl other ↦ absurd (ground arith)
        | inr mine ↦ mine-RisesAtTip env batch conn n turn mine h down up
      ]
