-- ===== src/Node/Handlers/Ibd.antt =====
-- `ChainHeight` and `Blocks` in `handle_messages` of crates/taron-node/src/node.rs: the initial
-- download of blocks, and the reorganisation onto the chain of the peer. `none` is a panic of the
-- blockchain.
use taron.Prelude.{
  ℕ, zero, suc, ◌+◌, true, false, not, Option, none, some, List, [], ◌∷◌, ◌&&◌, ◌||◌, ltb, leb,
  ◌==◌, max, if◌then◌else◌, or_else, is_some,
}
use taron.Prelude.Words.{add64, sub64, saturating_sub}
use taron.Error.{ok, err}
use taron.Wallet.{Crypto}
use taron.Genesis.{testnet_difficulty}
use taron.Block.{Block}
use taron.Blockchain.{Blockchain, tip, checkpoint_anchor_at_or_below}
use taron.Blockchain.Blocks.{apply_block_ibd, revert_to_height}
use taron.Blockchain.Queries.{blocks_range}
use taron.Blockchain.Fork.{find_fork_point}
use taron.Node.Protocol.{Message}
use taron.Node.State.{
  TaronNode, Connection, Env, Turn, stay, send_to_peer, request_blocks, with_chain, refresh,
  other_driver, save_state,
}

-- `GetChainHeight`
unfoldable pub handle_get_chain_height : Env → Connection → TaronNode → Turn
handle_get_chain_height env conn n =
    send_to_peer env (Message.chain_height n.blockchain.height) conn n

-- `GetBlocks`
unfoldable pub handle_get_blocks : Env → ℕ → ℕ → Connection → TaronNode → Turn
handle_get_blocks env from to conn n =
    send_to_peer env (Message.blocks (blocks_range from to n.blockchain)) conn n

-- `ChainHeight`: a peer that is ahead takes the IBD slot if it is free.
unfoldable pub handle_chain_height : Env → ℕ → Connection → TaronNode → Turn
handle_chain_height env peer_h conn n =
    let our_h = n.blockchain.height in
    let target_h = max n.max_seen_height peer_h in
    let n = record n { max_seen_height = target_h } in
    let conn = record conn { peer_height = some peer_h } in
    if ltb our_h peer_h
    then (if other_driver conn.addr n
        then stay conn n
        else request_blocks env our_h peer_h conn
            (record n { ibd_peer = some conn.addr; sync_ready = false }))
    else (let ibd_active = is_some n.ibd_peer in
        if not ibd_active && leb target_h our_h && not n.sync_ready
        then stay conn (record n { sync_ready = true })
        else if ibd_active || ltb our_h target_h
        then stay conn (record n { sync_ready = false })
        else stay conn n)

-- `blocks.iter().map(|b| b.index).max().unwrap_or(0)`
unfoldable pub incoming_max : List Block → ℕ
incoming_max [] = 0
incoming_max (b ∷ bs) = max b.index (incoming_max bs)

-- The end of a download: the slot is free, and mining can start if nobody is known to be ahead.
unfoldable pub end_ibd : ℕ → Connection → TaronNode → Turn
end_ibd our_h conn n =
    stay (record conn { last_ibd_request_at = none })
      (record n { ibd_peer = none; sync_ready = leb n.max_seen_height our_h && not n.sync_ready })

-- The depth that a reorganisation may have.
abbrev pub max_reorg : List Block → Blockchain → ℕ
max_reorg batch c = if ltb (add64 c.height 5) (incoming_max batch) then c.height else 10

-- The checkpoint to go back to where no ancestor is known.
abbrev pub safe_anchor : ℕ → ℕ
safe_anchor h = if ltb h 200 then 0 else checkpoint_anchor_at_or_below (saturating_sub h 1)

-- At genesis the difficulty is the initial one.
abbrev pub reset_difficulty : ℕ → Blockchain → Blockchain
reset_difficulty anchor c = record c {
  difficulty = if anchor == 0 then testnet_difficulty else c.difficulty;
}

-- The index of the last block counts as a height that was seen.
unfoldable pub see_last : List Block → TaronNode → TaronNode
see_last [] n = n
see_last (b ∷ []) n = record n { max_seen_height = max n.max_seen_height b.index }
see_last (b ∷ b' ∷ bs) n = see_last (b' ∷ bs) n

-- The state of the loop over a batch: how many blocks were applied, the connection and the node.
abbrev pub Progress : Type 0
Progress = ℕ × Connection × TaronNode

-- A block of the batch has been applied.
unfoldable pub note_applied : Env → Block → Connection → TaronNode → Connection × TaronNode
note_applied env b conn n = (
  record conn { last_ibd_progress_height = b.index; last_ibd_progress_at = env.now },
  record (refresh n) { chain_height = b.index },
)

module _ (crypto : Crypto) where
  -- The blocks above the fork point are applied, up to the first that fails.
  unfoldable pub replay : Env → ℕ → List Block → ℕ → Connection → TaronNode → Option Progress
  replay env fp [] applied conn n = some (applied, conn, n)
  replay env fp (b ∷ bs) applied conn n = elim (leb b.index fp) [
    | true ↦ replay env fp bs applied conn n
    | false ↦ elim (apply_block_ibd crypto b n.blockchain n.ledger) [
      | none ↦ none
      | some (err _, c, l) ↦ some (applied, conn, with_chain c l n)
      | some (ok _, c, l) ↦
          let (conn', n') = note_applied env b conn (with_chain c l n) in
          replay env fp bs (applied + 1) conn' n'
    ]
  ]

  -- The node at a checkpoint that it has gone back to.
  unfoldable pub at_anchor : ℕ → TaronNode → Option TaronNode
  at_anchor anchor n = elim (tip n.blockchain) [
    | none ↦ none
    | some t ↦
        some (record (refresh n) {
          chain_height = anchor;
          cached_best_hash = crypto.hex_encode t.hash;
        })
  ]

  -- Back to a checkpoint; `applied` becomes 1, so that the download goes on from there.
  unfoldable pub roll_back :
      ℕ → (Blockchain → Blockchain) → ℕ → Connection → TaronNode → Option Progress
  roll_back anchor adjust applied conn n = elim (revert_to_height anchor n.blockchain n.ledger) [
    | none ↦ none
    | some (err _, c, l) ↦ some (applied, conn, with_chain c l n)
    | some (ok _, c, l) ↦ elim (at_anchor anchor (with_chain (adjust c) l n)) [
      | none ↦ none
      | some n' ↦ some (1, conn, n')
    ]
  ]

  -- There is a common ancestor, at `fp`.
  unfoldable pub reorg_from : Env → List Block → ℕ → ℕ → Connection → TaronNode → Option Progress
  reorg_from env batch fp applied conn n =
      let h = n.blockchain.height in
      let anchor = checkpoint_anchor_at_or_below (saturating_sub h 1) in
      if (fp == h) && (applied == 0) && ltb (add64 h 50) (incoming_max batch) && ltb anchor h
      then roll_back anchor (λ c. c) applied conn n
      else if leb (sub64 h fp) (max_reorg batch n.blockchain)
      then elim (revert_to_height fp n.blockchain n.ledger) [
        | none ↦ none
        | some (err _, c, l) ↦ some (applied, conn, with_chain c l n)
        | some (ok _, c, l) ↦ replay env fp batch applied conn (with_chain c l n)
      ]
      else some (applied, conn, n)

  -- There is no common ancestor in the batch.
  unfoldable pub reorg_from_anchor : List Block → ℕ → Connection → TaronNode → Option Progress
  reorg_from_anchor batch applied conn n =
      let h = n.blockchain.height in
      let peer_announced = or_else conn.peer_height (incoming_max batch) in
      if ltb (add64 h 10) (incoming_max batch) && (ltb h 200 || ltb (add64 h 300) peer_announced)
      then roll_back (safe_anchor h) (reset_difficulty (safe_anchor h)) applied conn n
      else some (applied, conn, n)

  -- A block of the batch does not apply.
  unfoldable pub deep_reorg : Env → List Block → ℕ → Connection → TaronNode → Option Progress
  deep_reorg env batch applied conn n =
      if leb (incoming_max batch) n.blockchain.height
      then some (applied, conn, n)
      else elim (find_fork_point n.blockchain batch) [
        | some fp ↦ reorg_from env batch fp applied conn n
        | none ↦ reorg_from_anchor batch applied conn n
      ]

  -- The loop over the batch; the first block that does not apply ends it.
  unfoldable pub apply_blocks :
      Env → List Block → List Block → ℕ → Connection → TaronNode → Option Progress
  apply_blocks env batch [] applied conn n = some (applied, conn, n)
  apply_blocks env batch (b ∷ bs) applied conn n =
      elim (apply_block_ibd crypto b n.blockchain n.ledger) [
        | none ↦ none
        | some (err _, c, l) ↦ deep_reorg env batch applied conn (with_chain c l n)
        | some (ok _, c, l) ↦
            let (conn', n') = note_applied env b conn (with_chain c l n) in
            apply_blocks env batch bs (applied + 1) conn'
              (record n' { cached_best_hash = crypto.hex_encode b.hash })
      ]

  -- After a batch of which something was applied: save, and ask for more or end the download.
  unfoldable pub continue_ibd : Env → Connection → TaronNode → Option Turn
  continue_ibd env conn n = elim (tip n.blockchain) [
    | none ↦ none
    | some t ↦
        let n = save_state (record n { cached_best_hash = crypto.hex_encode t.hash }) in
        let our_h = n.blockchain.height in
        elim conn.peer_height [
          | none ↦ some (stay conn n)
          | some ph ↦
              if ltb our_h ph
              then some (request_blocks env our_h ph conn n)
              else some (end_ibd our_h conn n)
        ]
  ]

  -- `Blocks`
  unfoldable pub handle_blocks : Env → List Block → Connection → TaronNode → Option Turn
  handle_blocks env batch conn n =
      if other_driver conn.addr n then some (stay conn n) else elim batch [
        | [] ↦ some (end_ibd n.blockchain.height conn n)
        | b ∷ bs ↦ elim (apply_blocks env (b ∷ bs) (b ∷ bs) 0 conn (see_last (b ∷ bs) n)) [
          | none ↦ none
          | some (zero, conn', n') ↦ some (stay conn' n')
          | some (suc _, conn', n') ↦ continue_ibd env conn' n'
        ]
      ]
