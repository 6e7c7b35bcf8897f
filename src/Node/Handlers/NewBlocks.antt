-- ===== src/Node/Handlers/NewBlocks.antt =====
-- `NewBlock` in `handle_messages`, and `submit_mined_block`, of crates/taron-node/src/node.rs: one
-- block that a peer or the pool announces. `none` is a panic of the blockchain.
use taron.Prelude.{
  ℕ, ◌-◌, Bool, true, false, Option, none, some, List, [], ◌&&◌, ltb, leb, ◌==◌, ◌!=◌, max,
  if◌then◌else◌,
}
use taron.Prelude.Words.{add64, sub64}
use taron.Prelude.Text.{eq_bytes, lt_bytes}
use taron.Error.{ok, err, invalid_block}
use taron.Wallet.{Crypto}
use taron.Transaction.{Transaction}
use taron.Genesis.{testnet_reward}
use taron.Block.{Block, is_valid}
use taron.Blockchain.{Outcome, block_at, tip}
use taron.Blockchain.Blocks.{apply_block, revert_tip}
use taron.Node.Peers.{broadcast}
use taron.Node.Protocol.{Message}
use taron.Node.State.{
  TaronNode, Connection, Env, Turn, going, stay, send_to_peer, request_blocks, with_chain,
  other_driver, after_block,
}

-- A block further ahead than the next: remember the height, and ask for the blocks in between.
unfoldable pub request_ahead : Env → Block → ℕ → Connection → TaronNode → Turn
request_ahead env b our_h conn n =
    request_blocks env our_h b.index (record conn { peer_height = some b.index })
      (record n { max_seen_height = max n.max_seen_height b.index; sync_ready = false })

-- The first block that is asked for when the next block is on a fork.
abbrev pub fork_start : ℕ → ℕ
fork_start our_h = if ltb 10 our_h then our_h - 10 else 1

module _ (crypto : Crypto) where
  -- The state after a block has been accepted, and the block for the other peers.
  unfoldable pub accepted : Block → List Transaction → Connection → TaronNode → Turn
  accepted b gone conn n =
      let n = after_block crypto b gone n in
      record {
        node = n;
        conn = conn;
        sent = broadcast n.peers (Message.new_block b) (some conn.addr);
        verdict = going;
      }

  -- The tip is replaced; if the new block is refused, the old tip is applied again.
  unfoldable pub replace_tip : Env → Block → Connection → TaronNode → Option Turn
  replace_tip env b conn n = elim (revert_tip n.blockchain n.ledger) [
    | none ↦ none
    | some (err _, c, l) ↦ some (stay conn (with_chain c l n))
    | some (ok reverted, c, l) ↦ elim (apply_block crypto env.now_ms b c l) [
      | none ↦ none
      | some (ok _, c', l') ↦ some (accepted b reverted.transactions conn (with_chain c' l' n))
      | some (err _, c', l') ↦ elim (apply_block crypto env.now_ms reverted c' l') [
        | none ↦ none
        | some (_, c'', l'') ↦ some (stay conn (with_chain c'' l'' n))
      ]
    ]
  ]

  -- A competing block at our height replaces the tip if its hash is lower and it follows our parent.
  unfoldable pub compete : Env → Block → ℕ → Connection → TaronNode → Option Turn
  compete env b our_h conn n = elim (tip n.blockchain) [
    | none ↦ none
    | some current_tip ↦
        if lt_bytes b.hash current_tip.hash
        then elim (block_at n.blockchain (sub64 our_h 1)) [
          | none ↦ some (stay conn n)
          | some parent ↦
              if eq_bytes b.prev_hash parent.hash
                && is_valid crypto env.now_ms b parent n.blockchain.difficulty
                && (b.reward == testnet_reward)
              then replace_tip env b conn n
              else some (stay conn n)
        ]
        else some (stay conn n)
  ]

  -- What follows if the block was not applied.
  unfoldable pub handle_rejected : Env → Block → Connection → TaronNode → Option Turn
  handle_rejected env b conn n =
      let our_h = n.blockchain.height in
      if ltb (add64 our_h 1) b.index
      then some (request_ahead env b our_h conn n)
      else if b.index == add64 our_h 1
      then some (send_to_peer env (Message.get_blocks (fork_start our_h) b.index) conn n)
      else if b.index == our_h
      then compete env b our_h conn n
      else some (stay conn n)

  -- The attempt under the semaphore: a block at or below our height is refused without a look.
  unfoldable pub try_block : Env → Block → TaronNode → Option (Outcome (Unit {0}))
  try_block env b n = elim (tip n.blockchain) [
    | none ↦ none
    | some our_tip ↦
        if (b.index == add64 n.blockchain.height 1) && eq_bytes b.prev_hash our_tip.hash
        then apply_block crypto env.now_ms b n.blockchain n.ledger
        else if leb b.index n.blockchain.height
        then some (err invalid_block, n.blockchain, n.ledger)
        else apply_block crypto env.now_ms b n.blockchain n.ledger
  ]

  -- `NewBlock`
  unfoldable pub handle_new_block : Env → Block → Connection → TaronNode → Option Turn
  handle_new_block env b conn n =
      let our_h = n.chain_height in
      if other_driver conn.addr n
      then some (stay conn n)
      else if ltb (add64 our_h 1) b.index
      then some (request_ahead env b our_h conn n)
      else if ltb b.index our_h
      then some (stay conn n)
      else if env.has_permit
      then elim (try_block env b n) [
        | none ↦ none
        | some (ok _, c, l) ↦ some (accepted b [] conn (with_chain c l n))
        | some (err _, c, l) ↦ handle_rejected env b conn (with_chain c l n)
      ]
      else some (stay conn n)

  -- `submit_mined_block`: whether the block is accepted, the node, and what is sent.
  unfoldable pub submit_mined_block :
      ℕ → Block → TaronNode → Option (Bool × TaronNode × List (ℕ × Message))
  submit_mined_block now_ms b n =
      if b.index != add64 n.chain_height 1
      then some (false, n, [])
      else elim (apply_block crypto now_ms b n.blockchain n.ledger) [
        | none ↦ none
        | some (err _, c, l) ↦ some (false, with_chain c l n, [])
        | some (ok _, c, l) ↦
            let n = after_block crypto b [] (with_chain c l n) in
            some (true, n, broadcast n.peers (Message.new_block b) none)
      ]
