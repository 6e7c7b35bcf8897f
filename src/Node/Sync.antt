-- ===== src/Node/Sync.antt =====
-- crates/taron-node/src/sync.rs: the chain state that the synchronisation keeps, and what a message
-- does to it. The locks are left out: a message is handled in one step. `sends` says whether the
-- socket takes the message that is sent.
use taron.Prelude.{
  ℕ, suc, ◌≡◌, ◌⊎◌, inl, inr, refl, Bool, true, false, Option, none, some, List, [], ◌∷◌, arith,
  ltb, ◌==◌, if◌then◌else◌, get_elem?, ite, Bool-cases,
}
use taron.Prelude.Words.{Bytes, add64, sub64}
use taron.Prelude.Text.{bytes_dec}
use taron.Wallet.{Crypto}
use taron.Block.{Block, hash_header, genesis}
use taron.Node.Protocol.{
  Message, hello, get_peers, peers, tx, get_tx_hashes, tx_hashes, get_txs, ping, pong,
  get_chain_height, chain_height, get_blocks, blocks, new_block, tx_ack, get_tx_status, tx_status,
}

abbrev pub ibd_chunk_size : ℕ
ibd_chunk_size = 25

pub record ChainState : Type 0 where
  pub height : ℕ
  pub best_hash : Bytes

-- What a call returns (`none` for an error of the socket), sends and leaves behind.
pub record Handled : Type 0 where
  pub continuing : Option Bool
  pub sent : Option Message
  pub state : ChainState
  pub peer_height : Option ℕ

-- The request for the next chunk after our height.
unfoldable pub next_chunk : ℕ → Message
next_chunk our_h = get_blocks (add64 our_h 1) (sub64 (add64 (add64 our_h 1) ibd_chunk_size) 1)

module _ (crypto : Crypto) where
  -- `ChainState::new`
  unfoldable pub new_chain_state : ChainState
  new_chain_state = record { height = 0; best_hash = (genesis crypto).hash }

  unfoldable pub best_hash_hex : ChainState → Bytes
  best_hash_hex s = crypto.hex_encode s.best_hash

  unfoldable pub quick_validate : Block → Bool
  quick_validate b = ite (bytes_dec b.hash (hash_header crypto b)) true false

  -- The loop over a batch: a block that is not valid is skipped.
  unfoldable pub apply_batch : List Block → ChainState → ChainState
  apply_batch [] s = s
  apply_batch (b ∷ bs) s =
      apply_batch bs
        (if quick_validate b then record { height = b.index; best_hash = b.hash } else s)

  -- Send, and return the given value.
  abbrev pub send : Bool → Message → Bool → ChainState → Option ℕ → Handled
  send sends msg continue s peer_height = record {
    continuing = if sends then some continue else none;
    sent = some msg;
    state = s;
    peer_height = peer_height;
  }

  abbrev pub done : ChainState → Option ℕ → Handled
  done s peer_height = record {
    continuing = some false;
    sent = none;
    state = s;
    peer_height = peer_height;
  }

  unfoldable pub need_more : Option ℕ → ℕ → Bool
  need_more none our_h = false
  need_more (some ph) our_h = ltb our_h ph

  unfoldable pub handle_sync_message : Bool → Message → ChainState → Option ℕ → Handled
  handle_sync_message sends get_chain_height s ph = send sends (chain_height s.height) false s ph
  handle_sync_message sends (chain_height h) s ph =
      if ltb s.height h then send sends (next_chunk s.height) true s (some h) else done s (some h)
  handle_sync_message sends (get_blocks from to) s ph = send sends (blocks []) false s ph
  handle_sync_message sends (blocks []) s ph = done s ph
  handle_sync_message sends (blocks (b ∷ bs)) s ph =
      let s' = apply_batch (b ∷ bs) s in
      if need_more ph s'.height then send sends (next_chunk s'.height) true s' ph else done s' ph
  handle_sync_message sends (new_block b) s ph =
      if b.index == add64 s.height 1
      then done (if quick_validate b then record { height = b.index; best_hash = b.hash } else s) ph
      else if ltb (add64 s.height 1) b.index
      then send sends (next_chunk s.height) true s (some b.index)
      else done s ph
  handle_sync_message sends _ s ph = done s ph

  -- The blocks that a message carries.
  abbrev pub carried : Message → List Block
  carried (blocks bs) = bs
  carried (new_block b) = b ∷ []
  carried _ = []

  -- The new state is the old one, or that of a carried block with its own header hash.
  abbrev pub Justified : List Block → ChainState → ChainState → Type 0
  Justified bs s s' =
      (s' ≡ s)
      ⊎ ((i : ℕ) × (b : Block) × (get_elem? bs i ≡ some b)
          × (b.hash ≡ hash_header crypto b)
          × (s'.height ≡ b.index)
          × (s'.best_hash ≡ b.hash))

  quick_validate-hash : (b : Block) → quick_validate b ≡ true → b.hash ≡ hash_header crypto b
  unfolding quick_validate
  quick_validate-hash b h = ground arith

  apply_batch-Justified : (bs : List Block) (s : ChainState) → Justified bs s (apply_batch bs s)
  unfolding apply_batch
  apply_batch-Justified [] s = inl refl
  apply_batch-Justified (b ∷ bs) s = elim (Bool-cases (quick_validate b)) [
    | inr bad ↦ elim (apply_batch-Justified bs s) [
      | inl same ↦ inl (rw (apply_batch, bad) same)
      | inr (i, b', at, own, height, hash) ↦
          inr (suc i, b', at, own, rw (apply_batch, bad) height, rw (apply_batch, bad) hash)
    ]
    | inl good ↦ elim (apply_batch-Justified bs (record { height = b.index; best_hash = b.hash })) [
      | inl same ↦ inr (
        0,
        b,
        refl,
        quick_validate-hash b good,
        rw (apply_batch, good, same) refl,
        rw (apply_batch, good, same) refl,
      )
      | inr (i, b', at, own, height, hash) ↦
          inr (suc i, b', at, own, rw (apply_batch, good) height, rw (apply_batch, good) hash)
    ]
  ]

  -- Whatever message arrives, the state stays, or it becomes the index and the hash of a block which
  -- the message carries and whose hash is its header hash.
  pub handle_sync_message-Justified :
      (sends : Bool) (msg : Message) (s : ChainState) (ph : Option ℕ)
      → Justified (carried msg) s (handle_sync_message sends msg s ph).state
  unfolding handle_sync_message
  handle_sync_message-Justified sends get_chain_height s ph = inl refl
  handle_sync_message-Justified sends (hello _ _ _) s ph = inl refl
  handle_sync_message-Justified sends get_peers s ph = inl refl
  handle_sync_message-Justified sends (peers _) s ph = inl refl
  handle_sync_message-Justified sends (tx _) s ph = inl refl
  handle_sync_message-Justified sends get_tx_hashes s ph = inl refl
  handle_sync_message-Justified sends (tx_hashes _) s ph = inl refl
  handle_sync_message-Justified sends (get_txs _) s ph = inl refl
  handle_sync_message-Justified sends (ping _) s ph = inl refl
  handle_sync_message-Justified sends (pong _) s ph = inl refl
  handle_sync_message-Justified sends (tx_ack _) s ph = inl refl
  handle_sync_message-Justified sends (get_tx_status _) s ph = inl refl
  handle_sync_message-Justified sends (tx_status _ _ _) s ph = inl refl
  handle_sync_message-Justified sends (chain_height h) s ph = elim (Bool-cases (ltb s.height h)) [
    | inl e ↦ inl (rw e refl)
    | inr e ↦ inl (rw e refl)
  ]
  handle_sync_message-Justified sends (get_blocks from to) s ph = inl refl
  handle_sync_message-Justified sends (blocks []) s ph = inl refl
  handle_sync_message-Justified sends (blocks (b ∷ bs)) s ph =
      elim (Bool-cases (need_more ph (apply_batch (b ∷ bs) s).height)) [
        | inl e ↦ rw (handle_sync_message, e) (apply_batch-Justified (b ∷ bs) s)
        | inr e ↦ rw (handle_sync_message, e) (apply_batch-Justified (b ∷ bs) s)
      ]
  handle_sync_message-Justified sends (new_block b) s ph =
      elim (Bool-cases (b.index == add64 s.height 1)) [
        | inr e ↦ elim (Bool-cases (ltb (add64 s.height 1) b.index)) [
          | inl e' ↦ inl (rw (handle_sync_message, e, e') refl)
          | inr e' ↦ inl (rw (handle_sync_message, e, e') refl)
        ]
        | inl e ↦ elim (Bool-cases (quick_validate b)) [
          | inr bad ↦ inl (rw (handle_sync_message, e, bad) refl)
          | inl good ↦ inr (
            0,
            b,
            refl,
            quick_validate-hash b good,
            rw (handle_sync_message, e, good) refl,
            rw (handle_sync_message, e, good) refl,
          )
        ]
      ]
