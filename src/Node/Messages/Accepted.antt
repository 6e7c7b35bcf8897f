-- ===== src/Node/Messages/Accepted.antt =====
-- `submit_mined_block` and the gossip of transactions in crates/taron-node/src/node.rs: what a node
-- that accepts a block remembers, and what becomes of a transaction that it has accepted.
use taron.Prelude.{
  ℕ, ◌+◌, ◌<◌, ◌≡◌, ◌⊎◌, refl, Bool, ◌||◌, if◌then◌else◌, ◌∷◌, sym, ap, true, false, none, some,
  List, [], arith, ◌!=◌, inl, inr, Bool-cases, Option-cases,
}
use taron.Prelude.Words.{Bytes, u64_mod, add64}
use taron.Error.{ok, err}
use taron.Wallet.{Crypto}
use taron.Transaction.{Transaction}
use taron.Ledger.{Ledger, account_count, total_supply}
use taron.Block.{Block}
use taron.Blockchain.{tip}
use taron.Blockchain.Blocks.{apply_block}
use taron.Blockchain.Linked.{
  IsLinked, Extends, apply_block-Extends, height-append, apply_block-appended, apply_block-tip,
}
use taron.Prelude.Text.{bytes_dec, eq_bytes}
use taron.Prelude.Dict.{lookup, lookup-erase}
use taron.Node.Mempool.{Mempool, remove, hash_hex}
use taron.Node.Peers.{broadcast}
use taron.Node.Protocol.{Message}
use taron.Node.State.{TaronNode, after_block, with_chain, save_state, purge}
use taron.Node.Handlers.NewBlocks.{submit_mined_block}

module _ (crypto : Crypto) where
  -- One of the transactions has this hash.
  abbrev pub is_included : Bytes → List Transaction → Bool
  is_included h [] = false
  is_included h (t ∷ ts) = eq_bytes (hash_hex crypto t) h || is_included h ts

  lookup-purge :
      (h : Bytes) (ts : List Transaction) (m : Mempool)
      → lookup bytes_dec h (purge crypto ts m)
        ≡ (if is_included h ts then none else lookup bytes_dec h m)
  unfolding purge remove
  lookup-purge h [] m = refl
  lookup-purge h (t ∷ ts) m = ground (
    arith,
    lookup-purge h ts (remove (hash_hex crypto t) m),
    lookup-erase bytes_dec h (hash_hex crypto t) m,
  )

  -- The caches hold what the chain and the ledger say.
  pub record IsFresh (n : TaronNode) : Type 0 where
    pub height : n.chain_height ≡ n.blockchain.height
    pub difficulty : n.cached_difficulty ≡ n.blockchain.difficulty
    pub hash :
        (t : Block) → tip n.blockchain ≡ some t → n.cached_best_hash ≡ crypto.hex_encode t.hash
    pub accounts : n.cached_account_count ≡ account_count n.ledger
    pub supply : n.cached_total_supply ≡ total_supply n.ledger

  after_block-IsFresh :
      (b : Block) (gone : List Transaction) (n : TaronNode)
      → n.blockchain.height ≡ b.index
      → tip n.blockchain ≡ some b
      → IsFresh (after_block crypto b gone n)
  unfolding after_block save_state
  after_block-IsFresh b gone n height at_tip = record {
    height = sym height;
    difficulty = refl;
    hash = λ t e.
        let same : t ≡ b = ground arith in ap (λ (x : Block). crypto.hex_encode x.hash) (sym same);
    accounts = refl;
    supply = refl;
  }

  -- On a linked chain with room, `submit_mined_block` does not panic. Either it accepts the block,
  -- which is then for the height after the cached one and is the tip, all caches are fresh, the memory
  -- pool finds nothing under a hash of one of its transactions and the same as before under any other
  -- hash, and it is sent to every peer with a channel; or it refuses the block, sends nothing, and
  -- changes at most the ledger.
  pub submit_mined_block-IsFresh :
      (now_ms : ℕ) (b : Block) (n : TaronNode) (h : Bytes)
      → IsLinked crypto n.blockchain
      → n.blockchain.height + 1 < u64_mod
      → ((n' : TaronNode) × (submit_mined_block crypto now_ms b n
            ≡ some (true, n', broadcast n.peers (Message.new_block b) none))
          × (b.index ≡ add64 n.chain_height 1)
          × (tip n'.blockchain ≡ some b)
          × IsFresh n'
          × (lookup bytes_dec h n'.mempool
              ≡ (if is_included h b.transactions then none else lookup bytes_dec h n.mempool)))
        ⊎ ((l : Ledger) × (submit_mined_block crypto now_ms b n
              ≡ some (false, record n { ledger = l }, [])))
  unfolding submit_mined_block after_block save_state purge
  submit_mined_block-IsFresh now_ms b n h linked room =
      elim (Bool-cases (b.index != add64 n.chain_height 1)) [
        | inl other ↦ inr (n.ledger, rw (submit_mined_block, other) refl)
        | inr next ↦ elim (Option-cases (apply_block crypto now_ms b n.blockchain n.ledger)) [
          | inl panicked ↦ absurd (rw panicked at extends)
          | inr ((err x, c, l), e) ↦
              let same : c ≡ n.blockchain = rw e at extends in
              inr (l, rw (submit_mined_block, next, e, same) refl)
          | inr ((ok u, c, l), e) ↦
              let (appended, index, _) =
                apply_block-appended crypto now_ms b n.blockchain c n.ledger l linked room e in
              let at_tip =
                apply_block-tip crypto now_ms b n.blockchain c n.ledger l linked room e in
              inl (
                after_block crypto b [] (with_chain c l n),
                rw (submit_mined_block, next, e) refl,
                ground arith,
                at_tip,
                after_block-IsFresh b [] (with_chain c l n)
                    (height-append b n.blockchain c appended) at_tip,
                lookup-purge h b.transactions n.mempool,
              )
        ]
      ]
    where
      extends : Extends crypto b n.blockchain (apply_block crypto now_ms b n.blockchain n.ledger)
      extends = apply_block-Extends crypto now_ms b n.blockchain n.ledger linked room
