-- ===== src/Blockchain/Linked.antt =====
-- The chain is linked: every block up to the tip is in the database, and each but the first names
-- its predecessor by hash, carries its own header hash and has the canonical reward.
use taron.Prelude.{
  ℕ, suc, ◌+◌, ◌-◌, ◌≤◌, ◌<◌, ◌≡◌, ◌≢◌, ◌⊎◌, inl, inr, refl, ◌∙◌, Bool, true, false, Option, none,
  some, arith, ite, ℕ_discrete, Option-cases,
}
use taron.Prelude.Words.{u64_mod}
use taron.Prelude.Dict.{lookup-insert}
use taron.Error.{Result, ok, err, TaronError, Result-cases}
use taron.Wallet.{Crypto}
use taron.Transaction.{Transaction}
use taron.Genesis.{testnet_reward}
use taron.Ledger.{Ledger, apply_tx, apply_tx_ibd, apply_coinbase}
use taron.Block.{Block, hash_header}
use taron.Blockchain.{
  Blockchain, Outcome, block_at, tip, compute_next_difficulty, append_block, write_block,
  daa_window,
}
use taron.Blockchain.Blocks.{apply_txs, passes_checks, commit, apply_block, apply_block_ibd}
use taron.Blockchain.Checks.{Checked, passes_checks-Checked}

-- The block of a height is there and has this height for its index.
abbrev pub Held : Blockchain → ℕ → Type 0
Held c i = (b : Block) × (block_at c i ≡ some b) × (b.index ≡ i)

pub Held-lookup :
    (c : Blockchain) (i : ℕ) (b : Block) → Held c i → block_at c i ≡ some b → b.index ≡ i
Held-lookup c i b (b', e, ix) h = ground arith

-- The database after the block has been written.
pub block_at-append :
    (b : Block) (c c' : Blockchain) (i : ℕ)
    → append_block b c ≡ some c'
    → block_at c' i ≡ ite (ℕ_discrete b.index i) (some b) (block_at c i)
unfolding append_block block_at
block_at-append b c c' i h = ground (arith, lookup-insert ℕ_discrete i b.index b c.db.blocks)

pub height-append :
    (b : Block) (c c' : Blockchain) → append_block b c ≡ some c' → c'.height ≡ b.index
unfolding append_block
height-append b c c' h = ground arith

pub block_at-write_block :
    (b : Block) (c : Blockchain) (i : ℕ)
    → block_at (write_block b c) i ≡ ite (ℕ_discrete b.index i) (some b) (block_at c i)
unfolding block_at
block_at-write_block b c i = lookup-insert ℕ_discrete i b.index b c.db.blocks

-- The difficulty can be computed where the blocks at both ends of the window are there.
pub compute_next_difficulty-total :
    (c : Blockchain) (b b' : Block)
    → block_at c c.height ≡ some b
    → block_at c (c.height - daa_window) ≡ some b'
    → compute_next_difficulty c ≢ none
unfolding compute_next_difficulty
compute_next_difficulty-total c b b' e e' h = ground arith

module _ (crypto : Crypto) where
  -- What is asked of two neighbours.
  pub record Link (b prev : Block) : Type 0 where
    pub parent : b.prev_hash ≡ prev.hash
    pub own_hash : b.hash ≡ hash_header crypto b
    pub canonical_reward : b.reward ≡ testnet_reward

  pub record IsLinked (c : Blockchain) : Type 0 where
    pub held : (i : ℕ) → i ≤ c.height → Held c i
    pub link :
        (i : ℕ) (prev b : Block)
        → i < c.height
        → block_at c i ≡ some prev
        → block_at c (suc i) ≡ some b
        → Link b prev

  -- Appending a block that follows the tip keeps the chain linked.
  append_block-IsLinked :
      (b : Block) (c c' : Blockchain) (prev : Block)
      → IsLinked c
      → tip c ≡ some prev
      → b.index ≡ suc c.height
      → Link b prev
      → append_block b c ≡ some c'
      → IsLinked c'
  unfolding tip
  append_block-IsLinked b c c' prev linked at_tip ix lk h = record {
    held = λ i le. elim (ℕ_discrete b.index i) [
      | yes e ↦ (b, ground (arith, block_at-append b c c' i h), e)
      | no ne ↦
          let (b', found, ix') = linked.held i (omega (arith, height-append b c c' h)) in
          (b', ground (arith, block_at-append b c c' i h), ix')
    ];
    link = λ i p b' lt ep eb. elim (ℕ_discrete i c.height) [
      | yes e ↦
          let same_prev : p ≡ prev = ground (arith, block_at-append b c c' i h) in
          let same_block : b' ≡ b = ground (arith, block_at-append b c c' (suc i) h) in
          rw (same_prev, same_block) lk
      | no ne ↦
          linked.link i p b' (omega (arith, height-append b c c' h))
            (ground (arith, block_at-append b c c' i h, height-append b c c' h))
            (ground (arith, block_at-append b c c' (suc i) h, height-append b c c' h))
    ];
  }

  append_block-total :
      (b : Block) (c : Blockchain) → IsLinked c → b.index ≡ suc c.height → append_block b c ≢ none
  unfolding append_block
  append_block-total b c linked ix h =
      let c' : Blockchain = write_block b c in
      let (start, found, _) = linked.held (b.index - daa_window) (omega arith) in
      ground (
        arith,
        compute_next_difficulty-total c' b start (ground (arith, block_at-write_block b c b.index))
            (ground (arith, block_at-write_block b c (b.index - daa_window))),
      )

  -- What a call that began at the chain `c` with the block `b` has done: it has not panicked; if it
  -- failed, the chain is as it was; if it succeeded, the chain is linked, `b` is its tip one higher,
  -- and every block up to the old tip is in its place.
  abbrev pub Extends : Block → Blockchain → Option (Outcome (Unit {0})) → Type 0
  Extends b c none = ⊥
  Extends b c (some (err e, c', l')) = c' ≡ c
  Extends b c (some (ok _, c', l')) =
      IsLinked c'
      × (c'.height ≡ suc c.height)
      × (tip c' ≡ some b)
      × ((i : ℕ) → i ≤ c.height → block_at c' i ≡ block_at c i)

  commit-Extends :
      (apply : Transaction → Ledger → Result (Unit {0}) TaronError × Ledger) (now_ms : ℕ)
      (check : Bool) (b : Block) (c : Blockchain) (l : Ledger)
      → IsLinked c
      → c.height + 1 < u64_mod
      → Checked crypto now_ms check b c
      → Extends b c (commit crypto apply b c l)
  unfolding commit
  commit-Extends apply now_ms check b c l linked room ch =
      elim (Result-cases
        (apply_txs apply b.transactions (apply_coinbase crypto b.miner b.reward l)).0) [
          | inr (e, failed) ↦ rw (commit, failed) refl
          | inl (_, applied) ↦ elim (Option-cases (append_block b c)) [
            | inl panicked ↦ absurd (append_block-total b c linked index panicked)
            | inr (c', appended) ↦
                rw (commit, applied, appended)
                  (
                    append_block-IsLinked b c c' ch.prev linked ch.at_tip index
                        (record {
                          parent = ch.follows.parent;
                          own_hash = ch.follows.own_hash;
                          canonical_reward = ch.canonical_reward;
                        })
                        appended,
                    height-append b c c' appended ∙ index,
                    new_tip c' appended,
                    λ i le. ground (arith, index, block_at-append b c c' i appended),
                  )
          ]
        ]
    where
      index : b.index ≡ suc c.height
      index =
          unfold tip in
          omega (
            arith,
            ch.follows.next_index,
            Held-lookup c c.height ch.prev (linked.held c.height (omega arith)) ch.at_tip,
          )

      new_tip : (c' : Blockchain) → append_block b c ≡ some c' → tip c' ≡ some b
      new_tip c' appended =
          unfold tip in
          ground (arith, height-append b c c' appended, block_at-append b c c' c'.height appended)

  passes_checks-total :
      (now_ms : ℕ) (check : Bool) (b prev : Block) (c : Blockchain)
      → tip c ≡ some prev
      → passes_checks crypto now_ms check b c ≢ none
  unfolding passes_checks
  passes_checks-total now_ms check b prev c e h = ground arith

  -- The checks, and then the commit: the shape that both methods share.
  guarded-Extends :
      (apply : Transaction → Ledger → Result (Unit {0}) TaronError × Ledger) (now_ms : ℕ)
      (check : Bool) (b : Block) (c : Blockchain) (l : Ledger)
      → IsLinked c
      → c.height + 1 < u64_mod
      → (passes_checks crypto now_ms check b c ≡ some false)
        ⊎ ((passes_checks crypto now_ms check b c ≡ some true)
            × Extends b c (commit crypto apply b c l))
  unfolding tip
  guarded-Extends apply now_ms check b c l linked room =
      elim (Option-cases (passes_checks crypto now_ms check b c)) [
        | inl e ↦
            let (prev, at_tip, _) = linked.held c.height (omega arith) in
            absurd (passes_checks-total now_ms check b prev c at_tip e)
        | inr (false, e) ↦ inl e
        | inr (true, e) ↦ inr (
          e,
          commit-Extends apply now_ms check b c l linked room
              (passes_checks-Checked crypto now_ms check b c e),
        )
      ]

  -- On a linked chain below the largest index `apply_block` does not panic. If it fails, the chain
  -- is as it was. If it succeeds, the chain is linked again, the block is its tip one higher, and
  -- every block up to the old tip is in its place.
  pub apply_block-Extends :
      (now_ms : ℕ) (b : Block) (c : Blockchain) (l : Ledger)
      → IsLinked c
      → c.height + 1 < u64_mod
      → Extends b c (apply_block crypto now_ms b c l)
  unfolding apply_block
  apply_block-Extends now_ms b c l linked room =
      elim (guarded-Extends (apply_tx crypto) now_ms true b c l linked room) [
        | inl refused ↦ rw (apply_block, refused) refl
        | inr (passed, extends) ↦ rw (apply_block, passed) extends
      ]

  -- On a linked chain below the largest index `apply_block_ibd` does not panic. If it fails, the
  -- chain is as it was. If it succeeds, the chain is linked again, the block is its tip one higher,
  -- and every block up to the old tip is in its place.
  pub apply_block_ibd-Extends :
      (b : Block) (c : Blockchain) (l : Ledger)
      → IsLinked c
      → c.height + 1 < u64_mod
      → Extends b c (apply_block_ibd crypto b c l)
  unfolding apply_block_ibd
  apply_block_ibd-Extends b c l linked room =
      elim (guarded-Extends (apply_tx_ibd crypto) 0 false b c l linked room) [
        | inl refused ↦ rw (apply_block_ibd, refused) refl
        | inr (passed, extends) ↦ rw (apply_block_ibd, passed) extends
      ]

  -- What an accepted block was appended by.
  pub apply_block-appended :
      (now_ms : ℕ) (b : Block) (c c' : Blockchain) (l l' : Ledger)
      → IsLinked c
      → c.height + 1 < u64_mod
      → apply_block crypto now_ms b c l ≡ some (ok tt, c', l')
      → (append_block b c ≡ some c') × (b.index ≡ suc c.height) × IsLinked c'
  unfolding apply_block commit
  apply_block-appended now_ms b c c' l l' linked room h =
      let extends : Extends b c (some (ok tt, c', l')) =
        rw h at (apply_block-Extends now_ms b c l linked room) in
      let appended : append_block b c ≡ some c' = ground arith in
      (appended, omega (arith, height-append b c c' appended, extends.1), extends.0)

  pub apply_block-tip :
      (now_ms : ℕ) (b : Block) (c c' : Blockchain) (l l' : Ledger)
      → IsLinked c
      → c.height + 1 < u64_mod
      → apply_block crypto now_ms b c l ≡ some (ok tt, c', l')
      → tip c' ≡ some b
  apply_block-tip now_ms b c c' l l' linked room h =
      let extends : Extends b c (some (ok tt, c', l')) =
        rw h at (apply_block-Extends now_ms b c l linked room) in
      extends.2
