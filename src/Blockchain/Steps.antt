-- ===== src/Blockchain/Steps.antt =====
-- What every call of crates/taron-core/src/blockchain.rs that changes the chain does to a linked
-- chain, in the form in which a sequence of calls needs it.
use taron.Prelude.{
  ℕ, zero, suc, ◌+◌, ◌≤◌, ◌<◌, ◌≡◌, reverse, inl, inr, refl, false, Option, none, some, List, [],
  arith, ltb, leb, ◌==◌, Bool-cases,
}
use taron.Prelude.Words.{u64_mod}
use taron.Error.{ok, err, TaronError, invalid_block}
use taron.Wallet.{Crypto}
use taron.Ledger.{Ledger}
use taron.Block.{Block}
use taron.Blockchain.{Blockchain, Outcome, tip, checkpoint_anchor_at_or_below}
use taron.Blockchain.Blocks.{
  apply_block, apply_block_ibd, revert_tip, revert_loop, revert_to_height, reset_at_genesis,
}
use taron.Blockchain.Linked.{IsLinked, Extends, apply_block-Extends, apply_block_ibd-Extends}
use taron.Blockchain.Rewind.{revert_tip-lowers, revert_to_height-reaches, reset-IsLinked}

module _ (crypto : Crypto) where
  -- The chain is linked, and `k` more blocks have an index below 2 ^ 64.
  pub record Fits (k : ℕ) (c : Blockchain) : Type 0 where
    pub linked : IsLinked crypto c
    pub room : c.height + k < u64_mod

  -- A call returns, and the chain that it leaves has room for `k` blocks.
  pub data Leaves {A : Type 0} (k : ℕ) (o : Option (Outcome A)) : Type 0 where
    succeeds : (a : A) (c : Blockchain) (l : Ledger) → o ≡ some (ok a, c, l) → Fits k c → Leaves k o
    fails :
        (e : TaronError) (c : Blockchain) (l : Ledger)
        → o ≡ some (err e, c, l)
        → Fits k c
        → Leaves k o

  pub Fits-less : (k : ℕ) (c : Blockchain) → Fits (suc k) c → Fits k c
  Fits-less k c f = record { linked = f.linked; room = let r = f.room in omega arith }

  pub Fits-le : (j k : ℕ) (c : Blockchain) → k ≤ j → Fits j c → Fits k c
  Fits-le j k c le f = record { linked = f.linked; room = let r = f.room in omega arith }

  pub Fits-tip : (k : ℕ) (c : Blockchain) → Fits k c → (t : Block) × (tip c ≡ some t)
  unfolding tip
  Fits-tip k c f = let (t, found, _) = f.linked.held c.height (omega arith) in (t, found)

  Extends-Leaves :
      (k : ℕ) (b : Block) (c : Blockchain) (o : Option (Outcome (Unit {0})))
      → Fits (suc k) c
      → Extends crypto b c o
      → Leaves k o
  Extends-Leaves k b c none f e = absurd e
  Extends-Leaves k b c (some (err x, c', l')) f e = fails x c' l' refl (rw e (Fits-less k c f))
  Extends-Leaves k b c (some (ok u, c', l')) f e =
      succeeds u c' l' refl
        (record { linked = e.0; room = let r = f.room in let h = e.1 in omega arith })

  pub apply_block-Leaves :
      (k now_ms : ℕ) (b : Block) (c : Blockchain) (l : Ledger)
      → Fits (suc k) c
      → Leaves k (apply_block crypto now_ms b c l)
  apply_block-Leaves k now_ms b c l f =
      Extends-Leaves k b c (apply_block crypto now_ms b c l) f
        (apply_block-Extends crypto now_ms b c l f.linked (let r = f.room in omega arith))

  pub apply_block_ibd-Leaves :
      (k : ℕ) (b : Block) (c : Blockchain) (l : Ledger)
      → Fits (suc k) c
      → Leaves k (apply_block_ibd crypto b c l)
  apply_block_ibd-Leaves k b c l f =
      Extends-Leaves k b c (apply_block_ibd crypto b c l) f
        (apply_block_ibd-Extends crypto b c l f.linked (let r = f.room in omega arith))

  pub revert_tip-Leaves :
      (k : ℕ) (c : Blockchain) (l : Ledger) → Fits k c → Leaves k (revert_tip c l)
  unfolding revert_tip
  revert_tip-Leaves k c l f = elim (Bool-cases (c.height == 0)) [
    | inl bottom ↦ fails invalid_block c l (rw (revert_tip, bottom) refl) f
    | inr above ↦
        let (b, c', l', e, _, height, linked') =
          revert_tip-lowers crypto c l f.linked (ground arith) in
        succeeds b c' l' e (record { linked = linked'; room = let r = f.room in omega arith })
  ]

  revert_loop_above :
      (fuel target : ℕ) (reverted : List Block) (c : Blockchain) (l : Ledger)
      → c.height ≤ target
      → revert_loop fuel target reverted c l ≡ some (ok (reverse reverted), c, l)
  unfolding revert_loop
  revert_loop_above zero target reverted c l above = refl
  revert_loop_above (suc fuel) target reverted c l above =
      let stop : ltb target c.height ≡ false = ground arith in rw (revert_loop, stop) refl

  reset-Fits : (k : ℕ) (c : Blockchain) → Fits k c → Fits k (reset_at_genesis c)
  reset-Fits k c f = record {
    linked = reset-IsLinked crypto c f.linked;
    room = let r = f.room in ground arith;
  }

  pub revert_to_height-Leaves :
      (k target : ℕ) (c : Blockchain) (l : Ledger)
      → Fits k c
      → Leaves k (revert_to_height target c l)
  unfolding revert_to_height
  revert_to_height-Leaves k target c l f = elim (Bool-cases (leb target c.height)) [
    | inl below ↦ elim (revert_to_height-reaches crypto target c l f.linked (ground arith)) [
      | inl (_, e) ↦ fails invalid_block c l e f
      | inr (_, (blocks, c', l', e, height, linked', _)) ↦
          succeeds blocks c' l' e
            (record { linked = linked'; room = let r = f.room in ground arith })
    ]
    | inr above ↦ elim (Bool-cases (ltb target (checkpoint_anchor_at_or_below c.height))) [
      | inl refused ↦ fails invalid_block c l (rw (revert_to_height, refused) refl) f
      | inr allowed ↦
          succeeds [] (reset_at_genesis c) l
            (rw (revert_to_height, allowed, revert_loop_above c.height target [] c l (ground arith))
              refl)
            (reset-Fits k c f)
    ]
  ]
