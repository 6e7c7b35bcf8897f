-- ===== src/Pool/Server/Submitter.antt =====
-- `block_submitter_task` of crates/taron-pool/src/main.rs: the queue of the blocks that miners have
-- found, and what is posted to the node. The answer of the node is a parameter.
pub mod Drained
use taron.Prelude.{
  ℕ, ◌+◌, ◌<◌, ◌≤◌, ◌≡◌, refl, Bool, true, false, Option, none, some, List, [], ◌∷◌, ◌++◌, arith,
  length, ◌%◌, ltb, leb, if◌then◌else◌, inl, inr, Bool-cases,
}
use taron.Prelude.Words.{u64_mod, add64}
use taron.Transaction.{Transaction}
use taron.Block.{Block}
use taron.Pool.Server.{FoundBlock, final_block}

pub record Submitter : Type 0 where
  pub last_submitted_index : ℕ
  pub blocks_found : ℕ
  pub queue : List FoundBlock

-- The loop over the stale entries: the first block of a greater height goes to the end of the queue.
unfoldable pub drain : ℕ → List FoundBlock → List FoundBlock
drain block_index [] = []
drain block_index (stale ∷ queue) =
    if ltb block_index stale.candidate.index then queue ++ (stale ∷ []) else drain block_index queue

-- After the node has accepted a block.
unfoldable pub note_submitted : ℕ → List FoundBlock → Submitter → Submitter
note_submitted block_index queue s = record {
  last_submitted_index = block_index;
  blocks_found = add64 s.blocks_found 1;
  queue = drain block_index queue;
}

-- One round of the loop: the block that the node has accepted, if any.
unfoldable pub take_found :
    (Block → Bool)
    → List Transaction
    → List Transaction
    → List FoundBlock
    → Submitter
    → Option Block × Submitter
take_found accepts payouts pending [] s = (none, s)
take_found accepts payouts pending (f ∷ queue) s =
    if leb f.candidate.index s.last_submitted_index
    then (none, record s { queue = queue })
    else if accepts (final_block f payouts pending)
    then (some (final_block f payouts pending), note_submitted f.candidate.index queue s)
    else (none, record s { queue = queue })

abbrev pub submitter_turn :
    (Block → Bool) → List Transaction → List Transaction → Submitter → Option Block × Submitter
submitter_turn accepts payouts pending s = take_found accepts payouts pending s.queue s

-- A share that is a block comes into the queue, or the task has a turn.
pub data Event : Type 0 where
  block_found : FoundBlock → Event
  turn : (accepts : Block → Bool) (payouts pending : List Transaction) → Event

unfoldable pub submitter_step : Event → Submitter → Option Block × Submitter
submitter_step (block_found f) s = (none, record s { queue = s.queue ++ (f ∷ []) })
submitter_step (turn accepts payouts pending) s = submitter_turn accepts payouts pending s

abbrev pub with_block : Option Block → List Block → List Block
with_block none blocks = blocks
with_block (some b) blocks = b ∷ blocks

-- The blocks that the node accepts over a sequence of events, and the task at its end.
unfoldable pub submitted : List Event → Submitter → List Block × Submitter
submitted [] s = ([], s)
submitted (e ∷ events) s =
    let (block, s') = submitter_step e s in
    let (blocks, end) = submitted events s' in (with_block block blocks, end)

-- The heights of the blocks rise, from above `n`.
abbrev pub IsRising : ℕ → List Block → Type 0
IsRising n [] = Unit {0}
IsRising n (b ∷ blocks) = (n < b.index) × IsRising b.index blocks

-- What one step does: nothing is submitted, or a block above the last one, which then is the last.
data Submits (s : Submitter) : Option Block × Submitter → Type 0 where
  idle :
      {s' : Submitter}
      → s'.last_submitted_index ≡ s.last_submitted_index
      → s'.blocks_found ≡ s.blocks_found
      → Submits s (none, s')
  submits :
      {s' : Submitter} {b : Block}
      → s.last_submitted_index < b.index
      → s'.last_submitted_index ≡ b.index
      → s'.blocks_found ≡ add64 s.blocks_found 1
      → Submits s (some b, s')

take_found-Submits :
    (accepts : Block → Bool) (payouts pending : List Transaction) (queue : List FoundBlock)
    (s : Submitter)
    → Submits s (take_found accepts payouts pending queue s)
unfolding take_found note_submitted final_block
take_found-Submits accepts payouts pending [] s = idle refl refl
take_found-Submits accepts payouts pending (f ∷ queue) s =
    elim (Bool-cases (leb f.candidate.index s.last_submitted_index)) [
      | inl old ↦ simp old (idle refl refl)
      | inr higher ↦ elim (Bool-cases (accepts (final_block f payouts pending))) [
        | inl good ↦ simp (higher, good) (submits (ground arith) refl refl)
        | inr bad ↦ simp (higher, bad) (idle refl refl)
      ]
    ]

submitter_step-Submits : (e : Event) (s : Submitter) → Submits s (submitter_step e s)
unfolding submitter_step
submitter_step-Submits (block_found f) s = idle refl refl
submitter_step-Submits (turn accepts payouts pending) s =
    take_found-Submits accepts payouts pending s.queue s

Submits-word :
    (s : Submitter) (p : Option Block × Submitter)
    → Submits s p
    → s.blocks_found < u64_mod
    → p.1.blocks_found < u64_mod
Submits-word s p (idle last count) word = omega (arith, count)
Submits-word s p (submits above last count) word = omega (arith, count)

Submits-IsRising :
    (s : Submitter) (p : Option Block × Submitter) (blocks : List Block) (total : ℕ)
    → Submits s p
    → IsRising p.1.last_submitted_index blocks
      × (total ≡ (p.1.blocks_found + length blocks) % u64_mod)
    → IsRising s.last_submitted_index (with_block p.0 blocks)
      × (total ≡ (s.blocks_found + length (with_block p.0 blocks)) % u64_mod)
Submits-IsRising s p blocks total (idle last count) (rising, sum) =
    (rw last at rising, rw count at sum)
Submits-IsRising s p blocks total (submits above last count) (rising, sum) =
    ((above, rw last at rising), omega (arith, count, sum))

-- The node accepts at most one block of each height from the pool, in rising order and above the last
-- one before, whatever is found in between and whatever the node answers; and each of them is counted
-- once, modulo 2 ^ 64.
pub submitted-IsRising :
    (events : List Event) (s : Submitter)
    → s.blocks_found < u64_mod
    → IsRising s.last_submitted_index (submitted events s).0
      × ((submitted events s).1.blocks_found
          ≡ (s.blocks_found + length (submitted events s).0) % u64_mod)
unfolding submitted
submitted-IsRising [] s word = (tt, omega arith)
submitted-IsRising (e ∷ events) s word =
    let step = submitter_step-Submits e s in
    let (_, s') = submitter_step e s in
    Submits-IsRising s (submitter_step e s) (submitted events s').0
      (submitted events s').1.blocks_found step
      (submitted-IsRising events s' (Submits-word s (submitter_step e s) step word))
