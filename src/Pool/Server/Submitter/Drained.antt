-- ===== src/Pool/Server/Submitter/Drained.antt =====
-- The queue of `block_submitter_task` in crates/taron-pool/src/main.rs when the node accepts what is
-- posted: how soon it is empty, and the height that is reached.
use taron.Prelude.{
  ℕ, zero, suc, ◌≤◌, ◌≡◌, refl, ◌∙◌, true, List, [], ◌∷◌, ◌++◌, arith, length, length-append,
  List-cases, ltb, if◌then◌else◌, inl, inr,
}
use taron.Transaction.{Transaction}
use taron.Pool.Server.{FoundBlock}
use taron.Pool.Server.Submitter.{Submitter, drain, note_submitted, take_found, submitter_turn}

abbrev pub higher_of : ℕ → ℕ → ℕ
higher_of a b = if ltb a b then b else a

-- The greatest height in the queue, or `n` if that is greater.
abbrev pub peak : List FoundBlock → ℕ → ℕ
peak [] n = n
peak (f ∷ queue) n = higher_of f.candidate.index (peak queue n)

peak-from : (queue : List FoundBlock) (n k : ℕ) → n ≤ k → peak queue k ≡ higher_of k (peak queue n)
peak-from [] n k h = ground arith
peak-from (f ∷ queue) n k h = ground (arith, peak-from queue n k h)

peak-append :
    (queue : List FoundBlock) (f : FoundBlock) (n : ℕ)
    → peak (queue ++ (f ∷ [])) n ≡ higher_of f.candidate.index (peak queue n)
peak-append [] f n = refl
peak-append (g ∷ queue) f n = ground (arith, peak-append queue f n)

peak-drain :
    (k : ℕ) (queue : List FoundBlock)
    → (peak (drain k queue) k ≡ peak queue k) × (length (drain k queue) ≤ length queue)
unfolding drain
peak-drain k [] = (refl, omega arith)
peak-drain k (f ∷ queue) = ground (
  arith,
  peak-drain k queue,
  peak-append queue f k,
  length-append queue (f ∷ []),
  peak-from queue k k,
)

-- A turn with a node that accepts.
take_found-peak :
    (payouts pending : List Transaction) (queue : List FoundBlock) (f : FoundBlock) (s : Submitter)
    → let s' = (take_found (λ b. true) payouts pending (f ∷ queue) s).1 in
      (peak s'.queue s'.last_submitted_index ≡ peak (f ∷ queue) s.last_submitted_index)
      × (length s'.queue ≤ length queue)
unfolding take_found note_submitted
take_found-peak payouts pending queue f s = ground (
  arith,
  peak-drain f.candidate.index queue,
  peak-from queue s.last_submitted_index f.candidate.index,
  peak-from queue s.last_submitted_index s.last_submitted_index,
)

-- Turns with a node that accepts every block.
abbrev pub turns : List Transaction → List Transaction → ℕ → Submitter → Submitter
turns payouts pending zero s = s
turns payouts pending (suc n) s =
    turns payouts pending n (submitter_turn (λ b. true) payouts pending s).1

turns-idle :
    (payouts pending : List Transaction) (n : ℕ) (s : Submitter)
    → s.queue ≡ []
    → turns payouts pending n s ≡ s
unfolding take_found
turns-idle payouts pending zero s empty = refl
turns-idle payouts pending (suc n) s empty = simp (empty, turns-idle payouts pending n s empty) refl

-- If the node accepts what is posted, then after as many turns as there are blocks in the queue the
-- queue is empty, and the last height submitted is the greatest of the heights in the queue and of the
-- one submitted before.
pub turns-drain :
    (payouts pending : List Transaction) (n : ℕ) (s : Submitter)
    → length s.queue ≤ n
    → let s' = turns payouts pending n s in
      (s'.queue ≡ []) × (s'.last_submitted_index ≡ peak s.queue s.last_submitted_index)
unfolding take_found note_submitted
turns-drain payouts pending zero s enough = elim (List-cases s.queue) [
  | inl empty ↦ (empty, ground (arith, empty))
  | inr (f, queue, more) ↦ absurd (ground (arith, more))
]
turns-drain payouts pending (suc n) s enough = elim (List-cases s.queue) [
  | inl empty ↦ rw (turns-idle payouts pending (suc n) s empty) (empty, ground (arith, empty))
  | inr (f, queue, more) ↦
      let (kept, shorter) = take_found-peak payouts pending queue f s in
      let s' = (take_found (λ b. true) payouts pending (f ∷ queue) s).1 in
      let (queue', last') = turns-drain payouts pending n s' (ground (arith, more)) in
      rw more (queue', last' ∙ kept)
]
