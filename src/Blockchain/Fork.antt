-- ===== src/Blockchain/Fork.antt =====
-- `find_fork_point` of crates/taron-core/src/blockchain.rs: the height from which a reorganisation
-- replays the incoming blocks.
use taron.Prelude.{
  ℕ, zero, suc, ◌-◌, ◌≡◌, ◌⊎◌, inl, inr, refl, Bool, true, false, Option, none, some, List, [], ◌∷◌,
  arith, length, get_elem?, ◌==◌, if◌then◌else◌, ite, Option-cases, Bool-cases,
}
use taron.Prelude.Words.{Bytes, saturating_sub}
use taron.Prelude.Text.{bytes_dec}
use taron.Block.{Block}
use taron.Blockchain.{Blockchain, block_at}

-- Our block at a height has this hash.
unfoldable pub has_hash : Blockchain → ℕ → Bytes → Bool
has_hash c height hash = elim (block_at c height) [
  | none ↦ false
  | some b ↦ ite (bytes_dec b.hash hash) true false
]

-- The fast path: the first incoming block whose parent we have.
unfoldable pub direct_parent : Blockchain → List Block → Option ℕ
direct_parent c [] = none
direct_parent c (b ∷ bs) =
    let rest = direct_parent c bs in
    if b.index == 0
    then some 0
    else if has_hash c (b.index - 1) b.prev_hash
    then some (b.index - 1)
    else rest

-- `incoming.iter().find(..)`
unfoldable pub find_index : ℕ → List Block → Option Block
find_index index [] = none
find_index index (b ∷ bs) = if b.index == index then some b else find_index index bs

-- The slow path, in as many rounds as there are incoming blocks.
unfoldable pub probe : ℕ → Blockchain → List Block → ℕ → Bytes → Option ℕ
probe zero c incoming probe_height probe_hash = none
probe (suc n) c incoming probe_height probe_hash =
    if has_hash c probe_height probe_hash
    then some probe_height
    else if probe_height == 0
    then none
    else elim (find_index probe_height incoming) [
      | none ↦ none
      | some b ↦ probe n c incoming (saturating_sub probe_height 1) b.prev_hash
    ]

unfoldable pub find_fork_point : Blockchain → List Block → Option ℕ
find_fork_point c [] = none
find_fork_point c (b ∷ bs) = elim (direct_parent c (b ∷ bs)) [
  | some height ↦ some height
  | none ↦ probe (length (b ∷ bs)) c (b ∷ bs) (saturating_sub b.index 1) b.prev_hash
]

has_hash-block :
    (c : Blockchain) (height : ℕ) (hash : Bytes)
    → has_hash c height hash ≡ true
    → (b : Block) × (block_at c height ≡ some b) × (b.hash ≡ hash)
unfolding has_hash
has_hash-block c height hash h = elim (Option-cases (block_at c height)) [
  | inl absent ↦ absurd (ground (arith, absent))
  | inr (b, found) ↦ (b, found, ground (arith, found))
]

-- An incoming block names the block that we have at this height as its parent, or is a genesis block.
abbrev pub Parent : Blockchain → List Block → ℕ → Type 0
Parent c incoming height =
    (i : ℕ) × (b : Block) × (get_elem? incoming i ≡ some b)
    × (b.index - 1 ≡ height)
    × ((b.index ≡ 0)
        ⊎ ((ours : Block) × (block_at c height ≡ some ours) × (ours.hash ≡ b.prev_hash)))

direct_parent-Parent :
    (c : Blockchain) (incoming : List Block) (height : ℕ)
    → direct_parent c incoming ≡ some height
    → Parent c incoming height
unfolding direct_parent
direct_parent-Parent c [] height h = absurd (ground arith)
direct_parent-Parent c (b ∷ bs) height h = elim (Bool-cases (b.index == 0)) [
  | inl first ↦ (0, b, refl, ground arith, inl (ground arith))
  | inr later ↦ elim (Bool-cases (has_hash c (b.index - 1) b.prev_hash)) [
    | inl ours ↦
        let at : b.index - 1 ≡ height = ground arith in
        (0, b, refl, at, inr (has_hash-block c height b.prev_hash (rw at at ours)))
    | inr other ↦
        let (i, b', found, at, why) = direct_parent-Parent c bs height (ground arith) in
        (suc i, b', found, at, why)
  ]
]

find_index-get_elem? :
    (index : ℕ) (bs : List Block) (b : Block)
    → find_index index bs ≡ some b
    → (i : ℕ) × (get_elem? bs i ≡ some b) × (b.index ≡ index)
unfolding find_index
find_index-get_elem? index [] b h = absurd (ground arith)
find_index-get_elem? index (a ∷ bs) b h = elim (Bool-cases (a.index == index)) [
  | inl same ↦ (0, ground arith, ground arith)
  | inr other ↦
      let (i, found, at) = find_index-get_elem? index bs b (ground arith) in (suc i, found, at)
]

probe-Parent :
    (n : ℕ) (c : Blockchain) (incoming : List Block) (i : ℕ) (b : Block) (height : ℕ)
    → get_elem? incoming i ≡ some b
    → probe n c incoming (saturating_sub b.index 1) b.prev_hash ≡ some height
    → Parent c incoming height
unfolding probe
probe-Parent zero c incoming i b height member h = absurd (ground arith)
probe-Parent (suc n) c incoming i b height member h =
    elim (Bool-cases (has_hash c (b.index - 1) b.prev_hash)) [
      | inl ours ↦
          let at : b.index - 1 ≡ height = ground arith in
          (i, b, member, at, inr (has_hash-block c height b.prev_hash (rw at at ours)))
      | inr other ↦ elim (Bool-cases (b.index - 1 == 0)) [
        | inl bottom ↦ absurd (ground arith)
        | inr above ↦ elim (Option-cases (find_index (b.index - 1) incoming)) [
          | inl missing ↦ absurd (ground (arith, missing))
          | inr (b', found) ↦
              let (i', member', at) = find_index-get_elem? (b.index - 1) incoming b' found in
              probe-Parent n c incoming i' b' height member' (ground (arith, found, at))
        ]
      ]
    ]

-- The fork point that is found is the height below one of the incoming blocks (0 for a genesis block),
-- and that block names the block which the chain has at this height as its parent, unless it is a
-- genesis block.
pub find_fork_point-Parent :
    (c : Blockchain) (incoming : List Block) (height : ℕ)
    → find_fork_point c incoming ≡ some height
    → Parent c incoming height
unfolding find_fork_point
find_fork_point-Parent c [] height h = absurd (ground arith)
find_fork_point-Parent c (b ∷ bs) height h = elim (Option-cases (direct_parent c (b ∷ bs))) [
  | inr (k, e) ↦ direct_parent-Parent c (b ∷ bs) height (ground (arith, e))
  | inl e ↦ probe-Parent (length (b ∷ bs)) c (b ∷ bs) 0 b height refl (ground (arith, e))
]
