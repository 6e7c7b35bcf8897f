-- ===== src/Finality/Sequences.antt =====
-- `SeenSequences` of crates/taron-core/src/finality.rs: the first transaction that was seen for a
-- sender and a sequence number. The key of its map is a pair, decided by its parts.
use taron.Prelude.{
  ℕ, ◌≤◌, ◌≡◌, ◌≢◌, ◌⊎◌, refl, ap, Bool, true, false, Option, none, some, [], ◌∷◌, arith, ltb, leb,
  if◌then◌else◌, is_some, ite, ℕ_discrete, inl, inr, Option-cases,
}
use taron.Prelude.Words.{Bytes}
use taron.Prelude.Text.{bytes_dec}
use taron.Prelude.Dict.{Dict, lookup, insert, erase, lookup-insert, lookup-erase}

abbrev pub Key : Type 0
Key = Bytes × ℕ

pair_dec : {a b : Bytes} {m n : ℕ} → Dec (a ≡ b) → Dec (m ≡ n) → Dec (◌≡◌ {A = Key} (a, m) (b, n))
pair_dec (yes p) (yes q) = yes (rw (p, q) refl)
pair_dec (no p) d = no (λ e. p (ap (λ k. k.0) e))
pair_dec (yes p) (no q) = no (λ e. q (ap (λ k. k.1) e))

unfoldable pub key_dec : Discrete Key
unfolding pair_dec
key_dec (a, m) (b, n) = pair_dec (bytes_dec a b) (ℕ_discrete m n)

pub record SeenSequences : Type 0 where
  pub seen : Dict Bytes ℕ
  pub pending : Dict Key Bytes

unfoldable pub no_sequences : SeenSequences
no_sequences = record { seen = []; pending = [] }

unfoldable pub check_double_spend : Bytes → ℕ → SeenSequences → Option Bytes
check_double_spend sender sequence s = lookup key_dec (sender, sequence) s.pending

-- `highest_sequence`
unfoldable pub highest_sequence : Bytes → SeenSequences → ℕ
highest_sequence sender s = elim (lookup bytes_dec sender s.seen) [ none ↦ 0 | some n ↦ n ]

-- `record`
unfoldable pub record_sequence : Bytes → ℕ → Bytes → SeenSequences → Bool × SeenSequences
record_sequence sender sequence tx_hash s =
    if is_some (lookup key_dec (sender, sequence) s.pending)
    then (false, s)
    else (let highest = highest_sequence sender s in
        (
          true,
          record {
            seen =
                insert bytes_dec sender (if ltb highest sequence then sequence else highest) s.seen;
            pending = insert key_dec (sender, sequence) tx_hash s.pending;
          },
        ))

unfoldable pub confirm : Bytes → ℕ → SeenSequences → SeenSequences
confirm sender sequence s = record s { pending = erase key_dec (sender, sequence) s.pending }

-- `retain`, with the condition of `clear_below`
unfoldable pub retain_from : Bytes → ℕ → Dict Key Bytes → Dict Key Bytes
retain_from sender min_sequence [] = []
retain_from sender min_sequence (((a, n), h) ∷ d) =
    let rest = retain_from sender min_sequence d in
    ite (bytes_dec a sender) (if leb min_sequence n then ((a, n), h) ∷ rest else rest)
      (((a, n), h) ∷ rest)

unfoldable pub clear_below : Bytes → ℕ → SeenSequences → SeenSequences
clear_below sender min_sequence s = record s { pending = retain_from sender min_sequence s.pending }

-- What a key keeps under `clear_below`.
lookup-retain_from :
    (sender a : Bytes) (min_sequence n : ℕ) (h : Bytes) (d : Dict Key Bytes)
    → (sender ≢ a) ⊎ (min_sequence ≤ n)
    → lookup key_dec (a, n) d ≡ some h
    → lookup key_dec (a, n) (retain_from sender min_sequence d) ≡ some h
unfolding lookup retain_from
lookup-retain_from sender a min_sequence n h [] spared e = absurd (cc)
lookup-retain_from sender a min_sequence n h (((b, m), g) ∷ d) spared e =
    elim (key_dec (b, m) (a, n)) [
      | yes same ↦ ground (arith, same)
      | no other ↦ ground (arith, lookup-retain_from sender a min_sequence n h d spared)
    ]

-- The calls that leave the number `n` of the sender `a` waiting: whatever is recorded, confirmed for
-- another key, and cleared for another sender, or for `a` up to `n`.
pub data Step (a : Bytes) (n : ℕ) (s : SeenSequences) : SeenSequences → Type 0 where
  seeing :
      (sender : Bytes) (sequence : ℕ) (tx_hash : Bytes)
      → Step a n s (record_sequence sender sequence tx_hash s).1
  confirming :
      (sender : Bytes) (sequence : ℕ) (other : ◌≢◌ {A = Key} (sender, sequence) (a, n))
      → Step a n s (confirm sender sequence s)
  clearing :
      (sender : Bytes) (min_sequence : ℕ) (spared : (sender ≢ a) ⊎ (min_sequence ≤ n))
      → Step a n s (clear_below sender min_sequence s)

pub data Reach (a : Bytes) (n : ℕ) (s : SeenSequences) : SeenSequences → Type 0 where
  here : Reach a n s s
  next : {s₁ s₂ : SeenSequences} → Reach a n s s₁ → Step a n s₁ s₂ → Reach a n s s₂

Step-check_double_spend :
    (a : Bytes) (n : ℕ) (h : Bytes) (s s' : SeenSequences)
    → Step a n s s'
    → check_double_spend a n s ≡ some h
    → check_double_spend a n s' ≡ some h
unfolding check_double_spend record_sequence confirm clear_below
Step-check_double_spend a n h s s' (seeing sender sequence tx_hash) e =
    elim (Option-cases (lookup key_dec (sender, sequence) s.pending)) [
      | inr (g, known) ↦ rw (known) e
      | inl new ↦
          rw (new)
            (ground (arith, new, lookup-insert key_dec (a, n) (sender, sequence) tx_hash s.pending))
    ]
Step-check_double_spend a n h s s' (confirming sender sequence other) e =
    ground (arith, other, lookup-erase key_dec (a, n) (sender, sequence) s.pending)
Step-check_double_spend a n h s s' (clearing sender min_sequence spared) e =
    lookup-retain_from sender a min_sequence n h s.pending spared e

Reach-check_double_spend :
    (a : Bytes) (n : ℕ) (h : Bytes) (s s' : SeenSequences)
    → check_double_spend a n s ≡ some h
    → Reach a n s s'
    → check_double_spend a n s' ≡ some h
Reach-check_double_spend a n h s s' e here = e
Reach-check_double_spend a n h s s' e (next {s₁ = s₁} r step) =
    Step-check_double_spend a n h s₁ s' step (Reach-check_double_spend a n h s s₁ e r)

record_sequence-new :
    (a : Bytes) (n : ℕ) (h : Bytes) (s : SeenSequences)
    → (record_sequence a n h s).0 ≡ true
    → check_double_spend a n (record_sequence a n h s).1 ≡ some h
unfolding record_sequence check_double_spend
record_sequence-new a n h s new = elim (Option-cases (lookup key_dec (a, n) s.pending)) [
  | inr (g, known) ↦ absurd (ground (arith, known))
  | inl absent ↦ rw (absent) (ground (arith, lookup-insert key_dec (a, n) (a, n) h s.pending))
]

record_sequence-known :
    (a : Bytes) (n : ℕ) (h h' : Bytes) (s : SeenSequences)
    → check_double_spend a n s ≡ some h
    → record_sequence a n h' s ≡ (false, s)
unfolding record_sequence check_double_spend
record_sequence-known a n h h' s e = rw (e) refl

-- The first transaction wins: once `record` has accepted a transaction for a sender and a number,
-- every later one for the two is refused, and `check_double_spend` returns the first, whatever is
-- recorded in between, confirmed for another sender or number, and cleared for another sender or
-- below a number that is not above this one.
pub record_sequence_first_wins :
    (a : Bytes) (n : ℕ) (h h' : Bytes) (s s' : SeenSequences)
    → (record_sequence a n h s).0 ≡ true
    → Reach a n (record_sequence a n h s).1 s'
    → (check_double_spend a n s' ≡ some h) × (record_sequence a n h' s' ≡ (false, s'))
record_sequence_first_wins a n h h' s s' new r =
    let first =
      Reach-check_double_spend a n h (record_sequence a n h s).1 s'
        (record_sequence-new a n h s new) r in
    (first, record_sequence-known a n h h' s' first)
