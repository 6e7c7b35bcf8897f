-- ===== src/Prelude/Dict.antt =====
-- Rust's `HashMap` as an association list, over keys whose equality is decided by `dec`.
-- The laws of `lookup` have the form of a conditional, so they need no side condition.
use Prim.Native.Nat.{ℕ, suc, ◌+◌, ◌≤◌}
use mathlib.Core.Path.{◌≡◌, refl}
use mathlib.Core.Logic.{ite, ◌≢◌}
use mathlib.Core.List.{List, [], ◌∷◌}
use mathlib.Core.Option.{Option, none, some}
use native.Mathlib.Omega.{arith}
use taron.Prelude.Lists.{length}

abbrev pub Dict {ℓ} : Type ℓ → Type ℓ → Type ℓ
Dict K V = List (K × V)

-- `HashMap::keys`
abbrev pub keys {ℓ} : {K V : Type ℓ} → Dict K V → List K
keys [] = []
keys ((k, _) ∷ d) = k ∷ keys d

-- The sum of a measure of the values.
abbrev pub sum {ℓ} : {K V : Type ℓ} → (V → ℕ) → Dict K V → ℕ
sum f [] = 0
sum f ((_, v) ∷ d) = f v + sum f d

module _ {ℓ} {K V : Type ℓ} (dec : Discrete K) where
  -- `get`
  unfoldable pub lookup : K → Dict K V → Option V
  lookup k [] = none
  lookup k ((j, v) ∷ d) = ite (dec j k) (some v) (lookup k d)

  -- `insert`
  unfoldable pub insert : K → V → Dict K V → Dict K V
  insert k v [] = (k, v) ∷ []
  insert k v ((j, w) ∷ d) = ite (dec j k) ((k, v) ∷ d) ((j, w) ∷ insert k v d)

  -- `remove`
  unfoldable pub erase : K → Dict K V → Dict K V
  erase k [] = []
  erase k ((j, w) ∷ d) = ite (dec j k) (erase k d) ((j, w) ∷ erase k d)

  pub lookup-insert :
      (j k : K) (v : V) (d : Dict K V)
      → lookup j (insert k v d) ≡ ite (dec k j) (some v) (lookup j d)
  unfolding lookup insert
  lookup-insert j k v [] = refl
  lookup-insert j k v (e ∷ d) = ground (arith, lookup-insert j k v d)

  pub lookup-insert_self : (k : K) (v : V) (d : Dict K V) → lookup k (insert k v d) ≡ some v
  lookup-insert_self k v d = ground (arith, lookup-insert k k v d)

  pub lookup-insert_ne :
      (j k : K) (v : V) (d : Dict K V) → j ≢ k → lookup j (insert k v d) ≡ lookup j d
  lookup-insert_ne j k v d h = ground (arith, lookup-insert j k v d)

  pub lookup-erase :
      (j k : K) (d : Dict K V) → lookup j (erase k d) ≡ ite (dec k j) none (lookup j d)
  unfolding lookup erase
  lookup-erase j k [] = ground arith
  lookup-erase j k (e ∷ d) = ground (arith, lookup-erase j k d)

  -- A write to a key that is there changes the sum by the difference.
  pub sum-insert :
      (f : V → ℕ) (k : K) (v old : V) (d : Dict K V)
      → lookup k d ≡ some old
      → sum f (insert k v d) + f old ≡ sum f d + f v
  unfolding lookup insert
  sum-insert f k v old [] e = cc
  sum-insert f k v old (x ∷ d) e = ground (arith, sum-insert f k v old d)

  pub sum-insert_new :
      (f : V → ℕ) (k : K) (v : V) (d : Dict K V)
      → lookup k d ≡ none
      → sum f (insert k v d) ≡ sum f d + f v
  unfolding lookup insert
  sum-insert_new f k v [] e = omega arith
  sum-insert_new f k v (x ∷ d) e = ground (arith, sum-insert_new f k v d)

  pub lookup-le-sum :
      (f : V → ℕ) (k : K) (v : V) (d : Dict K V) → lookup k d ≡ some v → f v ≤ sum f d
  unfolding lookup
  lookup-le-sum f k v [] e = cc
  lookup-le-sum f k v (x ∷ d) e = ground (arith, lookup-le-sum f k v d)

  -- No key is listed twice.
  abbrev pub IsUnique : Dict K V → Type ℓ
  IsUnique [] = Unit
  IsUnique ((k, v) ∷ d) = (lookup k d ≡ none) × IsUnique d

  pub insert-IsUnique : (k : K) (v : V) (d : Dict K V) → IsUnique d → IsUnique (insert k v d)
  unfolding lookup insert
  insert-IsUnique k v [] u = (refl, tt)
  insert-IsUnique k v (x ∷ d) u = ground (arith, insert-IsUnique k v d u.1, lookup-insert x.0 k v d)

  pub erase-IsUnique : (k : K) (d : Dict K V) → IsUnique d → IsUnique (erase k d)
  unfolding lookup erase
  erase-IsUnique k [] u = tt
  erase-IsUnique k (x ∷ d) u = ground (arith, erase-IsUnique k d u.1, lookup-erase x.0 k d)

  pub length-insert_new :
      (k : K) (v : V) (d : Dict K V) → lookup k d ≡ none → length (insert k v d) ≡ suc (length d)
  unfolding lookup insert
  length-insert_new k v [] e = refl
  length-insert_new k v (x ∷ d) e = ground (arith, length-insert_new k v d)

  pub sum-erase-none :
      (f : V → ℕ) (k : K) (d : Dict K V) → lookup k d ≡ none → sum f (erase k d) ≡ sum f d
  unfolding lookup erase
  sum-erase-none f k [] e = refl
  sum-erase-none f k (x ∷ d) e = ground (arith, sum-erase-none f k d)

  -- A removal takes the value out of the sum.
  pub sum-erase :
      (f : V → ℕ) (k : K) (old : V) (d : Dict K V)
      → IsUnique d
      → lookup k d ≡ some old
      → sum f (erase k d) + f old ≡ sum f d
  unfolding lookup erase
  sum-erase f k old [] u e = absurd (cc)
  sum-erase f k old ((j, w) ∷ d) u e = elim (dec j k) [
    | yes same ↦ ground (arith, sum-erase-none f k d)
    | no other ↦ ground (arith, sum-erase f k old d u.1)
  ]
