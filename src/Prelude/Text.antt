-- ===== src/Prelude/Text.antt =====
-- Byte strings: `[u8; 32]`, `Vec<u8>` and `String` (as its bytes) are lists of numbers, and their
-- equality is decided.
use Prim.Native.Nat.{ℕ}
use Prim.Native.Char.{code}
use Prim.Native.String.{String}
use mathlib.Core.Path.{◌≡◌, refl, ap₂}
use mathlib.Core.List.{List, [], ◌∷◌}
use mathlib.Core.Bool.{Bool, true, false}
use mathlib.Core.Logic.{ite}
use native.Mathlib.Omega.{arith}
use native.Mathlib.Decide.{ℕ_discrete}
use taron.Prelude.Tests.{ltb, if◌then◌else◌}
use taron.Prelude.Words.{Bytes}

-- The codes of the characters of a text: its bytes, where all of them are ASCII.
abbrev pub codes : String → Bytes
codes String.[] = []
codes (String.◌∷◌ c s) = code c ∷ codes s

cons_dec :
    {a b : ℕ} {xs ys : List ℕ}
    → Dec (a ≡ b)
    → Dec (xs ≡ ys)
    → Dec (◌≡◌ {A = List ℕ} (a ∷ xs) (b ∷ ys))
cons_dec (yes p) (yes q) = yes (ap₂ ◌∷◌ p q)
cons_dec (yes p) (no q) = no (λ e. q (ground arith))
cons_dec (no p) d = no (λ e. p (ground arith))

unfoldable pub bytes_dec : Discrete (List ℕ)
unfolding cons_dec ℕ_discrete
bytes_dec [] [] = yes refl
bytes_dec [] (b ∷ ys) = no (λ e. cc)
bytes_dec (a ∷ xs) [] = no (λ e. cc)
bytes_dec (a ∷ xs) (b ∷ ys) = cons_dec (ℕ_discrete a b) (bytes_dec xs ys)

-- `==` on byte strings
abbrev pub eq_bytes : Bytes → Bytes → Bool
eq_bytes a b = ite (bytes_dec a b) true false

-- `<` on byte strings, the order of the first byte that differs
abbrev pub lt_bytes : Bytes → Bytes → Bool
lt_bytes _ [] = false
lt_bytes [] (b ∷ ys) = true
lt_bytes (a ∷ xs) (b ∷ ys) =
    let rest = lt_bytes xs ys in if ltb a b then true else if ltb b a then false else rest
