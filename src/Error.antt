-- ===== src/Error.antt =====
-- `Result` and the errors of crates/taron-core/src/error.rs. A message is its bytes.
use taron.Prelude.{ℕ, ◌≡◌, refl, ◌⊎◌, inl, inr}
use taron.Prelude.Words.{Bytes}

-- Rust's `Result`
pub data Result (A E : Type 0) : Type 0 where
  ok : A → Result A E
  err : E → Result A E

-- `is_ok`
abbrev pub IsOk : {A E : Type 0} → Result A E → Type 0
IsOk (ok a) = Unit
IsOk (err e) = ⊥

pub data TaronError : Type 0 where
  invalid_signature invalid_posc invalid_timestamp invalid_block : TaronError
  insufficient_balance : (balance need : ℕ) → TaronError
  invalid_sequence : (expected got : ℕ) → TaronError
  transaction_too_large : (size : ℕ) → TaronError
  unknown_sender : (address : Bytes) → TaronError
  serialization key_error validation : (message : Bytes) → TaronError

pub Result-cases :
    {A E : Type 0} (r : Result A E) → ((a : A) × (r ≡ ok a)) ⊎ ((e : E) × (r ≡ err e))
Result-cases (ok a) = inl (a, refl)
Result-cases (err e) = inr (e, refl)
