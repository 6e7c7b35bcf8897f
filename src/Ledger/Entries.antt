-- ===== src/Ledger/Entries.antt =====
-- How a write through `get_account_mut` changes what is read, and the supply as a plain sum.
use taron.Prelude.{ℕ, ◌+◌, ◌%◌, ◌≤◌, ◌<◌, ◌≡◌, some, [], ◌∷◌, arith, ite, inl, inr, Option-cases}
use taron.Prelude.Words.{Bytes, add64, u64_mod}
use taron.Prelude.Text.{bytes_dec}
use taron.Prelude.Dict.{
  lookup, insert, lookup-insert, sum, sum-insert, sum-insert_new, lookup-le-sum,
}
use taron.Genesis.{AccountState}
use taron.Ledger.{
  Ledger, get_account, entry, balance, update, total_supply_from, total_supply, or_new,
}

pub get_account-insert :
    (j k : Bytes) (a : AccountState) (l : Ledger)
    → get_account j (insert bytes_dec k a l) ≡ ite (bytes_dec k j) (some a) (get_account j l)
unfolding get_account
get_account-insert j k a l = lookup-insert bytes_dec j k a l

pub entry-insert :
    (j k : Bytes) (a : AccountState) (l : Ledger)
    → entry j (insert bytes_dec k a l) ≡ ite (bytes_dec k j) a (entry j l)
unfolding entry
entry-insert j k a l = ground (arith, get_account-insert j k a l)

pub entry-update :
    (j k : Bytes) (f : AccountState → AccountState) (l : Ledger)
    → entry j (update k f l) ≡ ite (bytes_dec k j) (f (entry k l)) (entry j l)
unfolding update
entry-update j k f l = entry-insert j k (f (entry k l)) l

pub balance-entry : (k : Bytes) (l : Ledger) → balance k l ≡ (entry k l).balance
unfolding balance entry
balance-entry k l = ground arith

-- The sum of the balances, as a number without a bound.
unfoldable pub supply : Ledger → ℕ
supply l = sum (λ (a : AccountState). a.balance) l

pub supply-insert :
    (k : Bytes) (a : AccountState) (l : Ledger)
    → supply (insert bytes_dec k a l) + (entry k l).balance ≡ supply l + a.balance
unfolding supply entry get_account
supply-insert k a l = elim (Option-cases (lookup bytes_dec k l)) [
  | inl e ↦
      rw (e, or_new)
        (omega (arith, sum-insert_new bytes_dec (λ (b : AccountState). b.balance) k a l e))
  | inr (old, e) ↦ rw (e, or_new) (sum-insert bytes_dec (λ b. b.balance) k a old l e)
]

pub supply-update :
    (k : Bytes) (f : AccountState → AccountState) (l : Ledger)
    → supply (update k f l) + (entry k l).balance ≡ supply l + (f (entry k l)).balance
unfolding update
supply-update k f l = supply-insert k (f (entry k l)) l

pub entry-le-supply : (k : Bytes) (l : Ledger) → (entry k l).balance ≤ supply l
unfolding supply entry get_account
entry-le-supply k l = elim (Option-cases (lookup bytes_dec k l)) [
  | inl e ↦ rw (e, or_new) (omega arith)
  | inr (old, e) ↦ rw (e, or_new) (lookup-le-sum bytes_dec (λ b. b.balance) k old l e)
]

total_supply_from-eq :
    (acc : ℕ) (l : Ledger) → acc < u64_mod → total_supply_from acc l ≡ (acc + supply l) % u64_mod
unfolding total_supply_from supply
total_supply_from-eq acc [] h = omega arith
total_supply_from-eq acc (e ∷ l) h =
    omega (arith, total_supply_from-eq (add64 acc e.1.balance) l (omega arith))

-- What `total_supply` returns is the sum of the balances modulo 2 ^ 64.
pub total_supply-eq-supply : (l : Ledger) → total_supply l ≡ supply l % u64_mod
unfolding total_supply
total_supply-eq-supply l = omega (arith, total_supply_from-eq 0 l)
