-- ===== src/Node/Mempool.antt =====
-- `Mempool` of crates/taron-node/src/mempool.rs: the verified transactions, by the hexadecimal form
-- of their hash. Every transaction in it is verified, whatever is called.
use taron.Prelude.{
  ℕ, ◌≡◌, refl, Bool, true, false, none, some, List, [], ◌∷◌, arith, length, ◌==◌, is_some, not,
  if◌then◌else◌, inl, inr, Bool-cases,
}
use taron.Prelude.Words.{Bytes}
use taron.Prelude.Text.{bytes_dec}
use taron.Prelude.Dict.{
  Dict, keys, lookup, insert, erase, lookup-insert, lookup-insert_self, lookup-erase,
}
use taron.Error.{Result, ok, err, TaronError, Result-cases}
use taron.Wallet.{Crypto}
use taron.Transaction.{Transaction, hash, verify_tx_signature}
use taron.Posc.{verify_posc}

-- The struct has one field, the map.
abbrev pub Mempool : Type 0
Mempool = Dict Bytes Transaction

-- The errors, without the text around them.
pub data InsertError : Type 0 where
  bad_signature bad_posc : (e : TaronError) → InsertError

unfoldable pub len : Mempool → ℕ
len m = length m

unfoldable pub is_empty : Mempool → Bool
is_empty m = length m == 0

unfoldable pub contains : Bytes → Mempool → Bool
contains tx_hash m = is_some (lookup bytes_dec tx_hash m)

unfoldable pub tx_hashes : Mempool → List Bytes
tx_hashes m = keys m

unfoldable pub get_txs : List Bytes → Mempool → List Transaction
get_txs [] m = []
get_txs (h ∷ hashes) m =
    let rest = get_txs hashes m in elim (lookup bytes_dec h m) [ none ↦ rest | some tx ↦ tx ∷ rest ]

unfoldable pub all_txs : Mempool → List Transaction
all_txs [] = []
all_txs ((_, tx) ∷ m) = tx ∷ all_txs m

unfoldable pub remove : Bytes → Mempool → Mempool
remove tx_hash m = erase bytes_dec tx_hash m

module _ (crypto : Crypto) where
  -- `Transaction::hash_hex`
  unfoldable pub hash_hex : Transaction → Bytes
  hash_hex tx = crypto.hex_encode (hash crypto tx)

  -- `Mempool::insert`
  unfoldable pub insert_tx : Transaction → Mempool → Result Bool InsertError × Mempool
  insert_tx tx m =
      if contains (hash_hex tx) m then (ok false, m) else elim (verify_tx_signature crypto tx) [
        | err e ↦ (err (bad_signature e), m)
        | ok _ ↦ elim (verify_posc crypto tx) [
          | err e ↦ (err (bad_posc e), m)
          | ok _ ↦ (ok true, insert bytes_dec (hash_hex tx) tx m)
        ]
      ]

  pub record IsVerified (h : Bytes) (tx : Transaction) : Type 0 where
    pub own_hash : hash_hex tx ≡ h
    pub signed : verify_tx_signature crypto tx ≡ ok tt
    pub proved : verify_posc crypto tx ≡ ok tt

  -- The pools that calls lead to.
  pub data Reachable : Mempool → Type 0 where
    empty : Reachable []
    insertion : {m : Mempool} (tx : Transaction) → Reachable m → Reachable (insert_tx tx m).1
    removal : {m : Mempool} (tx_hash : Bytes) → Reachable m → Reachable (remove tx_hash m)

  abbrev AllVerified : Mempool → Type 0
  AllVerified m = (h : Bytes) (tx : Transaction) → lookup bytes_dec h m ≡ some tx → IsVerified h tx

  insert-AllVerified :
      (tx : Transaction) (m : Mempool)
      → verify_tx_signature crypto tx ≡ ok tt
      → verify_posc crypto tx ≡ ok tt
      → AllVerified m
      → AllVerified (insert bytes_dec (hash_hex tx) tx m)
  insert-AllVerified tx m signed proved v h t e = elim (bytes_dec (hash_hex tx) h) [
    | yes same ↦
        let written : t ≡ tx = ground (arith, lookup-insert bytes_dec h (hash_hex tx) tx m) in
        rw (← same, written) (record { own_hash = refl; signed = signed; proved = proved })
    | no other ↦ v h t (ground (arith, lookup-insert bytes_dec h (hash_hex tx) tx m))
  ]

  insert_tx-AllVerified :
      (tx : Transaction) (m : Mempool) → AllVerified m → AllVerified (insert_tx tx m).1
  unfolding insert_tx
  insert_tx-AllVerified tx m v = elim (Bool-cases (contains (hash_hex tx) m)) [
    | inl known ↦ rw (insert_tx, known) v
    | inr new ↦ elim (Result-cases (verify_tx_signature crypto tx)) [
      | inr (e, bad) ↦ rw (insert_tx, new, bad) v
      | inl (_, signed) ↦ elim (Result-cases (verify_posc crypto tx)) [
        | inr (e, bad) ↦ rw (insert_tx, new, signed, bad) v
        | inl (_, proved) ↦
            rw (insert_tx, new, signed, proved) (insert-AllVerified tx m signed proved v)
      ]
    ]
  ]

  -- Whatever is inserted and removed, a transaction that is found under a hash has that hash, a
  -- signature that verifies and a proof that verifies.
  pub Reachable-IsVerified :
      (m : Mempool) (h : Bytes) (tx : Transaction)
      → Reachable m
      → lookup bytes_dec h m ≡ some tx
      → IsVerified h tx
  unfolding lookup remove
  Reachable-IsVerified m h tx empty e = absurd (cc)
  Reachable-IsVerified m h tx (insertion {m = m₀} t r) e =
      insert_tx-AllVerified t m₀ (λ k s. Reachable-IsVerified m₀ k s r) h tx e
  Reachable-IsVerified m h tx (removal {m = m₀} k r) e =
      Reachable-IsVerified m₀ h tx r (ground (arith, lookup-erase bytes_dec h k m₀))

  -- A transaction whose signature and proof verify is accepted exactly if its hash is not yet known,
  -- and the pool contains its hash afterwards.
  pub insert_tx-verified :
      (tx : Transaction) (m : Mempool)
      → verify_tx_signature crypto tx ≡ ok tt
      → verify_posc crypto tx ≡ ok tt
      → ((insert_tx tx m).0 ≡ ok (not (contains (hash_hex tx) m)))
        × (contains (hash_hex tx) (insert_tx tx m).1 ≡ true)
  unfolding insert_tx
  insert_tx-verified tx m signed proved = elim (Bool-cases (contains (hash_hex tx) m)) [
    | inl known ↦ (rw (insert_tx, known) refl, rw (insert_tx, known) known)
    | inr new ↦ (
      rw (insert_tx, new, signed, proved) refl,
      rw (insert_tx, new, signed, proved)
          (unfold contains in rw (lookup-insert_self bytes_dec (hash_hex tx) tx m) refl),
    )
  ]
