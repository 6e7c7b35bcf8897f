-- ===== src/Tests/Services.antt =====
-- Building a transaction, the memory pool, the share detector and the other services on sample data.
use taron.Prelude.{◌≡◌, ◌≢◌, inl, refl, true, false, some, [], ◌∷◌, arith, length}
use taron.Prelude.Text.{bytes_dec}
use taron.Prelude.Dict.{lookup, lookup-insert_self}
use taron.Error.{ok}
use taron.Fixtures.{toy, toy-IsSound, alice, bob, block_1, chain_0}
use taron.Transaction.{Transaction, verify_tx_signature, validate_structure}
use taron.Transaction.Builder.{
  TxBuilder, Built, new_builder, with_recipient, with_amount, with_fee, with_memo, build_and_prove,
  build_and_prove-valid,
}
use taron.Posc.{verify_posc}
use taron.Block.{genesis}
use taron.Blockchain.{block_at}
use taron.Blockchain.Fork.{Parent, find_fork_point, direct_parent, has_hash, find_fork_point-Parent}
use taron.Finality.{verify_ack}
use taron.Finality.Sequences
use taron.Pool.Dedup.Window
use taron.Finality.Sequences.{
  SeenSequences, clear_below, no_sequences, record_sequence, check_double_spend, key_dec, Step,
  record_sequence_first_wins,
}
use taron.Node.Mempool.{IsVerified, Reachable, insert_tx, contains, hash_hex, Reachable-IsVerified}
use taron.Pool.Dedup.{
  TachyonGuard, new_guard, is_duplicate, maybe_rotate, in_some, member, remember, make_key,
}
use taron.Pool.Dedup.Window.{IsValid, is_duplicate-within_window}

abbrev builder : TxBuilder
builder = with_memo (7 ∷ []) (with_fee 0 (with_amount 100 (with_recipient bob (new_builder alice))))

short_memo : length builder.memo ≡ 1
unfolding new_builder with_recipient with_amount with_fee with_memo
short_memo = refl

steps : Built alice builder
steps = Built.memo (7 ∷ []) (Built.fee 0 (Built.amount 100 (Built.recipient bob Built.start)))

build_and_prove-valid_example :
    (tx : Transaction) × (build_and_prove toy 1_000 builder ≡ ok tx)
    × (verify_tx_signature toy tx ≡ ok tt)
    × (verify_posc toy tx ≡ ok tt)
    × (validate_structure 20_000 tx ≡ ok tt)
build_and_prove-valid_example =
    build_and_prove-valid toy alice builder 1_000 20_000 toy-IsSound steps
      (omega (arith, short_memo)) (omega arith)

built : Transaction
built =
    (build_and_prove-valid toy alice builder 1_000 1_000 toy-IsSound steps
      (omega (arith, short_memo)) (omega arith)).0

signed : verify_tx_signature toy built ≡ ok tt
unfolding built
signed =
    (build_and_prove-valid toy alice builder 1_000 1_000 toy-IsSound steps
      (omega (arith, short_memo)) (omega arith)).2

proved : verify_posc toy built ≡ ok tt
unfolding built
proved =
    (build_and_prove-valid toy alice builder 1_000 1_000 toy-IsSound steps
      (omega (arith, short_memo)) (omega arith)).3

unknown : contains (hash_hex toy built) [] ≡ false
unfolding contains lookup
unknown = refl

pooled : lookup bytes_dec (hash_hex toy built) (insert_tx toy built []).1 ≡ some built
unfolding insert_tx
pooled =
    rw (insert_tx, unknown, signed, proved)
      (lookup-insert_self bytes_dec (hash_hex toy built) built [])

Reachable-IsVerified_example : IsVerified toy (hash_hex toy built) built
Reachable-IsVerified_example =
    Reachable-IsVerified toy (insert_tx toy built []).1 (hash_hex toy built) built
      (Reachable.insertion built Reachable.empty) pooled

abbrev first_seen : SeenSequences
first_seen = (record_sequence alice 1 (5 ∷ []) no_sequences).1

newly_seen : (record_sequence alice 1 (5 ∷ []) no_sequences).0 ≡ true
unfolding record_sequence no_sequences lookup
newly_seen = refl

bob_is_other : bob ≢ alice
bob_is_other e = absurd (ground (arith, e))

record_sequence_first_wins_example :
    let s = clear_below bob 9 (record_sequence alice 2 (6 ∷ []) first_seen).1 in
    (check_double_spend alice 1 s ≡ some (5 ∷ []))
    × (record_sequence alice 1 (9 ∷ []) s ≡ (false, s))
record_sequence_first_wins_example =
    record_sequence_first_wins alice 1 (5 ∷ []) (9 ∷ []) no_sequences
      (clear_below bob 9 (record_sequence alice 2 (6 ∷ []) first_seen).1) newly_seen
      (taron.Finality.Sequences.Reach.next
        (taron.Finality.Sequences.Reach.next taron.Finality.Sequences.Reach.here
          (Step.seeing alice 2 (6 ∷ [])))
        (Step.clearing bob 9 (inl bob_is_other)))

fork_found : find_fork_point chain_0 (block_1 ∷ []) ≡ some 0
unfolding find_fork_point direct_parent has_hash block_at lookup genesis bytes_dec
fork_found = refl

find_fork_point-Parent_example : Parent chain_0 (block_1 ∷ []) 0
find_fork_point-Parent_example = find_fork_point-Parent chain_0 (block_1 ∷ []) 0 fork_found

-- A share that is accepted just before a rotation, and the guard two rotations later.
abbrev share_guard : TachyonGuard
share_guard = (is_duplicate 59_999 1 2 [] (new_guard 0)).1

abbrev busy_guard : TachyonGuard
busy_guard = (is_duplicate 120_000 1 4 [] (is_duplicate 60_000 1 3 [] share_guard).1).1

new_share : (is_duplicate 59_999 1 2 [] (new_guard 0)).0 ≡ false
unfolding is_duplicate maybe_rotate new_guard in_some member
new_share = refl

new_guard-IsValid : IsValid (new_guard 0)
unfolding new_guard
new_guard-IsValid = record { three = refl; small = omega arith }

is_duplicate-within_window_example : (is_duplicate 179_999 1 2 [] busy_guard).0 ≡ true
is_duplicate-within_window_example =
    is_duplicate-within_window 59_999 179_999 1 2 [] (new_guard 0) busy_guard new_guard-IsValid
      new_share (omega arith)
      (taron.Pool.Dedup.Window.Reach.next 120_000 1 4 [] (omega arith) (
        taron.Pool.Dedup.Window.Reach.next 60_000 1 3 [] (omega arith)
          taron.Pool.Dedup.Window.Reach.here))

-- A millisecond later, after 120,001 of the documented 180,000, the share is taken for a new one.
forgotten_early : (is_duplicate 180_000 1 2 [] busy_guard).0 ≡ false
unfolding is_duplicate maybe_rotate new_guard in_some member remember make_key
forgotten_early = refl
