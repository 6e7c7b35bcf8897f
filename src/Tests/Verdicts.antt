-- ===== src/Tests/Verdicts.antt =====
-- The finality tracker on sample ACKs.
use taron.Prelude.{ℕ, ◌*◌, ◌≤◌, ◌<◌, ◌≡◌, refl, max, none, some, [], ◌∷◌, arith, length}
use taron.Prelude.Words.{to_le_bytes}
use taron.Prelude.Dict.{lookup, insert, erase, IsUnique}
use taron.Prelude.Text.{bytes_dec}
use taron.Fixtures.{toy, alice, bob}
use taron.Wallet.{verify_signature}
use taron.Finality.{
  TransactionStatus, confirmed, pending, PendingTx, FinalityTracker, new_ack, ack_message,
  verify_ack, new_tracker, register_tx, record_ack, settle, get_status, calculate_quorum,
}
use taron.Finality.Invariant.{IsValid, Step, Reachable, Reachable-IsValid, with_ack, Genuine}
use taron.Finality.Quorum.{calculate_quorum_bounds, record_ack-keeps_verdict, record_ack-confirms}

abbrev tracker_0 : FinalityTracker
tracker_0 = (register_tx 100 (5 ∷ []) none (new_tracker 2)).1

abbrev tracker_1 : FinalityTracker
tracker_1 = (record_ack toy 200 (new_ack toy alice (5 ∷ []) 1) tracker_0).1

abbrev tracker_2 : FinalityTracker
tracker_2 = (record_ack toy 5_000_300 (new_ack toy bob (5 ∷ []) 2) tracker_1).1

pending_1 : get_status (5 ∷ []) tracker_1 ≡ some (pending 1 2)
unfolding get_status register_tx new_tracker record_ack settle lookup insert erase bytes_dec
    verify_ack verify_signature new_ack ack_message to_le_bytes
pending_1 = refl

confirmed_2 : get_status (5 ∷ []) tracker_2 ≡ some (confirmed 2 5)
unfolding get_status register_tx new_tracker record_ack settle lookup insert erase bytes_dec
    verify_ack verify_signature new_ack ack_message to_le_bytes
confirmed_2 = refl

open_1 : lookup bytes_dec (5 ∷ []) tracker_1.finalized ≡ none
unfolding register_tx new_tracker record_ack settle lookup insert erase bytes_dec verify_ack
    verify_signature new_ack ack_message to_le_bytes
open_1 = refl

final_2 : lookup bytes_dec (5 ∷ []) tracker_2.finalized ≡ some (confirmed 2 5)
unfolding register_tx new_tracker record_ack settle lookup insert erase bytes_dec verify_ack
    verify_signature new_ack ack_message to_le_bytes
final_2 = refl

reached_1 : Reachable toy 2 tracker_1
reached_1 =
    Reachable.call (Reachable.call Reachable.new (Step.register 100 (5 ∷ []) none))
      (Step.ack 200 (new_ack toy alice (5 ∷ []) 1))

Reachable-IsValid_example : IsValid toy tracker_1
Reachable-IsValid_example = Reachable-IsValid toy 2 tracker_1 (omega arith) reached_1

calculate_quorum_bounds_example :
    (1 ≤ calculate_quorum 7) × (7 < 3 * calculate_quorum 7) × (calculate_quorum 7 ≤ max 7 1)
calculate_quorum_bounds_example = calculate_quorum_bounds 7 (omega arith)

record_ack-keeps_verdict_example :
    lookup bytes_dec
      (5 ∷ [])
      (record_ack toy 9_000_000 (new_ack toy alice (5 ∷ []) 3) tracker_2).1.finalized
    ≡ some (confirmed 2 5)
record_ack-keeps_verdict_example =
    record_ack-keeps_verdict toy 9_000_000 (new_ack toy alice (5 ∷ []) 3) tracker_2 (5 ∷ [])
      (confirmed 2 5) final_2

record_ack-confirms_example :
    let a = new_ack toy bob (5 ∷ []) 2 in
    (p : PendingTx) × (ms : ℕ) × (lookup bytes_dec (5 ∷ []) tracker_1.pending ≡ some p)
    × (◌≡◌ {A = TransactionStatus} (confirmed 2 5) (confirmed p.quorum ms))
    × (length (with_ack toy a p).acks ≡ p.quorum)
    × IsUnique bytes_dec (with_ack toy a p).acks
    × Genuine toy (5 ∷ []) (with_ack toy a p)
record_ack-confirms_example =
    record_ack-confirms toy 5_000_300 (new_ack toy bob (5 ∷ []) 2) tracker_1 (5 ∷ [])
      (confirmed 2 5) (Reachable-IsValid toy 2 tracker_1 (omega arith) reached_1) open_1 final_2
