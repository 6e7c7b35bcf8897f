-- ===== src/Tests/Accounts.antt =====
-- The ledger on the sample accounts.
use taron.Prelude.{◌+◌, ◌*◌, ◌-◌, ◌≤◌, ◌≡◌, ◌↔◌, refl, arith, ite}
use taron.Prelude.Words.{add64}
use taron.Prelude.Dict.{lookup, insert}
use taron.Prelude.Text.{bytes_dec}
use taron.Error.{IsOk}
use taron.Fixtures.{toy, alice, bob, payment, ledger_0}
use taron.Transaction.{Transaction, total_cost}
use taron.Genesis.{spend, credit}
use taron.Ledger.{
  Ledger, entry, update, credit_recipient, get_account, balance, debit_sender, apply_tx,
  apply_tx_ibd, apply_coinbase, revert_tx,
}
use taron.Ledger.Entries.{supply}
use taron.Ledger.Effects.{at, Accepted}
use taron.Ledger.Supply.{apply_tx_effects, apply_tx-IsOk_iff}
use taron.Ledger.Revert.{revert_tx-apply_tx, revert_tx-apply_tx_ibd}
use taron.Ledger.Downloads.{apply_tx_ibd-apply_tx}
use taron.Ledger.Replay.{Reach, Step, apply_tx-no_replay}

accepted : IsOk (apply_tx toy payment ledger_0).0
unfolding apply_tx get_account debit_sender spend lookup bytes_dec total_cost entry
accepted = tt

accepted_ibd : IsOk (apply_tx_ibd toy payment ledger_0).0
unfolding apply_tx_ibd get_account debit_sender spend lookup bytes_dec total_cost entry balance
accepted_ibd = tt

alice_sequence : (entry alice ledger_0).sequence ≡ 0
unfolding entry get_account lookup bytes_dec
alice_sequence = refl

supply_0 : supply ledger_0 ≡ 1_050
unfolding supply
supply_0 = refl

apply_tx_effects_example :
    let l' = (apply_tx toy payment ledger_0).1 in
    ((entry bob l').balance + at alice bob (total_cost payment)
      ≡ (entry bob ledger_0).balance + at bob bob 100)
    × ((entry bob l').sequence
        ≡ ite
            (bytes_dec alice bob)
            (add64 (entry alice ledger_0).sequence 1)
            (entry bob ledger_0).sequence)
    × (total_cost payment ≤ (entry alice ledger_0).balance)
apply_tx_effects_example =
    apply_tx_effects toy payment ledger_0 (omega (arith, supply_0)) (omega arith) bob accepted

apply_tx-IsOk_iff_example : IsOk (apply_tx toy payment ledger_0).0 ↔ Accepted toy payment ledger_0
apply_tx-IsOk_iff_example = apply_tx-IsOk_iff toy payment ledger_0

revert_tx-apply_tx_example :
    let l' = revert_tx payment (apply_tx toy payment ledger_0).1 in
    ((entry alice l').balance ≡ (entry alice ledger_0).balance)
    × ((entry alice l').sequence ≡ (entry alice ledger_0).sequence)
revert_tx-apply_tx_example =
    revert_tx-apply_tx toy payment ledger_0 (omega (arith, supply_0)) (omega arith) alice
      (omega (arith, alice_sequence)) accepted

revert_tx-apply_tx_ibd_example :
    let l' = revert_tx payment (apply_tx_ibd toy payment ledger_0).1 in
    ((entry alice l').balance ≡ (entry alice ledger_0).balance)
    × ((entry alice l').sequence
        ≡ ite (bytes_dec alice alice) (payment.sequence - 1) (entry alice ledger_0).sequence)
revert_tx-apply_tx_ibd_example =
    revert_tx-apply_tx_ibd toy payment ledger_0 (omega (arith, supply_0)) (omega arith) alice
      accepted_ibd

-- The payment with another amount is still one with the same number.
abbrev rewritten : Transaction
rewritten = record payment { amount = 1 }

-- Bob pays Alice in a block of a download.
abbrev downloaded : Transaction
downloaded = record payment { sender = bob; recipient = alice; amount = 10; sequence = 3 }

abbrev ledger_later : Ledger
ledger_later = (apply_tx_ibd toy downloaded (apply_tx toy payment ledger_0).1).1

bob_sequence : (entry bob (apply_tx toy payment ledger_0).1).sequence ≡ 0
unfolding apply_tx get_account debit_sender spend lookup insert update bytes_dec total_cost entry
    credit_recipient credit
bob_sequence = refl

apply_tx-no_replay_example :
    ¬ IsOk (apply_tx toy rewritten (apply_coinbase toy alice 7 ledger_later)).0
apply_tx-no_replay_example =
    apply_tx-no_replay toy payment rewritten ledger_0 (apply_coinbase toy alice 7 ledger_later) 3 2
      accepted
      (Reach.next
        (Reach.next Reach.here (Step.tx_ibd downloaded (omega (arith, bob_sequence)) (omega arith)))
        (Step.coinbase alice 7))
      refl refl (omega (arith, alice_sequence)) (omega arith)

still_covered : total_cost payment ≤ (entry alice (apply_tx toy payment ledger_0).1).balance
unfolding apply_tx get_account debit_sender spend lookup insert update bytes_dec total_cost entry
    credit_recipient credit
still_covered = omega arith

-- A second payment of 100 and 5.
apply_tx_ibd-apply_tx_example :
    let l₁ = (apply_tx toy payment ledger_0).1 in
    let l₂ = (apply_tx_ibd toy payment l₁).1 in
    IsOk (apply_tx_ibd toy payment l₁).0
    × ((entry alice l₂).balance + 2 * at alice alice (total_cost payment)
        ≡ (entry alice ledger_0).balance + 2 * at bob alice 100)
    × ((entry alice l₂).sequence ≡ (entry alice l₁).sequence)
apply_tx_ibd-apply_tx_example =
    apply_tx_ibd-apply_tx toy payment ledger_0 alice (omega (arith, supply_0)) (omega arith)
      accepted still_covered
