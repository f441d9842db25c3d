-- ===== src/Examples/Transfers.antt =====
-- Transfers at the small bank.
use bank_flow_digital_bankin.Base.{
  ◌≤◌, eq_iff, inr, false, ℕ, String, Option, none, some, [], ◌∷◌, ◌≡◌, ◌≢◌, refl, arith,
}
use bank_flow_digital_bankin.Base.Int.{pos, ◌+ℤ◌, ◌-ℤ◌}
use bank_flow_digital_bankin.Base.Decimal.{Decimal, whole, to_column, sum_column, difference_column}
use bank_flow_digital_bankin.Models.{Transaction, active}
use bank_flow_digital_bankin.Database.{
  Session, ok, err, violation, integrity_ok, data_ok, text_key_free, key_free, insufficient_balance,
  idempotency_key_conflict, set_balance, get_account, rollback,
}
use bank_flow_digital_bankin.Audit.{add_log}
use bank_flow_digital_bankin.Examples.{bank, bank-IsValid, account_row}
use bank_flow_digital_bankin.Transfer.{
  TransferRequest, execute_transfer, lock_order, existing_transfer,
}
use bank_flow_digital_bankin.Transfer.Booking.{tx, booked_db}
use bank_flow_digital_bankin.Transfer.Guards.{lock_order_sorted}
use bank_flow_digital_bankin.Transfer.Outcome.{outcome, execute_transfer-outcome}
use bank_flow_digital_bankin.Transfer.Cases.{Accepted}
use bank_flow_digital_bankin.Transfer.Money.{
  execute_transfer-conserves, execute_transfer-makes_cent, execute_transfer-moves,
}
use bank_flow_digital_bankin.Transfer.Replay.{
  execute_transfer-replay, execute_transfer-not_replayed, execute_transfer-conflict,
}
use bank_flow_digital_bankin.Transfer.Succeeds.{execute_transfer-succeeds}
use bank_flow_digital_bankin.Transfer.EmptyKey.{empty_key_blocks}
use bank_flow_digital_bankin.Transfer.Keeps.{execute_transfer-IsValid}
use bank_flow_digital_bankin.Reconcile.{total_balances, total_credits, total_debits}

abbrev pay : ℕ → ℕ → Decimal → Option String → TransferRequest
pay a b amount key = record {
  sender_id = a;
  receiver_id = b;
  amount = amount;
  idempotency_key = key;
}

pay_100 :
    (execute_transfer (pay 1 2 (whole (pos 10_000)) (some "k1")) bank).1.committed.accounts
    ≡ account_row 1 "BF0000000001" (pos 90_000) active
      ∷ account_row 2 "BF0000000002" (pos 10_500) active
      ∷ []
unfolding execute_transfer violation integrity_ok data_ok text_key_free key_free to_column
    sum_column difference_column ◌+ℤ◌ ◌-ℤ◌ add_log
pay_100 = refl

pay_too_much :
    execute_transfer (pay 2 1 (whole (pos 501)) none) bank ≡ (err insufficient_balance, bank)
unfolding execute_transfer
pay_too_much = refl

abbrev keyed : TransferRequest
keyed = pay 1 2 (whole (pos 10_000)) (some "k1")

abbrev after : Session
after = (execute_transfer keyed bank).1

alice_to_bob :
    Accepted keyed bank
      (account_row 1 "BF0000000001" (pos 100_000) active)
      (account_row 2 "BF0000000002" (pos 500) active)
alice_to_bob = ground arith

keyed_fresh : existing_transfer keyed.idempotency_key bank.working ≡ none
unfolding existing_transfer
keyed_fresh = refl

keyed_done :
    (execute_transfer keyed bank).0
    ≡ ok (
        tx keyed
          (account_row 1 "BF0000000001" (pos 100_000) active)
          (account_row 2 "BF0000000002" (pos 500) active)
          bank)
unfolding execute_transfer violation integrity_ok data_ok text_key_free key_free to_column
    sum_column difference_column ◌+ℤ◌ ◌-ℤ◌ add_log
keyed_done = refl

lock_order_sorted_example :
    ((lock_order 2 1).0 ≤ (lock_order 2 1).1) × (lock_order 2 1 ≡ lock_order 1 2)
lock_order_sorted_example = lock_order_sorted 2 1

execute_transfer-outcome_example : execute_transfer keyed bank ≡ outcome keyed bank
execute_transfer-outcome_example = execute_transfer-outcome keyed bank

execute_transfer-succeeds_example :
    ((execute_transfer keyed bank).0
      ≡ ok (
          tx keyed
            (account_row 1 "BF0000000001" (pos 100_000) active)
            (account_row 2 "BF0000000002" (pos 500) active)
            bank))
    × ((execute_transfer keyed bank).1.committed
        ≡ booked_db keyed
            (account_row 1 "BF0000000001" (pos 100_000) active)
            (account_row 2 "BF0000000002" (pos 500) active)
            bank)
unfolding to_column sum_column ◌+ℤ◌
execute_transfer-succeeds_example =
    execute_transfer-succeeds keyed bank bank-IsValid alice_to_bob (omega arith) (omega arith)
      (ground (arith, eq_iff "k1" "")) refl keyed_fresh refl

execute_transfer-conserves_example :
    (total_balances after.committed ≡ total_balances bank.committed)
    × (total_credits after.committed +ℤ total_debits bank.committed
        ≡ total_debits after.committed +ℤ total_credits bank.committed)
execute_transfer-conserves_example = execute_transfer-conserves keyed bank bank-IsValid refl

execute_transfer-moves_example :
    (get_account 1 after.committed.accounts
      ≡ some (
          set_balance
            (pos 100_000 -ℤ pos 10_000)
            (account_row 1 "BF0000000001" (pos 100_000) active)))
    × (get_account 2 after.committed.accounts
        ≡ some
            (set_balance (pos 500 +ℤ pos 10_000) (account_row 2 "BF0000000002" (pos 500) active)))
    × ((j : ℕ)
        → j ≢ 1
        → j ≢ 2
        → get_account j after.committed.accounts ≡ get_account j bank.working.accounts)
unfolding to_column
execute_transfer-moves_example =
    execute_transfer-moves keyed bank bank-IsValid refl keyed_fresh keyed_done refl refl

execute_transfer-replay_example : execute_transfer keyed after ≡ (
  ok (
      tx keyed
        (account_row 1 "BF0000000001" (pos 100_000) active)
        (account_row 2 "BF0000000002" (pos 500) active)
        bank),
  after,
)
execute_transfer-replay_example =
    execute_transfer-replay keyed bank bank-IsValid refl refl keyed_done

execute_transfer-conflict_example :
    execute_transfer (pay 1 2 (whole (pos 20_000)) (some "k1")) after
    ≡ (err idempotency_key_conflict, rollback after)
execute_transfer-conflict_example =
    execute_transfer-conflict keyed (pay 1 2 (whole (pos 20_000)) (some "k1")) bank bank-IsValid
      refl refl keyed_done refl refl (inr (inr refl))

-- Alice pays Bob half a cent more than a cent, under a key.
abbrev odd : TransferRequest
odd = pay 1 2 (record { cents = pos 1; digits = 5 ∷ [] }) (some "k2")

odd_fresh : existing_transfer odd.idempotency_key bank.working ≡ none
unfolding existing_transfer
odd_fresh = refl

odd_done :
    (execute_transfer odd bank).0
    ≡ ok (
        tx odd
          (account_row 1 "BF0000000001" (pos 100_000) active)
          (account_row 2 "BF0000000002" (pos 500) active)
          bank)
unfolding execute_transfer violation integrity_ok data_ok text_key_free key_free to_column
    sum_column difference_column ◌+ℤ◌ ◌-ℤ◌ add_log
odd_done = refl

execute_transfer-makes_cent_example :
    let done = (execute_transfer odd bank).1 in
    (total_balances done.committed ≡ total_balances bank.committed +ℤ pos 1)
    × (total_credits done.committed +ℤ total_debits bank.committed
        ≡ total_debits done.committed +ℤ total_credits bank.committed)
execute_transfer-makes_cent_example =
    execute_transfer-makes_cent odd bank bank-IsValid refl odd_fresh odd_done

execute_transfer-not_replayed_example :
    execute_transfer odd (execute_transfer odd bank).1
    ≡ (err idempotency_key_conflict, rollback (execute_transfer odd bank).1)
execute_transfer-not_replayed_example =
    execute_transfer-not_replayed odd bank bank-IsValid refl refl odd_fresh odd_done

-- A bank that has stored a transfer under the empty key.
abbrev unnamed : Session
unnamed = (execute_transfer (pay 1 2 (whole (pos 1)) (some "")) bank).1

unnamed_taken : key_free (some "") unnamed.working.transactions ≡ false
unfolding execute_transfer violation integrity_ok data_ok text_key_free key_free to_column
    sum_column difference_column ◌+ℤ◌ ◌-ℤ◌ add_log
unnamed_taken = refl

empty_key_blocks_example :
    ((t : Transaction) → (execute_transfer (pay 2 1 (whole (pos 5)) (some "")) unnamed).0 ≢ ok t)
    × ((execute_transfer (pay 2 1 (whole (pos 5)) (some "")) unnamed).1.committed
        ≡ unnamed.committed)
empty_key_blocks_example =
    empty_key_blocks (pay 2 1 (whole (pos 5)) (some "")) unnamed
      (execute_transfer-IsValid (pay 1 2 (whole (pos 1)) (some "")) bank bank-IsValid) refl
      unnamed_taken
