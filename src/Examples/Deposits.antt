-- ===== src/Examples/Deposits.antt =====
-- Deposits and new accounts at the small bank.
use bank_flow_digital_bankin.Base.{
  ℕ, ◌+◌, ◌<◌, String, Option, none, some, ◌≡◌, ◌≢◌, ◌⊎◌, refl, arith, eq_iff,
}
use bank_flow_digital_bankin.Base.Int.{pos, ◌+ℤ◌}
use bank_flow_digital_bankin.Base.Decimal.{Decimal, whole, to_column, sum_column}
use bank_flow_digital_bankin.Models.{Account, Endpoint, StoredBody, active, customer}
use bank_flow_digital_bankin.Database.{ok, get_account, set_balance, find_number}
use bank_flow_digital_bankin.Reconcile.{total_credits}
use bank_flow_digital_bankin.Accounts.Numbers.{generate_account_number}
use bank_flow_digital_bankin.Accounts.Numbers.Fresh.{generate_account_number_lem}
use bank_flow_digital_bankin.Accounts.Deposit.Race.{book_deposit-lost_update}
use bank_flow_digital_bankin.Http.{Caller, Message, Body, respond, serve}
use bank_flow_digital_bankin.Examples.{bank, bank-IsValid, account_row}
use bank_flow_digital_bankin.Accounts.Payload.{given, load_deposit}
use bank_flow_digital_bankin.Accounts.Idempotency.{fresh, check_idempotency}
use bank_flow_digital_bankin.Accounts.Deposit.{book_deposit, deposit_funds, deposited_body}
use bank_flow_digital_bankin.Accounts.Deposit.Keeps.{deposit_funds-IsValid}
use bank_flow_digital_bankin.Accounts.Deposit.Shows.{deposit_funds-ShowsDeposit}
use bank_flow_digital_bankin.Accounts.Deposit.Money.{IsCredited}
use bank_flow_digital_bankin.Accounts.Deposit.Credits.{
  Admissible, deposit_funds-credits, deposit_funds-replay,
}

abbrev alice : Caller
alice = record { user_id = 1; role = customer }

abbrev bob : Caller
bob = record { user_id = 2; role = customer }

abbrev alice_account : Account
alice_account = account_row 1 "BF0000000001" (pos 100_000) active

abbrev key : Option String
key = some "d1"

alice_may : Admissible alice 1 (given (whole (pos 2_500))) bank alice_account (whole (pos 2_500))
unfolding load_deposit sum_column to_column ◌+ℤ◌
alice_may = record {
  found = refl;
  own = refl;
  running = refl;
  loaded = refl;
  traced = refl;
  stored = omega arith;
  room = omega arith;
}

key_fresh : check_idempotency key (Endpoint.deposit_funds 1) bank ≡ fresh
unfolding check_idempotency
key_fresh = refl

deposit_funds-credits_example :
    ((serve (deposit_funds alice key 1 (given (whole (pos 2_500)))) bank).0
      ≡ respond 200 (Body.stored (deposited_body (whole (pos 2_500)) alice_account)))
    × IsCredited 1 alice_account
        (pos 2_500)
        bank.working
        (serve (deposit_funds alice key 1 (given (whole (pos 2_500)))) bank).1.committed
unfolding to_column
deposit_funds-credits_example =
    deposit_funds-credits alice key 1 (given (whole (pos 2_500))) bank bank-IsValid alice_may refl
      key_fresh

-- Bob repeats Alice's key.
deposit_funds-replay_example :
    serve
      (deposit_funds bob key 1 (given (whole (pos 7))))
      (serve (deposit_funds alice key 1 (given (whole (pos 2_500)))) bank).1
    ≡ (
      respond 200 (Body.stored (deposited_body (whole (pos 2_500)) alice_account)),
      (serve (deposit_funds alice key 1 (given (whole (pos 2_500)))) bank).1,
    )
deposit_funds-replay_example =
    deposit_funds-replay alice bob key 1 (given (whole (pos 2_500))) (given (whole (pos 7))) bank
      {j = "d1"} bank-IsValid alice_may (ground (arith, eq_iff "d1" "")) refl key_fresh

-- Alice deposits 25.00 and 7.00 at once.
book_deposit-lost_update_example :
    let first = book_deposit alice 1 alice_account (whole (pos 2_500)) bank in
    let second = book_deposit alice 1 alice_account (whole (pos 700)) first.1 in
    (first.0 ≡ ok tt)
    × (second.0 ≡ ok tt)
    × (get_account 1 second.1.committed.accounts
        ≡ some (set_balance (pos 100_000 +ℤ pos 700) alice_account))
    × (total_credits second.1.committed ≡ total_credits bank.working +ℤ pos 2_500 +ℤ pos 700)
unfolding sum_column to_column ◌+ℤ◌
book_deposit-lost_update_example =
    book_deposit-lost_update alice alice 1 (whole (pos 2_500)) (whole (pos 700)) bank
      {a = alice_account} bank-IsValid refl (omega arith) (omega arith) (omega arith) (omega arith)
      refl

-- Alice opens a second account with 10.00.
abbrev numbers : ℕ → String
numbers i = "BF0000000009"

generate_account_number_lem_example :
    ((n : String) (j : ℕ)
      → generate_account_number numbers 5 0 bank.working.accounts ≡ some (n, j)
      → find_number n bank.working.accounts ≡ none)
    × (generate_account_number numbers 5 0 bank.working.accounts ≡ none
        → (m : ℕ) → m < 5
        → find_number (numbers (0 + m)) bank.working.accounts ≢ none)
generate_account_number_lem_example = generate_account_number_lem numbers 5 0 bank.working.accounts

-- A replay under the key of the first deposit.
deposit_funds-ShowsDeposit_example :
    let after = (serve (deposit_funds alice key 1 (given (whole (pos 2_500)))) bank).1 in
    ((m : Message) × ((serve (deposit_funds alice key 1 (given (whole (pos 9)))) after).0.body
        ≡ Body.error m))
    ⊎ ((a : Account) × (x : Decimal) × ((serve
            (deposit_funds alice key 1 (given (whole (pos 9))))
            after).0
          ≡ respond 200 (Body.stored (StoredBody.deposited x a)))
        × (a.account_id ≡ 1))
deposit_funds-ShowsDeposit_example =
    deposit_funds-ShowsDeposit alice key 1 (given (whole (pos 9)))
      (serve (deposit_funds alice key 1 (given (whole (pos 2_500)))) bank).1
      (deposit_funds-IsValid alice key 1 (given (whole (pos 2_500))) bank bank-IsValid)
