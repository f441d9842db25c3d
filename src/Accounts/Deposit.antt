-- ===== src/Accounts/Deposit.antt =====
-- app/routes/account_routes.py: `deposit_funds`.
pub mod Booking
pub mod Keeps
pub mod Money
pub mod Credits
pub mod Race
pub mod Shows
use bank_flow_digital_bankin.Base.{ℕ, String, Option, none, some, not, if◌then◌else◌}
use bank_flow_digital_bankin.Base.Int.{ℤ, ◌+ℤ◌}
use bank_flow_digital_bankin.Base.Decimal.{Decimal, to_column, sum_column}
use bank_flow_digital_bankin.Models.{
  Account, AuditEventType, Details, Endpoint, StoredBody, is_active, credit, external_deposit,
}
use bank_flow_digital_bankin.Database.{
  Action, pure, gets, modify_session, commit, ◌>>=◌, ◌>>◌, get_account, modify_account, set_balance,
}
use bank_flow_digital_bankin.Audit.{AuditEvent, record_audit_event}
use bank_flow_digital_bankin.Ledger.{add_entry}
use bank_flow_digital_bankin.Http.{
  Caller, is_foreign, Body, Response, respond, refuse, account_id_not_found, validation_failed,
  key_conflict, only_active_receive,
}
use bank_flow_digital_bankin.Accounts.Payload.{AmountField, load_deposit}
use bank_flow_digital_bankin.Accounts.Idempotency.{
  Check, check_idempotency, store_idempotency, replayed,
}

abbrev pub deposit_event : Caller → ℕ → Decimal → ℤ → AuditEvent
deposit_event c account_id amount balance = record {
  event_type = AuditEventType.deposit_completed;
  actor_id = some c.user_id;
  target_user_id = none;
  target_account_id = some account_id;
  details = Details.deposited amount (record amount { cents = balance +ℤ amount.cents });
}

-- The writes of a deposit into an account that was read before, to its commit.
unfoldable pub book_deposit : Caller → ℕ → Account → Decimal → Action (Unit {0})
unfolding add_entry record_audit_event
book_deposit c account_id a amount = do
  let new_balance = sum_column a.balance amount
  modify_session (λ s. record s {
    working = record (s.working) {
      accounts = modify_account account_id (set_balance new_balance) s.working.accounts;
    };
  })
  add_entry none account_id credit (to_column amount) new_balance (external_deposit account_id)
  record_audit_event (deposit_event c account_id amount a.balance)
  commit

abbrev pub deposited_body : Decimal → Account → StoredBody
deposited_body amount a = StoredBody.deposited amount (set_balance (sum_column a.balance amount) a)

abbrev pub deposit_amount : Caller → Option String → ℕ → Account → Option Decimal → Action Response
deposit_amount c key account_id a none = pure (refuse 400 validation_failed)
deposit_amount c key account_id a (some amount) = do
  book_deposit c account_id a amount
  store_idempotency key (Endpoint.deposit_funds account_id) (deposited_body amount a) 200
  pure (respond 200 (Body.stored (deposited_body amount a)))

-- The guards on the account, and the payload.
abbrev pub deposit_into :
    Caller → Option String → ℕ → AmountField → Option Account → Action Response
deposit_into c key account_id field none = pure (refuse 404 (account_id_not_found account_id))
deposit_into c key account_id field (some a) =
    if is_foreign c a
    then pure (refuse 404 (account_id_not_found account_id))
    else if not (is_active a.status)
    then pure (refuse 400 (only_active_receive a.status))
    else deposit_amount c key account_id a (load_deposit field)

abbrev pub deposit_checked : Caller → Option String → ℕ → AmountField → Check → Action Response
deposit_checked c key account_id field Check.conflict = pure (refuse 409 key_conflict)
deposit_checked c key account_id field (Check.replay b code) = pure (replayed b code)
deposit_checked c key account_id field Check.fresh = do
  found ← gets (λ s. get_account account_id s.working.accounts)
  deposit_into c key account_id field found

unfoldable pub deposit_funds : Caller → Option String → ℕ → AmountField → Action Response
unfolding book_deposit store_idempotency
deposit_funds c key account_id field = do
  checked ← gets (check_idempotency key (Endpoint.deposit_funds account_id))
  deposit_checked c key account_id field checked
