-- ===== src/Accounts/Create.antt =====
-- app/routes/account_routes.py: `create_account`.
pub mod Keeps
use bank_flow_digital_bankin.Base.{
  ℕ, ◌+◌, String, Option, none, some, not, [], ◌∷◌, ◌++◌, if◌then◌else◌,
}
use bank_flow_digital_bankin.Base.Int.{ℤ, pos, ltb_ℤ}
use bank_flow_digital_bankin.Base.Decimal.{Decimal, at_most, to_column}
use bank_flow_digital_bankin.Models.{
  Account, AuditEventType, Details, Endpoint, StoredBody, active, credit, initial_deposit,
}
use bank_flow_digital_bankin.Database.{
  Session, Action, ok, Error, pure, raise, gets, modify_session, flush, commit, ◌>>=◌, ◌>>◌,
}
use bank_flow_digital_bankin.Audit.{AuditEvent, record_audit_event}
use bank_flow_digital_bankin.Ledger.{add_entry}
use bank_flow_digital_bankin.Http.{
  Caller, Body, Response, respond, refuse, validation_failed, key_conflict,
  number_generation_failed,
}
use bank_flow_digital_bankin.Accounts.Payload.{AmountField, load_initial_deposit}
use bank_flow_digital_bankin.Accounts.Idempotency.{
  Check, check_idempotency, store_idempotency, replayed,
}
use bank_flow_digital_bankin.Accounts.Numbers.{generate_account_number, max_acct_retries}

abbrev pub new_account : Caller → String → ℤ → Session → Account
new_account c number balance s = record {
  account_id = s.ids.account;
  user_id = c.user_id;
  account_number = number;
  balance = balance;
  status = active;
  created_at = s.now;
}

unfoldable pub add_account : Caller → String → ℤ → Action Account
add_account c number balance = do
  a ← gets (new_account c number balance)
  modify_session (λ s. record s {
    working = record (s.working) { accounts = s.working.accounts ++ a ∷ [] };
    ids = record (s.ids) { account = s.ids.account + 1 };
  })
  flush
  pure a

abbrev pub created_event : Caller → Account → Decimal → AuditEvent
created_event c a deposit = record {
  event_type = AuditEventType.account_created;
  actor_id = some c.user_id;
  target_user_id = none;
  target_account_id = some a.account_id;
  details = Details.opened a.account_number deposit;
}

-- `if initial_deposit > 0:` a ledger entry
unfoldable pub enter_initial_deposit : Account → Decimal → Action (Unit {0})
unfolding add_entry
enter_initial_deposit a deposit s =
    if not (at_most deposit (pos 0))
    then add_entry none a.account_id credit (to_column deposit) (to_column deposit) initial_deposit
        s
    else (ok tt, s)

unfoldable pub open_account : Caller → Option String → Decimal → String → Action Response
unfolding add_account enter_initial_deposit record_audit_event store_idempotency
open_account c key deposit number = do
  a ← add_account c number (to_column deposit)
  enter_initial_deposit a deposit
  record_audit_event (created_event c a deposit)
  commit
  store_idempotency key Endpoint.create_account (StoredBody.account_created a) 201
  pure (respond 201 (Body.stored (StoredBody.account_created a)))

abbrev pub with_number : Option (String × ℕ) → (String → Action Response) → Action Response
with_number none use_number = pure (refuse 503 number_generation_failed)
with_number (some (number, _)) use_number = use_number number

-- The second of the two calls of `generate_account_number`; the first one's failure is not caught.
abbrev pub second_number :
    Option (String × ℕ) → (ℕ → Option (String × ℕ)) → (String → Action Response) → Action Response
second_number none again use_number = raise Error.account
second_number (some (_, i)) again use_number = with_number (again i) use_number

abbrev pub create_with : Caller → Option String → (ℕ → String) → Option Decimal → Action Response
create_with c key draw none = pure (refuse 400 validation_failed)
create_with c key draw (some deposit) = do
  accounts ← gets (λ s. s.working.accounts)
  second_number (generate_account_number draw max_acct_retries 0 accounts)
      (λ i. generate_account_number draw max_acct_retries i accounts) (open_account c key deposit)

abbrev pub create_checked :
    Caller → Option String → (ℕ → String) → AmountField → Check → Action Response
create_checked c key draw field Check.conflict = pure (refuse 409 key_conflict)
create_checked c key draw field (Check.replay b code) = pure (replayed b code)
create_checked c key draw field Check.fresh = create_with c key draw (load_initial_deposit field)

unfoldable pub create_account :
    Caller → Option String → (ℕ → String) → AmountField → Action Response
unfolding open_account
create_account c key draw field = do
  checked ← gets (check_idempotency key Endpoint.create_account)
  create_checked c key draw field checked
