-- ===== src/TransferRoutes.antt =====
-- app/routes/transfer_routes.py: `create_transfer`, with the payload of
-- app/schemas/transfer_schema.py. The listing of the transfers is in History. An account's id in a
-- payload is a number from zero: a negative one names no account.
pub mod Ownership
pub mod History
use bank_flow_digital_bankin.Base.{ℕ, String, Option, none, some, leb, if◌then◌else◌}
use bank_flow_digital_bankin.Base.Int.{ℤ, pos, leb_ℤ}
use bank_flow_digital_bankin.Base.Decimal.{Decimal, at_most}
use bank_flow_digital_bankin.Models.{Account, Transaction}
use bank_flow_digital_bankin.Database.{
  Session, Action, Result, ok, err, Error, insufficient_balance, account_not_found,
  account_inactive, invalid_transfer, idempotency_key_conflict, pure, gets, ◌>>=◌, get_account,
  chars, max_key_length,
}
use bank_flow_digital_bankin.Http.{
  Caller, is_foreign, Body, Response, respond, refuse, account_id_not_found, validation_failed,
  domain_error, unexpected_transfer_error,
}
use bank_flow_digital_bankin.Accounts.Payload.{AmountField, missing, malformed, given}
use bank_flow_digital_bankin.Transfer.{TransferRequest, execute_transfer}

-- A whole number, and a text that may be absent or null, of a payload.
pub data IdField : Type 0 where
  no_id wrong_id : IdField
  an_id : ℕ → IdField

pub data KeyField : Type 0 where
  wrong_key : KeyField
  a_key : Option String → KeyField

pub record TransferPayload : Type 0 where
  pub sender_account_id : IdField
  pub receiver_account_id : IdField
  pub amount : AmountField
  pub idempotency_key : KeyField

abbrev pub load_id : IdField → Option ℕ
load_id no_id = none
load_id wrong_id = none
load_id (an_id k) = some k

-- `validate_amount`: more than zero
abbrev pub load_amount : AmountField → Option Decimal
load_amount missing = none
load_amount malformed = none
load_amount (given x) = if at_most x (pos 0) then none else some x

-- `validate.Length(max=128)`; null is let through.
abbrev pub load_key : KeyField → Option (Option String)
load_key wrong_key = none
load_key (a_key none) = some none
load_key (a_key (some k)) = if leb (chars k) max_key_length then some (some k) else none

abbrev pub request_of :
    Option ℕ → Option ℕ → Option Decimal → Option (Option String) → Option TransferRequest
request_of (some a) (some b) (some x) (some key) =
    some (record { sender_id = a; receiver_id = b; amount = x; idempotency_key = key })
request_of _ _ _ _ = none

-- `transfer_request_schema.load(data)`
unfoldable pub load_transfer : TransferPayload → Option TransferRequest
load_transfer p =
    request_of (load_id p.sender_account_id) (load_id p.receiver_account_id) (load_amount p.amount)
      (load_key p.idempotency_key)

-- The `except` clauses, in their order.
abbrev pub refusal : Error → Response
refusal account_not_found = refuse 404 (domain_error account_not_found)
refusal insufficient_balance = refuse 400 (domain_error insufficient_balance)
refusal account_inactive = refuse 400 (domain_error account_inactive)
refusal invalid_transfer = refuse 400 (domain_error invalid_transfer)
refusal idempotency_key_conflict = refuse 409 (domain_error idempotency_key_conflict)
refusal e = refuse 500 (unexpected_transfer_error e)

abbrev pub answer_transfer : Result Transaction → Response
answer_transfer (ok t) = respond 201 (Body.transferred t)
answer_transfer (err e) = refusal e

abbrev pub transfer_and_answer : TransferRequest → Action Response
transfer_and_answer r s = let (x, s') = execute_transfer r s in (ok (answer_transfer x), s')

-- The owner of the sending account, or an admin, may send from it.
abbrev pub send_from : Caller → TransferRequest → Option Account → Action Response
send_from c r none = pure (refuse 404 (account_id_not_found r.sender_id))
send_from c r (some a) =
    if is_foreign c a
    then pure (refuse 404 (account_id_not_found r.sender_id))
    else transfer_and_answer r

abbrev pub create_loaded : Caller → Option TransferRequest → Action Response
create_loaded c none = pure (refuse 400 validation_failed)
create_loaded c (some r) = do
  found ← gets (λ s. get_account r.sender_id s.working.accounts)
  send_from c r found

unfoldable pub create_transfer : Caller → TransferPayload → Action Response
unfolding execute_transfer load_transfer
create_transfer c p = create_loaded c (load_transfer p)
