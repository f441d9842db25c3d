-- ===== src/Transfer/Outcome.antt =====
-- `execute_transfer` as a decision: the guards in their order, then one booking under a rollback.
use bank_flow_digital_bankin.Base.{Option, none, some, if◌then◌else◌, ◌≡◌, arith}
use bank_flow_digital_bankin.Base.Int.{pos}
use bank_flow_digital_bankin.Base.Decimal.{at_most}
use bank_flow_digital_bankin.Models.{Account, Transaction}
use bank_flow_digital_bankin.Database.{
  Session, Result, ok, err, invalid_transfer, idempotency_key_conflict, rollback, or_rollback,
}
use bank_flow_digital_bankin.Transfer.{
  TransferRequest, same_parameters, existing_transfer, book_transfer, new_transfer,
  transfer_or_replay, execute_transfer,
}
use bank_flow_digital_bankin.Transfer.Guards.{validation, validate_accounts-eq}

abbrev pub by_accounts :
    TransferRequest → Session → Result (Account × Account) → Result Transaction × Session
by_accounts r s (err e) = (err e, rollback s)
by_accounts r s (ok (a, b)) = or_rollback (book_transfer r a b) s

abbrev pub by_key : TransferRequest → Session → Option Transaction → Result Transaction × Session
by_key r s none = by_accounts r s (validation r s.working.accounts)
by_key r s (some t) =
    if same_parameters r t then (ok t, s) else (err idempotency_key_conflict, rollback s)

abbrev pub outcome : TransferRequest → Session → Result Transaction × Session
outcome r s =
    if at_most r.amount (pos 0)
    then (err invalid_transfer, s)
    else by_key r s (existing_transfer r.idempotency_key s.working)

-- The call decides by the amount, then by the key, then by the accounts read without locks, and
-- books last; every refusal but the first rolls the session back.
pub execute_transfer-outcome :
    (r : TransferRequest) (s : Session) → execute_transfer r s ≡ outcome r s
unfolding execute_transfer new_transfer transfer_or_replay
execute_transfer-outcome r s = ground (arith, validate_accounts-eq r s)
