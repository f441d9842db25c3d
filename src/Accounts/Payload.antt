-- ===== src/Accounts/Payload.antt =====
-- app/schemas/account_schema.py: the amounts that the two payloads carry.
use bank_flow_digital_bankin.Base.{Option, none, some, if◌then◌else◌}
use bank_flow_digital_bankin.Base.Int.{pos, ltb_ℤ}
use bank_flow_digital_bankin.Base.Decimal.{Decimal, whole, at_most}

-- A number that marshmallow reads from a payload: absent, not a number, or a decimal of any precision.
pub data AmountField : Type 0 where
  missing malformed : AmountField
  given : Decimal → AmountField

-- `DepositSchema`: required, and more than zero
unfoldable pub load_deposit : AmountField → Option Decimal
load_deposit missing = none
load_deposit malformed = none
load_deposit (given x) = if at_most x (pos 0) then none else some x

-- `CreateAccountSchema`: zero by default, and not negative
unfoldable pub load_initial_deposit : AmountField → Option Decimal
load_initial_deposit missing = some (whole (pos 0))
load_initial_deposit malformed = none
load_initial_deposit (given x) = if ltb_ℤ x.cents (pos 0) then none else some x
