-- ===== src/Models/Idempotency.antt =====
-- app/models/idempotency.py, with the responses that it stores for replay. An endpoint's identifier
-- and a response are texts in the table; the model has a constructor for each that the program
-- writes, and holds the response that the JSON text stands for.
use bank_flow_digital_bankin.Base.{ℕ, String, Bool, true, false, ◌==◌}
use bank_flow_digital_bankin.Base.Decimal.{Decimal}
use bank_flow_digital_bankin.Models.Domain.{Account}

-- `"create_account"` and `f"deposit_funds:{account_id}"`
pub data Endpoint : Type 0 where
  create_account : Endpoint
  deposit_funds : (account_id : ℕ) → Endpoint

-- `existing.endpoint == endpoint`
abbrev pub same_endpoint : Endpoint → Endpoint → Bool
same_endpoint create_account create_account = true
same_endpoint create_account (deposit_funds b) = false
same_endpoint (deposit_funds a) create_account = false
same_endpoint (deposit_funds a) (deposit_funds b) = a == b

-- The bodies that the two endpoints return on success.
pub data StoredBody : Type 0 where
  account_created : Account → StoredBody
  deposited : (amount : Decimal) → Account → StoredBody

pub record IdempotencyRecord : Type 0 where
  pub record_id : ℕ
  pub idempotency_key : String
  pub endpoint : Endpoint
  pub response_body : StoredBody
  pub status_code : ℕ
  pub created_at : ℕ
