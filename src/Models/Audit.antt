-- ===== src/Models/Audit.antt =====
-- app/models/domain.py: the audit trail. `Details` has a constructor for each dictionary that the
-- program hands to `record_audit_event`; the column holds its JSON text, the model the value itself.
use bank_flow_digital_bankin.Base.{ℕ, String, Bool, Option, List}
use bank_flow_digital_bankin.Base.Int.{ℤ}
use bank_flow_digital_bankin.Base.Decimal.{Decimal}
use bank_flow_digital_bankin.Models.Domain.{UserRole, AccountStatus}

pub data AuditEventType : Type 0 where
  login_success login_failed user_registered role_updated account_created : AuditEventType
  account_created_idempotent_replay account_status_changed deposit_completed : AuditEventType
  deposit_idempotent_replay transfer_completed reconciliation_run : AuditEventType
  branding_updated freeze_requested freeze_request_reviewed : AuditEventType

-- The reason that a refused login records.
pub data LoginFailure : Type 0 where
  user_not_found invalid_password : LoginFailure

-- The report of `reconcile_system_balances`.
pub record Report : Type 0 where
  pub is_healthy : Bool
  pub timestamp : ℕ
  pub accounts_count : ℕ
  pub total_account_balances : ℤ
  pub total_ledger_credits : ℤ
  pub total_ledger_debits : ℤ
  pub total_completed_transactions : ℕ
  pub transfer_discrepancies_count : ℕ

pub data Details : Type 0 where
  transfer :
      (transaction_id sender_account_id receiver_account_id : ℕ) (amount : Decimal)
      (idempotency_key : Option String)
      → Details
  opened : (account_number : String) (initial_deposit : Decimal) → Details
  deposited : (amount new_balance : Decimal) → Details
  status_changed : (old_status new_status : AccountStatus) → Details
  role_changed : (old_role new_role : UserRole) → Details
  registered : (email : String) (role : UserRole) (initial_deposit : Decimal) → Details
  attempted : (attempted_email : String) (reason : LoginFailure) → Details
  logged_in : (email : String) → Details
  reconciled : Report → Details
  branding_changed :
      (changed_fields : List String) (changes : List (String × Option String × Option String))
      → Details

pub record AuditLog : Type 0 where
  pub log_id : ℕ
  pub event_type : AuditEventType
  pub actor_id : Option ℕ
  pub target_user_id : Option ℕ
  pub target_account_id : Option ℕ
  pub ip_address : Option String
  pub user_agent : Option String
  pub request_id : Option String
  pub details_json : Option Details
  pub created_at : ℕ
