-- ===== src/Models/Domain.antt =====
-- app/models/domain.py: users, accounts, transactions and ledger entries. A primary or a foreign key
-- is a number, a `Numeric(12, 2)` column a whole number of cents, a date a number that grows with
-- time. The relationships that SQLAlchemy derives from the keys are queries of the code that uses them.
use bank_flow_digital_bankin.Base.{ℕ, String, Bool, true, false, Option}
use bank_flow_digital_bankin.Base.Int.{ℤ}

pub data UserRole : Type 0 where
  customer admin : UserRole

pub data AccountStatus : Type 0 where
  active frozen closed : AccountStatus

pub data TransactionStatus : Type 0 where
  pending completed failed : TransactionStatus

pub data LedgerEntryType : Type 0 where
  debit credit : LedgerEntryType

-- `role == UserRole.ADMIN.value`
abbrev pub is_admin : UserRole → Bool
is_admin admin = true
is_admin customer = false

-- `status == AccountStatus.ACTIVE`
abbrev pub is_active : AccountStatus → Bool
is_active active = true
is_active frozen = false
is_active closed = false

-- `status == TransactionStatus.COMPLETED`
abbrev pub is_completed : TransactionStatus → Bool
is_completed completed = true
is_completed pending = false
is_completed failed = false

-- `entry_type == LedgerEntryType.DEBIT`
abbrev pub is_debit : LedgerEntryType → Bool
is_debit debit = true
is_debit credit = false

-- `entry_type == LedgerEntryType.CREDIT`
abbrev pub is_credit : LedgerEntryType → Bool
is_credit credit = true
is_credit debit = false

pub record User : Type 0 where
  pub user_id : ℕ
  pub full_name : String
  pub email : String
  pub password_hash : String
  pub role : UserRole
  pub created_at : ℕ

pub record Account : Type 0 where
  pub account_id : ℕ
  pub user_id : ℕ
  pub account_number : String
  pub balance : ℤ
  pub status : AccountStatus
  pub created_at : ℕ

pub record Transaction : Type 0 where
  pub transaction_id : ℕ
  pub sender_account_id : ℕ
  pub receiver_account_id : ℕ
  pub amount : ℤ
  pub status : TransactionStatus
  pub idempotency_key : Option String
  pub created_at : ℕ

-- The texts that the program writes in `description`.
pub data Description : Type 0 where
  transfer_to : (receiver_id : ℕ) → Description
  transfer_from : (sender_id : ℕ) → Description
  initial_deposit : Description
  external_deposit : (account_id : ℕ) → Description
  provision_balance : Description

pub record LedgerEntry : Type 0 where
  pub entry_id : ℕ
  pub transaction_id : Option ℕ
  pub account_id : ℕ
  pub entry_type : LedgerEntryType
  pub amount : ℤ
  pub balance_after : ℤ
  pub description : Description
  pub created_at : ℕ
