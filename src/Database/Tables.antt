-- ===== src/Database/Tables.antt =====
-- The tables, each the list of its rows in the order of insertion.
use bank_flow_digital_bankin.Base.{
  ℕ, String, Option, none, some, Bool, false, List, [], ◌∷◌, str_eq, if◌then◌else◌,
}
use bank_flow_digital_bankin.Base.Int.{ℤ}
use bank_flow_digital_bankin.Base.Rows
use bank_flow_digital_bankin.Models.{
  User, Account, Transaction, TransactionStatus, LedgerEntry, AuditLog, IdempotencyRecord,
  UserProfile, BankConfig,
}

pub record Db : Type 0 where
  pub users : List User
  pub accounts : List Account
  pub transactions : List Transaction
  pub ledger_entries : List LedgerEntry
  pub audit_logs : List AuditLog
  pub idempotency_records : List IdempotencyRecord
  pub user_profiles : List UserProfile
  pub bank_configs : List BankConfig

abbrev pub empty_db : Db
empty_db = record {
  users = [];
  accounts = [];
  transactions = [];
  ledger_entries = [];
  audit_logs = [];
  idempotency_records = [];
  user_profiles = [];
  bank_configs = [];
}

-- `Account.query.filter_by(account_id=k).first()`, also with `with_for_update()`
abbrev pub get_account : ℕ → List Account → Option Account
get_account = Rows.get (λ (a : Account). a.account_id)

-- an UPDATE of the row of account `k`
abbrev pub modify_account : ℕ → (Account → Account) → List Account → List Account
modify_account = Rows.modify (λ (a : Account). a.account_id)

abbrev pub set_balance : ℤ → Account → Account
set_balance v a = record a { balance = v }

-- `db.session.get(User, k)`
abbrev pub get_user : ℕ → List User → Option User
get_user = Rows.get (λ (u : User). u.user_id)

abbrev pub modify_user : ℕ → (User → User) → List User → List User
modify_user = Rows.modify (λ (u : User). u.user_id)

-- `User.query.filter_by(email=e).first()`
abbrev pub find_email : String → List User → Option User
find_email e [] = none
find_email e (u ∷ users) = if str_eq e u.email then some u else find_email e users

abbrev pub get_transaction : ℕ → List Transaction → Option Transaction
get_transaction = Rows.get (λ (t : Transaction). t.transaction_id)

abbrev pub modify_transaction :
    ℕ → (Transaction → Transaction) → List Transaction → List Transaction
modify_transaction = Rows.modify (λ (t : Transaction). t.transaction_id)

abbrev pub set_status : TransactionStatus → Transaction → Transaction
set_status st t = record t { status = st }

-- A nullable text column against a text; NULL equals no text.
abbrev pub column_eq : String → Option String → Bool
column_eq k none = false
column_eq k (some j) = str_eq k j

-- `query(Transaction).filter_by(idempotency_key=k).first()`
abbrev pub find_key : String → List Transaction → Option Transaction
find_key k [] = none
find_key k (t ∷ txs) = if column_eq k t.idempotency_key then some t else find_key k txs

-- `IdempotencyRecord.query.filter_by(idempotency_key=k).first()`
abbrev pub find_record : String → List IdempotencyRecord → Option IdempotencyRecord
find_record k [] = none
find_record k (r ∷ records) = if str_eq k r.idempotency_key then some r else find_record k records

-- `Account.query.filter_by(account_number=n).first()`
abbrev pub find_number : String → List Account → Option Account
find_number n [] = none
find_number n (a ∷ rows) = if str_eq n a.account_number then some a else find_number n rows
