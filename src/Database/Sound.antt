-- ===== src/Database/Sound.antt =====
-- Tables that pass every check of a flush, field by field, and how the writes of the program keep them
-- so.
use bank_flow_digital_bankin.Base.{none, true, ◌≡◌, arith, all}
use bank_flow_digital_bankin.Models.{User, Account, IdempotencyRecord, UserProfile}
use bank_flow_digital_bankin.Database.{
  Db, violation, integrity_ok, data_ok, account_ok, account_fits, transaction_ok, transaction_fits,
  entry_ok, entry_fits, record_fits, unique_keys, unique_texts, unique_numbers, profile_fits,
  config_fits, user_fits, log_fits,
}

pub record IsSound (d : Db) : Type 0 where
  pub accounts_ok : all account_ok d.accounts ≡ true
  pub accounts_fit : all account_fits d.accounts ≡ true
  pub transactions_ok : all transaction_ok d.transactions ≡ true
  pub transactions_fit : all transaction_fits d.transactions ≡ true
  pub entries_ok : all entry_ok d.ledger_entries ≡ true
  pub entries_fit : all entry_fits d.ledger_entries ≡ true
  pub records_fit : all record_fits d.idempotency_records ≡ true
  pub keys_unique : unique_keys d.transactions ≡ true
  pub numbers_unique : unique_texts (λ (a : Account). a.account_number) d.accounts ≡ true
  pub emails_unique : unique_texts (λ (u : User). u.email) d.users ≡ true
  pub records_unique :
      unique_texts (λ (r : IdempotencyRecord). r.idempotency_key) d.idempotency_records ≡ true
  pub profiles_fit : all profile_fits d.user_profiles ≡ true
  pub profiles_unique : unique_numbers (λ (p : UserProfile). p.user_id) d.user_profiles ≡ true
  pub configs_fit : all config_fits d.bank_configs ≡ true
  pub users_fit : all user_fits d.users ≡ true
  pub logs_fit : all log_fits d.audit_logs ≡ true

pub sound : (d : Db) → violation d ≡ none → IsSound d
unfolding violation integrity_ok data_ok
sound d h = ground arith

pub no_violation : (d : Db) → IsSound d → violation d ≡ none
unfolding violation integrity_ok data_ok
no_violation d h = rw (
  h.accounts_ok, h.transactions_ok, h.entries_ok, h.keys_unique, h.numbers_unique, h.emails_unique,
  h.records_unique, h.accounts_fit, h.transactions_fit, h.entries_fit, h.records_fit,
  h.profiles_fit, h.profiles_unique, h.configs_fit, h.users_fit, h.logs_fit,
)
