-- ===== src/Database/Constraints.antt =====
-- What the database checks at a flush, as the models declare it: the CHECK constraints and the
-- unique columns, the range of a `Numeric(12, 2)` column and the lengths of text columns (MySQL's strict
-- mode refuses a value out of range and a text that is too long).
use bank_flow_digital_bankin.Base.{
  ℕ, suc, String, Option, none, some, Bool, true, ◌&&◌, not, List, [], ◌∷◌, str_eq, ◌==◌, leb,
  if◌then◌else◌, all, any,
}
use bank_flow_digital_bankin.Base.Int.{ℤ, pos, ltb_ℤ, leb_ℤ}
use bank_flow_digital_bankin.Models.{
  User, Account, Transaction, LedgerEntry, IdempotencyRecord, UserProfile, BankConfig, AuditLog,
}
use bank_flow_digital_bankin.Database.Tables.{Db, column_eq}

pub data Violation : Type 0 where
  integrity data_range : Violation

-- One more cent than the largest amount of twelve digits, two of them decimals.
abbrev pub numeric_limit : ℕ
numeric_limit = 1_000_000_000_000

abbrev pub fits_numeric : ℤ → Bool
fits_numeric v = ltb_ℤ v (pos numeric_limit)

-- `String(128)`
abbrev pub max_key_length : ℕ
max_key_length = 128

-- the number of characters of a text
abbrev pub chars : String → ℕ
chars String.[] = 0
chars (String.◌∷◌ _ s) = suc (chars s)

abbrev pub fits_key : Option String → Bool
fits_key none = true
fits_key (some k) = leb (chars k) max_key_length

-- check_account_balance_non_negative
abbrev pub account_ok : Account → Bool
account_ok a = leb_ℤ (pos 0) a.balance

-- check_transaction_amount_positive, check_sender_receiver_different
abbrev pub transaction_ok : Transaction → Bool
transaction_ok t = ltb_ℤ (pos 0) t.amount && not (t.sender_account_id == t.receiver_account_id)

-- check_ledger_amount_positive
abbrev pub entry_ok : LedgerEntry → Bool
entry_ok e = ltb_ℤ (pos 0) e.amount

abbrev pub account_fits : Account → Bool
account_fits a = fits_numeric a.balance

abbrev pub transaction_fits : Transaction → Bool
transaction_fits t = fits_numeric t.amount && fits_key t.idempotency_key

abbrev pub entry_fits : LedgerEntry → Bool
entry_fits e = fits_numeric e.amount && fits_numeric e.balance_after

abbrev pub record_fits : IdempotencyRecord → Bool
record_fits r = leb (chars r.idempotency_key) max_key_length

-- a nullable `String(n)`
abbrev pub fits_text : ℕ → Option String → Bool
fits_text n none = true
fits_text n (some t) = leb (chars t) n

-- every text with the length of its column
abbrev pub all_fit : List (ℕ × Option String) → Bool
all_fit = all (λ (c : ℕ × Option String). fits_text c.0 c.1)

abbrev pub profile_columns : UserProfile → List (ℕ × Option String)
profile_columns p =
    (20, p.phone_number)
    ∷ (64, p.id_number)
    ∷ (255, p.address_line1)
    ∷ (100, p.address_city)
    ∷ (64, p.address_country)
    ∷ []

abbrev pub profile_fits : UserProfile → Bool
profile_fits p = all_fit (profile_columns p)

abbrev pub config_columns : BankConfig → List (ℕ × Option String)
config_columns c =
    (120, c.bank_name)
    ∷ (255, c.bank_tagline)
    ∷ (512, c.bank_logo_url)
    ∷ (32, c.primary_color)
    ∷ (32, c.secondary_color)
    ∷ (32, c.accent_color)
    ∷ (120, c.support_email)
    ∷ (40, c.support_phone)
    ∷ (64, c.bank_country)
    ∷ (8, c.currency_code)
    ∷ (8, c.currency_symbol)
    ∷ (20, c.routing_number)
    ∷ (20, c.swift_code)
    ∷ []

abbrev pub config_fits : BankConfig → Bool
config_fits c = all_fit (config_columns c)

-- The hash, a `String(255)`, is bcrypt's, which has sixty characters.
abbrev pub user_columns : User → List (ℕ × Option String)
user_columns u = (120, some u.full_name) ∷ (120, some u.email) ∷ []

abbrev pub user_fits : User → Bool
user_fits u = all_fit (user_columns u)

abbrev pub log_columns : AuditLog → List (ℕ × Option String)
log_columns l = (64, l.ip_address) ∷ (255, l.user_agent) ∷ (64, l.request_id) ∷ []

abbrev pub log_fits : AuditLog → Bool
log_fits l = all_fit (log_columns l)

-- No row holds the value `k` in a nullable unique column; NULL is free in every table.
unfoldable pub key_free : Option String → List Transaction → Bool
key_free none txs = true
key_free (some k) txs = not (any (λ (t : Transaction). column_eq k t.idempotency_key) txs)

abbrev pub unique_keys : List Transaction → Bool
unique_keys [] = true
unique_keys (t ∷ txs) = key_free t.idempotency_key txs && unique_keys txs

-- No row holds the text `k` in the unique column that `f` reads.
unfoldable pub text_key_free {ℓ} : {A : Type ℓ} → (A → String) → String → List A → Bool
text_key_free f k rows = not (any (λ a. str_eq k (f a)) rows)

abbrev pub unique_texts {ℓ} : {A : Type ℓ} → (A → String) → List A → Bool
unique_texts f [] = true
unique_texts f (a ∷ rows) = text_key_free f (f a) rows && unique_texts f rows

-- The same for a unique column of numbers, such as a foreign key of a one-to-one relation.
unfoldable pub number_free {ℓ} : {A : Type ℓ} → (A → ℕ) → ℕ → List A → Bool
number_free f k rows = not (any (λ a. k == f a) rows)

abbrev pub unique_numbers {ℓ} : {A : Type ℓ} → (A → ℕ) → List A → Bool
unique_numbers f [] = true
unique_numbers f (a ∷ rows) = number_free f (f a) rows && unique_numbers f rows

unfoldable pub integrity_ok : Db → Bool
integrity_ok d =
    all account_ok d.accounts
    && (all transaction_ok d.transactions
        && (all entry_ok d.ledger_entries
            && (unique_keys d.transactions
                && (unique_texts (λ (a : Account). a.account_number) d.accounts
                    && (unique_texts (λ (u : User). u.email) d.users
                        && (unique_texts (λ (r : IdempotencyRecord). r.idempotency_key)
                              d.idempotency_records
                            && unique_numbers (λ (p : UserProfile). p.user_id) d.user_profiles))))))

unfoldable pub data_ok : Db → Bool
data_ok d =
    all account_fits d.accounts
    && (all transaction_fits d.transactions
        && (all entry_fits d.ledger_entries
            && (all record_fits d.idempotency_records
                && (all profile_fits d.user_profiles
                    && (all config_fits d.bank_configs
                        && (all user_fits d.users && all log_fits d.audit_logs))))))

-- The first check that the tables fail.
unfoldable pub violation : Db → Option Violation
violation d =
    if integrity_ok d then (if data_ok d then none else some data_range) else some integrity
