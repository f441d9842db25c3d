-- ===== src/Examples.antt =====
-- A small bank on which the theorems are run: two customers with an account each, and a request of
-- one of them.
mod Days
mod Deposits
mod Logins
mod Files
mod Locks
mod Routes
mod Settings
mod Transfers
use bank_flow_digital_bankin.Base.{ℕ, String, none, some, [], ◌∷◌, ◌≡◌, refl, arith}
use bank_flow_digital_bankin.Base.Int.{ℤ, pos}
use bank_flow_digital_bankin.Models.{User, Account, AccountStatus, active, customer}
use bank_flow_digital_bankin.Database.{
  Db, Session, empty_db, violation, integrity_ok, data_ok, text_key_free, key_free,
}
use bank_flow_digital_bankin.Invariant.{IsValid}

abbrev pub user_row : ℕ → String → String → User
user_row id name email = record {
  user_id = id;
  full_name = name;
  email = email;
  password_hash = "$2b$12$";
  role = customer;
  created_at = 1;
}

abbrev pub account_row : ℕ → String → ℤ → AccountStatus → Account
account_row id number balance status = record {
  account_id = id;
  user_id = id;
  account_number = number;
  balance = balance;
  status = status;
  created_at = 1;
}

abbrev pub tables : Db
tables = record empty_db {
  users = user_row 1 "Alice" "alice@example.com" ∷ user_row 2 "Bob" "bob@example.com" ∷ [];
  accounts =
      account_row 1 "BF0000000001" (pos 100_000) active
      ∷ account_row 2 "BF0000000002" (pos 500) active
      ∷ [];
}

-- Alice's request to the bank.
abbrev pub bank : Session
bank = record {
  committed = tables;
  working = tables;
  ids = record {
    user = 3;
    account = 3;
    transaction = 1;
    entry = 1;
    log = 1;
    idempotency = 1;
    profile = 1;
    config = 1;
  };
  now = 7;
  context = none;
  outbox = [];
}

tables_sound : violation tables ≡ none
unfolding violation integrity_ok data_ok text_key_free key_free
tables_sound = refl

pub bank-IsValid : IsValid bank
bank-IsValid = record {
  clean = refl;
  stored = record {
    sound = tables_sound;
    transactions_below = tt;
    links_below = tt;
    records_answer = refl;
    paired = tt;
    accounts_below = omega arith;
  };
}
