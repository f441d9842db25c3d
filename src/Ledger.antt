-- ===== src/Ledger.antt =====
-- The general ledger: an entry as the services and routes of app write it, in the session's
-- transaction.
use bank_flow_digital_bankin.Base.{ℕ, ◌+◌, Option, [], ◌∷◌, ◌++◌}
use bank_flow_digital_bankin.Base.Int.{ℤ}
use bank_flow_digital_bankin.Models.{LedgerEntry, LedgerEntryType, Description}
use bank_flow_digital_bankin.Database.{Session, Action, modify_session}

abbrev pub new_entry : Option ℕ → ℕ → LedgerEntryType → ℤ → ℤ → Description → Session → LedgerEntry
new_entry tx account kind amount after text s = record {
  entry_id = s.ids.entry;
  transaction_id = tx;
  account_id = account;
  entry_type = kind;
  amount = amount;
  balance_after = after;
  description = text;
  created_at = s.now;
}

-- `db_session.add(LedgerEntry(...))`
unfoldable pub add_entry : Option ℕ → ℕ → LedgerEntryType → ℤ → ℤ → Description → Action (Unit {0})
add_entry tx account kind amount after text = modify_session (λ s. record s {
  working = record (s.working) {
    ledger_entries = s.working.ledger_entries ++ new_entry tx account kind amount after text s ∷ [];
  };
  ids = record (s.ids) { entry = s.ids.entry + 1 };
})
