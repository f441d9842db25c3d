-- ===== src/Transfer/Booking.antt =====
-- Steps 5 to 11 of `execute_transfer` in closed form: the tables after the first flush, the tables at the
-- commit, and what the call returns in each case.
use bank_flow_digital_bankin.Base.{ℕ, ◌+◌, ◌≤◌, none, some, [], ◌∷◌, ◌++◌, ◌≡◌, refl, arith}
use bank_flow_digital_bankin.Base.Rows.{Below, modify-append_new}
use bank_flow_digital_bankin.Base.Decimal.{to_column, sum_column, difference_column}
use bank_flow_digital_bankin.Models.{
  Account, Transaction, LedgerEntry, transfer_to, transfer_from, debit, credit, completed,
}
use bank_flow_digital_bankin.Database.{
  Db, Session, ok, err, violation, modify_account, set_balance, set_status,
}
use bank_flow_digital_bankin.Ledger.{new_entry}
use bank_flow_digital_bankin.Audit.{add_log, audit_entry}
use bank_flow_digital_bankin.Transfer.{
  TransferRequest, new_transaction, completed_event, notify_sender, book_transfer,
}

module _ (r : TransferRequest) (a b : Account) (s : Session) where
  abbrev pub tx : Transaction
  tx = set_status completed (new_transaction r s)

  abbrev pub debit_entry : LedgerEntry
  debit_entry =
      new_entry (some s.ids.transaction) r.sender_id debit (to_column r.amount)
        (difference_column a.balance r.amount) (transfer_to r.receiver_id) s

  abbrev pub credit_entry : LedgerEntry
  credit_entry =
      record (new_entry (some s.ids.transaction) r.receiver_id credit (to_column r.amount)
        (sum_column b.balance r.amount) (transfer_from r.sender_id) s) {
          entry_id = s.ids.entry + 1;
        }

  -- the tables at the first flush
  abbrev pub pending_db : Db
  pending_db = record (s.working) {
    transactions = s.working.transactions ++ new_transaction r s ∷ [];
  }

  -- the tables that are committed
  abbrev pub booked_db : Db
  booked_db = record (s.working) {
    accounts = modify_account r.receiver_id (set_balance (sum_column b.balance r.amount)) (
        modify_account r.sender_id (set_balance (difference_column a.balance r.amount))
          s.working.accounts);
    transactions = s.working.transactions ++ tx ∷ [];
    ledger_entries = (s.working.ledger_entries ++ debit_entry ∷ []) ++ credit_entry ∷ [];
    audit_logs = s.working.audit_logs ++ audit_entry (completed_event r s.ids.transaction a) s ∷ [];
  }

  abbrev pub booked : Session
  booked = record s {
    committed = booked_db;
    working = booked_db;
    ids = record (s.ids) {
      transaction = s.ids.transaction + 1;
      entry = s.ids.entry + 1 + 1;
      log = s.ids.log + 1;
    };
  }

  abbrev NewKey : Type 0
  NewKey = Below (λ (t : Transaction). t.transaction_id) s.ids.transaction s.working.transactions

  pub book_transfer-booked :
      NewKey
      → violation pending_db ≡ none
      → violation booked_db ≡ none
      → book_transfer r a b s ≡ (ok tx, (notify_sender r s.ids.transaction a booked).1)
  unfolding book_transfer add_log
  book_transfer-booked new e q = ground (
    arith,
    modify-append_new (λ (t : Transaction). t.transaction_id) s.ids.transaction
        (set_status completed) s.working.transactions (new_transaction r s) new refl,
  )

  pub book_transfer-err :
      (e : _)
      → (book_transfer r a b s).0 ≡ err e
      → ((book_transfer r a b s).1.committed ≡ s.committed)
        × ((book_transfer r a b s).1.outbox ≡ s.outbox)
  unfolding book_transfer add_log
  book_transfer-err e h = ground arith

  -- A booking that succeeds has passed both flushes.
  pub book_transfer-flushed :
      NewKey
      → (t : Transaction) → (book_transfer r a b s).0 ≡ ok t
      → (violation pending_db ≡ none) × (violation booked_db ≡ none)
  unfolding book_transfer add_log
  book_transfer-flushed new t h = ground (
    arith,
    modify-append_new (λ (t : Transaction). t.transaction_id) s.ids.transaction
        (set_status completed) s.working.transactions (new_transaction r s) new refl,
  )

  pub book_transfer-ids :
      (s.ids.transaction ≤ (book_transfer r a b s).1.ids.transaction)
      × (s.ids.account ≤ (book_transfer r a b s).1.ids.account)
  unfolding book_transfer add_log
  book_transfer-ids = ground arith

-- The notice touches the outbox alone.
pub notify_sender-db :
    (r : TransferRequest) (id : ℕ) (a : Account) (s : Session)
    → ((notify_sender r id a s).1.committed ≡ s.committed)
      × ((notify_sender r id a s).1.working ≡ s.working)
      × ((notify_sender r id a s).1.ids ≡ s.ids)
unfolding notify_sender
notify_sender-db r id a s = ground arith
