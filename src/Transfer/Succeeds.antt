-- ===== src/Transfer/Succeeds.antt =====
-- When `execute_transfer` succeeds: the guards leave nothing for the database to refuse, but a balance or a
-- key that is too large for its column.
use bank_flow_digital_bankin.Base.{
  String, Option, none, some, true, false, List, [], ◌∷◌, ◌++◌, ◌≡◌, ◌≢◌, inl, inr, refl, ap, ◌∙◌,
  arith, all, all-append_one, str_eq, eq_iff, Bool-cases,
}
use bank_flow_digital_bankin.Base.Int.{pos, ◌<ℤ◌, ◌≤ℤ◌}
use bank_flow_digital_bankin.Base.Rows.{all-get, all-modify}
use bank_flow_digital_bankin.Base.Decimal.{
  Decimal, at_most, to_column, sum_column, difference_column, to_column-le, stored-pos,
  sum_column-ge, difference_column-bounds,
}
use bank_flow_digital_bankin.Models.{Account, Transaction}
use bank_flow_digital_bankin.Database.{
  Db, Session, Result, ok, violation, account_ok, account_fits, transaction_ok, transaction_fits,
  entry_ok, entry_fits, key_free, unique_texts, fits_numeric, fits_key, numeric_limit, set_balance,
  log_fits,
}
use bank_flow_digital_bankin.Database.Sound.{IsSound, sound, no_violation}
use bank_flow_digital_bankin.Database.Unique.{
  unique_keys-append, unique_texts-modify, find_key-free,
}
use bank_flow_digital_bankin.Audit.{context_fits, audit_entry-fits}
use bank_flow_digital_bankin.Invariant.{IsStored, IsValid, seen}
use bank_flow_digital_bankin.Transfer.{
  TransferRequest, existing_transfer, execute_transfer, new_transaction, notify_sender,
  completed_event,
}
use bank_flow_digital_bankin.Transfer.Booking.{
  tx, debit_entry, credit_entry, booked, booked_db, pending_db, book_transfer-booked,
  notify_sender-db,
}
use bank_flow_digital_bankin.Transfer.Guards.{validation}
use bank_flow_digital_bankin.Transfer.Outcome.{execute_transfer-outcome}
use bank_flow_digital_bankin.Transfer.Cases.{Accepted}
use bank_flow_digital_bankin.Transfer.Money.{id_of, receiver_after_debit}

abbrev number_of : Account → String
number_of a = a.account_number

module _ (r : TransferRequest) (s : Session) {a b : Account} (acc : Accepted r s a b)
    (positive : pos 0 <ℤ to_column r.amount)
    (room : sum_column b.balance r.amount <ℤ pos numeric_limit)
    (short : fits_key r.idempotency_key ≡ true)
    (free : key_free r.idempotency_key s.working.transactions ≡ true) (h : IsSound s.working)
    (context : context_fits s.context ≡ true) where
  above : pos 0 ≤ℤ r.amount.cents
  above = stored-pos r.amount positive

  left :
      (pos 0 ≤ℤ difference_column a.balance r.amount)
      × (difference_column a.balance r.amount ≤ℤ a.balance)
  left = difference_column-bounds a.balance r.amount acc.covered above

  amount-le : to_column r.amount ≤ℤ a.balance
  amount-le = to_column-le r.amount a.balance acc.covered

  row_ok : transaction_ok (tx r a b s) ≡ true
  row_ok = let d = acc.distinct in ground arith

  sender_fits : account_fits a ≡ true
  sender_fits =
      all-get id_of account_fits r.sender_id s.working.accounts h.accounts_fit acc.found_sender

  sender_ok : account_ok a ≡ true
  sender_ok = all-get id_of account_ok r.sender_id s.working.accounts h.accounts_ok acc.found_sender

  receiver_ok : account_ok b ≡ true
  receiver_ok =
      all-get id_of account_ok r.receiver_id s.working.accounts h.accounts_ok acc.found_receiver

  row_fits : transaction_fits (tx r a b s) ≡ true
  row_fits = ground (arith, sender_fits, amount-le)

  debited_ok : account_ok (set_balance (difference_column a.balance r.amount) a) ≡ true
  debited_ok = ground (arith, left)

  debited_fits : account_fits (set_balance (difference_column a.balance r.amount) a) ≡ true
  debited_fits = ground (arith, left, sender_fits)

  credited_ok : account_ok (set_balance (sum_column b.balance r.amount) b) ≡ true
  credited_ok = ground (arith, receiver_ok, sum_column-ge b.balance r.amount above)

  amount_fits : fits_numeric (to_column r.amount) ≡ true
  amount_fits = ground (arith, sender_fits, amount-le)

  balances_ok : all account_ok (booked_db r a b s).accounts ≡ true
  balances_ok =
      all-modify id_of account_ok r.receiver_id (set_balance (sum_column b.balance r.amount)) _
        (all-modify id_of account_ok r.sender_id
          (set_balance (difference_column a.balance r.amount)) s.working.accounts h.accounts_ok
          acc.found_sender debited_ok)
        (receiver_after_debit r s acc) credited_ok

  balances_fit : all account_fits (booked_db r a b s).accounts ≡ true
  balances_fit =
      all-modify id_of account_fits r.receiver_id (set_balance (sum_column b.balance r.amount)) _
        (all-modify id_of account_fits r.sender_id
          (set_balance (difference_column a.balance r.amount)) s.working.accounts h.accounts_fit
          acc.found_sender debited_fits)
        (receiver_after_debit r s acc) (ground arith)

  numbers_kept :
      unique_texts number_of (booked_db r a b s).accounts
      ≡ unique_texts number_of s.working.accounts
  numbers_kept =
      unique_texts-modify number_of id_of r.receiver_id
        (set_balance (sum_column b.balance r.amount)) (λ _. refl) _
      ∙ unique_texts-modify number_of id_of r.sender_id
          (set_balance (difference_column a.balance r.amount)) (λ _. refl) s.working.accounts

  -- The first flush finds nothing to refuse.
  pub pending_sound : violation (pending_db r a b s) ≡ none
  pending_sound = no_violation (pending_db r a b s) (record {
    accounts_ok = h.accounts_ok;
    accounts_fit = h.accounts_fit;
    transactions_ok =
        all-append_one transaction_ok s.working.transactions (new_transaction r s) h.transactions_ok
          row_ok;
    transactions_fit =
        all-append_one transaction_fits s.working.transactions (new_transaction r s)
          h.transactions_fit row_fits;
    entries_ok = h.entries_ok;
    entries_fit = h.entries_fit;
    records_fit = h.records_fit;
    keys_unique =
        unique_keys-append s.working.transactions (new_transaction r s) h.keys_unique free;
    numbers_unique = h.numbers_unique;
    emails_unique = h.emails_unique;
    records_unique = h.records_unique;
    profiles_fit = h.profiles_fit;
    profiles_unique = h.profiles_unique;
    configs_fit = h.configs_fit;
    users_fit = h.users_fit;
    logs_fit = h.logs_fit;
  })

  -- Nor does the commit.
  pub booked_sound : violation (booked_db r a b s) ≡ none
  booked_sound = no_violation (booked_db r a b s) (record {
    accounts_ok = balances_ok;
    accounts_fit = balances_fit;
    transactions_ok =
        all-append_one transaction_ok s.working.transactions (tx r a b s) h.transactions_ok row_ok;
    transactions_fit =
        all-append_one transaction_fits s.working.transactions (tx r a b s) h.transactions_fit
          row_fits;
    entries_ok =
        all-append_one entry_ok (s.working.ledger_entries ++ debit_entry r a b s ∷ [])
          (credit_entry r a b s)
          (all-append_one entry_ok s.working.ledger_entries (debit_entry r a b s) h.entries_ok
            (ground arith))
          (ground arith);
    entries_fit =
        all-append_one entry_fits (s.working.ledger_entries ++ debit_entry r a b s ∷ [])
          (credit_entry r a b s)
          (all-append_one entry_fits s.working.ledger_entries (debit_entry r a b s) h.entries_fit
            (ground (arith, amount_fits, debited_fits)))
          (ground (arith, amount_fits));
    records_fit = h.records_fit;
    keys_unique = unique_keys-append s.working.transactions (tx r a b s) h.keys_unique free;
    numbers_unique = numbers_kept ∙ h.numbers_unique;
    emails_unique = h.emails_unique;
    records_unique = h.records_unique;
    profiles_fit = h.profiles_fit;
    profiles_unique = h.profiles_unique;
    configs_fit = h.configs_fit;
    users_fit = h.users_fit;
    logs_fit =
        all-append_one log_fits s.working.audit_logs _ h.logs_fit
          (audit_entry-fits (completed_event r s.ids.transaction a) s context);
  })

free_none : (txs : List Transaction) → key_free none txs ≡ true
unfolding key_free
free_none txs = refl

-- A key that is not the empty text and under which nothing is found is free in the unique column.
free_of_fresh :
    (o : Option String) (d : Db)
    → o ≢ some ""
    → existing_transfer o d ≡ none
    → key_free o d.transactions ≡ true
unfolding existing_transfer
free_of_fresh none d filled h = free_none d.transactions
free_of_fresh (some k) d filled h = elim (Bool-cases (str_eq k "")) [
  | inl e ↦ absurd (filled (ap some ((eq_iff k "").0 e)))
  | inr e ↦ find_key-free k d.transactions (ground arith)
]

not_at_most : (x : Decimal) → pos 0 <ℤ to_column x → at_most x (pos 0) ≡ false
not_at_most x h = ground (arith, to_column-le x (pos 0))

Accepted-validation :
    (r : TransferRequest) (s : Session) {a b : Account}
    → Accepted r s a b
    → validation r s.working.accounts ≡ ok (a, b)
Accepted-validation r s acc = ground arith

-- In a valid session, in a request whose address and id fit the columns of the audit trail, a
-- transfer of an amount that is stored as a cent or more between two different active accounts,
-- covered by the sender's balance, that leaves the receiver within twelve digits, under no key or
-- a fresh, non-empty one of at most 128 characters, is booked: it returns the completed
-- transaction, and the booked tables are stored.
pub execute_transfer-succeeds :
    (r : TransferRequest) (s : Session) {a b : Account}
    → IsValid s
    → Accepted r s a b
    → pos 0 <ℤ to_column r.amount
    → sum_column b.balance r.amount <ℤ pos numeric_limit
    → r.idempotency_key ≢ some ""
    → fits_key r.idempotency_key ≡ true
    → existing_transfer r.idempotency_key s.working ≡ none
    → context_fits s.context ≡ true
    → (execute_transfer r s).0 ≡ ok (tx r a b s)
      × ((execute_transfer r s).1.committed ≡ booked_db r a b s)
execute_transfer-succeeds r s {a} {b} v acc positive room filled short fresh context = (
  ap (λ (x : Result Transaction × Session). x.0) q,
  rw q (notify_sender-db r s.ids.transaction a (booked r a b s)).0,
)
  where
    w : IsStored s.ids s.working
    w = seen v

    free : key_free r.idempotency_key s.working.transactions ≡ true
    free = free_of_fresh r.idempotency_key s.working filled fresh

    q :
        execute_transfer r s
        ≡ (ok (tx r a b s), (notify_sender r s.ids.transaction a (booked r a b s)).1)
    q =
        execute_transfer-outcome r s
        ∙ rw (
          not_at_most r.amount positive,
          fresh,
          Accepted-validation r s acc,
          book_transfer-booked r a b s w.transactions_below
              (pending_sound r s acc positive room short free (sound s.working w.sound) context)
              (booked_sound r s acc positive room short free (sound s.working w.sound) context),
        )
