-- ===== src/Reconcile.antt =====
-- app/services/reconciliation_service.py: `reconcile_system_balances`. The totals of the report are
-- amounts in the model, and formatted texts in the program.
pub mod Sums
pub mod Pairs
pub mod Healthy
use bank_flow_digital_bankin.Base.{
  ℕ, ◌+◌, Option, none, some, Bool, true, false, List, [], ◌∷◌, ◌==◌, ◌&&◌, if◌then◌else◌, map,
  keep, length,
}
use bank_flow_digital_bankin.Base.Int.{ℤ, pos, ◌+ℤ◌, eqb_ℤ}
use bank_flow_digital_bankin.Models.{
  Account, Transaction, LedgerEntry, AuditEventType, Details, Report, is_debit, is_credit,
  is_completed,
}
use bank_flow_digital_bankin.Database.{Db, Session, Action, ok, gets, pure, ◌>>=◌, ◌>>◌, commit}
use bank_flow_digital_bankin.Audit.{AuditEvent, record_audit_event}

-- Python's `sum`, from the left.
abbrev pub sum_from : ℤ → List ℤ → ℤ
sum_from acc [] = acc
sum_from acc (x ∷ xs) = sum_from (acc +ℤ x) xs

abbrev pub sum : List ℤ → ℤ
sum = sum_from (pos 0)

-- `total_account_balance`
unfoldable pub total_balances : Db → ℤ
total_balances d = sum (map (λ (a : Account). a.balance) d.accounts)

-- `total_credits`
unfoldable pub total_credits : Db → ℤ
total_credits d = sum (
    map (λ (e : LedgerEntry). e.amount)
      (keep (λ (e : LedgerEntry). is_credit e.entry_type) d.ledger_entries))

-- `total_debits`
unfoldable pub total_debits : Db → ℤ
total_debits d = sum (
    map (λ (e : LedgerEntry). e.amount)
      (keep (λ (e : LedgerEntry). is_debit e.entry_type) d.ledger_entries))

-- `e.transaction_id == tx.transaction_id`
abbrev pub links : ℕ → LedgerEntry → Bool
links id e = elim e.transaction_id [ none ↦ false | some j ↦ j == id ]

-- The test of one transaction that has ledger entries, on its debits and its credits.
abbrev pub pair_discrepancy : ℤ → List LedgerEntry → List LedgerEntry → ℕ
pair_discrepancy amount (d ∷ []) (c ∷ []) =
    if eqb_ℤ d.amount amount && eqb_ℤ c.amount amount then 0 else 1
pair_discrepancy amount _ _ = 1

abbrev pub entries_discrepancy : ℤ → List LedgerEntry → ℕ
entries_discrepancy amount [] = 0
entries_discrepancy amount (e ∷ es) =
    pair_discrepancy amount (keep (λ (e : LedgerEntry). is_debit e.entry_type) (e ∷ es))
      (keep (λ (e : LedgerEntry). is_credit e.entry_type) (e ∷ es))

unfoldable pub tx_discrepancy : Transaction → List LedgerEntry → ℕ
tx_discrepancy tx entries = entries_discrepancy tx.amount (keep (links tx.transaction_id) entries)

-- The loop over the completed transactions.
unfoldable pub count_discrepancies : ℕ → List Transaction → List LedgerEntry → ℕ
count_discrepancies found [] entries = found
count_discrepancies found (tx ∷ txs) entries =
    count_discrepancies (found + tx_discrepancy tx entries) txs entries

abbrev pub completed_txs : Db → List Transaction
completed_txs d = keep (λ (t : Transaction). is_completed t.status) d.transactions

unfoldable pub transfer_discrepancies : Db → ℕ
unfolding count_discrepancies
transfer_discrepancies d = count_discrepancies 0 (completed_txs d) d.ledger_entries

unfoldable pub report : Session → Report
report s = record {
  is_healthy = transfer_discrepancies s.working == 0;
  timestamp = s.now;
  accounts_count = length s.working.accounts;
  total_account_balances = total_balances s.working;
  total_ledger_credits = total_credits s.working;
  total_ledger_debits = total_debits s.working;
  total_completed_transactions = length (completed_txs s.working);
  transfer_discrepancies_count = transfer_discrepancies s.working;
}

-- The run is audited, with its report, and committed.
unfoldable pub reconcile_system_balances : Action Report
unfolding report record_audit_event
reconcile_system_balances = do
  result ← gets report
  record_audit_event (record {
    event_type = AuditEventType.reconciliation_run;
    actor_id = none;
    target_user_id = none;
    target_account_id = none;
    details = Details.reconciled result;
  })
  commit
  pure result
