-- ===== src/Statements/Pdf.antt =====
-- app/services/statement_service.py: what the PDF statement of an account and the PDF receipt of a transfer
-- show, as values: the table of facts, the rows, the totals. How they are drawn is left out.
use bank_flow_digital_bankin.Base.{
  ℕ, ◌/◌, Bool, String, Option, none, some, List, [], ◌∷◌, ◌++◌, if◌then◌else◌,
}
use bank_flow_digital_bankin.Base.Int.{ℤ, pos, ◌+ℤ◌, ◌-ℤ◌}
use bank_flow_digital_bankin.Models.{
  User, Account, Transaction, TransactionStatus, LedgerEntryType, is_debit,
}
use bank_flow_digital_bankin.Database.{Session, Result, ok, err, pdf_error, get_user}
use bank_flow_digital_bankin.Transfer.{truthy}
use bank_flow_digital_bankin.Http.{Caller}
use bank_flow_digital_bankin.Statements.{
  tx_direction, counter_party, account_or_raise, get_transactions, receipt_or_raise,
}

pub data Period : Type 0 where
  all_time : Period
  between : (from_date to_date : ℕ) → Period
  from_day : (from_date : ℕ) → Period
  up_to : (to_date : ℕ) → Period

-- `date_range`
abbrev pub period_of : Option ℕ → Option ℕ → Period
period_of none none = Period.all_time
period_of (some a) (some b) = Period.between a b
period_of (some a) none = Period.from_day a
period_of none (some b) = Period.up_to b

pub record PdfRow : Type 0 where
  pub transaction_id : ℕ
  pub date : ℕ
  pub direction : LedgerEntryType
  pub counter : ℕ
  pub amount : ℤ
  pub status : TransactionStatus

pub record PdfTable : Type 0 where
  pub rows : List PdfRow
  pub total_credits : ℤ
  pub total_debits : ℤ
  pub net : ℤ

-- `table` is none where the file says that no transactions were found.
pub record PdfStatement : Type 0 where
  pub bank_name : String
  pub account_holder : Option String
  pub account_number : String
  pub account_id : ℕ
  pub current_balance : ℤ
  pub statement_period : Period
  pub generated : ℕ
  pub table : Option PdfTable

-- `strftime("%Y-%m-%d %H:%M")`: the minutes of a time in seconds
abbrev pub to_minute : ℕ → ℕ
to_minute seconds = seconds / 60

abbrev pub pdf_row : ℕ → Transaction → PdfRow
pdf_row k t = record {
  transaction_id = t.transaction_id;
  date = to_minute t.created_at;
  direction = tx_direction t k;
  counter = counter_party (tx_direction t k) t;
  amount = t.amount;
  status = t.status;
}

-- `if direction == "DEBIT": total_debits += amt`, `else: total_credits += amt`
abbrev pub add_debit : LedgerEntryType → ℤ → ℤ → ℤ
add_debit d amount total = if is_debit d then total +ℤ amount else total

abbrev pub add_credit : LedgerEntryType → ℤ → ℤ → ℤ
add_credit d amount total = if is_debit d then total else total +ℤ amount

-- The loop over the transactions, with the rows and the totals so far.
unfoldable pub tabulate : ℕ → List Transaction → List PdfRow → ℤ → ℤ → PdfTable
tabulate k [] rows debits credits = record {
  rows = rows;
  total_credits = credits;
  total_debits = debits;
  net = credits -ℤ debits;
}
tabulate k (t ∷ txs) rows debits credits =
    tabulate k txs (rows ++ pdf_row k t ∷ []) (add_debit (tx_direction t k) t.amount debits)
      (add_credit (tx_direction t k) t.amount credits)

-- `if not transactions: ... else: ...`
abbrev pub table_of : ℕ → List Transaction → Option PdfTable
table_of k [] = none
table_of k (t ∷ txs) = some (tabulate k (t ∷ txs) [] (pos 0) (pos 0))

-- `owner.full_name if owner else "—"`
abbrev pub name_of : Option User → Option String
name_of none = none
name_of (some u) = some u.full_name

abbrev pub statement_of :
    String → ℕ → Period → List Transaction → Session → Result Account → Result PdfStatement
statement_of name k period txs s (err e) = err e
statement_of name k period txs s (ok a) = ok (record {
  bank_name = name;
  account_holder = name_of (get_user a.user_id s.working.users);
  account_number = a.account_number;
  account_id = a.account_id;
  current_balance = a.balance;
  statement_period = period;
  generated = to_minute s.now;
  table = table_of k txs;
})

-- `Paragraph` and `doc.build` of reportlab: what they can draw is a parameter, since a name that is no
-- well-formed markup raises.
abbrev pub drawn : {A : Type 0} → (A → Bool) → Result A → Result A
drawn draws (err e) = err e
drawn draws (ok a) = if draws a then ok a else err pdf_error

unfoldable pub generate_pdf_statement :
    (PdfStatement → Bool)
    → String
    → Caller
    → ℕ
    → Option ℕ
    → Option ℕ
    → Session
    → Result PdfStatement
unfolding account_or_raise get_transactions tabulate
generate_pdf_statement draws name c k from_date to_date s = drawn draws (
    statement_of name k (period_of from_date to_date) (get_transactions k from_date to_date s) s
      (account_or_raise c k s))

pub record PdfReceipt : Type 0 where
  pub bank_name : String
  pub transaction_id : ℕ
  pub status : TransactionStatus
  pub amount : ℤ
  pub from_account : ℕ
  pub to_account : ℕ
  pub date : ℕ
  pub idempotency_key : Option String
  pub generated : ℕ

-- The row of the key is there only if the key is not empty.
abbrev pub receipt_of : String → ℕ → Result Transaction → Result PdfReceipt
receipt_of name now (err e) = err e
receipt_of name now (ok t) = ok (record {
  bank_name = name;
  transaction_id = t.transaction_id;
  status = t.status;
  amount = t.amount;
  from_account = t.sender_account_id;
  to_account = t.receiver_account_id;
  date = t.created_at;
  idempotency_key = truthy t.idempotency_key;
  generated = to_minute now;
})

unfoldable pub generate_pdf_receipt :
    (PdfReceipt → Bool) → String → Caller → ℕ → Session → Result PdfReceipt
unfolding receipt_or_raise
generate_pdf_receipt draws name c k s = drawn draws (receipt_of name s.now (receipt_or_raise c k s))
