-- ===== src/Statements/Agree.antt =====
-- app/services/statement_service.py: the PDF statement of an account against its CSV statement.
use bank_flow_digital_bankin.Base.{Option, none, some, List, [], ◌∷◌, ◌≡◌, map}
use bank_flow_digital_bankin.Base.Int.{ℤ, pos, ◌+ℤ◌}
use bank_flow_digital_bankin.Models.{debit, credit, LedgerEntryType}
use bank_flow_digital_bankin.Database.{Result, ok, err}
use bank_flow_digital_bankin.Statements.{CsvRow}
use bank_flow_digital_bankin.Statements.Pdf.{PdfRow, PdfTable, PdfStatement, to_minute}

-- A row of the CSV file without its key.
abbrev pub without_key : CsvRow → PdfRow
without_key r = record {
  transaction_id = r.transaction_id;
  date = to_minute r.date;
  direction = r.direction;
  counter = r.counter_party_account;
  amount = r.amount;
  status = r.status;
}

-- The amounts of the rows with a direction, added up.
pub amounts_of : (LedgerEntryType → ℤ → ℤ) → List CsvRow → ℤ
amounts_of part [] = pos 0
amounts_of part (r ∷ rows) = part r.direction r.amount +ℤ amounts_of part rows

abbrev pub debit_part : LedgerEntryType → ℤ → ℤ
debit_part debit x = x
debit_part credit x = pos 0

abbrev pub credit_part : LedgerEntryType → ℤ → ℤ
credit_part debit x = pos 0
credit_part credit x = x

-- The table has the rows of the CSV file and the sums of their amounts; without rows there is none.
pub record Sums (rows : List CsvRow) (t : PdfTable) : Type 0 where
  pub rows_agree : t.rows ≡ map without_key rows
  pub debits : t.total_debits ≡ amounts_of debit_part rows
  pub credits : t.total_credits ≡ amounts_of credit_part rows
  pub net_agrees : t.net +ℤ t.total_debits ≡ t.total_credits

abbrev pub Agrees : List CsvRow → Option PdfTable → Type 0
Agrees [] none = Unit
Agrees (r ∷ rows) (some t) = Sums (r ∷ rows) t
Agrees _ _ = ⊥

abbrev pub Same : Result (List CsvRow) → Result PdfStatement → Type 0
Same (err e) (err f) = e ≡ f
Same (ok rows) (ok p) = Agrees rows p.table
Same _ _ = ⊥
