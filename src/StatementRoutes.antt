-- ===== src/StatementRoutes.antt =====
-- app/routes/statement_routes.py: the downloads of statements and receipts. A file is the value that its
-- bytes stand for.
pub mod Dates
pub mod LastDay
pub mod Owners
use bank_flow_digital_bankin.Base.{Bool, ℕ, String, Option, List}
use bank_flow_digital_bankin.Database.{
  Session, Result, ok, err, Error, resource_not_found, forbidden,
}
use bank_flow_digital_bankin.Http.{Caller}
use bank_flow_digital_bankin.Statements.{CsvRow, generate_csv_statement}
use bank_flow_digital_bankin.Statements.Pdf.{
  PdfStatement, PdfReceipt, generate_pdf_statement, generate_pdf_receipt,
}
use bank_flow_digital_bankin.Branding.Payload.{Environment}
use bank_flow_digital_bankin.Branding.{effective_config}
use bank_flow_digital_bankin.StatementRoutes.Dates.{parse_date}

-- The query parameters of a statement.
pub record StatementArgs : Type 0 where
  pub from_date : Option String
  pub to_date : Option String

-- `statement_acct{account_id}.csv`, `statement_acct{account_id}.pdf`, `receipt_tx{transaction_id}.pdf`
pub data FileName : Type 0 where
  csv_of_account : (account_id : ℕ) → FileName
  pdf_of_account : (account_id : ℕ) → FileName
  pdf_of_transaction : (transaction_id : ℕ) → FileName

-- A file with status 200, an exception that the route answers with a status, or one that it lets through.
pub data Download (A : Type 0) : Type 0 where
  attachment : (filename : FileName) → A → Download A
  denied : (status : ℕ) → Error → Download A
  unhandled : Error → Download A

abbrev pub answer_download : {A : Type 0} → FileName → Result A → Download A
answer_download f (ok a) = attachment f a
answer_download f (err resource_not_found) = denied 404 resource_not_found
answer_download f (err forbidden) = denied 403 forbidden
answer_download f (err e) = unhandled e

-- `_bank_name`
abbrev pub bank_name_of : Environment → Session → String
bank_name_of env s = (effective_config env s).bank_name

unfoldable pub download_csv : Caller → ℕ → StatementArgs → Session → Download (List CsvRow)
unfolding generate_csv_statement parse_date
download_csv c k q s =
    answer_download (csv_of_account k)
      (generate_csv_statement c k (parse_date q.from_date) (parse_date q.to_date) s)

unfoldable pub download_pdf :
    (PdfStatement → Bool)
    → Environment
    → Caller
    → ℕ
    → StatementArgs
    → Session
    → Download PdfStatement
unfolding generate_pdf_statement parse_date effective_config
download_pdf draws env c k q s = answer_download (pdf_of_account k) (
    generate_pdf_statement draws (bank_name_of env s) c k (parse_date q.from_date)
      (parse_date q.to_date) s)

unfoldable pub download_receipt_pdf :
    (PdfReceipt → Bool) → Environment → Caller → ℕ → Session → Download PdfReceipt
unfolding generate_pdf_receipt effective_config
download_receipt_pdf draws env c k s =
    answer_download (pdf_of_transaction k) (generate_pdf_receipt draws (bank_name_of env s) c k s)
