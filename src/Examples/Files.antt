-- ===== src/Examples/Files.antt =====
-- Downloads and starts at the small bank.
use bank_flow_digital_bankin.Base.{
  ℕ, ◌%◌, String, Bool, none, some, true, List, ◌≡◌, refl, all, leb,
}
use bank_flow_digital_bankin.Base.Int.{pos}
use bank_flow_digital_bankin.Models.{active, customer, User}
use bank_flow_digital_bankin.Http.{Caller}
use bank_flow_digital_bankin.Examples.{bank, bank-IsValid, account_row, user_row}
use bank_flow_digital_bankin.Branding.Payload.{Environment}
use bank_flow_digital_bankin.Statements.{CsvRow}
use bank_flow_digital_bankin.Statements.Pdf.{PdfStatement, PdfReceipt}
use bank_flow_digital_bankin.StatementRoutes.{
  StatementArgs, attachment, csv_of_account, download_csv, download_pdf, download_receipt_pdf,
}
use bank_flow_digital_bankin.StatementRoutes.Dates.{parse_date, strptime}
use bank_flow_digital_bankin.StatementRoutes.LastDay.{download_csv-last_day}
use bank_flow_digital_bankin.StatementRoutes.Owners.{
  StatementSent, ReceiptSent, downloads-SentOnlyIf,
}
use bank_flow_digital_bankin.Configuration.{valid, validate_mysql_url, build_db_config}
use bank_flow_digital_bankin.Configuration.Urls.{build_db_config-valid}
use bank_flow_digital_bankin.Auth.{Libraries}

abbrev bob : Caller
bob = record { user_id = 2; role = customer }

abbrev query : StatementArgs
query = record { from_date = none; to_date = some "2024-02-29" }

last_day_read : parse_date query.to_date ≡ some 63_844_761_600
unfolding parse_date strptime
last_day_read = refl

-- 29 February 2023 is no day.
no_leap_day : strptime "2023-2-29" ≡ none
unfolding strptime
no_leap_day = refl

-- Every file can be drawn.
abbrev any_statement : PdfStatement → Bool
any_statement p = true

abbrev any_receipt : PdfReceipt → Bool
any_receipt p = true

download_csv-last_day_example :
    (rows : List CsvRow) × (download_csv bob 2 query bank ≡ attachment (csv_of_account 2) rows)
    × (◌≡◌ {A = ℕ} (63_844_761_600 % 86_400) 0)
    × (all (λ (r : CsvRow). leb r.date 63_844_761_600) rows ≡ true)
download_csv-last_day_example =
    download_csv-last_day bob 2 query bank {a = account_row 2 "BF0000000002" (pos 500) active}
      {m = 63_844_761_600} bank-IsValid refl refl last_day_read

abbrev no_environment : Environment
no_environment key = none

downloads-SentOnlyIf_example :
    StatementSent bob 2 bank (download_pdf any_statement no_environment bob 2 query bank)
    × ReceiptSent bob 2 bank (download_receipt_pdf any_receipt no_environment bob 2 bank)
downloads-SentOnlyIf_example =
    downloads-SentOnlyIf any_statement any_receipt no_environment bob 2 query bank

abbrev hosted : Environment
hosted key = some "mysql://bank@db.example.com/bankflow?ssl-mode=REQUIRED"

build_db_config-valid_example :
    let (url, options) = build_db_config hosted "DATABASE_URL" "" in
    validate_mysql_url url ≡ valid url
build_db_config-valid_example = build_db_config-valid hosted "DATABASE_URL" "" refl

abbrev libraries : Libraries
libraries = record {
  generate_password_hash = λ p. p;
  check_password_hash = λ h p. true;
  create_access_token = λ u. u.email;
  is_email = λ e. true;
}

abbrev numbers : ℕ → String
numbers i = "BF0000000009"

abbrev alice_row : User
alice_row = user_row 1 "Alice" "alice@example.com"
