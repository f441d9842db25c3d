-- ===== src/StatementRoutes/LastDay.antt =====
-- app/routes/statement_routes.py: where the last day of a CSV statement ends.
use bank_flow_digital_bankin.Base.{
  ℕ, ◌%◌, Option, none, some, true, false, leb, List, [], ◌∷◌, ◌≡◌, refl, arith, all,
}
use bank_flow_digital_bankin.Models.{Account}
use bank_flow_digital_bankin.Database.{Session, get_account}
use bank_flow_digital_bankin.Invariant.{IsValid}
use bank_flow_digital_bankin.Http.{Caller, is_foreign}
use bank_flow_digital_bankin.Statements.{CsvRow}
use bank_flow_digital_bankin.Statements.Rows.{is_due, generate_csv_statement-rows}
use bank_flow_digital_bankin.StatementRoutes.Dates.{parse_date-midnight, parse_date}
use bank_flow_digital_bankin.StatementRoutes.{
  StatementArgs, attachment, csv_of_account, download_csv,
}

due-bound :
    (k m : ℕ) (from_date : Option ℕ) (rows : List CsvRow)
    → all (is_due k from_date (some m)) rows ≡ true
    → all (λ (r : CsvRow). leb r.date m) rows ≡ true
due-bound k m none [] h = refl
due-bound k m (some a) [] h = refl
due-bound k m none (r ∷ rows) h = ground (arith, due-bound k m none rows)
due-bound k m (some a) (r ∷ rows) h = ground (arith, due-bound k m (some a) rows)

-- In a valid session a CSV download of an account that the caller may see, with a last day that is
-- read as a date, is sent; the date is read as the first second of a day, and none of the rows is
-- later than that.
pub download_csv-last_day :
    (c : Caller) (k : ℕ) (q : StatementArgs) (s : Session) {a : Account} {m : ℕ}
    → IsValid s
    → get_account k s.working.accounts ≡ some a
    → is_foreign c a ≡ false
    → parse_date q.to_date ≡ some m
    → (rows : List CsvRow) × (download_csv c k q s ≡ attachment (csv_of_account k) rows)
      × (m % 86_400 ≡ 0)
      × (all (λ (r : CsvRow). leb r.date m) rows ≡ true)
unfolding download_csv
download_csv-last_day c k q s {a} {m} v found own last =
    let (txs, rows, made, same, shown, due, order) =
      generate_csv_statement-rows c k (parse_date q.from_date) (some m) s {a = a} v found own in
    (
      rows,
      rw (last, made) refl,
      parse_date-midnight q.to_date last,
      due-bound k m (parse_date q.from_date) rows due,
    )
