-- ===== src/Statements.antt =====
-- app/services/statement_service.py: the CSV statement of an account and the access check of the
-- receipts. The statement is its list of rows; the texts and the drawing of the PDF files are left out.
-- The dates are those that `_parse_date` of app/routes/statement_routes.py has read, as times.
pub mod Rows
pub mod Pdf
pub mod Agree
use bank_flow_digital_bankin.Base.{
  ℕ, String, Option, none, some, Bool, true, not, ◌&&◌, ◌||◌, ◌==◌, leb, List, [], ◌∷◌, map, keep,
  any, if◌then◌else◌,
}
use bank_flow_digital_bankin.Base.Int.{ℤ}
use bank_flow_digital_bankin.Models.{
  Account, Transaction, TransactionStatus, LedgerEntryType, debit, credit, is_admin,
}
use bank_flow_digital_bankin.Database.{
  Session, Result, ok, err, resource_not_found, forbidden, get_account, get_transaction,
}
use bank_flow_digital_bankin.Http.{Caller}

abbrev pub allow : Caller → Option Account → Result Account
allow c none = err resource_not_found
allow c (some a) =
    if not (is_admin c.role) && not (a.user_id == c.user_id) then err forbidden else ok a

-- `_get_account_or_raise`
unfoldable pub account_or_raise : Caller → ℕ → Session → Result Account
account_or_raise c k s = allow c (get_account k s.working.accounts)

-- `if from_date: created_at >= from_date`, and the same for `to_date`
abbrev pub from_passes : Option ℕ → Transaction → Bool
from_passes none t = true
from_passes (some d) t = leb d t.created_at

abbrev pub to_passes : Option ℕ → Transaction → Bool
to_passes none t = true
to_passes (some d) t = leb t.created_at d

abbrev pub on_statement : ℕ → Option ℕ → Option ℕ → Transaction → Bool
on_statement k from_date to_date t =
    (t.sender_account_id == k || t.receiver_account_id == k)
    && (from_passes from_date t && to_passes to_date t)

abbrev pub insert_by_age : Transaction → List Transaction → List Transaction
insert_by_age t [] = t ∷ []
insert_by_age t (u ∷ rows) =
    if leb t.created_at u.created_at then t ∷ u ∷ rows else u ∷ insert_by_age t rows

-- `order_by(Transaction.created_at.asc())`
unfoldable pub oldest_first : List Transaction → List Transaction
oldest_first [] = []
oldest_first (t ∷ rows) = insert_by_age t (oldest_first rows)

-- `_get_transactions`
unfoldable pub get_transactions : ℕ → Option ℕ → Option ℕ → Session → List Transaction
get_transactions k from_date to_date s =
    oldest_first (keep (on_statement k from_date to_date) s.working.transactions)

-- `_tx_direction`
abbrev pub tx_direction : Transaction → ℕ → LedgerEntryType
tx_direction t k = if t.sender_account_id == k then debit else credit

abbrev pub counter_party : LedgerEntryType → Transaction → ℕ
counter_party debit t = t.receiver_account_id
counter_party credit t = t.sender_account_id

abbrev pub or_empty : Option String → String
or_empty none = ""
or_empty (some k) = k

pub record CsvRow : Type 0 where
  pub transaction_id : ℕ
  pub date : ℕ
  pub direction : LedgerEntryType
  pub counter_party_account : ℕ
  pub amount : ℤ
  pub status : TransactionStatus
  pub idempotency_key : String

abbrev pub csv_row : ℕ → Transaction → CsvRow
csv_row k t = record {
  transaction_id = t.transaction_id;
  date = t.created_at;
  direction = tx_direction t k;
  counter_party_account = counter_party (tx_direction t k) t;
  amount = t.amount;
  status = t.status;
  idempotency_key = or_empty t.idempotency_key;
}

abbrev pub rows_for : ℕ → List Transaction → Result Account → Result (List CsvRow)
rows_for k txs (err e) = err e
rows_for k txs (ok a) = ok (map (csv_row k) txs)

unfoldable pub generate_csv_statement :
    Caller → ℕ → Option ℕ → Option ℕ → Session → Result (List CsvRow)
unfolding account_or_raise get_transactions
generate_csv_statement c k from_date to_date s =
    rows_for k (get_transactions k from_date to_date s) (account_or_raise c k s)

-- The check of `generate_pdf_receipt`.
abbrev pub owns_end : ℕ → List Account → Transaction → Bool
owns_end user rows t =
    any
      (λ (a : Account).
        a.user_id == user
        && (a.account_id == t.sender_account_id || a.account_id == t.receiver_account_id))
      rows

abbrev pub allow_receipt : Caller → List Account → Option Transaction → Result Transaction
allow_receipt c rows none = err resource_not_found
allow_receipt c rows (some t) =
    if not (is_admin c.role) && not (owns_end c.user_id rows t) then err forbidden else ok t

unfoldable pub receipt_or_raise : Caller → ℕ → Session → Result Transaction
receipt_or_raise c k s =
    allow_receipt c s.working.accounts (get_transaction k s.working.transactions)
