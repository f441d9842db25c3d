-- ===== src/StatementRoutes/Owners.antt =====
-- app/routes/statement_routes.py and app/services/statement_service.py: who is sent a file.
use bank_flow_digital_bankin.Base.{
  Bool, ℕ, String, Option, none, some, Bool-cases, inl, inr, ◌⊎◌, true, false, List, ◌≡◌, refl,
  arith, not, ◌&&◌, ◌||◌,
}
use bank_flow_digital_bankin.Models.{Account, Transaction, is_admin}
use bank_flow_digital_bankin.Database.{
  Session, ok, err, get_account, get_transaction, forbidden, pdf_error,
}
use bank_flow_digital_bankin.Http.{Caller, is_foreign}
use bank_flow_digital_bankin.Statements.{
  allow, account_or_raise, allow_receipt, owns_end, receipt_or_raise, get_transactions,
}
use bank_flow_digital_bankin.Statements.Pdf.{
  Period, PdfStatement, PdfReceipt, drawn, period_of, receipt_of, statement_of,
  generate_pdf_receipt, generate_pdf_statement,
}
use bank_flow_digital_bankin.Branding.Payload.{Environment}
use bank_flow_digital_bankin.StatementRoutes.Dates.{parse_date}
use bank_flow_digital_bankin.StatementRoutes.{
  StatementArgs, FileName, Download, attachment, denied, unhandled, pdf_of_transaction,
  pdf_of_account, answer_download, bank_name_of, download_pdf, download_receipt_pdf,
}

-- What a download may be: a file for one who may see it, 404 if the row is missing, 403 if it is
-- foreign, or what the drawing raises.
abbrev pub SentOnlyIf : {A : Type 0} → (May Missing Foreign : Type 0) → Download A → Type 0
SentOnlyIf May Missing Foreign (attachment f a) = May
SentOnlyIf May Missing Foreign (denied status e) =
    ((status ≡ 404) × Missing) ⊎ ((status ≡ 403) × Foreign)
SentOnlyIf May Missing Foreign (unhandled e) = May × (e ≡ pdf_error)

-- The caller is an administrator, or has an account at one end of the transfer.
abbrev pub MaySee : Caller → ℕ → Session → Type 0
MaySee c k s =
    (t : Transaction) × (get_transaction k s.working.transactions ≡ some t)
    × ((is_admin c.role || owns_end c.user_id s.working.accounts t) ≡ true)

abbrev pub MaySeeAccount : Caller → ℕ → Session → Type 0
MaySeeAccount c k s =
    (a : Account) × (get_account k s.working.accounts ≡ some a) × (is_foreign c a ≡ false)

abbrev pub IsForeign : Caller → ℕ → Session → Type 0
IsForeign c k s =
    (t : Transaction) × (get_transaction k s.working.transactions ≡ some t)
    × ((is_admin c.role || owns_end c.user_id s.working.accounts t) ≡ false)

abbrev pub IsForeignAccount : Caller → ℕ → Session → Type 0
IsForeignAccount c k s =
    (a : Account) × (get_account k s.working.accounts ≡ some a) × (is_foreign c a ≡ true)

abbrev pub ReceiptSent : Caller → ℕ → Session → Download PdfReceipt → Type 0
ReceiptSent c k s =
    SentOnlyIf (MaySee c k s) (get_transaction k s.working.transactions ≡ none) (IsForeign c k s)

abbrev pub StatementSent : Caller → ℕ → Session → Download PdfStatement → Type 0
StatementSent c k s =
    SentOnlyIf (MaySeeAccount c k s) (get_account k s.working.accounts ≡ none)
      (IsForeignAccount c k s)

foreign_forbidden :
    (c : Caller) (a : Account) → is_foreign c a ≡ true → allow c (some a) ≡ err forbidden
foreign_forbidden c a h = ground (arith, h)

own_allowed : (c : Caller) (a : Account) → is_foreign c a ≡ false → allow c (some a) ≡ ok a
own_allowed c a h = ground (arith, h)

-- A file that can be drawn is sent, and the drawing of the other ones raises.
drawn-SentOnlyIf :
    {A : Type 0} (May Missing Foreign : Type 0) (f : FileName) (draws : A → Bool) (x : A)
    → May
    → SentOnlyIf May Missing Foreign (answer_download f (drawn draws (ok x)))
drawn-SentOnlyIf May Missing Foreign f draws x may = elim (Bool-cases (draws x)) [
  | inl y ↦ rw y may
  | inr n ↦ rw n (may, refl)
]

module _ (name : String) (c : Caller) (k : ℕ) (s : Session) where
  receipt-SentOnlyIf :
      (draws : PdfReceipt → Bool) (o : Option Transaction)
      → get_transaction k s.working.transactions ≡ o
      → ReceiptSent c k s (
          answer_download
            (pdf_of_transaction k)
            (drawn draws (receipt_of name s.now (allow_receipt c s.working.accounts o))))
  receipt-SentOnlyIf draws none e = inl (refl, e)
  receipt-SentOnlyIf draws (some t) e =
      elim (Bool-cases (not (is_admin c.role) && not (owns_end c.user_id s.working.accounts t))) [
        | inl out ↦ rw out (inr (refl, (t, e, ground (arith, out))))
        | inr seen ↦ rw seen (
            drawn-SentOnlyIf (MaySee c k s) (get_transaction k s.working.transactions ≡ none)
              (IsForeign c k s) (pdf_of_transaction k) draws _ (t, e, ground (arith, seen)))
      ]

  statement-SentOnlyIf :
      (draws : PdfStatement → Bool) (period : Period) (txs : List Transaction) (o : Option Account)
      → get_account k s.working.accounts ≡ o
      → StatementSent c k s (
          answer_download
            (pdf_of_account k)
            (drawn draws (statement_of name k period txs s (allow c o))))
  statement-SentOnlyIf draws period txs none e = inl (refl, e)
  statement-SentOnlyIf draws period txs (some a) e = elim (Bool-cases (is_foreign c a)) [
    | inl out ↦ rw (foreign_forbidden c a out) (inr (refl, (a, e, out)))
    | inr seen ↦ rw (own_allowed c a seen) (
        drawn-SentOnlyIf (MaySeeAccount c k s) (get_account k s.working.accounts ≡ none)
          (IsForeignAccount c k s) (pdf_of_account k) draws _ (a, e, seen))
  ]

-- A PDF statement is sent, or its drawing raises, only if the account is there and the caller owns
-- it or is an administrator, a PDF receipt only if the transfer is there and the caller has an
-- account at one end or is an administrator; the answer is 404 only if the row is missing, and 403
-- only if it is there and foreign; no other exception is raised.
pub downloads-SentOnlyIf :
    (draws : PdfStatement → Bool) (draws_receipt : PdfReceipt → Bool) (env : Environment)
    (c : Caller) (k : ℕ) (q : StatementArgs) (s : Session)
    → StatementSent c k s (download_pdf draws env c k q s)
      × ReceiptSent c k s (download_receipt_pdf draws_receipt env c k s)
unfolding download_pdf generate_pdf_statement account_or_raise download_receipt_pdf
    generate_pdf_receipt receipt_or_raise
downloads-SentOnlyIf draws draws_receipt env c k q s = (
  statement-SentOnlyIf (bank_name_of env s) c k s draws
      (period_of (parse_date q.from_date) (parse_date q.to_date))
      (get_transactions k (parse_date q.from_date) (parse_date q.to_date) s)
      (get_account k s.working.accounts) refl,
  receipt-SentOnlyIf (bank_name_of env s) c k s draws_receipt
      (get_transaction k s.working.transactions) refl,
)
