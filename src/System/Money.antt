-- ===== src/System/Money.antt =====
-- app/routes/transfer_routes.py and the deposits of app/routes/account_routes.py: the books.
use bank_flow_digital_bankin.Base.{
  ℕ, String, Option, none, some, Bool, false, Bool-cases, inl, inr, ◌≡◌, refl, ◌∙◌, arith,
}
use bank_flow_digital_bankin.Base.Int.{ℤ, pos, ◌≤ℤ◌, ◌+ℤ◌, ◌-ℤ◌, int_laws}
use bank_flow_digital_bankin.Base.Decimal.{Decimal, is_half_cent, sum_column-pos}
use bank_flow_digital_bankin.Base.Rows.{all-get}
use bank_flow_digital_bankin.Models.{Account, Endpoint, is_active}
use bank_flow_digital_bankin.Database.{Session, pure, ◌>>=◌, get_account, account_ok}
use bank_flow_digital_bankin.Database.Sound.{sound}
use bank_flow_digital_bankin.Http.{Caller, Response, Body, is_foreign, respond, serve}
use bank_flow_digital_bankin.Invariant.{IsValid, seen}
use bank_flow_digital_bankin.Reconcile.{total_balances, total_credits, total_debits}
use bank_flow_digital_bankin.Transfer.{TransferRequest, execute_transfer}
use bank_flow_digital_bankin.Transfer.Cases.{transfer_cases, Booked-committed}
use bank_flow_digital_bankin.Audit.{audit_entry}
use bank_flow_digital_bankin.Transfer.Money.{execute_transfer-conserves}
use bank_flow_digital_bankin.TransferRoutes.{
  TransferPayload, load_transfer, send_from, create_loaded, create_transfer,
}
use bank_flow_digital_bankin.Accounts.Payload.{AmountField, given, load_deposit}
use bank_flow_digital_bankin.Accounts.Idempotency.{
  Check, fresh, conflict, replay, check_idempotency, store_idempotency,
}
use bank_flow_digital_bankin.Accounts.Deposit.{
  book_deposit, deposit_event, deposited_body, deposit_amount, deposit_into, deposit_checked,
  deposit_funds,
}
use bank_flow_digital_bankin.Accounts.Deposit.Booking.{
  deposited_db, pending_deposit, book_deposit-commit,
}
use bank_flow_digital_bankin.Accounts.Deposit.Money.{deposited-IsCredited}
use bank_flow_digital_bankin.Accounts.Deposit.Keeps.{book_deposit-Ends}
use bank_flow_digital_bankin.System.Drift.{
  drift, stored_books, registered_deposits, other_entry, commit-books, bind-books, bind_last-books,
  serve-books, store_idempotency-books,
}

balanced_drift : (b c d c' d' : ℤ) → c' +ℤ d ≡ d' +ℤ c → b -ℤ c' +ℤ d' ≡ b -ℤ c +ℤ d
balanced_drift b c d c' d' h = grind (int_laws, h)

load_deposit-above : (f : AmountField) {x : Decimal} → load_deposit f ≡ some x → pos 0 ≤ℤ x.cents
unfolding load_deposit
load_deposit-above f h = ground arith

execute_transfer-drift :
    (r : TransferRequest) (s : Session)
    → IsValid s
    → is_half_cent r.amount ≡ false
    → drift (execute_transfer r s).1.committed ≡ drift s.committed
unfolding drift
execute_transfer-drift r s v even =
    let (b, l) = execute_transfer-conserves r s v even in
    let d = s.committed in
    let e = (execute_transfer r s).1.committed in
    rw b (
      balanced_drift (total_balances d) (total_credits d) (total_debits d) (total_credits e)
        (total_debits e) l)

execute_transfer-logs :
    (r : TransferRequest) (s : Session)
    → IsValid s
    → registered_deposits (execute_transfer r s).1.committed.audit_logs
      ≡ registered_deposits s.committed.audit_logs
execute_transfer-logs r s v = elim (transfer_cases r s v) [
  | inl k ↦ rw (Booked-committed r s k, ← v.clean) (other_entry s.working.audit_logs _ refl)
  | inr (inl k) ↦ rw k.result refl
  | inr (inr k) ↦ rw k.committed refl
]

pub execute_transfer-books :
    (r : TransferRequest) (s : Session)
    → IsValid s
    → is_half_cent r.amount ≡ false
    → stored_books (execute_transfer r s).1 ≡ stored_books s
execute_transfer-books r s v even =
    rw (execute_transfer-drift r s v even, execute_transfer-logs r s v) refl

-- The amount of a payload ends in exactly half a cent.
abbrev pub field_is_half_cent : AmountField → Bool
field_is_half_cent (given x) = is_half_cent x
field_is_half_cent _ = false

load_transfer-even :
    (p : TransferPayload) {r : TransferRequest}
    → load_transfer p ≡ some r
    → field_is_half_cent p.amount ≡ false
    → is_half_cent r.amount ≡ false
unfolding load_transfer
load_transfer-even p h even = ground arith

module _ (c : Caller) (s : Session) (v : IsValid s) where
  send_from-books :
      (r : TransferRequest) (o : Option Account)
      → is_half_cent r.amount ≡ false
      → stored_books (send_from c r o s).1 ≡ stored_books s
  send_from-books r none even = refl
  send_from-books r (some a) even = elim (Bool-cases (is_foreign c a)) [
    | inl e ↦ rw e refl
    | inr e ↦ rw e (execute_transfer-books r s v even)
  ]

  create_loaded-books :
      (o : Option TransferRequest)
      → ((r : TransferRequest) → o ≡ some r → is_half_cent r.amount ≡ false)
      → stored_books (create_loaded c o s).1 ≡ stored_books s
  create_loaded-books none even = refl
  create_loaded-books (some r) even =
      send_from-books r (get_account r.sender_id s.working.accounts) (even r refl)

  pub create_transfer-books :
      (p : TransferPayload)
      → field_is_half_cent p.amount ≡ false
      → stored_books (serve (create_transfer c p) s).1 ≡ stored_books s
  unfolding create_transfer
  create_transfer-books p even =
      serve-books (create_transfer c p) s
      ∙ create_loaded-books (load_transfer p) (λ r h. load_transfer-even p h even)

module _ (c : Caller) (key : Option String) (k : ℕ) (s : Session) (v : IsValid s) where
  pending-drift :
      (a : Account) (x : Decimal)
      → get_account k s.working.accounts ≡ some a
      → pos 0 ≤ℤ x.cents
      → drift (deposited_db c k a x s) ≡ drift s.working
  unfolding drift
  pending-drift a x found above =
      let row_ok =
        all-get (λ (a : Account). a.account_id) account_ok k s.working.accounts
          (sound s.working (seen v).sound).accounts_ok found in
      let grown = sum_column-pos a.balance x (ground (arith, row_ok)) above in
      let h = deposited-IsCredited c k a x s found grown in
      rw (h.balances, h.credits, h.debits) (omega int_laws)

  book_deposit-books :
      (a : Account) (x : Decimal)
      → get_account k s.working.accounts ≡ some a
      → pos 0 ≤ℤ x.cents
      → stored_books (book_deposit c k a x s).1 ≡ stored_books s
  book_deposit-books a x found above = rw (book_deposit-commit c k a x s) (
      commit-books (pending_deposit c k a x s) (
        rw
          (
            ← v.clean,
            pending-drift a x found above,
            other_entry s.working.audit_logs (audit_entry (deposit_event c k x a.balance) s) refl,
          )
          refl))

  abbrev deposit_answer : Account → Decimal → Response
  deposit_answer a x = respond 200 (Body.stored (deposited_body x a))

  deposit_amount-books :
      (a : Account) (field : AmountField) (o : Option Decimal)
      → get_account k s.working.accounts ≡ some a
      → load_deposit field ≡ o
      → stored_books (deposit_amount c key k a o s).1 ≡ stored_books s
  deposit_amount-books a field none found h = refl
  deposit_amount-books a field (some x) found h =
      bind-books
        (λ _. store_idempotency key (Endpoint.deposit_funds k) (deposited_body x a) 200 >>= λ _.
          pure (deposit_answer a x))
        (stored_books s)
        (λ _ t w.
          bind_last-books (λ _. pure (deposit_answer a x)) (stored_books t) (λ _ u. refl)
            (store_idempotency key (Endpoint.deposit_funds k) (deposited_body x a) 200) t
            (store_idempotency-books key (Endpoint.deposit_funds k) (deposited_body x a) 200 t w))
        (book_deposit c k a x) s (book_deposit-Ends c key k a x s v)
        (book_deposit-books a x found (load_deposit-above field h))

  deposit_into-books :
      (field : AmountField) (o : Option Account)
      → get_account k s.working.accounts ≡ o
      → stored_books (deposit_into c key k field o s).1 ≡ stored_books s
  deposit_into-books field none found = refl
  deposit_into-books field (some a) found = elim (Bool-cases (is_foreign c a)) [
    | inl e ↦ rw e refl
    | inr e ↦ elim (Bool-cases (is_active a.status)) [
      | inl act ↦ rw (e, act) (deposit_amount-books a field (load_deposit field) found refl)
      | inr idle ↦ rw (e, idle) refl
    ]
  ]

  deposit_checked-books :
      (field : AmountField) (x : Check)
      → stored_books (deposit_checked c key k field x s).1 ≡ stored_books s
  deposit_checked-books field fresh =
      deposit_into-books field (get_account k s.working.accounts) refl
  deposit_checked-books field conflict = refl
  deposit_checked-books field (replay b code) = refl

  pub deposit_funds-books :
      (field : AmountField)
      → stored_books (serve (deposit_funds c key k field) s).1 ≡ stored_books s
  unfolding deposit_funds
  deposit_funds-books field =
      serve-books (deposit_funds c key k field) s
      ∙ deposit_checked-books field (check_idempotency key (Endpoint.deposit_funds k) s)
