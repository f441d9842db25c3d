-- ===== src/Accounts/Deposit/Keeps.antt =====
-- A deposit keeps the stored tables valid, however it ends.
use bank_flow_digital_bankin.Base.{
  ℕ, Option, none, some, arith, Bool-cases, inl, inr, String, ◌≡◌, refl,
}
use bank_flow_digital_bankin.Base.Rows.{key-get}
use bank_flow_digital_bankin.Base.Decimal.{Decimal}
use bank_flow_digital_bankin.Models.{Account, is_active, Endpoint}
use bank_flow_digital_bankin.Database.{Session, Action, pure, ◌>>=◌, get_account}
use bank_flow_digital_bankin.Http.{Caller, is_foreign, serve, respond, Response, Body}
use bank_flow_digital_bankin.Invariant.{IsStored-mono, IsValid, seen}
use bank_flow_digital_bankin.Invariant.Ends.{Ends, bind-Ends, commit-Ends, serve-IsValid}
use bank_flow_digital_bankin.Accounts.Payload.{AmountField, load_deposit}
use bank_flow_digital_bankin.Accounts.Idempotency.{
  Check, fresh, conflict, replay, check_idempotency, store_idempotency,
}
use bank_flow_digital_bankin.Accounts.Idempotency.Records.{store_idempotency-Ends}
use bank_flow_digital_bankin.Accounts.Deposit.{
  book_deposit, deposited_body, deposit_amount, deposit_into, deposit_checked, deposit_funds,
}
use bank_flow_digital_bankin.Accounts.Deposit.Booking.{
  pending_deposit, book_deposit-commit, deposited-IsStored,
}

module _ (c : Caller) (key : Option String) (k : ℕ) where
  pub book_deposit-Ends :
      (a : Account) (x : Decimal) (s : Session) → IsValid s → Ends (book_deposit c k a x s)
  book_deposit-Ends a x s v = rw (book_deposit-commit c k a x s) (
      commit-Ends (pending_deposit c k a x s) (IsStored-mono (omega arith) (omega arith) v.stored)
        (λ q. IsStored-mono (omega arith) (omega arith) (deposited-IsStored c k a x s (seen v) q)))

  abbrev deposit_answer : Account → Decimal → Response
  deposit_answer a x = respond 200 (Body.stored (deposited_body x a))

  abbrev store : Account → Decimal → Action (Unit {0})
  store a x = store_idempotency key (Endpoint.deposit_funds k) (deposited_body x a) 200

  abbrev store_and_answer : Account → Decimal → Action Response
  store_and_answer a x = store a x >>= λ _. pure (deposit_answer a x)

  recorded_response-Ends :
      (a : Account) (x : Decimal) (s : Session)
      → IsValid s
      → a.account_id ≡ k
      → Ends (deposit_amount c key k a (some x) s)
  recorded_response-Ends a x s v h =
      bind-Ends (λ _. store_and_answer a x)
        (λ _ t w.
          bind-Ends (λ _. pure (deposit_answer a x)) (λ _ u w'. w') (store a x) t
            (store_idempotency-Ends (Endpoint.deposit_funds k) (deposited_body x a) 200 t w
              (ground (arith, h)) key))
        (book_deposit c k a x) s (book_deposit-Ends a x s v)

  deposit_amount-Ends :
      (a : Account) (o : Option Decimal) (s : Session)
      → IsValid s
      → a.account_id ≡ k
      → Ends (deposit_amount c key k a o s)
  deposit_amount-Ends a none s v h = v
  deposit_amount-Ends a (some x) s v h = recorded_response-Ends a x s v h

  deposit_into-Ends :
      (field : AmountField) (o : Option Account) (s : Session)
      → IsValid s
      → get_account k s.working.accounts ≡ o
      → Ends (deposit_into c key k field o s)
  deposit_into-Ends field none s v h = v
  deposit_into-Ends field (some a) s v h = elim (Bool-cases (is_foreign c a)) [
    | inl e ↦ rw e v
    | inr e ↦ elim (Bool-cases (is_active a.status)) [
      | inl act ↦
          rw (e, act)
            (deposit_amount-Ends a (load_deposit field) s v
              (key-get (λ (b : Account). b.account_id) k s.working.accounts h))
      | inr idle ↦ rw (e, idle) v
    ]
  ]

  deposit_checked-Ends :
      (field : AmountField) (x : Check) (s : Session)
      → IsValid s
      → Ends (deposit_checked c key k field x s)
  deposit_checked-Ends field fresh s v =
      deposit_into-Ends field (get_account k s.working.accounts) s v refl
  deposit_checked-Ends field conflict s v = v
  deposit_checked-Ends field (replay b code) s v = v

  -- A deposit request takes a valid session to a valid one, whatever it answers.
  pub deposit_funds-IsValid :
      (field : AmountField) (s : Session)
      → IsValid s
      → IsValid (serve (deposit_funds c key k field) s).1
  unfolding deposit_funds
  deposit_funds-IsValid field s v =
      serve-IsValid (deposit_funds c key k field) s
        (deposit_checked-Ends field (check_idempotency key (Endpoint.deposit_funds k) s) s v)
