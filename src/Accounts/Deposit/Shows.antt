-- ===== src/Accounts/Deposit/Shows.antt =====
-- app/routes/account_routes.py, `deposit_funds`: which account an answer shows, replayed ones included.
use bank_flow_digital_bankin.Base.{
  ℕ, String, Option, none, some, true, Bool-cases, inl, inr, ◌⊎◌, ◌≡◌, refl, arith,
}
use bank_flow_digital_bankin.Base.Rows.{key-get}
use bank_flow_digital_bankin.Base.Decimal.{Decimal}
use bank_flow_digital_bankin.Models.{Account, Endpoint, StoredBody, is_active}
use bank_flow_digital_bankin.Database.{Session, Action, pure, get_account, ◌>>=◌}
use bank_flow_digital_bankin.Http.{
  Caller, Message, Body, Response, respond, serve, is_foreign, internal_error,
}
use bank_flow_digital_bankin.Http.Answers.{AnsweredBy, bind-AnsweringBy, serve-AnsweredBy}
use bank_flow_digital_bankin.Invariant.{answers, IsValid}
use bank_flow_digital_bankin.Accounts.Payload.{AmountField, load_deposit}
use bank_flow_digital_bankin.Accounts.Idempotency.{
  Check, fresh, conflict, replay, check_idempotency, store_idempotency, replayed,
}
use bank_flow_digital_bankin.Accounts.Idempotency.Replays.{CheckAnswers, check_idempotency-answers}
use bank_flow_digital_bankin.Accounts.Deposit.{
  book_deposit, deposited_body, deposit_amount, deposit_into, deposit_checked, deposit_funds,
}

-- An error, or 200 with a deposit on account `k`.
abbrev pub ShowsDeposit : ℕ → Response → Type 0
ShowsDeposit k r =
    ((m : Message) × (r.body ≡ Body.error m))
    ⊎ ((a : Account) × (x : Decimal) × (r ≡ respond 200 (Body.stored (StoredBody.deposited x a)))
        × (a.account_id ≡ k))

module _ (c : Caller) (key : Option String) (k : ℕ) where
  replayed-ShowsDeposit :
      (b : StoredBody) (code : ℕ)
      → answers (Endpoint.deposit_funds k) b code ≡ true
      → ShowsDeposit k (replayed b code)
  replayed-ShowsDeposit (StoredBody.account_created a) code h = ground (arith, h)
  replayed-ShowsDeposit (StoredBody.deposited x a) code h =
      let ok_code : code ≡ 200 = ground (arith, h) in
      let own : a.account_id ≡ k = ground (arith, h) in inr (a, x, rw ok_code refl, own)

  abbrev store_and_answer : Account → Decimal → Action Response
  store_and_answer a x =
      store_idempotency key (Endpoint.deposit_funds k) (deposited_body x a) 200 >>= λ _.
      pure (respond 200 (Body.stored (deposited_body x a)))

  deposit_amount-ShowsDeposit :
      (a : Account) (o : Option Decimal) (s : Session)
      → a.account_id ≡ k
      → AnsweredBy (ShowsDeposit k) (deposit_amount c key k a o s)
  deposit_amount-ShowsDeposit a none s h = inl (_, refl)
  deposit_amount-ShowsDeposit a (some x) s h =
      (bind-AnsweringBy (ShowsDeposit k) (book_deposit c k a x) (λ _. store_and_answer a x)
          (λ _.
            bind-AnsweringBy (ShowsDeposit k)
              (store_idempotency key (Endpoint.deposit_funds k) (deposited_body x a) 200)
              (λ _. pure (respond 200 (Body.stored (deposited_body x a))))
              (λ _. record { answered = λ t. inr (_, x, refl, h) }))).answered
        s

  deposit_into-ShowsDeposit :
      (field : AmountField) (o : Option Account) (s : Session)
      → get_account k s.working.accounts ≡ o
      → AnsweredBy (ShowsDeposit k) (deposit_into c key k field o s)
  deposit_into-ShowsDeposit field none s h = inl (_, refl)
  deposit_into-ShowsDeposit field (some a) s h = elim (Bool-cases (is_foreign c a)) [
    | inl e ↦ rw e (inl (_, refl))
    | inr e ↦ elim (Bool-cases (is_active a.status)) [
      | inl act ↦
          rw (e, act)
            (deposit_amount-ShowsDeposit a (load_deposit field) s
              (key-get (λ (b : Account). b.account_id) k s.working.accounts h))
      | inr idle ↦ rw (e, idle) (inl (_, refl))
    ]
  ]

  deposit_checked-ShowsDeposit :
      (field : AmountField) (x : Check) (s : Session)
      → CheckAnswers (Endpoint.deposit_funds k) x
      → AnsweredBy (ShowsDeposit k) (deposit_checked c key k field x s)
  deposit_checked-ShowsDeposit field fresh s h =
      deposit_into-ShowsDeposit field (get_account k s.working.accounts) s refl
  deposit_checked-ShowsDeposit field conflict s h = inl (_, refl)
  deposit_checked-ShowsDeposit field (replay b code) s h = replayed-ShowsDeposit b code h

  -- In a valid session a deposit request, under whatever key and payload, is answered with an
  -- error, or with 200 and a deposit on the account in its path: a replay never shows the response
  -- of another endpoint or another account.
  pub deposit_funds-ShowsDeposit :
      (field : AmountField) (s : Session)
      → IsValid s
      → ((m : Message) × ((serve (deposit_funds c key k field) s).0.body ≡ Body.error m))
        ⊎ ((a : Account) × (x : Decimal) × ((serve (deposit_funds c key k field) s).0
              ≡ respond 200 (Body.stored (StoredBody.deposited x a)))
            × (a.account_id ≡ k))
  unfolding deposit_funds
  deposit_funds-ShowsDeposit field s v =
      serve-AnsweredBy (ShowsDeposit k) (λ e. inl (internal_error e, refl))
        (deposit_funds c key k field) s
        (deposit_checked-ShowsDeposit field (check_idempotency key (Endpoint.deposit_funds k) s) s
          (check_idempotency-answers key (Endpoint.deposit_funds k) s v))
