-- ===== src/System/Statuses/Served.antt =====
-- app/routes/account_routes.py and app/routes/transfer_routes.py: the status of the answer to an opening, a
-- deposit and a transfer.
use bank_flow_digital_bankin.Base.{
  ℕ, String, Option, none, some, true, Bool-cases, inl, inr, ◌≡◌, refl, arith,
}
use bank_flow_digital_bankin.Base.Decimal.{Decimal, to_column}
use bank_flow_digital_bankin.Models.{Account, Endpoint, StoredBody, Transaction, is_active}
use bank_flow_digital_bankin.Database.{
  Session, Action, Result, ok, err, Error, pure, commit, get_account, ◌>>=◌,
}
use bank_flow_digital_bankin.Http.{Caller, Body, Response, respond, is_foreign}
use bank_flow_digital_bankin.Invariant.{answers, IsValid}
use bank_flow_digital_bankin.Audit.{record_audit_event}
use bank_flow_digital_bankin.Transfer.{TransferRequest, execute_transfer}
use bank_flow_digital_bankin.TransferRoutes.{
  TransferPayload, load_transfer, refusal, answer_transfer, send_from, create_loaded,
  create_transfer,
}
use bank_flow_digital_bankin.Accounts.Payload.{AmountField, load_deposit, load_initial_deposit}
use bank_flow_digital_bankin.Accounts.Numbers.{generate_account_number, max_acct_retries}
use bank_flow_digital_bankin.Accounts.Idempotency.{
  Check, fresh, conflict, replay, check_idempotency, store_idempotency, replayed,
}
use bank_flow_digital_bankin.Accounts.Idempotency.Replays.{CheckAnswers, check_idempotency-answers}
use bank_flow_digital_bankin.Accounts.Create.{
  add_account, enter_initial_deposit, created_event, open_account, with_number, second_number,
  create_with, create_checked, create_account,
}
use bank_flow_digital_bankin.Accounts.Deposit.{
  book_deposit, deposited_body, deposit_amount, deposit_into, deposit_checked, deposit_funds,
}
use bank_flow_digital_bankin.System.Statuses.{has_its_status, Answered, Answering, bind-Answering}

answers-status :
    (e : Endpoint) (b : StoredBody) (code : ℕ)
    → answers e b code ≡ true
    → has_its_status (replayed b code) ≡ true
answers-status Endpoint.create_account (StoredBody.account_created a) code h = h
answers-status Endpoint.create_account (StoredBody.deposited x a) code h = ground (arith, h)
answers-status (Endpoint.deposit_funds k) (StoredBody.account_created a) code h = ground (arith, h)
answers-status (Endpoint.deposit_funds k) (StoredBody.deposited x a) code h = ground (arith, h)

module _ (c : Caller) (key : Option String) where
  open_account-Answering : (x : Decimal) (number : String) → Answering (open_account c key x number)
  unfolding open_account
  open_account-Answering x number = bind-Answering (add_account c number (to_column x)) _ (λ a.
      bind-Answering (enter_initial_deposit a x) _ (λ _.
        bind-Answering (record_audit_event (created_event c a x)) _ (λ _.
          bind-Answering commit _ (λ _.
            bind-Answering
              (store_idempotency key Endpoint.create_account (StoredBody.account_created a) 201)
              (λ _. pure (respond 201 (Body.stored (StoredBody.account_created a))))
              (λ _. record { answered = λ s. refl })))))

  with_number-Answered :
      (x : Decimal) (o : Option (String × ℕ)) (s : Session)
      → Answered (with_number o (open_account c key x) s)
  with_number-Answered x none s = refl
  with_number-Answered x (some (n, i)) s = (open_account-Answering x n).answered s

  second_number-Answered :
      (x : Decimal) (o : Option (String × ℕ)) (again : ℕ → Option (String × ℕ)) (s : Session)
      → Answered (second_number o again (open_account c key x) s)
  second_number-Answered x none again s = tt
  second_number-Answered x (some (n, i)) again s = with_number-Answered x (again i) s

  module _ (s : Session) (v : IsValid s) where
    create_with-Answered :
        (draw : ℕ → String) (o : Option Decimal) → Answered (create_with c key draw o s)
    create_with-Answered draw none = refl
    create_with-Answered draw (some x) =
        second_number-Answered x
          (generate_account_number draw max_acct_retries 0 s.working.accounts)
          (λ i. generate_account_number draw max_acct_retries i s.working.accounts) s

    create_checked-Answered :
        (draw : ℕ → String) (field : AmountField) (k : Check)
        → CheckAnswers Endpoint.create_account k
        → Answered (create_checked c key draw field k s)
    create_checked-Answered draw field fresh h =
        create_with-Answered draw (load_initial_deposit field)
    create_checked-Answered draw field conflict h = refl
    create_checked-Answered draw field (replay b code) h =
        answers-status Endpoint.create_account b code h

    pub create_account-Answered :
        (draw : ℕ → String) (field : AmountField) → Answered (create_account c key draw field s)
    unfolding create_account
    create_account-Answered draw field =
        create_checked-Answered draw field (check_idempotency key Endpoint.create_account s)
          (check_idempotency-answers key Endpoint.create_account s v)

    module _ (k : ℕ) where
      abbrev stored_and_answered : Account → Decimal → Action Response
      stored_and_answered a x =
          store_idempotency key (Endpoint.deposit_funds k) (deposited_body x a) 200 >>= λ _.
          pure (respond 200 (Body.stored (deposited_body x a)))

      deposit_amount-Answered :
          (a : Account) (o : Option Decimal) → Answered (deposit_amount c key k a o s)
      deposit_amount-Answered a none = refl
      deposit_amount-Answered a (some x) =
          (bind-Answering (book_deposit c k a x) (λ _. stored_and_answered a x)
              (λ _.
                bind-Answering
                  (store_idempotency key (Endpoint.deposit_funds k) (deposited_body x a) 200) _
                  (λ _. record { answered = λ t. refl }))).answered
            s

      deposit_into-Answered :
          (field : AmountField) (o : Option Account) → Answered (deposit_into c key k field o s)
      deposit_into-Answered field none = refl
      deposit_into-Answered field (some a) = elim (Bool-cases (is_foreign c a)) [
        | inl e ↦ rw e refl
        | inr e ↦ elim (Bool-cases (is_active a.status)) [
          | inl act ↦ rw (e, act) (deposit_amount-Answered a (load_deposit field))
          | inr idle ↦ rw (e, idle) refl
        ]
      ]

      deposit_checked-Answered :
          (field : AmountField) (x : Check)
          → CheckAnswers (Endpoint.deposit_funds k) x
          → Answered (deposit_checked c key k field x s)
      deposit_checked-Answered field fresh h =
          deposit_into-Answered field (get_account k s.working.accounts)
      deposit_checked-Answered field conflict h = refl
      deposit_checked-Answered field (replay b code) h =
          answers-status (Endpoint.deposit_funds k) b code h

      pub deposit_funds-Answered : (field : AmountField) → Answered (deposit_funds c key k field s)
      unfolding deposit_funds
      deposit_funds-Answered field =
          deposit_checked-Answered field (check_idempotency key (Endpoint.deposit_funds k) s)
            (check_idempotency-answers key (Endpoint.deposit_funds k) s v)

refusal-status : (e : Error) → has_its_status (refusal e) ≡ true
refusal-status e = ground arith

answer_transfer-status : (r : Result Transaction) → has_its_status (answer_transfer r) ≡ true
answer_transfer-status (ok t) = refl
answer_transfer-status (err e) = refusal-status e

module _ (c : Caller) (s : Session) where
  send_from-Answered : (r : TransferRequest) (o : Option Account) → Answered (send_from c r o s)
  send_from-Answered r none = refl
  send_from-Answered r (some a) = elim (Bool-cases (is_foreign c a)) [
    | inl e ↦ rw e refl
    | inr e ↦ rw e (answer_transfer-status (execute_transfer r s).0)
  ]

  create_loaded-Answered : (o : Option TransferRequest) → Answered (create_loaded c o s)
  create_loaded-Answered none = refl
  create_loaded-Answered (some r) =
      send_from-Answered r (get_account r.sender_id s.working.accounts)

  pub create_transfer-Answered : (p : TransferPayload) → Answered (create_transfer c p s)
  unfolding create_transfer
  create_transfer-Answered p = create_loaded-Answered (load_transfer p)
