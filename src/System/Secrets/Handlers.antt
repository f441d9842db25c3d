-- ===== src/System/Secrets/Handlers.antt =====
-- app/routes/account_routes.py: the openings and the deposits are blind to the password hashes.
use bank_flow_digital_bankin.Base.{
  ℕ, ◌+◌, String, Option, none, some, Bool-cases, Option-cases, inl, inr, [], ◌∷◌, ◌++◌, ◌≡◌, refl,
}
use bank_flow_digital_bankin.Base.Int.{ℤ, pos}
use bank_flow_digital_bankin.Base.Decimal.{Decimal, at_most, to_column, sum_column}
use bank_flow_digital_bankin.Models.{
  Account, Endpoint, StoredBody, LedgerEntryType, Description, credit, external_deposit, is_active,
}
use bank_flow_digital_bankin.Database.{
  Session, Action, Result, ok, err, pure, gets, modify_session, flush, commit, ◌>>=◌, get_account,
  modify_account, set_balance, integrity_error,
}
use bank_flow_digital_bankin.Audit.{AuditEvent, record_audit_event, add_log}
use bank_flow_digital_bankin.Ledger.{add_entry}
use bank_flow_digital_bankin.Http.{Caller, Body, Response, respond, is_foreign}
use bank_flow_digital_bankin.Transfer.{truthy}
use bank_flow_digital_bankin.Accounts.Payload.{AmountField, load_deposit, load_initial_deposit}
use bank_flow_digital_bankin.Accounts.Numbers.{generate_account_number, max_acct_retries}
use bank_flow_digital_bankin.Accounts.Idempotency.{
  Check, fresh, conflict, replay, check_idempotency, store_idempotency, add_record,
  forgive_duplicate,
}
use bank_flow_digital_bankin.Accounts.Create.{
  new_account, created_event, add_account, enter_initial_deposit, open_account, with_number,
  second_number, create_with, create_checked, create_account,
}
use bank_flow_digital_bankin.Accounts.Deposit.{
  deposit_event, book_deposit, deposited_body, deposit_amount, deposit_into, deposit_checked,
  deposit_funds,
}
use bank_flow_digital_bankin.System.Secrets.{
  hide, Blind, BlindTo, commit-Blind, flush-Blind, bind-Blind, bind-BlindTo,
}

pub record_audit_event-Blind : (e : AuditEvent) → Blind (record_audit_event e)
unfolding record_audit_event add_log
record_audit_event-Blind e = record { blind = λ s. refl }

pub add_entry-Blind :
    (tx : Option ℕ) (account : ℕ) (kind : LedgerEntryType) (amount after : ℤ) (text : Description)
    → Blind (add_entry tx account kind amount after text)
unfolding add_entry
add_entry-Blind tx account kind amount after text = record { blind = λ s. refl }

module _ (key : Option String) (e : Endpoint) (b : StoredBody) (code : ℕ) where
  forgiven-hide :
      (r : Result (Unit {0})) (s : Session)
      → forgive_duplicate r (hide s) ≡ ((forgive_duplicate r s).0, hide (forgive_duplicate r s).1)
  forgiven-hide (ok tt) s = refl
  forgiven-hide (err integrity_error) s = refl
  forgiven-hide (err e) s = refl

  store_idempotency-Blind : Blind (store_idempotency key e b code)
  unfolding store_idempotency
  store_idempotency-Blind = record {
    blind = λ s. elim (Option-cases (truthy key)) [
      | inl q ↦ rw (store_idempotency, q) refl
      | inr (k, q) ↦
          let m = commit (add_record k e b code s) in
          rw (store_idempotency, q, commit-Blind.blind (add_record k e b code s))
            (forgiven-hide m.0 m.1)
    ];
  }

check_idempotency-hide :
    (key : Option String) (e : Endpoint) (s : Session)
    → check_idempotency key e (hide s) ≡ check_idempotency key e s
unfolding check_idempotency
check_idempotency-hide key e s = refl

module _ (c : Caller) (key : Option String) (k : ℕ) where
  abbrev write_balance : Account → Decimal → Action (Unit {0})
  write_balance a x = modify_session (λ s. record s {
    working = record (s.working) {
      accounts = modify_account k (set_balance (sum_column a.balance x)) s.working.accounts;
    };
  })

  book_deposit-Blind : (a : Account) (x : Decimal) → Blind (book_deposit c k a x)
  unfolding book_deposit
  book_deposit-Blind a x =
      bind-Blind (write_balance a x) _ (record { blind = λ s. refl })
        (λ _.
          bind-Blind
            (add_entry none k credit (to_column x) (sum_column a.balance x) (external_deposit k)) _
            (add_entry-Blind none k credit (to_column x) (sum_column a.balance x)
              (external_deposit k))
            (λ _.
              bind-Blind (record_audit_event (deposit_event c k x a.balance)) _
                (record_audit_event-Blind (deposit_event c k x a.balance)) (λ _. commit-Blind)))

  abbrev deposit_answer : Account → Decimal → Response
  deposit_answer a x = respond 200 (Body.stored (deposited_body x a))

  abbrev store : Account → Decimal → Action (Unit {0})
  store a x = store_idempotency key (Endpoint.deposit_funds k) (deposited_body x a) 200

  deposit_amount-BlindTo : (a : Account) (o : Option Decimal) → BlindTo (deposit_amount c key k a o)
  deposit_amount-BlindTo a none = record { blind = λ s. refl }
  deposit_amount-BlindTo a (some x) =
      bind-BlindTo (book_deposit c k a x) (λ _. store a x >>= λ _. pure (deposit_answer a x))
        (book_deposit-Blind a x)
        (λ _.
          bind-BlindTo (store a x) (λ _. pure (deposit_answer a x))
            (store_idempotency-Blind key (Endpoint.deposit_funds k) (deposited_body x a) 200)
            (λ _. record { blind = λ s. refl }))

  deposit_into-BlindTo :
      (field : AmountField) (o : Option Account) → BlindTo (deposit_into c key k field o)
  deposit_into-BlindTo field none = record { blind = λ s. refl }
  deposit_into-BlindTo field (some a) = elim (Bool-cases (is_foreign c a)) [
    | inl e ↦ rw e (record { blind = λ s. refl })
    | inr e ↦ elim (Bool-cases (is_active a.status)) [
      | inl act ↦ rw (e, act) (deposit_amount-BlindTo a (load_deposit field))
      | inr idle ↦ rw (e, idle) (record { blind = λ s. refl })
    ]
  ]

  deposit_checked-BlindTo :
      (field : AmountField) (x : Check) → BlindTo (deposit_checked c key k field x)
  deposit_checked-BlindTo field fresh = record {
    blind = λ s. (deposit_into-BlindTo field (get_account k s.working.accounts)).blind s;
  }
  deposit_checked-BlindTo field conflict = record { blind = λ s. refl }
  deposit_checked-BlindTo field (replay b code) = record { blind = λ s. refl }

  pub deposit_funds-BlindTo : (field : AmountField) → BlindTo (deposit_funds c key k field)
  unfolding deposit_funds
  deposit_funds-BlindTo field = record {
    blind = λ s. rw (check_idempotency-hide key (Endpoint.deposit_funds k) s) (
        (deposit_checked-BlindTo field (check_idempotency key (Endpoint.deposit_funds k) s)).blind
          s);
  }

abbrev add_row : Account → Action (Unit {0})
add_row a = modify_session (λ s. record s {
  working = record (s.working) { accounts = s.working.accounts ++ a ∷ [] };
  ids = record (s.ids) { account = s.ids.account + 1 };
})

module _ (c : Caller) (key : Option String) where
  add_account-Blind : (number : String) (x : ℤ) → Blind (add_account c number x)
  unfolding add_account
  add_account-Blind number x =
      bind-Blind (gets (new_account c number x)) _ (record { blind = λ s. refl })
        (λ a.
          bind-Blind (add_row a) _ (record { blind = λ s. refl })
            (λ _. bind-Blind flush (λ _. pure a) flush-Blind (λ _. record { blind = λ s. refl })))

  enter_initial_deposit-Blind : (a : Account) (x : Decimal) → Blind (enter_initial_deposit a x)
  unfolding enter_initial_deposit add_entry
  enter_initial_deposit-Blind a x = record {
    blind = λ s. elim (Bool-cases (at_most x (pos 0))) [
      | inl more ↦ rw (enter_initial_deposit, more) refl
      | inr nothing ↦ rw (enter_initial_deposit, nothing) refl
    ];
  }

  open_account-BlindTo : (x : Decimal) (number : String) → BlindTo (open_account c key x number)
  unfolding open_account
  open_account-BlindTo x number =
      bind-BlindTo (add_account c number (to_column x)) _ (add_account-Blind number (to_column x))
        (λ a. bind-BlindTo (enter_initial_deposit a x) _ (enter_initial_deposit-Blind a x) (λ _.
          bind-BlindTo (record_audit_event (created_event c a x)) _
            (record_audit_event-Blind (created_event c a x))
            (λ _. bind-BlindTo commit _ commit-Blind (λ _.
              bind-BlindTo
                (store_idempotency key Endpoint.create_account (StoredBody.account_created a) 201)
                (λ _. pure (respond 201 (Body.stored (StoredBody.account_created a))))
                (store_idempotency-Blind key Endpoint.create_account (StoredBody.account_created a)
                  201)
                (λ _. record { blind = λ s. refl })))))

  with_number-BlindTo :
      (x : Decimal) (o : Option (String × ℕ)) → BlindTo (with_number o (open_account c key x))
  with_number-BlindTo x none = record { blind = λ s. refl }
  with_number-BlindTo x (some (n, i)) = open_account-BlindTo x n

  second_number-BlindTo :
      (x : Decimal) (o : Option (String × ℕ)) (again : ℕ → Option (String × ℕ))
      → BlindTo (second_number o again (open_account c key x))
  second_number-BlindTo x none again = record { blind = λ s. refl }
  second_number-BlindTo x (some (n, i)) again = with_number-BlindTo x (again i)

  create_with-BlindTo :
      (draw : ℕ → String) (o : Option Decimal) → BlindTo (create_with c key draw o)
  create_with-BlindTo draw none = record { blind = λ s. refl }
  create_with-BlindTo draw (some x) = record {
    blind = λ s.
        (second_number-BlindTo x
            (generate_account_number draw max_acct_retries 0 s.working.accounts)
            (λ i. generate_account_number draw max_acct_retries i s.working.accounts)).blind
          s;
  }

  create_checked-BlindTo :
      (draw : ℕ → String) (field : AmountField) (k : Check)
      → BlindTo (create_checked c key draw field k)
  create_checked-BlindTo draw field fresh = create_with-BlindTo draw (load_initial_deposit field)
  create_checked-BlindTo draw field conflict = record { blind = λ s. refl }
  create_checked-BlindTo draw field (replay b code) = record { blind = λ s. refl }

  pub create_account-BlindTo :
      (draw : ℕ → String) (field : AmountField) → BlindTo (create_account c key draw field)
  unfolding create_account
  create_account-BlindTo draw field = record {
    blind = λ s. rw (check_idempotency-hide key Endpoint.create_account s) (
        (create_checked-BlindTo draw field (check_idempotency key Endpoint.create_account s)).blind
          s);
  }
