-- ===== src/System/Secrets/Transfers.antt =====
-- app/services/transfer_service.py and app/routes/transfer_routes.py: a transfer is blind to the password
-- hashes. Its notice reads the address of the sender's user.
use bank_flow_digital_bankin.Base.{
  ℕ, ◌+◌, Option, none, some, Bool-cases, Option-cases, inl, inr, ◌≡◌, refl, arith, if◌then◌else◌,
  [], ◌∷◌, ◌++◌, str_eq,
}
use bank_flow_digital_bankin.Base.Int.{ℤ, pos}
use bank_flow_digital_bankin.Base.Decimal.{at_most, to_column, sum_column, difference_column}
use bank_flow_digital_bankin.Models.{
  User, Account, Transaction, completed, debit, credit, transfer_to, transfer_from,
}
use bank_flow_digital_bankin.Database.{
  Session, Event, Action, Result, ok, err, Error, invalid_transfer, pure, raise_if, gets, flush,
  commit, settle, or_rollback, ◌>>=◌, get_account, get_user, set_status, modify_session,
}
use bank_flow_digital_bankin.Audit.{record_audit_event}
use bank_flow_digital_bankin.Ledger.{add_entry}
use bank_flow_digital_bankin.Http.{Caller, is_foreign}
use bank_flow_digital_bankin.Transfer.{
  TransferRequest, existing_transfer, same_parameters, validate_accounts, new_transaction,
  add_transaction, write_balances, complete, completed_event, notify_sender, book_transfer,
  new_transfer, transfer_or_replay, execute_transfer,
}
use bank_flow_digital_bankin.Transfer.Guards.{validate_accounts-eq}
use bank_flow_digital_bankin.TransferRoutes.{
  TransferPayload, load_transfer, refusal, answer_transfer, transfer_and_answer, send_from,
  create_loaded, create_transfer,
}
use bank_flow_digital_bankin.System.Secrets.{
  hide, hide_response, hide_found, get_user-hide, Blind, BlindTo, commit-Blind, flush-Blind,
  bind-Blind,
}
use bank_flow_digital_bankin.System.Secrets.Handlers.{record_audit_event-Blind, add_entry-Blind}

or_rollback-Blind : {A : Type 0} (m : Action A) → Blind m → Blind (or_rollback m)
or_rollback-Blind {A} m h = record { blind = λ s. rw (h.blind s) (go (m s).0 (m s).1) }
  where
    go : (r : Result A) (t : Session) → settle r (hide t) ≡ ((settle r t).0, hide (settle r t).1)
    go (ok a) t = refl
    go (err e) t = refl

module _ (r : TransferRequest) where
  validate_accounts-Blind : Blind (validate_accounts r)
  validate_accounts-Blind = record {
    blind = λ s. rw (validate_accounts-eq r (hide s), validate_accounts-eq r s) refl;
  }

  abbrev add_row : Transaction → Action (Unit {0})
  add_row t = modify_session (λ s. record s {
    working = record (s.working) { transactions = s.working.transactions ++ t ∷ [] };
    ids = record (s.ids) { transaction = s.ids.transaction + 1 };
  })

  add_transaction-Blind : Blind (add_transaction r)
  unfolding add_transaction
  add_transaction-Blind =
      bind-Blind (gets (new_transaction r)) _ (record { blind = λ s. refl })
        (λ t.
          bind-Blind (add_row t) _ (record { blind = λ s. refl })
            (λ _. bind-Blind flush (λ _. pure t) flush-Blind (λ _. record { blind = λ s. refl })))

  write_balances-Blind : (x y : ℤ) → Blind (write_balances r x y)
  unfolding write_balances
  write_balances-Blind x y = record { blind = λ s. refl }

  complete-Blind : (id : ℕ) → Blind (complete id)
  unfolding complete
  complete-Blind id = record { blind = λ s. refl }

  -- The notice for a user that was looked up.
  abbrev notice : ℕ → Option User → Session → Session
  notice id none s = s
  notice id (some u) s = if str_eq u.email "" then s else record s {
    outbox =
        s.outbox
        ++ record {
          event = Event.transfer_completed id r.amount r.sender_id r.receiver_id;
          recipient_email = u.email;
        }
          ∷ [];
  }

  notice-hide :
      (id : ℕ) (o : Option User) (s : Session)
      → notice id (hide_found o) (hide s) ≡ hide (notice id o s)
  notice-hide id none s = refl
  notice-hide id (some u) s = elim (Bool-cases (str_eq u.email "")) [
    | inl y ↦ rw y refl
    | inr n ↦ rw n refl
  ]

  notify_sender-notice :
      (id : ℕ) (a : Account) (s : Session)
      → notify_sender r id a s ≡ (ok tt, notice id (get_user a.user_id s.working.users) s)
  unfolding notify_sender
  notify_sender-notice id a s = elim (Option-cases (get_user a.user_id s.working.users)) [
    | inl q ↦ rw q refl
    | inr (u, q) ↦ rw q refl
  ]

  notify_sender-Blind : (id : ℕ) (a : Account) → Blind (notify_sender r id a)
  notify_sender-Blind id a = record {
    blind = λ s.
        rw
          (
            notify_sender-notice id a (hide s),
            notify_sender-notice id a s,
            get_user-hide a.user_id s.working.users,
            notice-hide id (get_user a.user_id s.working.users) s,
          )
          refl;
  }

  book_transfer-Blind : (a b : Account) → Blind (book_transfer r a b)
  unfolding book_transfer
  book_transfer-Blind a b =
      let x = difference_column a.balance r.amount in
      let y = sum_column b.balance r.amount in
      bind-Blind (add_transaction r) _ add_transaction-Blind (λ t.
        bind-Blind (write_balances r x y) _ (write_balances-Blind x y) (λ _.
          bind-Blind
            (add_entry (some t.transaction_id) r.sender_id debit (to_column r.amount) x
              (transfer_to r.receiver_id))
            _
            (add_entry-Blind (some t.transaction_id) r.sender_id debit (to_column r.amount) x
              (transfer_to r.receiver_id))
            (λ _.
              bind-Blind
                (add_entry (some t.transaction_id) r.receiver_id credit (to_column r.amount) y
                  (transfer_from r.sender_id))
                _
                (add_entry-Blind (some t.transaction_id) r.receiver_id credit (to_column r.amount) y
                  (transfer_from r.sender_id))
                (λ _.
                  bind-Blind (complete t.transaction_id) _ (complete-Blind t.transaction_id) (λ _.
                    bind-Blind (record_audit_event (completed_event r t.transaction_id a)) _
                      (record_audit_event-Blind (completed_event r t.transaction_id a))
                      (λ _. bind-Blind commit _ commit-Blind (λ _.
                        bind-Blind (notify_sender r t.transaction_id a)
                          (λ _. pure (set_status completed t))
                          (notify_sender-Blind t.transaction_id a)
                          (λ _. record { blind = λ s. refl }))))))))

  new_transfer-Blind : Blind (new_transfer r)
  unfolding new_transfer
  new_transfer-Blind =
      bind-Blind (validate_accounts r) (λ x. book_transfer r x.0 x.1) validate_accounts-Blind
        (λ x. book_transfer-Blind x.0 x.1)

  transfer_or_replay-Blind : (o : Option Transaction) → Blind (transfer_or_replay r o)
  unfolding transfer_or_replay
  transfer_or_replay-Blind none = new_transfer-Blind
  transfer_or_replay-Blind (some t) = elim (Bool-cases (same_parameters r t)) [
    | inl y ↦ record { blind = λ s. rw (transfer_or_replay, y) refl }
    | inr n ↦ record { blind = λ s. rw (transfer_or_replay, n) refl }
  ]

  abbrev lookup_and_go : Action Transaction
  lookup_and_go = gets (λ s. existing_transfer r.idempotency_key s.working) >>= transfer_or_replay r

  execute_transfer-Blind : Blind (execute_transfer r)
  unfolding execute_transfer existing_transfer
  execute_transfer-Blind =
      bind-Blind (raise_if (at_most r.amount (pos 0)) invalid_transfer)
        (λ _. or_rollback lookup_and_go) (record { blind = λ s. refl })
        (λ _. or_rollback-Blind lookup_and_go (
          bind-Blind (gets (λ s. existing_transfer r.idempotency_key s.working))
            (transfer_or_replay r) (record { blind = λ s. refl }) transfer_or_replay-Blind))

refusal-hide : (e : Error) → hide_response (refusal e) ≡ refusal e
refusal-hide e = ground arith

answer_transfer-hide :
    (x : Result Transaction) → hide_response (answer_transfer x) ≡ answer_transfer x
answer_transfer-hide (ok t) = refl
answer_transfer-hide (err e) = refusal-hide e

module _ (c : Caller) where
  transfer_and_answer-BlindTo : (r : TransferRequest) → BlindTo (transfer_and_answer r)
  transfer_and_answer-BlindTo r = record {
    blind = λ s.
        rw ((execute_transfer-Blind r).blind s, answer_transfer-hide (execute_transfer r s).0) refl;
  }

  send_from-BlindTo : (r : TransferRequest) (o : Option Account) → BlindTo (send_from c r o)
  send_from-BlindTo r none = record { blind = λ s. refl }
  send_from-BlindTo r (some a) = elim (Bool-cases (is_foreign c a)) [
    | inl e ↦ rw e (record { blind = λ s. refl })
    | inr e ↦ rw e (transfer_and_answer-BlindTo r)
  ]

  create_loaded-BlindTo : (o : Option TransferRequest) → BlindTo (create_loaded c o)
  create_loaded-BlindTo none = record { blind = λ s. refl }
  create_loaded-BlindTo (some r) = record {
    blind = λ s. (send_from-BlindTo r (get_account r.sender_id s.working.accounts)).blind s;
  }

  pub create_transfer-BlindTo : (p : TransferPayload) → BlindTo (create_transfer c p)
  unfolding create_transfer
  create_transfer-BlindTo p = create_loaded-BlindTo (load_transfer p)
