-- ===== src/Accounts/Create/Keeps.antt =====
-- Opening an account keeps the stored tables valid, however the request ends.
use bank_flow_digital_bankin.Base.{
  ℕ, ◌+◌, String, Option, none, some, List, [], ◌∷◌, ◌++◌, ◌≡◌, refl, arith, Option-cases,
  Bool-cases, inl, inr,
}
use bank_flow_digital_bankin.Base.Int.{pos}
use bank_flow_digital_bankin.Base.Rows.{Below-append, Below-mono}
use bank_flow_digital_bankin.Base.Decimal.{Decimal, at_most, to_column}
use bank_flow_digital_bankin.Models.{
  Account, LedgerEntry, Endpoint, StoredBody, credit, initial_deposit,
}
use bank_flow_digital_bankin.Database.{
  Session, Action, violation, pure, ◌>>=◌, commit, integrity_ok,
}
use bank_flow_digital_bankin.Audit.{add_log, audit_entry}
use bank_flow_digital_bankin.Ledger.{new_entry}
use bank_flow_digital_bankin.Http.{Caller, Response, respond, Body, serve}
use bank_flow_digital_bankin.Invariant.{IsStored, IsStored-mono, IsValid, seen}
use bank_flow_digital_bankin.Invariant.Ends.{Ends, bind-Ends, commit-Ends, serve-IsValid}
use bank_flow_digital_bankin.Reconcile.Pairs.{
  LinksBelow, LinksBelow-append, Paired, Paired-append_free,
}
use bank_flow_digital_bankin.Accounts.Payload.{AmountField, load_initial_deposit}
use bank_flow_digital_bankin.Accounts.Numbers.{generate_account_number, max_acct_retries}
use bank_flow_digital_bankin.Accounts.Idempotency.{Check, check_idempotency, store_idempotency}
use bank_flow_digital_bankin.Accounts.Idempotency.Records.{store_idempotency-Ends}
use bank_flow_digital_bankin.Accounts.Create.{
  new_account, created_event, open_account, with_number, second_number, create_with, create_checked,
  create_account,
}

module _ (c : Caller) (key : Option String) (x : Decimal) (number : String) (s : Session)
    (v : IsValid s) where
  abbrev pub a : Account
  a = new_account c number (to_column x) s

  -- After the flush.
  abbrev pub added : Session
  added = record s {
    working = record (s.working) { accounts = s.working.accounts ++ a ∷ [] };
    ids = record (s.ids) { account = s.ids.account + 1 };
  }

  -- Before the commit, with the ledger entries `es` and `n` as the key of the next one.
  abbrev pub pending_account : List LedgerEntry → ℕ → Session
  pending_account es n = record added {
    working = record (added.working) {
      ledger_entries = es;
      audit_logs = s.working.audit_logs ++ audit_entry (created_event c a x) s ∷ [];
    };
    ids = record (added.ids) { entry = n; log = s.ids.log + 1 };
  }

  abbrev pub initial_entry : LedgerEntry
  initial_entry =
      new_entry none a.account_id credit (to_column x) (to_column x) initial_deposit added

  pub opened-IsStored :
      (es : List LedgerEntry) (n : ℕ)
      → LinksBelow s.ids.transaction es
      → Paired s.working.transactions es
      → violation (pending_account es n).working ≡ none
      → IsStored (pending_account es n).ids (pending_account es n).working
  opened-IsStored es n below paired q =
      let w = seen v in
      record {
        sound = q;
        transactions_below = w.transactions_below;
        links_below = below;
        records_answer = w.records_answer;
        paired = paired;
        accounts_below =
            Below-append (λ (b : Account). b.account_id) (s.ids.account + 1) s.working.accounts a
              (Below-mono (λ (b : Account). b.account_id) s.ids.account (s.ids.account + 1)
                s.working.accounts (omega arith) w.accounts_below)
              (omega arith);
      }

  abbrev finish_opening : Action Response
  finish_opening = commit >>= λ _.
      (store_idempotency key Endpoint.create_account (StoredBody.account_created a) 201 >>= λ _.
      pure (respond 201 (Body.stored (StoredBody.account_created a))))

  finish_opening-Ends :
      (es : List LedgerEntry) (n : ℕ)
      → LinksBelow s.ids.transaction es
      → Paired s.working.transactions es
      → Ends (finish_opening (pending_account es n))
  finish_opening-Ends es n below paired =
      bind-Ends _
        (λ _ t w.
          bind-Ends (λ _. pure (respond 201 (Body.stored (StoredBody.account_created a))))
            (λ _ u w'. w')
            (store_idempotency key Endpoint.create_account (StoredBody.account_created a) 201) t
            (store_idempotency-Ends Endpoint.create_account (StoredBody.account_created a) 201 t w
              refl key))
        commit (pending_account es n)
        (commit-Ends (pending_account es n) (IsStored-mono (omega arith) (omega arith) v.stored)
          (opened-IsStored es n below paired))

  open_account-Ends : Ends (open_account c key x number s)
  unfolding open_account add_log violation integrity_ok
  open_account-Ends =
      let w = seen v in
      elim (Option-cases (violation added.working)) [
        | inr (f, q) ↦ rw q (IsStored-mono (omega arith) (omega arith) v.stored)
        | inl q ↦ elim (Bool-cases (at_most x (pos 0))) [
          | inr more ↦
              rw (q, more)
                (finish_opening-Ends (s.working.ledger_entries ++ initial_entry ∷ [])
                  (s.ids.entry + 1)
                  (LinksBelow-append s.ids.transaction s.working.ledger_entries initial_entry
                    w.links_below tt)
                  (Paired-append_free s.working.transactions s.working.ledger_entries initial_entry
                    refl w.paired))
          | inl nothing ↦
              rw (q, nothing)
                (finish_opening-Ends s.working.ledger_entries s.ids.entry w.links_below w.paired)
        ]
      ]

module _ (c : Caller) (key : Option String) (draw : ℕ → String) (s : Session) (v : IsValid s) where
  with_number-Ends :
      (x : Decimal) (o : Option (String × ℕ)) → Ends (with_number o (open_account c key x) s)
  with_number-Ends x none = v
  with_number-Ends x (some (m, j)) = open_account-Ends c key x m s v

  second_number-Ends :
      (x : Decimal) (o : Option (String × ℕ)) (again : ℕ → Option (String × ℕ))
      → Ends (second_number o again (open_account c key x) s)
  second_number-Ends x none again = v.stored
  second_number-Ends x (some (n, i)) again = with_number-Ends x (again i)

  create_with-Ends : (o : Option Decimal) → Ends (create_with c key draw o s)
  create_with-Ends none = v
  create_with-Ends (some x) =
      second_number-Ends x (generate_account_number draw max_acct_retries 0 s.working.accounts)
        (λ i. generate_account_number draw max_acct_retries i s.working.accounts)

  create_checked-Ends :
      (field : AmountField) (k : Check) → Ends (create_checked c key draw field k s)
  create_checked-Ends field Check.fresh = create_with-Ends (load_initial_deposit field)
  create_checked-Ends field Check.conflict = v
  create_checked-Ends field (Check.replay b code) = v

-- A request to open an account takes a valid session to a valid one, whatever it answers and
-- whatever numbers are drawn.
pub create_account-IsValid :
    (c : Caller) (key : Option String) (draw : ℕ → String) (field : AmountField) (s : Session)
    → IsValid s
    → IsValid (serve (create_account c key draw field) s).1
unfolding create_account
create_account-IsValid c key draw field s v =
    serve-IsValid (create_account c key draw field) s
      (create_checked-Ends c key draw s v field (check_idempotency key Endpoint.create_account s))
