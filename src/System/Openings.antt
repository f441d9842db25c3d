-- ===== src/System/Openings.antt =====
-- app/routes/account_routes.py, `create_account`: the books under the opening of an account.
use bank_flow_digital_bankin.Base.{
  ℕ, ◌+◌, String, Option, none, some, true, false, Bool-cases, Option-cases, inl, inr, List, [],
  ◌∷◌, ◌++◌, ◌≡◌, refl, arith, ◌∙◌, keep-append_true, keep-append_false, all-append, all,
}
use bank_flow_digital_bankin.Base.Int.{eq_of_parts, pos, leb_ℤ, ◌+ℤ◌, int_laws}
use bank_flow_digital_bankin.Base.Decimal.{Decimal, at_most, to_column, to_column-le}
use bank_flow_digital_bankin.Models.{
  Account, LedgerEntry, Endpoint, StoredBody, is_credit, is_debit,
}
use bank_flow_digital_bankin.Database.{
  Db, Session, Action, pure, ◌>>=◌, commit, violation, account_ok, integrity_ok,
}
use bank_flow_digital_bankin.Database.Sound.{sound}
use bank_flow_digital_bankin.Audit.{add_log, audit_entry}
use bank_flow_digital_bankin.Http.{Caller, Response, Body, respond, serve}
use bank_flow_digital_bankin.Invariant.{IsStored-mono, IsValid, seen}
use bank_flow_digital_bankin.Invariant.Ends.{commit-Ends}
use bank_flow_digital_bankin.Reconcile.{total_balances, total_credits, total_debits}
use bank_flow_digital_bankin.Reconcile.Sums.{sum-map, total-append}
use bank_flow_digital_bankin.Reconcile.Pairs.{
  LinksBelow, LinksBelow-append, Paired, Paired-append_free,
}
use bank_flow_digital_bankin.Accounts.Payload.{AmountField, load_initial_deposit}
use bank_flow_digital_bankin.Accounts.Numbers.{generate_account_number, max_acct_retries}
use bank_flow_digital_bankin.Accounts.Idempotency.{Check, check_idempotency, store_idempotency}
use bank_flow_digital_bankin.Accounts.Create.{
  created_event, open_account, with_number, second_number, create_with, create_checked,
  create_account,
}
use bank_flow_digital_bankin.Accounts.Create.Keeps.{
  a, added, pending_account, initial_entry, opened-IsStored,
}
use bank_flow_digital_bankin.System.Drift.{
  drift, other_entry, stored_books, commit-books, bind-books, bind_last-books, serve-books,
  store_idempotency-books,
}

-- One more account with a balance.
pub balances-append :
    (d : Db) (b : Account)
    → total_balances (record d { accounts = d.accounts ++ b ∷ [] }) ≡ total_balances d +ℤ b.balance
unfolding total_balances
balances-append d b =
    simp (sum-map (λ (a : Account). a.balance), total-append (λ (a : Account). a.balance))

-- One more credit in the ledger.
credits-append :
    (d : Db) (e : LedgerEntry)
    → is_credit e.entry_type ≡ true
    → total_credits (record d { ledger_entries = d.ledger_entries ++ e ∷ [] })
      ≡ total_credits d +ℤ e.amount
unfolding total_credits
credits-append d e h =
    rw (keep-append_true (λ (e : LedgerEntry). is_credit e.entry_type) d.ledger_entries e h)
      (simp (sum-map (λ (e : LedgerEntry). e.amount), total-append (λ (e : LedgerEntry). e.amount)))

debits-append :
    (d : Db) (e : LedgerEntry)
    → is_debit e.entry_type ≡ false
    → total_debits (record d { ledger_entries = d.ledger_entries ++ e ∷ [] }) ≡ total_debits d
unfolding total_debits
debits-append d e h =
    rw (keep-append_false (λ (e : LedgerEntry). is_debit e.entry_type) d.ledger_entries e h)

last_ok :
    (rows : List Account) (b : Account)
    → all account_ok (rows ++ b ∷ []) ≡ true
    → account_ok b ≡ true
last_ok rows b h = ground (arith, all-append account_ok rows (b ∷ []), h)

no_deposit :
    (x : Decimal)
    → at_most x (pos 0) ≡ true
    → leb_ℤ (pos 0) (to_column x) ≡ true
    → to_column x ≡ pos 0
no_deposit x n h = ground (arith, n, h, to_column-le x (pos 0) n, eq_of_parts (to_column x) (pos 0))

module _ (c : Caller) (key : Option String) (x : Decimal) (number : String) (s : Session)
    (v : IsValid s) where
  abbrev opening : List LedgerEntry → ℕ → Session
  opening = pending_account c key x number s v

  abbrev b : Account
  b = a c key x number s v

  credited-drift :
      drift
        (opening
          (s.working.ledger_entries ++ initial_entry c key x number s v ∷ [])
          (s.ids.entry + 1)).working
      ≡ drift s.working
  unfolding drift total_balances total_credits total_debits
  credited-drift =
      rw
        (
          balances-append s.working b,
          credits-append s.working (initial_entry c key x number s v) refl,
          debits-append s.working (initial_entry c key x number s v) refl,
        )
        (omega int_laws)

  empty-drift :
      at_most x (pos 0) ≡ true
      → violation (added c key x number s v).working ≡ none
      → drift (opening s.working.ledger_entries s.ids.entry).working ≡ drift s.working
  unfolding drift total_balances total_credits total_debits
  empty-drift n q =
      let h = sound (added c key x number s v).working q in
      let zero : to_column x ≡ pos 0 =
        no_deposit x n (last_ok s.working.accounts b h.accounts_ok) in
      rw (balances-append s.working b, zero) (omega int_laws)

  abbrev finish_opening : Action Response
  finish_opening = commit >>= λ _.
      (store_idempotency key Endpoint.create_account (StoredBody.account_created b) 201 >>= λ _.
      pure (respond 201 (Body.stored (StoredBody.account_created b))))

  finish_opening-books :
      (es : List LedgerEntry) (n : ℕ)
      → LinksBelow s.ids.transaction es
      → Paired s.working.transactions es
      → drift (opening es n).working ≡ drift s.working
      → stored_books (finish_opening (opening es n)).1 ≡ stored_books s
  finish_opening-books es n below paired same =
      bind-books _ (stored_books s)
        (λ _ t w.
          bind_last-books (λ _. pure (respond 201 (Body.stored (StoredBody.account_created b))))
            (stored_books t) (λ _ u. refl)
            (store_idempotency key Endpoint.create_account (StoredBody.account_created b) 201) t
            (store_idempotency-books key Endpoint.create_account (StoredBody.account_created b) 201
              t w))
        commit (opening es n)
        (commit-Ends (opening es n) (IsStored-mono (omega arith) (omega arith) v.stored)
          (opened-IsStored c key x number s v es n below paired))
        (commit-books (opening es n) (
          rw
            (
              ← v.clean,
              same,
              other_entry s.working.audit_logs (audit_entry (created_event c b x) s) refl,
            )
            refl))

  open_account-books : stored_books (open_account c key x number s).1 ≡ stored_books s
  unfolding open_account add_log violation integrity_ok
  open_account-books =
      let w = seen v in
      elim (Option-cases (violation (added c key x number s v).working)) [
        | inr (f, q) ↦ rw q refl
        | inl q ↦ elim (Bool-cases (at_most x (pos 0))) [
          | inr more ↦
              rw (q, more)
                (finish_opening-books
                  (s.working.ledger_entries ++ initial_entry c key x number s v ∷ [])
                  (s.ids.entry + 1)
                  (LinksBelow-append s.ids.transaction s.working.ledger_entries
                    (initial_entry c key x number s v) w.links_below tt)
                  (Paired-append_free s.working.transactions s.working.ledger_entries
                    (initial_entry c key x number s v) refl w.paired)
                  credited-drift)
          | inl nothing ↦
              rw (q, nothing)
                (finish_opening-books s.working.ledger_entries s.ids.entry w.links_below w.paired
                  (empty-drift nothing q))
        ]
      ]

module _ (c : Caller) (key : Option String) (draw : ℕ → String) (s : Session) (v : IsValid s) where
  with_number-books :
      (x : Decimal) (o : Option (String × ℕ))
      → stored_books (with_number o (open_account c key x) s).1 ≡ stored_books s
  with_number-books x none = refl
  with_number-books x (some (m, j)) = open_account-books c key x m s v

  second_number-books :
      (x : Decimal) (o : Option (String × ℕ)) (again : ℕ → Option (String × ℕ))
      → stored_books (second_number o again (open_account c key x) s).1 ≡ stored_books s
  second_number-books x none again = refl
  second_number-books x (some (n, i)) again = with_number-books x (again i)

  create_with-books :
      (o : Option Decimal) → stored_books (create_with c key draw o s).1 ≡ stored_books s
  create_with-books none = refl
  create_with-books (some x) =
      second_number-books x (generate_account_number draw max_acct_retries 0 s.working.accounts)
        (λ i. generate_account_number draw max_acct_retries i s.working.accounts)

  create_checked-books :
      (field : AmountField) (k : Check)
      → stored_books (create_checked c key draw field k s).1 ≡ stored_books s
  create_checked-books field Check.fresh = create_with-books (load_initial_deposit field)
  create_checked-books field Check.conflict = refl
  create_checked-books field (Check.replay b code) = refl

  pub create_account-books :
      (field : AmountField)
      → stored_books (serve (create_account c key draw field) s).1 ≡ stored_books s
  unfolding create_account
  create_account-books field =
      serve-books (create_account c key draw field) s
      ∙ create_checked-books field (check_idempotency key Endpoint.create_account s)
