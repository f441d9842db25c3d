-- ===== src/System/Drift.antt =====
-- app/services/reconciliation_service.py adds up the balances and the ledger, and the audit trail records
-- the deposits of registrations. Their difference and these deposits under a commit and a chain of calls.
use bank_flow_digital_bankin.Base.{
  ℕ, String, Option, some, List, [], ◌∷◌, ◌++◌, ◌≡◌, refl, sym, ap, ◌∙◌, Option-cases, inl, inr,
}
use bank_flow_digital_bankin.Base.Int.{ℤ, pos, ◌+ℤ◌, ◌-ℤ◌, int_laws}
use bank_flow_digital_bankin.Base.Decimal.{to_column}
use bank_flow_digital_bankin.Models.{Endpoint, StoredBody, AuditLog, Details}
use bank_flow_digital_bankin.Database.{
  Db, Session, Action, Result, ok, err, Error, violation, commit, after_result, ◌>>=◌,
}
use bank_flow_digital_bankin.Http.{Response, serve, finish}
use bank_flow_digital_bankin.Invariant.{IsValid}
use bank_flow_digital_bankin.Invariant.Ends.{Ends}
use bank_flow_digital_bankin.Reconcile.{total_balances, total_credits, total_debits}
use bank_flow_digital_bankin.Reconcile.Sums.{total, total-append}
use bank_flow_digital_bankin.Transfer.{truthy}
use bank_flow_digital_bankin.Accounts.Idempotency.{add_record, forgive_duplicate, store_idempotency}

-- What the balances are above the ledger's credits less its debits.
unfoldable pub drift : Db → ℤ
drift d = total_balances d -ℤ total_credits d +ℤ total_debits d

-- The deposit that an entry of the audit trail records for a registration.
abbrev pub registered_deposit : Option Details → ℤ
registered_deposit (some (Details.registered email role deposit)) = to_column deposit
registered_deposit _ = pos 0

abbrev pub recorded_deposit : AuditLog → ℤ
recorded_deposit l = registered_deposit l.details_json

abbrev pub registered_deposits : List AuditLog → ℤ
registered_deposits = total recorded_deposit

-- An entry of another kind.
pub other_entry :
    (ls : List AuditLog) (l : AuditLog)
    → recorded_deposit l ≡ pos 0
    → registered_deposits (ls ++ l ∷ []) ≡ registered_deposits ls
other_entry ls l h = rw (total-append recorded_deposit ls l, h) (omega int_laws)

abbrev pub books : Db → ℤ × ℤ
books d = (drift d, registered_deposits d.audit_logs)

pub drift-beside :
    (d e : Db) → e.accounts ≡ d.accounts → e.ledger_entries ≡ d.ledger_entries → drift e ≡ drift d
unfolding drift total_balances total_credits total_debits
drift-beside d e ea el = rw (ea, el) refl

pub books-beside :
    (d e : Db)
    → e.accounts ≡ d.accounts
    → e.ledger_entries ≡ d.ledger_entries
    → registered_deposits e.audit_logs ≡ registered_deposits d.audit_logs
    → books e ≡ books d
books-beside d e ea el er = rw (drift-beside d e ea el, er) refl

-- The books of what is stored.
abbrev pub stored_books : Session → ℤ × ℤ
stored_books s = books s.committed

pub commit-books :
    (t : Session) → books t.working ≡ books t.committed → stored_books (commit t).1 ≡ stored_books t
commit-books t h = elim (Option-cases (violation t.working)) [
  | inl e ↦ rw (e, commit) h
  | inr (v, e) ↦ rw (e, commit) refl
]

pub commit_beside-books :
    (s t : Session)
    → IsValid s
    → t.committed ≡ s.committed
    → t.working.accounts ≡ s.working.accounts
    → t.working.ledger_entries ≡ s.working.ledger_entries
    → registered_deposits t.working.audit_logs ≡ registered_deposits s.working.audit_logs
    → stored_books (commit t).1 ≡ stored_books s
commit_beside-books s t v ec ea el er =
    commit-books t (books-beside s.working t.working ea el er ∙ ap books (v.clean ∙ sym ec))
    ∙ ap books ec

module _ {A B : Type 0} where
  pub bind-books :
      (f : A → Action B) (z : ℤ × ℤ)
      → ((a : A) (t : Session) → IsValid t → stored_books (f a t).1 ≡ stored_books t)
      → (m : Action A) (s : Session) → Ends (m s)
      → stored_books (m s).1 ≡ z
      → stored_books ((m >>= f) s).1 ≡ z
  bind-books f z goes_on m s h e = go (m s).0 (m s).1 h e
    where
      go :
          (r : Result A) (t : Session)
          → Ends {A = A} (r, t)
          → stored_books t ≡ z
          → stored_books (after_result r f t).1 ≡ z
      go (ok a) t h e = goes_on a t h ∙ e
      go (err x) t h e = e

  -- The rest of a chain that stores nothing.
  pub bind_last-books :
      (f : A → Action B) (z : ℤ × ℤ)
      → ((a : A) (t : Session) → stored_books (f a t).1 ≡ stored_books t)
      → (m : Action A) (s : Session) → stored_books (m s).1 ≡ z
      → stored_books ((m >>= f) s).1 ≡ z
  bind_last-books f z goes_on m s e = go (m s).0 (m s).1 e
    where
      go :
          (r : Result A) (t : Session)
          → stored_books t ≡ z
          → stored_books (after_result r f t).1 ≡ z
      go (ok a) t e = goes_on a t ∙ e
      go (err x) t e = e

-- The end of a request stores nothing.
pub serve-books :
    (m : Action Response) (s : Session) → stored_books (serve m s).1 ≡ stored_books (m s).1
serve-books m s = go (m s).0 (m s).1
  where
    go : (r : Result Response) (t : Session) → stored_books (finish r t).1 ≡ stored_books t
    go (ok r) t = refl
    go (err e) t = refl

module _ (key : Option String) (e : Endpoint) (b : StoredBody) (code : ℕ) (s : Session)
    (v : IsValid s) where
  forgive-books :
      (r : Result (Unit {0})) (t : Session)
      → stored_books (forgive_duplicate r t).1 ≡ stored_books t
  forgive-books (err Error.integrity_error) t = refl
  forgive-books r t = refl

  pub store_idempotency-books : stored_books (store_idempotency key e b code s).1 ≡ stored_books s
  unfolding store_idempotency
  store_idempotency-books = elim (Option-cases (truthy key)) [
    | inl q ↦ rw (q, store_idempotency) refl
    | inr (k, q) ↦
        rw (q, store_idempotency)
          (let m = commit (add_record k e b code s) in
            forgive-books m.0 m.1
            ∙ commit_beside-books s (add_record k e b code s) v refl refl refl refl)
  ]
