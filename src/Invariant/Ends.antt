-- ===== src/Invariant/Ends.antt =====
-- How code of a route may end: in a valid session, or with an exception and valid stored tables. The end
-- of the request (app/__init__.py, Flask-SQLAlchemy) turns either into a valid session.
use bank_flow_digital_bankin.Base.{◌≤◌, sym, none, ◌≡◌, refl, Option-cases, inl, inr}
use bank_flow_digital_bankin.Database.{
  Session, Action, Result, ok, err, violation, commit, after_result, ◌>>=◌,
}
use bank_flow_digital_bankin.Http.{Response, serve, finish}
use bank_flow_digital_bankin.Invariant.{IsStored, IsStored-mono, IsStored-beside, IsValid, seen}
use mathlib.Core.Path.{subst}

abbrev pub Ends : {A : Type 0} → Result A × Session → Type 0
Ends (ok a, s) = IsValid s
Ends (err e, s) = IsStored s.ids s.committed

module _ {A B : Type 0} (f : A → Action B)
    (goes_on : (a : A) (s : Session) → IsValid s → Ends (f a s)) where
  pub bind-Ends : (m : Action A) (s : Session) → Ends (m s) → Ends ((m >>= f) s)
  bind-Ends m s h = go (m s).0 (m s).1 h
    where
      go : (r : Result A) (s' : Session) → Ends {A = A} (r, s') → Ends {A = B} (after_result r f s')
      go (ok a) s' h = goes_on a s' h
      go (err e) s' h = h

pub commit-Ends :
    (s : Session)
    → IsStored s.ids s.committed
    → (violation s.working ≡ none → IsStored s.ids s.working)
    → Ends (commit s)
commit-Ends s old new = elim (Option-cases (violation s.working)) [
  | inl e ↦ rw (e, commit) (record { clean = refl; stored = new e })
  | inr (v, e) ↦ rw (e, commit) old
]

-- A commit of writes beside the transactions, the ledger, the accounts and the stored responses.
pub commit_beside-Ends :
    (s t : Session)
    → IsValid s
    → t.committed ≡ s.committed
    → s.ids.transaction ≤ t.ids.transaction
    → s.ids.account ≤ t.ids.account
    → t.working.transactions ≡ s.working.transactions
    → t.working.ledger_entries ≡ s.working.ledger_entries
    → t.working.accounts ≡ s.working.accounts
    → t.working.idempotency_records ≡ s.working.idempotency_records
    → Ends (commit t)
commit_beside-Ends s t v ec nt na et el ea er =
    commit-Ends t (subst (IsStored t.ids) (sym ec) (IsStored-mono nt na v.stored))
      (λ q. IsStored-beside nt na (seen v) q et el ea er)

finish-IsValid :
    (r : Result Response) (s : Session) → Ends {A = Response} (r, s) → IsValid (finish r s).1
finish-IsValid (ok r) s h = record { clean = refl; stored = h.stored }
finish-IsValid (err e) s h = record { clean = refl; stored = h }

pub serve-IsValid : (m : Action Response) (s : Session) → Ends (m s) → IsValid (serve m s).1
serve-IsValid m s h = finish-IsValid (m s).0 (m s).1 h

-- However code ends, what is stored is valid.
pub Ends-IsStored :
    {A : Type 0} (r : Result A) (s : Session) → Ends {A = A} (r, s) → IsStored s.ids s.committed
Ends-IsStored (ok a) s h = h.stored
Ends-IsStored (err e) s h = h

-- A handler that turns an exception into a response of its own.
pub serve_stored-IsValid :
    (m : Action Response) (s : Session)
    → IsStored (m s).1.ids (m s).1.committed
    → IsValid (serve m s).1
serve_stored-IsValid m s h = go (m s).0 (m s).1 h
  where
    go : (r : Result Response) (t : Session) → IsStored t.ids t.committed → IsValid (finish r t).1
    go (ok r) t h = record { clean = refl; stored = h }
    go (err e) t h = record { clean = refl; stored = h }
