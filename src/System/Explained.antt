-- ===== src/System/Explained.antt =====
-- app/services/auth_service.py, `register_user`: the books under a registration, whose deposit the ledger
-- does not have, and under any sequence of requests.
use bank_flow_digital_bankin.Base.{
  ℕ, String, Option, none, some, List, [], ◌∷◌, ◌≡◌, refl, ap, ◌∙◌, Option-cases, inl, inr, Bool,
  true, false, all, arith, ◌&&◌, not,
}
use bank_flow_digital_bankin.Base.Int.{ℤ, ◌+ℤ◌, ◌-ℤ◌, int_laws}
use bank_flow_digital_bankin.Base.Decimal.{Decimal, to_column}
use bank_flow_digital_bankin.Models.{User, UserRole, AuditLog, customer}
use bank_flow_digital_bankin.Database.{Db, Session, violation, commit, flush, find_email}
use bank_flow_digital_bankin.Audit.{
  AuditEvent, add_log, audit_entry, record_audit_event, context_fits, audit_entry-fits,
}
use bank_flow_digital_bankin.Http.{serve}
use bank_flow_digital_bankin.Invariant.{IsValid}
use bank_flow_digital_bankin.Reconcile.{total_balances, total_credits, total_debits}
use bank_flow_digital_bankin.Reconcile.Sums.{total-append}
use bank_flow_digital_bankin.Reconcile.Healthy.{violation-add_log}
use bank_flow_digital_bankin.Accounts.Numbers.{generate_account_number, max_acct_retries}
use bank_flow_digital_bankin.Auth.{
  Libraries, registered_event, provision, register_new, register_user,
}
use bank_flow_digital_bankin.Auth.Clean.{strip, lower}
use bank_flow_digital_bankin.Auth.Routes.{
  Registration, RegisterPayload, load_registration, register_loaded, register,
}
use bank_flow_digital_bankin.System.Registers.{u, added, a, opened}
use bank_flow_digital_bankin.System.Openings.{balances-append}
use bank_flow_digital_bankin.System.Drift.{
  drift, drift-beside, recorded_deposit, registered_deposits, serve-books,
}
use bank_flow_digital_bankin.System.Keeps.{arrive-IsValid, handle-IsValid}
use bank_flow_digital_bankin.System.Balance.{handle-books, sends_half_cent}
use bank_flow_digital_bankin.System.{World, Request, Arrival, arrive, handle, dispatch, run}

-- What the balances are above the ledger and the deposits of the registrations.
abbrev pub unexplained : Db → ℤ
unexplained d = drift d -ℤ registered_deposits d.audit_logs

abbrev balance_of_books : ℤ × ℤ → ℤ
balance_of_books b = b.0 -ℤ b.1

-- One more deposit on both sides.
deposit_explained : (x y deposit z w : ℤ) → z ≡ x +ℤ deposit → w ≡ y +ℤ deposit → z -ℤ w ≡ x -ℤ y
deposit_explained x y deposit z w h k = grind (int_laws, h, k)

module _ (lib : Libraries) (s : Session) (v : IsValid s) (f : context_fits s.context ≡ true) where
  module _ (full_name email password : String) (deposit : Decimal) (role : UserRole) where
    opened-drift :
        (number : String)
        → drift (opened lib s v full_name email password deposit role number).working
          ≡ drift s.working +ℤ to_column deposit
    unfolding drift total_credits total_debits total_balances
    opened-drift number =
        rw (balances-append s.working (a lib s v full_name email password deposit role number))
          (omega int_laws)

    -- The session at the second commit.
    abbrev event : String → AuditEvent
    event number =
        registered_event (u lib s v full_name email password deposit role)
          (a lib s v full_name email password deposit role number) deposit

    abbrev entry : String → AuditLog
    entry number =
        audit_entry (event number) (opened lib s v full_name email password deposit role number)

    abbrev recorded : String → Session
    recorded number =
        add_log (entry number) (opened lib s v full_name email password deposit role number)

    recorded-explained :
        (number : String) → unexplained (recorded number).working ≡ unexplained s.working
    unfolding add_log
    recorded-explained number =
        deposit_explained (drift s.working) (registered_deposits s.working.audit_logs)
          (to_column deposit) _ _
          (drift-beside (opened lib s v full_name email password deposit role number).working
              (recorded number).working refl refl
            ∙ opened-drift number)
          (total-append recorded_deposit s.working.audit_logs _)

    provision-explained :
        (o : Option (String × ℕ))
        → unexplained
            (provision lib
              (u lib s v full_name email password deposit role)
              deposit
              o
              (added lib s v full_name email password deposit role)).1.committed
          ≡ unexplained s.committed
    unfolding record_audit_event add_log
    provision-explained none = refl
    provision-explained (some (number, i)) =
        let t = opened lib s v full_name email password deposit role number in
        elim (Option-cases (violation t.working)) [
          | inr (f, q) ↦ rw (q, commit) refl
          | inl q ↦
              rw
                (
                  q,
                  commit,
                  violation-add_log t.working (entry number) q
                      (audit_entry-fits (event number) t f),
                )
                (recorded-explained number ∙ ap unexplained v.clean)
        ]

    register_new-explained :
        (draw : ℕ → String) (o : Option User)
        → unexplained (register_new lib draw full_name email password deposit role o s).1.committed
          ≡ unexplained s.committed
    register_new-explained draw (some x) = refl
    register_new-explained draw none =
        elim (Option-cases
          (violation (added lib s v full_name email password deposit role).working)) [
            | inr (f, q) ↦ rw (q, flush) refl
            | inl q ↦
                rw (q, flush)
                  (provision-explained
                    (generate_account_number draw max_acct_retries 0 s.working.accounts))
          ]

  register_loaded-explained :
      (draw : ℕ → String) (o : Option Registration)
      → unexplained (register_loaded lib draw o s).1.committed ≡ unexplained s.committed
  unfolding register_user
  register_loaded-explained draw none = refl
  register_loaded-explained draw (some r) =
      let email = lower (strip r.email) in
      register_new-explained r.full_name email r.password r.initial_deposit customer draw
        (find_email email s.working.users)

  register-explained :
      (draw : ℕ → String) (p : RegisterPayload)
      → unexplained (serve (register lib draw p) s).1.committed ≡ unexplained s.committed
  unfolding register
  register-explained draw p =
      ap balance_of_books (serve-books (register lib draw p) s)
      ∙ register_loaded-explained draw (load_registration lib p)

-- A request whose address and id fit the audit trail, and that is no transfer of an amount that ends in
-- exactly half a cent.
abbrev pub is_accountable : Arrival → Bool
is_accountable q = context_fits q.context && not (sends_half_cent q.request)

module _ (w : World) where
  handle-explained :
      (q : Request) (s : Session)
      → IsValid s
      → context_fits s.context ≡ true
      → sends_half_cent q ≡ false
      → unexplained (handle w q s).1.committed ≡ unexplained s.committed
  unfolding handle dispatch
  handle-explained (Request.register draw p) s v f even =
      register-explained w.libraries s v f draw p
  handle-explained q s v f even = ap balance_of_books (handle-books w q s v refl even)

  -- Any sequence of requests whose addresses and ids fit the columns of the audit trail, with no
  -- transfer of an amount that ends in exactly half a cent, run from a valid session, changes the
  -- sum of all stored balances less the ledger's credits plus its debits by exactly what it adds
  -- to the deposits that the audit trail records for registrations, rounded to cents.
  pub run-explained :
      (qs : List Arrival) (s : Session)
      → IsValid s
      → all is_accountable qs ≡ true
      → let before = s.committed in
        let after = (run w qs s).1.committed in
        drift after -ℤ registered_deposits after.audit_logs
        ≡ drift before -ℤ registered_deposits before.audit_logs
  unfolding run
  run-explained [] s v f = refl
  run-explained (q ∷ qs) s v f =
      run-explained qs (handle w q.request (arrive q s)).1
        (handle-IsValid w q.request (arrive q s) (arrive-IsValid q v)) (ground (arith, f))
      ∙ handle-explained q.request (arrive q s) (arrive-IsValid q v) (ground (arith, f))
          (ground (arith, f))
