-- ===== src/System/Balance.antt =====
-- app/routes: the books under the other requests and under a sequence.
use bank_flow_digital_bankin.Base.{
  ◌&&◌, ℕ, String, Option, none, some, Bool, true, false, Bool-cases, inl, inr, List, [], ◌∷◌, ◌≡◌,
  refl, arith, ◌∙◌, ap, str_eq, all, not,
}
use bank_flow_digital_bankin.Base.Int.{ℤ, int_laws}
use bank_flow_digital_bankin.Models.{
  Account, AccountStatus, User, LoginFailure, is_admin, user_not_found, invalid_password,
}
use bank_flow_digital_bankin.Database.{
  Session, Action, Result, ok, err, Error, pure, commit, find_email, get_user, modify_account,
  ◌>>=◌,
}
use bank_flow_digital_bankin.Database
use bank_flow_digital_bankin.Audit.{add_log, audit_entry, record_audit_event}
use bank_flow_digital_bankin.Http.{Caller, serve}
use bank_flow_digital_bankin.Invariant.{IsValid}
use bank_flow_digital_bankin.Reconcile.{total_balances, total_credits, total_debits}
use bank_flow_digital_bankin.Reconcile.Sums.{sum-map, total-modify}
use bank_flow_digital_bankin.Accounts.Admin.{
  set_account_status, status_event, status_of_found, update_account_status,
}
use bank_flow_digital_bankin.Accounts.Admin.Status.{write_status-commit, pending_change, changed_db}
use bank_flow_digital_bankin.Accounts.Views.{list_accounts, get_account}
use bank_flow_digital_bankin.Auth.{Libraries, authenticate_user, log_in, failed_login}
use bank_flow_digital_bankin.Auth.Clean.{strip, lower}
use bank_flow_digital_bankin.Auth.Routes.{login, login_loaded, answer_login, me}
use bank_flow_digital_bankin.Branding.{
  branding_event, write_branding, branding_given, branding_loaded, update_branding, get_branding,
}
use bank_flow_digital_bankin.Branding.Payload.{
  Environment, BrandingPayload, BrandingPatch, changed_fields, load_branding_patch,
}
use bank_flow_digital_bankin.Branding.Update.{logged, changed, old_row, write_branding-eq}
use bank_flow_digital_bankin.System.Drift.{
  drift, books, other_entry, stored_books, commit-books, commit_beside-books, bind_last-books,
  serve-books,
}
use bank_flow_digital_bankin.System.Money.{
  field_is_half_cent, create_transfer-books, deposit_funds-books,
}
use bank_flow_digital_bankin.System.Openings.{create_account-books}
use bank_flow_digital_bankin.System.Keeps.{arrive-IsValid, handle-IsValid}
use bank_flow_digital_bankin.System.{World, Request, Arrival, arrive, dispatch, handle, run}
use bank_flow_digital_bankin.System.Steady.{
  update_user_kyc_status-books, get_user_kyc_status-books, update_user_role-books,
  run_reconciliation-books, get_my_profile-books, update_my_profile-books,
}

module _ (lib : Libraries) (s : Session) (v : IsValid s) where
  failed_login-books :
      (actor : Option ℕ) (email : String) (reason : LoginFailure)
      → stored_books (failed_login lib actor email reason s).1 ≡ stored_books s
  unfolding record_audit_event add_log
  failed_login-books actor email reason =
      bind_last-books _ _ (λ _ u. refl) commit _
        (commit_beside-books s _ v refl refl refl (other_entry s.working.audit_logs _ refl))

  log_in-books :
      (email password : String) (o : Option User)
      → stored_books (log_in lib email password o s).1 ≡ stored_books s
  unfolding record_audit_event add_log
  log_in-books email password none = failed_login-books none email user_not_found
  log_in-books email password (some u) =
      elim (Bool-cases (lib.check_password_hash u.password_hash password)) [
        | inl y ↦ rw y (
            bind_last-books _ _ (λ _ u. refl) commit _
              (commit_beside-books s _ v refl refl refl (other_entry s.working.audit_logs _ refl)))
        | inr n ↦ rw n (failed_login-books (some u.user_id) email invalid_password)
      ]

  answer_login-books :
      (email : String) (r : Result (User × String)) (t : Session)
      → stored_books (answer_login lib email r t).1 ≡ stored_books t
  answer_login-books email (ok (u, token)) t = refl
  answer_login-books email (err Error.authentication) t = elim (Bool-cases (str_eq email "")) [
    | inl y ↦ rw y refl
    | inr n ↦ rw n refl
  ]
  answer_login-books email (err e) t = refl

  login_loaded-books :
      (o : Option (String × String)) → stored_books (login_loaded lib o s).1 ≡ stored_books s
  unfolding authenticate_user
  login_loaded-books none = refl
  login_loaded-books (some (email, password)) = elim (Bool-cases (lib.is_email email)) [
    | inr n ↦ rw n refl
    | inl y ↦
        let m = authenticate_user lib email password s in
        rw y (
          answer_login-books email m.0 m.1
          ∙ log_in-books (lower (strip email)) password
              (find_email (lower (strip email)) s.working.users))
  ]

  login-books :
      (o : Option (String × String)) → stored_books (serve (login lib o) s).1 ≡ stored_books s
  unfolding login
  login-books o = serve-books (login_loaded lib o) s ∙ login_loaded-books o

module _ (c : Caller) (s : Session) (v : IsValid s) where
  -- The status of an account is no money.
  changed-drift :
      (k : ℕ) (a : Account) (st : AccountStatus)
      → Database.get_account k s.working.accounts ≡ some a
      → drift (changed_db c k a st s) ≡ drift s.working
  unfolding drift total_balances total_credits total_debits
  changed-drift k a st found = simp (sum-map (λ (a : Account). a.balance)) (
      grind (
        int_laws,
        total-modify (λ (a : Account). a.balance) (λ (a : Account). a.account_id) k
            (set_account_status st) s.working.accounts found,
      ))

  status_of_found-books :
      (k : ℕ) (f : Option AccountStatus) (o : Option Account)
      → Database.get_account k s.working.accounts ≡ o
      → stored_books (status_of_found c k f o s).1 ≡ stored_books s
  status_of_found-books k f none e = refl
  status_of_found-books k none (some a) e = refl
  status_of_found-books k (some st) (some a) e = rw (write_status-commit c k a st s) (
      bind_last-books _ _ (λ _ u. refl) commit (pending_change c k a st s)
        (commit-books (pending_change c k a st s) (
          rw
            (
              changed-drift k a st e,
              other_entry s.working.audit_logs (audit_entry (status_event c k a.status st) s) refl,
            )
            refl
          ∙ ap books v.clean)))

  update_account_status-books :
      (k : ℕ) (f : Option AccountStatus)
      → stored_books (serve (update_account_status c k f) s).1 ≡ stored_books s
  unfolding update_account_status
  update_account_status-books k f = elim (Bool-cases (is_admin c.role)) [
    | inl y ↦ rw y (
        serve-books (status_of_found c k f (Database.get_account k s.working.accounts)) s
        ∙ status_of_found-books k f (Database.get_account k s.working.accounts) refl)
    | inr n ↦ rw n refl
  ]

  module _ (env : Environment) where
    write_branding-books :
        (x : BrandingPatch) → stored_books (write_branding env c x s).1 ≡ stored_books s
    unfolding add_log
    write_branding-books x = rw (write_branding-eq s v c x env) (
        bind_last-books _ _ (λ _ u. refl) commit (logged s v c x)
          (commit_beside-books s (logged s v c x) v refl refl refl (
            other_entry s.working.audit_logs
              (audit_entry (branding_event c x (old_row s)) (changed s v c x)) refl)))

    branding_given-books :
        (x : BrandingPatch) (fields : List String)
        → stored_books (branding_given env c x fields s).1 ≡ stored_books s
    branding_given-books x [] = refl
    branding_given-books x (f ∷ fields) = write_branding-books x

    branding_loaded-books :
        (o : Option BrandingPatch) → stored_books (branding_loaded env c o s).1 ≡ stored_books s
    branding_loaded-books none = refl
    branding_loaded-books (some x) = branding_given-books x (changed_fields x)

    update_branding-books :
        (is_url is_email : String → Bool) (p : BrandingPayload)
        → stored_books (serve (update_branding env is_url is_email c p) s).1 ≡ stored_books s
    unfolding update_branding
    update_branding-books is_url is_email p = elim (Bool-cases (is_admin c.role)) [
      | inl y ↦ rw y (
          serve-books (branding_loaded env c (load_branding_patch is_url is_email p)) s
          ∙ branding_loaded-books (load_branding_patch is_url is_email p))
      | inr n ↦ rw n refl
    ]

abbrev pub registers : Request → Bool
registers (Request.register draw p) = true
registers _ = false

-- A transfer of an amount that ends in exactly half a cent.
abbrev pub sends_half_cent : Request → Bool
sends_half_cent (Request.create_transfer c p) = field_is_half_cent p.amount
sends_half_cent _ = false

-- A request that is neither a registration nor such a transfer.
abbrev pub settles : Arrival → Bool
settles q = not (registers q.request) && not (sends_half_cent q.request)

module _ (w : World) where
  pub handle-books :
      (q : Request) (s : Session)
      → IsValid s
      → registers q ≡ false
      → sends_half_cent q ≡ false
      → stored_books (handle w q s).1 ≡ stored_books s
  unfolding handle dispatch me list_accounts get_account get_branding
  handle-books (Request.register draw p) s v n even = absurd (ground (arith, n))
  handle-books (Request.login p) s v n even = login-books w.libraries s v p
  handle-books (Request.me c) s v n even = refl
  handle-books (Request.list_accounts c) s v n even = refl
  handle-books (Request.get_account c k) s v n even = refl
  handle-books (Request.create_account c key draw f) s v n even =
      create_account-books c key draw s v f
  handle-books (Request.deposit_funds c key k f) s v n even = deposit_funds-books c key k s v f
  handle-books (Request.update_account_status c k f) s v n even =
      update_account_status-books c s v k f
  handle-books (Request.update_user_role c k f) s v n even = update_user_role-books c s v k f
  handle-books (Request.run_reconciliation c) s v n even = run_reconciliation-books c s v
  handle-books (Request.create_transfer c p) s v n even = create_transfer-books c s v p even
  handle-books (Request.get_my_profile c) s v n even = get_my_profile-books c s v
  handle-books (Request.update_my_profile c today p) s v n even =
      update_my_profile-books c s v today p
  handle-books (Request.get_user_kyc_status c k) s v n even = get_user_kyc_status-books c s v k
  handle-books (Request.update_user_kyc_status c k f) s v n even =
      update_user_kyc_status-books c s v k f
  handle-books Request.get_branding s v n even = refl
  handle-books (Request.update_branding c p) s v n even =
      update_branding-books c s v w.environment w.is_url w.libraries.is_email p

  -- Any sequence of requests without a registration and without a transfer of an amount that ends
  -- in exactly half a cent, run from a valid session, leaves the sum of all stored balances less
  -- the ledger's credits plus its debits exactly as it was.
  pub run-drift :
      (qs : List Arrival) (s : Session)
      → IsValid s
      → all settles qs ≡ true
      → drift (run w qs s).1.committed ≡ drift s.committed
  unfolding run
  run-drift [] s v n = refl
  run-drift (q ∷ qs) s v n =
      run-drift qs (handle w q.request (arrive q s)).1
        (handle-IsValid w q.request (arrive q s) (arrive-IsValid q v)) (ground (arith, n))
      ∙ ap (λ (b : ℤ × ℤ). b.0)
          (handle-books q.request (arrive q s) (arrive-IsValid q v) (ground (arith, n))
            (ground (arith, n)))
