-- ===== src/System/Keeps.antt =====
-- app/routes: the invariant under one request to the system and under a sequence of them.
use bank_flow_digital_bankin.Base.{
  ℕ, String, Option, none, some, Bool, Bool-cases, inl, inr, List, [], ◌∷◌, ◌≡◌, refl, arith,
}
use bank_flow_digital_bankin.Models.{Account, AccountStatus, is_admin}
use bank_flow_digital_bankin.Database.{Session, Action, ok, commit, ◌>>=◌}
use bank_flow_digital_bankin.Database
use bank_flow_digital_bankin.Audit.{add_log}
use bank_flow_digital_bankin.Http.{Caller, serve}
use bank_flow_digital_bankin.Invariant.{IsStored-mono, IsValid, seen}
use bank_flow_digital_bankin.Invariant.Ends.{
  Ends, bind-Ends, commit-Ends, commit_beside-Ends, serve-IsValid,
}
use bank_flow_digital_bankin.Accounts.Admin.{status_of_found, update_account_status}
use bank_flow_digital_bankin.Accounts.Admin.Status.{
  write_status-commit, pending_change, changed-IsStored,
}
use bank_flow_digital_bankin.Accounts.Deposit.Keeps.{deposit_funds-IsValid}
use bank_flow_digital_bankin.Accounts.Create.Keeps.{create_account-IsValid}
use bank_flow_digital_bankin.Accounts.Views.{list_accounts, get_account}
use bank_flow_digital_bankin.TransferRoutes.Ownership.{create_transfer-IsValid}
use bank_flow_digital_bankin.Auth.Routes.{me}
use bank_flow_digital_bankin.Profiles.{get_user_kyc_status}
use bank_flow_digital_bankin.Branding.{
  write_branding, branding_given, branding_loaded, update_branding, get_branding,
}
use bank_flow_digital_bankin.Branding.Payload.{
  Environment, BrandingPayload, BrandingPatch, changed_fields, load_branding_patch,
}
use bank_flow_digital_bankin.Branding.Update.{logged, write_branding-eq}
use bank_flow_digital_bankin.System.Beside.{
  update_user_kyc_status-IsValid, update_user_role-IsValid, run_reconciliation-IsValid,
  get_my_profile-IsValid, update_my_profile-IsValid, login-IsValid,
}
use bank_flow_digital_bankin.System.Registers.{register-IsValid}
use bank_flow_digital_bankin.System.{World, Request, Arrival, arrive, dispatch, handle, run}

-- A request that is refused before it writes.
unwritten : {s : Session} → IsValid s → IsValid (record s { working = s.committed })
unwritten v = record { clean = refl; stored = v.stored }

module _ (s : Session) (v : IsValid s) (c : Caller) where
  status_of_found-Ends :
      (k : ℕ) (f : Option AccountStatus) (o : Option Account)
      → Database.get_account k s.working.accounts ≡ o
      → Ends (status_of_found c k f o s)
  status_of_found-Ends k f none e = v
  status_of_found-Ends k none (some a) e = v
  status_of_found-Ends k (some st) (some a) e = rw (write_status-commit c k a st s) (
      bind-Ends _ (λ _ u w. w) commit (pending_change c k a st s)
        (commit-Ends (pending_change c k a st s)
          (IsStored-mono (omega arith) (omega arith) v.stored)
          (λ q.
            IsStored-mono (omega arith) (omega arith) (changed-IsStored c k a st s (seen v) q))))

  update_account_status-IsValid :
      (k : ℕ) (f : Option AccountStatus) → IsValid (serve (update_account_status c k f) s).1
  unfolding update_account_status
  update_account_status-IsValid k f = elim (Bool-cases (is_admin c.role)) [
    | inl y ↦ rw y (
        serve-IsValid (status_of_found c k f (Database.get_account k s.working.accounts)) s
          (status_of_found-Ends k f (Database.get_account k s.working.accounts) refl))
    | inr n ↦ rw n (unwritten v)
  ]

  module _ (env : Environment) where
    write_branding-Ends : (x : BrandingPatch) → Ends (write_branding env c x s)
    unfolding add_log
    write_branding-Ends x = rw (write_branding-eq s v c x env) (
        bind-Ends _ (λ _ u w. w) commit (logged s v c x)
          (commit_beside-Ends s (logged s v c x) v refl (omega arith) (omega arith) refl refl refl
            refl))

    branding_given-Ends :
        (x : BrandingPatch) (fields : List String) → Ends (branding_given env c x fields s)
    branding_given-Ends x [] = v
    branding_given-Ends x (f ∷ fields) = write_branding-Ends x

    branding_loaded-Ends : (o : Option BrandingPatch) → Ends (branding_loaded env c o s)
    branding_loaded-Ends none = v
    branding_loaded-Ends (some x) = branding_given-Ends x (changed_fields x)

    update_branding-IsValid :
        (is_url is_email : String → Bool) (p : BrandingPayload)
        → IsValid (serve (update_branding env is_url is_email c p) s).1
    unfolding update_branding
    update_branding-IsValid is_url is_email p = elim (Bool-cases (is_admin c.role)) [
      | inl y ↦ rw y (
          serve-IsValid (branding_loaded env c (load_branding_patch is_url is_email p)) s
            (branding_loaded-Ends (load_branding_patch is_url is_email p)))
      | inr n ↦ rw n (unwritten v)
    ]

  get_user_kyc_status-IsValid : (k : ℕ) → IsValid (serve (get_user_kyc_status c k) s).1
  unfolding get_user_kyc_status
  get_user_kyc_status-IsValid k = elim (Bool-cases (is_admin c.role)) [
    | inl y ↦ rw y (unwritten v)
    | inr n ↦ rw n (unwritten v)
  ]

-- A new request finds the stored tables as they are.
pub arrive-IsValid : (q : Arrival) {s : Session} → IsValid s → IsValid (arrive q s)
arrive-IsValid q v = record { clean = v.clean; stored = v.stored }

module _ (w : World) where
  pub handle-IsValid : (q : Request) (s : Session) → IsValid s → IsValid (handle w q s).1
  unfolding handle dispatch me list_accounts get_account get_branding
  handle-IsValid (Request.register draw p) s v = register-IsValid w.libraries s v draw p
  handle-IsValid (Request.login p) s v = login-IsValid w.libraries s v p
  handle-IsValid (Request.me c) s v = unwritten v
  handle-IsValid (Request.list_accounts c) s v = unwritten v
  handle-IsValid (Request.get_account c k) s v = unwritten v
  handle-IsValid (Request.create_account c key draw f) s v = create_account-IsValid c key draw f s v
  handle-IsValid (Request.deposit_funds c key k f) s v = deposit_funds-IsValid c key k f s v
  handle-IsValid (Request.update_account_status c k f) s v = update_account_status-IsValid s v c k f
  handle-IsValid (Request.update_user_role c k f) s v = update_user_role-IsValid c s v k f
  handle-IsValid (Request.run_reconciliation c) s v = run_reconciliation-IsValid c s v
  handle-IsValid (Request.create_transfer c p) s v = create_transfer-IsValid c p s v
  handle-IsValid (Request.get_my_profile c) s v = get_my_profile-IsValid c s v
  handle-IsValid (Request.update_my_profile c today p) s v = update_my_profile-IsValid c s v today p
  handle-IsValid (Request.get_user_kyc_status c k) s v = get_user_kyc_status-IsValid s v c k
  handle-IsValid (Request.update_user_kyc_status c k f) s v =
      update_user_kyc_status-IsValid c s v k f
  handle-IsValid Request.get_branding s v = unwritten v
  handle-IsValid (Request.update_branding c p) s v =
      update_branding-IsValid s v c w.environment w.is_url w.libraries.is_email p

  -- Any sequence of requests to the routes, whatever they answer, takes a valid session to a valid
  -- one: the stored tables pass every check of the database, every transaction has its pair of
  -- ledger entries or none, and nothing is pending.
  pub run-IsValid : (qs : List Arrival) (s : Session) → IsValid s → IsValid (run w qs s).1
  unfolding run
  run-IsValid [] s v = v
  run-IsValid (q ∷ qs) s v =
      run-IsValid qs (handle w q.request (arrive q s)).1
        (handle-IsValid q.request (arrive q s) (arrive-IsValid q v))
