-- ===== src/System/Beside.antt =====
-- app/routes: the invariant under requests that write neither transactions, ledger entries nor accounts.
use bank_flow_digital_bankin.Base.{
  ℕ, String, Option, none, some, Bool-cases, inl, inr, ◌≡◌, refl, arith, str_eq,
}
use bank_flow_digital_bankin.Models.{
  User, UserRole, UserProfile, KycStatus, LoginFailure, is_admin, user_not_found, invalid_password,
}
use bank_flow_digital_bankin.Database.{
  Session, Result, ok, err, Error, pure, commit, find_email, get_user,
}
use bank_flow_digital_bankin.Audit.{add_log, record_audit_event}
use bank_flow_digital_bankin.Http.{Caller, Body, respond, serve}
use bank_flow_digital_bankin.Invariant.{IsStored, IsValid}
use bank_flow_digital_bankin.Invariant.Ends.{
  Ends, bind-Ends, commit_beside-Ends, serve-IsValid, serve_stored-IsValid, Ends-IsStored,
}
use bank_flow_digital_bankin.Accounts.Admin.{
  update_user_role, role_of_found, write_role, answer_report, run_reconciliation,
}
use bank_flow_digital_bankin.Reconcile.{reconcile_system_balances}
use bank_flow_digital_bankin.Profiles.{
  find_profile, get_my_profile, update_my_profile, update_loaded, update_user_kyc_status,
  review_loaded, review_found,
}
use bank_flow_digital_bankin.Profiles.Payload.{ProfilePayload, ProfilePatch, load_profile_patch}
use bank_flow_digital_bankin.Profiles.Fits.{load-fits}
use bank_flow_digital_bankin.Profiles.Keeps.{get_my_profile-shown}
use bank_flow_digital_bankin.Profiles.Own.{write_profile-rewritten, rewritten-IsValid}
use bank_flow_digital_bankin.Auth.{Libraries, authenticate_user, log_in, failed_login}
use bank_flow_digital_bankin.Auth.Clean.{strip, lower}
use bank_flow_digital_bankin.Auth.Routes.{login, login_loaded, answer_login}

module _ (c : Caller) (s : Session) (v : IsValid s) where
  review_found-Ends :
      (k : ℕ) (st : KycStatus) (o : Option UserProfile) → Ends (review_found k st o s)
  review_found-Ends k st none = v
  review_found-Ends k st (some p) =
      bind-Ends _ (λ _ u w. w) commit _
        (commit_beside-Ends s _ v refl (omega arith) (omega arith) refl refl refl refl)

  review_loaded-Ends : (k : ℕ) (o : Option KycStatus) → Ends (review_loaded k o s)
  review_loaded-Ends k none = v
  review_loaded-Ends k (some st) = review_found-Ends k st (find_profile k s.working.user_profiles)

  pub update_user_kyc_status-IsValid :
      (k : ℕ) (o : Option KycStatus) → IsValid (serve (update_user_kyc_status c k o) s).1
  unfolding update_user_kyc_status
  update_user_kyc_status-IsValid k o = elim (Bool-cases (is_admin c.role)) [
    | inl y ↦ rw y (serve-IsValid (review_loaded k o) s (review_loaded-Ends k o))
    | inr n ↦ rw n (record { clean = refl; stored = v.stored })
  ]

  role_of_found-Ends :
      (k : ℕ) (field : Option UserRole) (o : Option User) → Ends (role_of_found c k field o s)
  unfolding write_role record_audit_event add_log
  role_of_found-Ends k field none = v
  role_of_found-Ends k none (some u) = v
  role_of_found-Ends k (some role) (some u) =
      bind-Ends _ (λ _ u w. w) commit _
        (commit_beside-Ends s _ v refl (omega arith) (omega arith) refl refl refl refl)

  pub update_user_role-IsValid :
      (k : ℕ) (o : Option UserRole) → IsValid (serve (update_user_role c k o) s).1
  unfolding update_user_role
  update_user_role-IsValid k o = elim (Bool-cases (is_admin c.role)) [
    | inl y ↦ rw y (
        serve-IsValid (role_of_found c k o (get_user k s.working.users)) s
          (role_of_found-Ends k o (get_user k s.working.users)))
    | inr n ↦ rw n (record { clean = refl; stored = v.stored })
  ]

  reconcile-Ends : Ends (reconcile_system_balances s)
  unfolding reconcile_system_balances record_audit_event add_log
  reconcile-Ends =
      bind-Ends _ (λ _ u w. w) commit _
        (commit_beside-Ends s _ v refl (omega arith) (omega arith) refl refl refl refl)

  pub run_reconciliation-IsValid : IsValid (serve (run_reconciliation c) s).1
  unfolding run_reconciliation
  run_reconciliation-IsValid = elim (Bool-cases (is_admin c.role)) [
    | inl y ↦ rw y (
        serve-IsValid (answer_report reconcile_system_balances) s (
          bind-Ends (λ x. pure (respond 200 (Body.reconciliation x))) (λ _ u w. w)
            reconcile_system_balances s reconcile-Ends))
    | inr n ↦ rw n (record { clean = refl; stored = v.stored })
  ]

  pub get_my_profile-IsValid : IsValid (serve (get_my_profile c) s).1
  get_my_profile-IsValid = let (e, w) = get_my_profile-shown c s v in rw e w

  loaded-IsValid :
      (today : ℕ) (payload : ProfilePayload) (o : Option ProfilePatch)
      → load_profile_patch today payload ≡ o
      → IsValid (serve (update_loaded c o) s).1
  loaded-IsValid today payload none h = record { clean = refl; stored = v.stored }
  loaded-IsValid today payload (some x) h =
      let fits = load-fits today payload {x = x} h in
      rw (write_profile-rewritten c x s v fits) (rewritten-IsValid c x s v fits)

  pub update_my_profile-IsValid :
      (today : ℕ) (payload : ProfilePayload)
      → IsValid (serve (update_my_profile c today payload) s).1
  unfolding update_my_profile
  update_my_profile-IsValid today payload =
      loaded-IsValid today payload (load_profile_patch today payload) refl

module _ (lib : Libraries) (s : Session) (v : IsValid s) where
  failed_login-Ends :
      (actor : Option ℕ) (email : String) (reason : LoginFailure)
      → Ends (failed_login lib actor email reason s)
  unfolding record_audit_event add_log
  failed_login-Ends actor email reason =
      bind-Ends _ (λ _ u w. w.stored) commit _
        (commit_beside-Ends s _ v refl (omega arith) (omega arith) refl refl refl refl)

  log_in-Ends : (email password : String) (o : Option User) → Ends (log_in lib email password o s)
  unfolding record_audit_event add_log
  log_in-Ends email password none = failed_login-Ends none email user_not_found
  log_in-Ends email password (some u) =
      elim (Bool-cases (lib.check_password_hash u.password_hash password)) [
        | inl y ↦ rw y (
            bind-Ends _ (λ _ u w. w) commit _
              (commit_beside-Ends s _ v refl (omega arith) (omega arith) refl refl refl refl))
        | inr n ↦ rw n (failed_login-Ends (some u.user_id) email invalid_password)
      ]

  -- The notification of a refused login is no row.
  answer_login-IsStored :
      (email : String) (r : Result (User × String)) (t : Session)
      → IsStored t.ids t.committed
      → IsStored (answer_login lib email r t).1.ids (answer_login lib email r t).1.committed
  answer_login-IsStored email (ok (u, token)) t h = h
  answer_login-IsStored email (err Error.authentication) t h = elim (Bool-cases (str_eq email "")) [
    | inl y ↦ rw y h
    | inr n ↦ rw n h
  ]
  answer_login-IsStored email (err e) t h = h

  login_loaded-IsStored :
      (o : Option (String × String))
      → IsStored (login_loaded lib o s).1.ids (login_loaded lib o s).1.committed
  unfolding authenticate_user
  login_loaded-IsStored none = v.stored
  login_loaded-IsStored (some (email, password)) = elim (Bool-cases (lib.is_email email)) [
    | inr n ↦ rw n v.stored
    | inl y ↦
        let m = authenticate_user lib email password s in
        rw y (
          answer_login-IsStored email m.0 m.1 (
            Ends-IsStored m.0 m.1 (
              log_in-Ends (lower (strip email)) password
                (find_email (lower (strip email)) s.working.users))))
  ]

  pub login-IsValid : (o : Option (String × String)) → IsValid (serve (login lib o) s).1
  unfolding login
  login-IsValid o = serve_stored-IsValid (login_loaded lib o) s (login_loaded-IsStored o)
