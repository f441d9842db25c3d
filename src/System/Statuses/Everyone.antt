-- ===== src/System/Statuses/Everyone.antt =====
-- app/routes: the status of the answer to the other requests, and to a sequence of requests.
use bank_flow_digital_bankin.Base.{
  ℕ, String, Option, none, some, true, Bool-cases, inl, inr, List, [], ◌∷◌, ◌≡◌, refl, arith, all,
  if◌then◌else◌,
}
use bank_flow_digital_bankin.Models.{
  Account, AccountStatus, User, UserRole, UserProfile, KycStatus, is_admin,
}
use bank_flow_digital_bankin.Database.{
  Session, Action, Result, ok, err, Error, pure, gets, modify_session, commit, get_user, ◌>>=◌,
  ◌>>◌,
}
use bank_flow_digital_bankin.Database
use bank_flow_digital_bankin.Audit.{add_log, record_audit_event}
use bank_flow_digital_bankin.Http.{
  Caller, Body, Response, respond, refuse, admin_required, is_foreign,
}
use bank_flow_digital_bankin.Invariant.{IsValid}
use bank_flow_digital_bankin.Reconcile.{reconcile_system_balances}
use bank_flow_digital_bankin.Accounts.Admin.{
  write_status, write_role, status_of_found, update_account_status, role_of_found, update_user_role,
  answer_report, run_reconciliation,
}
use bank_flow_digital_bankin.Accounts.Views.{list_accounts, show_account, get_account}
use bank_flow_digital_bankin.Auth.{Libraries, authenticate_user}
use bank_flow_digital_bankin.Auth.Routes.{
  Registration, RegisterPayload, load_registration, answer_registration, register_loaded, register,
  answer_login, login_loaded, login, show_user, me,
}
use bank_flow_digital_bankin.Profiles.{
  find_profile, get_my_profile, write_profile, update_my_profile, update_loaded, show_profile,
  get_user_kyc_status, update_user_kyc_status, review_loaded, review_found, get_or_create_profile,
}
use bank_flow_digital_bankin.Profiles.Payload.{ProfilePatch, load_profile_patch}
use bank_flow_digital_bankin.Branding.{
  get_or_create_singleton, write_branding, branding_given, branding_loaded, update_branding,
  get_branding,
}
use bank_flow_digital_bankin.Branding.Payload.{
  Environment, BrandingPatch, changed_fields, load_branding_patch,
}
use bank_flow_digital_bankin.System.{World, Request, Arrival, arrive, dispatch, handle, run}
use bank_flow_digital_bankin.System.Keeps.{arrive-IsValid, handle-IsValid}
use bank_flow_digital_bankin.System.Statuses.{
  has_its_status, Answered, Answering, bind-Answering, serve-status,
}
use bank_flow_digital_bankin.System.Statuses.Served.{
  create_account-Answered, deposit_funds-Answered, create_transfer-Answered,
}

module _ (lib : Libraries) where
  answer_registration-status :
      (r : Result (User × Account × String)) → has_its_status (answer_registration lib r) ≡ true
  answer_registration-status (ok (u, a, t)) = refl
  answer_registration-status (err Error.validation) = refl
  answer_registration-status (err e) = refl

  register_loaded-Answered :
      (draw : ℕ → String) (o : Option Registration) (s : Session)
      → Answered (register_loaded lib draw o s)
  register_loaded-Answered draw none s = refl
  register_loaded-Answered draw (some r) s = answer_registration-status _

  register-Answered :
      (draw : ℕ → String) (p : RegisterPayload) (s : Session) → Answered (register lib draw p s)
  unfolding register
  register-Answered draw p s = register_loaded-Answered draw (load_registration lib p) s

  answer_login-Answered :
      (email : String) (r : Result (User × String)) (s : Session)
      → Answered (answer_login lib email r s)
  answer_login-Answered email (ok (u, t)) s = refl
  answer_login-Answered email (err Error.authentication) s = refl
  answer_login-Answered email (err e) s = refl

  login_loaded-Answered :
      (o : Option (String × String)) (s : Session) → Answered (login_loaded lib o s)
  login_loaded-Answered none s = refl
  login_loaded-Answered (some (email, password)) s = elim (Bool-cases (lib.is_email email)) [
    | inr n ↦ rw n refl
    | inl y ↦
        let m = authenticate_user lib email password s in rw y (answer_login-Answered email m.0 m.1)
  ]

  login-Answered : (o : Option (String × String)) (s : Session) → Answered (login lib o s)
  unfolding login
  login-Answered o s = login_loaded-Answered o s

show_user-status : (o : Option User) (s : Session) → has_its_status (show_user o s) ≡ true
show_user-status none s = refl
show_user-status (some u) s = refl

show_profile-status : (k : ℕ) (o : Option UserProfile) → has_its_status (show_profile k o) ≡ true
show_profile-status k none = refl
show_profile-status k (some p) = refl

admin_only-Answered :
    (c : Caller) (s : Session) (x : Result Response × Session)
    → Answered x
    → Answered (if is_admin c.role then x else (ok (refuse 403 admin_required), s))
admin_only-Answered c s x h = elim (Bool-cases (is_admin c.role)) [
  | inl y ↦ rw y h
  | inr n ↦ rw n refl
]

module _ (c : Caller) where
  show_account-status : (k : ℕ) (o : Option Account) → has_its_status (show_account c k o) ≡ true
  show_account-status k none = refl
  show_account-status k (some a) = elim (Bool-cases (is_foreign c a)) [
    | inl y ↦ rw y refl
    | inr n ↦ rw n refl
  ]

  status_of_found-Answered :
      (k : ℕ) (f : Option AccountStatus) (o : Option Account) (s : Session)
      → Answered (status_of_found c k f o s)
  unfolding write_status record_audit_event add_log
  status_of_found-Answered k f none s = refl
  status_of_found-Answered k none (some a) s = refl
  status_of_found-Answered k (some st) (some a) s = ground arith

  role_of_found-Answered :
      (k : ℕ) (f : Option UserRole) (o : Option User) (s : Session)
      → Answered (role_of_found c k f o s)
  unfolding write_role record_audit_event add_log
  role_of_found-Answered k f none s = refl
  role_of_found-Answered k none (some u) s = refl
  role_of_found-Answered k (some role) (some u) s = ground arith

  review_found-Answered :
      (k : ℕ) (st : KycStatus) (o : Option UserProfile) (s : Session)
      → Answered (review_found k st o s)
  review_found-Answered k st none s = refl
  review_found-Answered k st (some p) s = ground arith

  review_loaded-Answered :
      (k : ℕ) (o : Option KycStatus) (s : Session) → Answered (review_loaded k o s)
  review_loaded-Answered k none s = refl
  review_loaded-Answered k (some st) s =
      review_found-Answered k st (find_profile k s.working.user_profiles) s

  get_my_profile-Answering : Answering (get_my_profile c)
  unfolding get_my_profile
  get_my_profile-Answering = bind-Answering (get_or_create_profile c.user_id) _ (λ p.
      bind-Answering commit (λ _. pure (respond 200 (Body.profile p)))
        (λ _. record { answered = λ s. refl }))

  write_profile-Answering : (x : ProfilePatch) → Answering (write_profile c x)
  unfolding write_profile
  write_profile-Answering x =
      bind-Answering (get_or_create_profile c.user_id) _
        (λ p. record { answered = λ s. ground arith })

  module _ (env : Environment) where
    write_branding-Answering : (x : BrandingPatch) → Answering (write_branding env c x)
    unfolding write_branding record_audit_event add_log
    write_branding-Answering x =
        bind-Answering get_or_create_singleton _ (λ row. record { answered = λ s. ground arith })

    branding_loaded-Answered :
        (o : Option BrandingPatch) (s : Session) → Answered (branding_loaded env c o s)
    branding_loaded-Answered none s = refl
    branding_loaded-Answered (some x) s = given (changed_fields x)
      where
        given : (fields : List String) → Answered (branding_given env c x fields s)
        given [] = refl
        given (f ∷ fields) = (write_branding-Answering x).answered s

  update_loaded-Answered : (o : Option ProfilePatch) (s : Session) → Answered (update_loaded c o s)
  update_loaded-Answered none s = refl
  update_loaded-Answered (some x) s = (write_profile-Answering x).answered s

run_reconciliation-Answering : Answering (answer_report reconcile_system_balances)
run_reconciliation-Answering =
    bind-Answering reconcile_system_balances (λ x. pure (respond 200 (Body.reconciliation x)))
      (λ x. record { answered = λ s. refl })

module _ (w : World) where
  dispatch-Answered : (q : Request) (s : Session) → IsValid s → Answered (dispatch w q s)
  unfolding dispatch me list_accounts get_account get_branding update_account_status
      update_user_role run_reconciliation get_user_kyc_status update_user_kyc_status
      update_my_profile update_branding
  dispatch-Answered (Request.register draw p) s v = register-Answered w.libraries draw p s
  dispatch-Answered (Request.login p) s v = login-Answered w.libraries p s
  dispatch-Answered (Request.me c) s v = show_user-status (get_user c.user_id s.working.users) s
  dispatch-Answered (Request.list_accounts c) s v = refl
  dispatch-Answered (Request.get_account c k) s v =
      show_account-status c k (Database.get_account k s.working.accounts)
  dispatch-Answered (Request.create_account c key draw f) s v =
      create_account-Answered c key s v draw f
  dispatch-Answered (Request.deposit_funds c key k f) s v = deposit_funds-Answered c key s v k f
  dispatch-Answered (Request.update_account_status c k f) s v =
      admin_only-Answered c s _
        (status_of_found-Answered c k f (Database.get_account k s.working.accounts) s)
  dispatch-Answered (Request.update_user_role c k f) s v =
      admin_only-Answered c s _ (role_of_found-Answered c k f (get_user k s.working.users) s)
  dispatch-Answered (Request.run_reconciliation c) s v =
      admin_only-Answered c s _ (run_reconciliation-Answering.answered s)
  dispatch-Answered (Request.create_transfer c p) s v = create_transfer-Answered c s p
  dispatch-Answered (Request.get_my_profile c) s v = (get_my_profile-Answering c).answered s
  dispatch-Answered (Request.update_my_profile c today p) s v =
      update_loaded-Answered c (load_profile_patch today p) s
  dispatch-Answered (Request.get_user_kyc_status c k) s v =
      admin_only-Answered c s _ (show_profile-status k (find_profile k s.working.user_profiles))
  dispatch-Answered (Request.update_user_kyc_status c k f) s v =
      admin_only-Answered c s _ (review_loaded-Answered c k f s)
  dispatch-Answered Request.get_branding s v = refl
  dispatch-Answered (Request.update_branding c p) s v = admin_only-Answered c s _ (
      branding_loaded-Answered c w.environment (load_branding_patch w.is_url w.libraries.is_email p)
        s)

  -- In any sequence of requests, run from a valid session, every answer has the one status that
  -- its body calls for: an error the status of its message (400, 401, 403, 404, 409, 500 or 503),
  -- a new account, registration or transfer 201, and any other body 200, replayed answers
  -- included.
  pub run-statuses :
      (qs : List Arrival) (s : Session) → IsValid s → all has_its_status (run w qs s).0 ≡ true
  unfolding run handle
  run-statuses [] s v = refl
  run-statuses (q ∷ qs) s v =
      rw
        (
          serve-status (dispatch w q.request) (arrive q s)
              (dispatch-Answered q.request (arrive q s) (arrive-IsValid q v)),
          run-statuses qs (handle w q.request (arrive q s)).1
              (handle-IsValid w q.request (arrive q s) (arrive-IsValid q v)),
        )
        refl
