-- ===== src/Auth.antt =====
-- app/services/auth_service.py, `register_user` and `authenticate_user`, and the routes of
-- app/routes/auth_routes.py with the payloads of app/schemas/auth_schema.py. `strip` and `lower` are
-- those of ASCII texts. The hashing of passwords, the tokens and the test of an address are libraries'.
pub mod Clean
pub mod Login
pub mod Routes
pub mod Demo
use bank_flow_digital_bankin.Base.{
  ℕ, ◌+◌, String, Option, none, some, Bool, not, ◌&&◌, [], ◌∷◌, ◌++◌, leb, str_eq, if◌then◌else◌,
}
use bank_flow_digital_bankin.Base.Int.{ℤ}
use bank_flow_digital_bankin.Base.Decimal.{Decimal, to_column}
use bank_flow_digital_bankin.Models.{
  User, UserRole, Account, AuditEventType, Details, LoginFailure, active, user_not_found,
  invalid_password,
}
use bank_flow_digital_bankin.Database.{
  Session, Action, Result, ok, err, Error, Event, pure, raise, gets, modify_session, flush, commit,
  ◌>>=◌, ◌>>◌, find_email, chars,
}
use bank_flow_digital_bankin.Audit.{AuditEvent, record_audit_event}
use bank_flow_digital_bankin.Http.{
  Body, Response, respond, refuse, validation_failed, domain_error, registration_failed,
  authentication_failed,
}
use bank_flow_digital_bankin.Accounts.Payload.{AmountField, load_initial_deposit}
use bank_flow_digital_bankin.Accounts.Numbers.{generate_account_number, max_acct_retries}
use bank_flow_digital_bankin.Auth.Clean.{strip, lower}

-- What the code takes from Flask-Bcrypt, Flask-JWT-Extended and marshmallow.
pub record Libraries : Type 0 where
  pub generate_password_hash : String → String
  pub check_password_hash : (hash password : String) → Bool
  pub create_access_token : User → String
  pub is_email : String → Bool

abbrev pub login_event : AuditEventType → Option ℕ → Details → AuditEvent
login_event type actor details = record {
  event_type = type;
  actor_id = actor;
  target_user_id = none;
  target_account_id = none;
  details = details;
}

abbrev pub registered_event : User → Account → Decimal → AuditEvent
registered_event u a deposit = record {
  event_type = AuditEventType.user_registered;
  actor_id = some u.user_id;
  target_user_id = some u.user_id;
  target_account_id = some a.account_id;
  details = Details.registered u.email u.role deposit;
}

module _ (lib : Libraries) where
  abbrev pub failed_login : Option ℕ → String → LoginFailure → Action (User × String)
  failed_login actor email reason = do
    record_audit_event
        (login_event AuditEventType.login_failed actor (Details.attempted email reason))
    commit
    raise Error.authentication

  -- The password of a user that was found, or none: the dummy check has no result.
  abbrev pub log_in : String → String → Option User → Action (User × String)
  log_in email password none = failed_login none email user_not_found
  log_in email password (some u) =
      if not (lib.check_password_hash u.password_hash password)
      then failed_login (some u.user_id) email invalid_password
      else do
        record_audit_event
            (login_event AuditEventType.login_success (some u.user_id) (Details.logged_in u.email))
        commit
        pure (u, lib.create_access_token u)

  unfoldable pub authenticate_user : String → String → Action (User × String)
  unfolding record_audit_event
  authenticate_user email password = do
    let email_clean = lower (strip email)
    found ← gets (λ s. find_email email_clean s.working.users)
    log_in email_clean password found

  abbrev pub new_user : String → String → String → UserRole → Session → User
  new_user full_name email password role s = record {
    user_id = s.ids.user;
    full_name = strip full_name;
    email = email;
    password_hash = lib.generate_password_hash password;
    role = role;
    created_at = s.now;
  }

  abbrev pub add_user : String → String → String → UserRole → Action User
  add_user full_name email password role = do
    u ← gets (new_user full_name email password role)
    modify_session (λ s. record s {
      working = record (s.working) { users = s.working.users ++ u ∷ [] };
      ids = record (s.ids) { user = s.ids.user + 1 };
    })
    flush
    pure u

  abbrev pub primary_account : User → String → Decimal → Session → Account
  primary_account u number deposit s = record {
    account_id = s.ids.account;
    user_id = u.user_id;
    account_number = number;
    balance = to_column deposit;
    status = active;
    created_at = s.now;
  }

  -- The account, the first commit, the audit entry and the second commit.
  abbrev pub provision : User → Decimal → Option (String × ℕ) → Action (User × Account × String)
  provision u deposit none = raise Error.account
  provision u deposit (some (number, _)) = do
    a ← gets (primary_account u number deposit)
    modify_session (λ s. record s {
      working = record (s.working) { accounts = s.working.accounts ++ a ∷ [] };
      ids = record (s.ids) { account = s.ids.account + 1 };
    })
    commit
    record_audit_event (registered_event u a deposit)
    commit
    pure (u, a, lib.create_access_token u)

  abbrev pub register_new :
      (ℕ → String)
      → String
      → String
      → String
      → Decimal
      → UserRole
      → Option User
      → Action (User × Account × String)
  register_new draw full_name email password deposit role (some u) = raise Error.validation
  register_new draw full_name email password deposit role none = do
    u ← add_user full_name email password role
    number ← gets (λ s. generate_account_number draw max_acct_retries 0 s.working.accounts)
    provision u deposit number

  -- The role is the one that its text names, which is CUSTOMER unless a caller asks for another.
  unfoldable pub register_user :
      (ℕ → String)
      → String
      → String
      → String
      → Decimal
      → UserRole
      → Action (User × Account × String)
  unfolding record_audit_event
  register_user draw full_name email password deposit role = do
    let email_clean = lower (strip email)
    found ← gets (λ s. find_email email_clean s.working.users)
    register_new draw full_name email_clean password deposit role found
