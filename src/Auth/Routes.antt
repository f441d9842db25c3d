-- ===== src/Auth/Routes.antt =====
-- app/routes/auth_routes.py, with the payloads of app/schemas/auth_schema.py: a field is `none` if it is
-- absent or no text.
use bank_flow_digital_bankin.Base.{
  ℕ, String, Option, none, some, not, ◌&&◌, [], ◌∷◌, ◌++◌, leb, str_eq, if◌then◌else◌,
}
use bank_flow_digital_bankin.Base.Decimal.{Decimal}
use bank_flow_digital_bankin.Models.{User, Account, customer}
use bank_flow_digital_bankin.Database.{
  Session, Action, Result, ok, err, Error, Event, chars, get_user,
}
use bank_flow_digital_bankin.Http.{
  Caller, Body, Response, has_length, respond, refuse, validation_failed, domain_error,
  registration_failed, authentication_failed, user_not_found,
}
use bank_flow_digital_bankin.Accounts.Payload.{AmountField, load_initial_deposit}
use bank_flow_digital_bankin.Accounts.Views.{owned_by}
use bank_flow_digital_bankin.Auth.{Libraries, register_user, authenticate_user}

pub record RegisterPayload : Type 0 where
  pub full_name : Option String
  pub email : Option String
  pub password : Option String
  pub initial_deposit : AmountField

pub record Registration : Type 0 where
  pub full_name : String
  pub email : String
  pub password : String
  pub initial_deposit : Decimal

-- `GET /me`
abbrev pub show_user : Option User → Session → Response
show_user none s = refuse 404 user_not_found
show_user (some u) s =
    respond 200 (Body.user_with_accounts u (owned_by u.user_id s.working.accounts))

unfoldable pub me : Caller → Action Response
me c s = (ok (show_user (get_user c.user_id s.working.users) s), s)

module _ (lib : Libraries) where
  abbrev pub registration_of :
      Option String → Option String → Option String → Option Decimal → Option Registration
  registration_of (some n) (some e) (some p) (some d) =
      if has_length 2 120 n && (lib.is_email e && (leb (chars e) 120 && has_length 8 128 p))
      then some (record { full_name = n; email = e; password = p; initial_deposit = d })
      else none
  registration_of _ _ _ _ = none

  -- `register_schema.load(data)`
  unfoldable pub load_registration : RegisterPayload → Option Registration
  load_registration p =
      registration_of p.full_name p.email p.password (load_initial_deposit p.initial_deposit)

  abbrev pub answer_registration : Result (User × Account × String) → Response
  answer_registration (ok (u, a, t)) = respond 201 (Body.registered u a t)
  answer_registration (err Error.validation) = refuse 400 (domain_error Error.validation)
  answer_registration (err e) = refuse 500 (registration_failed e)

  abbrev pub register_loaded : (ℕ → String) → Option Registration → Action Response
  register_loaded draw none s = (ok (refuse 400 validation_failed), s)
  register_loaded draw (some r) s =
      let (x, t) =
        register_user lib draw r.full_name r.email r.password r.initial_deposit customer s in
      (ok (answer_registration x), t)

  unfoldable pub register : (ℕ → String) → RegisterPayload → Action Response
  unfolding register_user load_registration
  register draw p = register_loaded draw (load_registration p)

  -- A refused login is notified to the address that was given, if it is not empty.
  abbrev pub notify_failure : String → Session → Session
  notify_failure email s = if str_eq email "" then s else record s {
    outbox = s.outbox ++ record { event = Event.login_failed email; recipient_email = email } ∷ [];
  }

  abbrev pub answer_login : String → Result (User × String) → Session → Result Response × Session
  answer_login email (ok (u, t)) s = (ok (respond 200 (Body.authenticated u t)), s)
  answer_login email (err Error.authentication) s =
      (ok (refuse 401 (domain_error Error.authentication)), notify_failure email s)
  answer_login email (err e) s = (ok (refuse 500 (authentication_failed e)), s)

  -- `login_schema.load(data)` has read the two texts, or `none`.
  abbrev pub login_loaded : Option (String × String) → Action Response
  login_loaded none s = (ok (refuse 400 validation_failed), s)
  login_loaded (some (email, password)) s =
      if not (lib.is_email email)
      then (ok (refuse 400 validation_failed), s)
      else (let (x, t) = authenticate_user lib email password s in answer_login email x t)

  unfoldable pub login : Option (String × String) → Action Response
  unfolding authenticate_user
  login payload = login_loaded payload
