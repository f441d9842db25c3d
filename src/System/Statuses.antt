-- ===== src/System/Statuses.antt =====
-- app/routes: the status of every answer. `status_of` is a table of its own, by what the body shows.
pub mod Served
pub mod Everyone
use bank_flow_digital_bankin.Base.{ℕ, Bool, true, ◌≡◌, refl, ◌==◌}
use bank_flow_digital_bankin.Models.{StoredBody}
use bank_flow_digital_bankin.Database.{Session, Action, Result, Error, ◌>>=◌}
use bank_flow_digital_bankin.Http.Answers.{
  AnsweredBy, AnsweringBy, bind-AnsweringBy, serve-AnsweredBy,
}
use bank_flow_digital_bankin.Http.{Message, Body, Response, serve}

-- The status of an error: 404 for what is not there, 403 and 401 for who may not, 400 for what cannot be
-- done, 409 for a key in use, 503 without a number and 500 for the rest.
abbrev pub status_of_message : Message → ℕ
status_of_message (Message.account_id_not_found k) = 404
status_of_message (Message.user_id_not_found k) = 404
status_of_message Message.user_not_found = 404
status_of_message (Message.no_profile k) = 404
status_of_message Message.admin_required = 403
status_of_message Message.validation_failed = 400
status_of_message (Message.only_active_receive st) = 400
status_of_message Message.no_branding_fields = 400
status_of_message Message.key_conflict = 409
status_of_message Message.number_generation_failed = 503
status_of_message (Message.domain_error Error.account_not_found) = 404
status_of_message (Message.domain_error Error.insufficient_balance) = 400
status_of_message (Message.domain_error Error.account_inactive) = 400
status_of_message (Message.domain_error Error.invalid_transfer) = 400
status_of_message (Message.domain_error Error.validation) = 400
status_of_message (Message.domain_error Error.authentication) = 401
status_of_message (Message.domain_error Error.idempotency_key_conflict) = 409
status_of_message _ = 500

-- The status of a body: 201 for what was made, 200 for the rest.
abbrev pub status_of : Body → ℕ
status_of (Body.error m) = status_of_message m
status_of (Body.stored (StoredBody.account_created a)) = 201
status_of (Body.registered u a token) = 201
status_of (Body.transferred t) = 201
status_of _ = 200

abbrev pub has_its_status : Response → Bool
has_its_status r = r.status == status_of r.body

abbrev pub HasStatus : Response → Type 0
HasStatus r = has_its_status r ≡ true

abbrev pub Answered : Result Response × Session → Type 0
Answered = AnsweredBy HasStatus

abbrev pub Answering : Action Response → Type 0
Answering = AnsweringBy HasStatus

pub bind-Answering :
    {A : Type 0} (m : Action A) (f : A → Action Response)
    → ((a : A) → Answering (f a))
    → Answering (m >>= f)
bind-Answering = bind-AnsweringBy HasStatus

-- An exception that no route catches is answered 500.
pub serve-status :
    (m : Action Response) (s : Session) → Answered (m s) → has_its_status (serve m s).0 ≡ true
serve-status m s h = serve-AnsweredBy HasStatus (λ e. refl) m s h
