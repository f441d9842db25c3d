-- ===== src/Database/Exec.antt =====
-- The session of a request: what is committed, what the open transaction sees, and the counters of
-- the AUTO_INCREMENT keys, which a rollback does not turn back. `context` is Flask's request, `now` the
-- clock, `outbox` what the notification service has sent.
use bank_flow_digital_bankin.Base.{ℕ, String, Option, none, some, Bool, List, if◌then◌else◌}
use bank_flow_digital_bankin.Base.Decimal.{Decimal}
use bank_flow_digital_bankin.Database.Tables.{Db}
use bank_flow_digital_bankin.Database.Constraints.{Violation, integrity, data_range, violation}

pub record Counters : Type 0 where
  pub user : ℕ
  pub account : ℕ
  pub transaction : ℕ
  pub entry : ℕ
  pub log : ℕ
  pub idempotency : ℕ
  pub profile : ℕ
  pub config : ℕ

-- What `record_audit_event` reads of the request: the headers, the peer and `g.request_id`.
pub record RequestContext : Type 0 where
  pub x_forwarded_for : Option String
  pub remote_addr : Option String
  pub user_agent : Option String
  pub traced_request_id : Option String
  pub x_request_id : Option String

-- The events that are notified, with their contexts.
pub data Event : Type 0 where
  transfer_completed : (transaction_id : ℕ) (amount : Decimal) (from_account to_account : ℕ) → Event
  login_failed : (email : String) → Event

pub record Notification : Type 0 where
  pub event : Event
  pub recipient_email : String

pub record Session : Type 0 where
  pub committed : Db
  pub working : Db
  pub ids : Counters
  pub now : ℕ
  pub context : Option RequestContext
  pub outbox : List Notification

-- The exceptions of app/core/exceptions.py, SQLAlchemy's, a division by zero, an unknown name and what the
-- drawing of a PDF file raises.
pub data Error : Type 0 where
  insufficient_balance account_not_found account_inactive invalid_transfer : Error
  idempotency_key_conflict authentication resource_not_found account forbidden : Error
  validation integrity_error data_error zero_division sql_error name_error pdf_error : Error

pub data Result (A : Type 0) : Type 0 where
  ok : A → Result A
  err : Error → Result A

-- Code that runs in a session and may raise; what was written before a raise stays written.
abbrev pub Action : Type 0 → Type 0
Action A = Session → Result A × Session

module _ {A : Type 0} where
  abbrev pub pure : A → Action A
  pure a s = (ok a, s)

  abbrev pub raise : Error → Action A
  raise e s = (err e, s)

  abbrev pub gets : (Session → A) → Action A
  gets f s = (ok (f s), s)

  abbrev pub or_raise : Option A → Error → Action A
  or_raise none e = raise e
  or_raise (some a) e = pure a

-- What follows a call runs only if the call returned.
abbrev pub after_result : {A B : Type 0} → Result A → (A → Action B) → Action B
after_result (ok a) f s = f a s
after_result (err e) f s = (err e, s)

infixl 5 ◌>>=◌ ◌>>◌
abbrev pub ◌>>=◌ : {A B : Type 0} → Action A → (A → Action B) → Action B
◌>>=◌ m f s = let (r, s') = m s in after_result r f s'

abbrev pub ◌>>◌ : {A B : Type 0} → Action A → Action B → Action B
m >> k = m >>= λ _. k

abbrev pub raise_if : Bool → Error → Action (Unit {0})
raise_if c e s = (if c then err e else ok tt, s)

abbrev pub modify_session : (Session → Session) → Action (Unit {0})
modify_session f s = (ok tt, f s)

-- `db_session.rollback()`
abbrev pub rollback : Session → Session
rollback s = record s { working = s.committed }

abbrev pub raised : Violation → Error
raised integrity = integrity_error
raised data_range = data_error

-- `db_session.flush()`: the pending rows go to the database, which checks them.
abbrev pub flush : Action (Unit {0})
flush s = elim (violation s.working) [ none ↦ (ok tt, s) | some v ↦ (err (raised v), s) ]

-- `db_session.commit()`
abbrev pub commit : Action (Unit {0})
commit s = elim (violation s.working) [
  | none ↦ (ok tt, record s { committed = s.working })
  | some v ↦ (err (raised v), s)
]

-- `except Exception: rollback(); raise`
abbrev pub settle : {A : Type 0} → Result A → Session → Result A × Session
settle (ok a) s = (ok a, s)
settle (err e) s = (err e, rollback s)

-- `try: m` with that handler
abbrev pub or_rollback : {A : Type 0} → Action A → Action A
or_rollback m s = let (r, s') = m s in settle r s'
