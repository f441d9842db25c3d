-- ===== src/Notifications.antt =====
-- app/services/notification_service.py: the console's notice of an event and `notify`, which no exception
-- leaves. The values of a context are the texts that they are shown as, and the clock's text is given.
use bank_flow_digital_bankin.Base.{
  ℕ, zero, suc, String, Option, none, some, Bool, true, false, List, [], ◌∷◌, ◌++◌, map, str_eq,
  if◌then◌else◌,
}
use bank_flow_digital_bankin.Database.{Result, ok, err, Error}
use bank_flow_digital_bankin.Transfer.{truthy}
use bank_flow_digital_bankin.Auth.Clean.{strip, lower}
use bank_flow_digital_bankin.Configuration.{or_default}
use bank_flow_digital_bankin.Configuration.Texts.{concat}

-- `EVENT_SUBJECTS`
abbrev pub event_subjects : List (String × String)
event_subjects =
    ("TRANSFER_COMPLETED", "Money Transfer Confirmation")
    ∷ ("DEPOSIT_COMPLETED", "Deposit Received")
    ∷ ("ACCOUNT_CREATED", "New Account Opened")
    ∷ ("LOGIN_FAILED", "Unusual Login Activity Detected")
    ∷ ("KYC_STATUS_CHANGED", "Your KYC Status Has Been Updated")
    ∷ ("ACCOUNT_STATUS_CHANGED", "Account Status Change")
    ∷ []

abbrev pub subject_in : List (String × String) → String → String → String
subject_in [] event default = default
subject_in ((e, subject) ∷ rows) event default =
    let rest = subject_in rows event default in if str_eq e event then subject else rest

-- `subject or self.EVENT_SUBJECTS.get(event, f"BankFlow: {event}")`
abbrev pub resolved_subject : Option String → String → String
resolved_subject subject event = elim (truthy subject) [
  | none ↦ subject_in event_subjects event (concat "BankFlow: " event)
  | some t ↦ t
]

abbrev pub repeated : ℕ → String → String
repeated zero t = ""
repeated (suc n) t = concat t (repeated n t)

abbrev pub rule_line : String
rule_line = repeated 60 "━"

-- `for key, value in context.items()`
abbrev pub context_line : String × String → String
context_line (key, value) = concat "      " (concat key (concat ": " value))

-- The lines that `send` prints and logs.
unfoldable pub body_lines :
    (timestamp event recipient_email : String)
    → List (String × String)
    → (subject : Option String) → List String
body_lines timestamp event recipient_email context subject =
    (rule_line
      ∷ concat "📬  [NOTIFICATION — Console Mock] " timestamp
      ∷ rule_line
      ∷ concat "   To      : " recipient_email
      ∷ concat "   Event   : " event
      ∷ concat "   Subject : " (resolved_subject subject event)
      ∷ "   Context :"
      ∷ map context_line context)
    ++ rule_line ∷ []

pub data Service : Type 0 where
  console_mock : Service

-- The service, and whether the setting's unknown value is warned of.
unfoldable pub get_notification_service : Option String → Service × Bool
unfolding strip lower
get_notification_service setting =
    if str_eq (strip (lower (or_default setting "console"))) "console"
    then (console_mock, false)
    else (console_mock, true)

-- What `notify` does with the lines: printed, or the exception logged.
pub data Outcome : Type 0 where
  printed : List String → Outcome
  failure_logged : Error → Outcome

abbrev pub outcome_of : List String → Result (Unit {0}) → Outcome
outcome_of lines (ok _) = printed lines
outcome_of lines (err e) = failure_logged e

-- `print` is what writes the lines; the service is the console's whatever the setting.
unfoldable pub notify :
    (print : List String → Result (Unit {0}))
    → (timestamp event recipient_email : String) → List (String × String)
    → (subject : Option String) → Outcome
unfolding body_lines
notify print timestamp event recipient_email context subject =
    let lines = body_lines timestamp event recipient_email context subject in
    outcome_of lines (print lines)
