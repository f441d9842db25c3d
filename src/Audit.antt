-- ===== src/Audit.antt =====
-- app/services/audit_service.py: `record_audit_event`.
use bank_flow_digital_bankin.Base.{
  ℕ, zero, suc, ◌+◌, String, Option, none, some, [], ◌∷◌, ◌++◌, Bool, true, ◌&&◌, ◌≡◌, refl, arith,
  leb,
}
use bank_flow_digital_bankin.Models.{AuditEventType, AuditLog, Details}
use bank_flow_digital_bankin.Database.{
  Session, RequestContext, Action, ok, chars, fits_text, log_fits,
}

-- `s[:n]`
abbrev pub clip : ℕ → String → String
clip zero s = String.[]
clip (suc n) String.[] = String.[]
clip (suc n) (String.◌∷◌ c s) = String.◌∷◌ c (clip n s)

-- `x if x is not None else y`, as `headers.get(h, default)` and `a or b` give it here.
abbrev pub or_else : Option String → Option String → Option String
or_else none b = b
or_else (some a) b = some a

-- `request.headers.get("X-Forwarded-For", request.remote_addr)`
abbrev pub ip_address_of : RequestContext → Option String
ip_address_of c = or_else c.x_forwarded_for c.remote_addr

-- `request.headers.get("User-Agent", "")[:255]`
abbrev pub user_agent_of : RequestContext → Option String
user_agent_of c = elim c.user_agent [ none ↦ some "" | some ua ↦ some (clip 255 ua) ]

-- `getattr(g, "request_id", None) or request.headers.get("X-Request-ID")`
abbrev pub request_id_of : RequestContext → Option String
request_id_of c = or_else c.traced_request_id c.x_request_id

abbrev pub in_request : (RequestContext → Option String) → Option RequestContext → Option String
in_request f none = none
in_request f (some c) = f c

-- What a caller hands over; the program's calls never give the request's data themselves.
pub record AuditEvent : Type 0 where
  pub event_type : AuditEventType
  pub actor_id : Option ℕ
  pub target_user_id : Option ℕ
  pub target_account_id : Option ℕ
  pub details : Details

abbrev pub audit_entry : AuditEvent → Session → AuditLog
audit_entry e s = record {
  log_id = s.ids.log;
  event_type = e.event_type;
  actor_id = e.actor_id;
  target_user_id = e.target_user_id;
  target_account_id = e.target_account_id;
  ip_address = in_request ip_address_of s.context;
  user_agent = in_request user_agent_of s.context;
  request_id = in_request request_id_of s.context;
  details_json = some e.details;
  created_at = s.now;
}

unfoldable pub add_log : AuditLog → Session → Session
add_log entry s = record s {
  working = record (s.working) { audit_logs = s.working.audit_logs ++ entry ∷ [] };
  ids = record (s.ids) { log = s.ids.log + 1 };
}

-- Appends one entry; nothing is flushed or committed.
unfoldable pub record_audit_event : AuditEvent → Action (Unit {0})
unfolding add_log
record_audit_event e s = (ok tt, add_log (audit_entry e s) s)

-- The texts that a request gives fit the columns of the audit trail, `String(64)` each.
abbrev pub context_fits : Option RequestContext → Bool
context_fits c =
    fits_text 64 (in_request ip_address_of c) && fits_text 64 (in_request request_id_of c)

chars-clip : (n : ℕ) (s : String) → leb (chars (clip n s)) n ≡ true
chars-clip zero s = refl
chars-clip (suc n) String.[] = ground arith
chars-clip (suc n) (String.◌∷◌ c s) = ground (arith, chars-clip n s)

agent-fits : (c : Option RequestContext) → fits_text 255 (in_request user_agent_of c) ≡ true
agent-fits none = refl
agent-fits (some c) = go c.user_agent
  where
    go :
        (o : Option String)
        → fits_text 255 (elim o [ none ↦ some "" | some ua ↦ some (clip 255 ua) ]) ≡ true
    go none = refl
    go (some ua) = chars-clip 255 ua

pub audit_entry-fits :
    (e : AuditEvent) (s : Session)
    → context_fits s.context ≡ true
    → log_fits (audit_entry e s) ≡ true
audit_entry-fits e s h = ground (arith, agent-fits s.context)
