-- ===== src/Auth/Login.antt =====
-- What a login attempt tells and leaves behind.
use bank_flow_digital_bankin.Base.{
  ℕ, ◌+◌, String, Option, none, some, true, [], ◌∷◌, ◌++◌, ◌≡◌, refl, ap, Bool-cases, inl, inr,
}
use bank_flow_digital_bankin.Models.{
  AuditLog, User, LoginFailure, Details, AuditEventType, user_not_found, invalid_password,
}
use bank_flow_digital_bankin.Database.{
  Db, Session, Result, ok, err, Error, commit, find_email, ◌>>◌, pure,
}
use bank_flow_digital_bankin.Audit.{
  AuditEvent, add_log, audit_entry, record_audit_event, context_fits, audit_entry-fits,
}
use bank_flow_digital_bankin.Reconcile.Healthy.{violation-add_log}
use bank_flow_digital_bankin.Invariant.{IsValid, seen}
use bank_flow_digital_bankin.Auth.{Libraries, authenticate_user, log_in, failed_login, login_event}
use bank_flow_digital_bankin.Auth.Clean.{strip, lower}

-- The session with one more committed entry of the audit trail.
abbrev pub logged : AuditLog → Session → Session
logged l s =
    let d : Db = record (s.working) { audit_logs = s.working.audit_logs ++ l ∷ [] } in
    record s { committed = d; working = d; ids = record (s.ids) { log = s.ids.log + 1 } }

-- The attempt proves the password of a registered user, or is refused.
abbrev pub Checked : Libraries → String → String → Session → Result (User × String) → Type 0
Checked lib email password s (ok (u, t)) =
    (find_email (lower (strip email)) s.working.users ≡ some u)
    × (lib.check_password_hash u.password_hash password ≡ true)
    × (t ≡ lib.create_access_token u)
Checked lib email password s (err e) = e ≡ Error.authentication

-- What is audited of an attempt: the user who has come in, or the address of the one who has not.
abbrev success_event : User → AuditEvent
success_event u =
    login_event AuditEventType.login_success (some u.user_id) (Details.logged_in u.email)

abbrev attempted_email : Details → Option String
attempted_email (Details.attempted email reason) = some email
attempted_email _ = none

abbrev pub Recorded : String → Result (User × String) → AuditEvent → Type 0
Recorded email (ok (u, t)) e = e ≡ success_event u
Recorded email (err x) e =
    (e.event_type ≡ AuditEventType.login_failed)
    × (attempted_email e.details ≡ some (lower (strip email)))

module _ (lib : Libraries) (email password : String) (s : Session) (v : IsValid s)
    (f : context_fits s.context ≡ true) where
  -- The result is checked, the session valid, and one entry of the audit trail is all that is new.
  abbrev Attempted : Result (User × String) × Session → Type 0
  Attempted (x, t) =
      Checked lib email password s x
      × IsValid t
      × ((e : AuditEvent) × Recorded email x e
          × (t.committed ≡ record (s.committed) {
            audit_logs = s.committed.audit_logs ++ audit_entry e s ∷ [];
          }))

  attempted :
      (x : Result (User × String)) (e : AuditEvent)
      → Checked lib email password s x
      → Recorded email x e
      → Attempted (x, logged (audit_entry e s) s)
  attempted x e h r =
      let w = seen v in
      (
        h,
        record {
          clean = refl;
          stored = record {
            sound = violation-add_log s.working (audit_entry e s) w.sound (audit_entry-fits e s f);
            transactions_below = w.transactions_below;
            links_below = w.links_below;
            records_answer = w.records_answer;
            paired = w.paired;
            accounts_below = w.accounts_below;
          };
        },
        (
          e,
          r,
          ap (λ (d : Db). record d { audit_logs = d.audit_logs ++ audit_entry e s ∷ [] }) v.clean,
        ),
      )

  recorded :
      (e : AuditEvent) → (record_audit_event e >> commit) s ≡ (ok tt, logged (audit_entry e s) s)
  unfolding record_audit_event add_log
  recorded e = rw (
    violation-add_log s.working (audit_entry e s) (seen v).sound (audit_entry-fits e s f),
    commit,
  )

  failed :
      (actor : Option ℕ) (reason : LoginFailure)
      → Attempted (failed_login lib actor (lower (strip email)) reason s)
  unfolding record_audit_event
  failed actor reason =
      rw
        (recorded (
          login_event AuditEventType.login_failed actor
            (Details.attempted (lower (strip email)) reason)))
        (attempted (err Error.authentication) _ refl (refl, refl))

  succeeded :
      (u : User)
      → find_email (lower (strip email)) s.working.users ≡ some u
      → lib.check_password_hash u.password_hash password ≡ true
      → Attempted (
          (record_audit_event (success_event u) >> (commit >> pure (u, lib.create_access_token u)))
            s)
  unfolding record_audit_event
  succeeded u q good =
      rw (recorded (success_event u))
        (attempted (ok (u, lib.create_access_token u)) _ (q, good, refl) refl)

  log_in-Attempted :
      (o : Option User)
      → find_email (lower (strip email)) s.working.users ≡ o
      → Attempted (log_in lib (lower (strip email)) password o s)
  log_in-Attempted none q = failed none user_not_found
  log_in-Attempted (some u) q =
      elim (Bool-cases (lib.check_password_hash u.password_hash password)) [
        | inl good ↦ rw good (succeeded u q good)
        | inr bad ↦ rw bad (failed (some u.user_id) invalid_password)
      ]

-- In a valid session, in a request whose address and id fit the columns of the audit trail, a
-- login either returns a registered user with that address, cleaned, whose stored hash takes the
-- password, and the user's token, or is refused with the one error for both failures; either way
-- what is stored has exactly one entry of the audit trail more, for the user's success or for the
-- failure with the cleaned address that was tried, and the session stays valid.
pub authenticate_user-audited :
    (lib : Libraries) (email password : String) (s : Session)
    → IsValid s
    → context_fits s.context ≡ true
    → let (x, t) = authenticate_user lib email password s in
      Checked lib email password s x
      × IsValid t
      × ((e : AuditEvent) × Recorded email x e
          × (t.committed ≡ record (s.committed) {
            audit_logs = s.committed.audit_logs ++ audit_entry e s ∷ [];
          }))
unfolding authenticate_user
authenticate_user-audited lib email password s v f =
    log_in-Attempted lib email password s v f (find_email (lower (strip email)) s.working.users)
      refl
