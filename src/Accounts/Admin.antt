-- ===== src/Accounts/Admin.antt =====
-- app/routes/account_routes.py: the requests of administrators, `update_account_status`,
-- `update_user_role`, `list_audit_logs` and `run_reconciliation`. A payload that the schema of
-- app/schemas/account_schema.py refuses is `none`.
pub mod Status
pub mod Freezing
use bank_flow_digital_bankin.Base.{
  ℕ, Option, none, some, Bool, true, not, List, keep, if◌then◌else◌,
}
use bank_flow_digital_bankin.Models.{
  Account, AccountStatus, User, UserRole, AuditEventType, AuditLog, Details, Report, is_admin,
}
use bank_flow_digital_bankin.Database.{
  Session, Action, Result, ok, err, pure, gets, modify_session, commit, ◌>>=◌, ◌>>◌, get_account,
  modify_account, get_user, modify_user,
}
use bank_flow_digital_bankin.Audit.{AuditEvent, record_audit_event}
use bank_flow_digital_bankin.Http.{
  Caller, Body, Page, Response, respond, refuse, admin_required, account_id_not_found,
  user_id_not_found, validation_failed,
}
use bank_flow_digital_bankin.Listing.{newest_first, paginate}
use bank_flow_digital_bankin.Reconcile.{reconcile_system_balances}

abbrev pub set_account_status : AccountStatus → Account → Account
set_account_status st a = record a { status = st }

abbrev pub set_role : UserRole → User → User
set_role role u = record u { role = role }

abbrev pub status_event : Caller → ℕ → AccountStatus → AccountStatus → AuditEvent
status_event c k old new = record {
  event_type = AuditEventType.account_status_changed;
  actor_id = some c.user_id;
  target_user_id = none;
  target_account_id = some k;
  details = Details.status_changed old new;
}

-- The change of an account that was found, to its commit.
unfoldable pub write_status : Caller → ℕ → Account → AccountStatus → Action Response
unfolding record_audit_event
write_status c k a st = do
  modify_session (λ s. record s {
    working = record (s.working) {
      accounts = modify_account k (set_account_status st) s.working.accounts;
    };
  })
  record_audit_event (status_event c k a.status st)
  commit
  pure (respond 200 (Body.status_updated (set_account_status st a)))

abbrev pub status_of_found : Caller → ℕ → Option AccountStatus → Option Account → Action Response
status_of_found c k field none = pure (refuse 404 (account_id_not_found k))
status_of_found c k none (some a) = pure (refuse 400 validation_failed)
status_of_found c k (some st) (some a) = write_status c k a st

unfoldable pub update_account_status : Caller → ℕ → Option AccountStatus → Action Response
unfolding write_status
update_account_status c k field s =
    if is_admin c.role
    then status_of_found c k field (get_account k s.working.accounts) s
    else (ok (refuse 403 admin_required), s)

abbrev pub role_event : Caller → ℕ → UserRole → UserRole → AuditEvent
role_event c k old new = record {
  event_type = AuditEventType.role_updated;
  actor_id = some c.user_id;
  target_user_id = some k;
  target_account_id = none;
  details = Details.role_changed old new;
}

unfoldable pub write_role : Caller → ℕ → User → UserRole → Action Response
unfolding record_audit_event
write_role c k u role = do
  modify_session (λ s. record s {
    working = record (s.working) { users = modify_user k (set_role role) s.working.users };
  })
  record_audit_event (role_event c k u.role role)
  commit
  pure (respond 200 (Body.role_updated (set_role role u)))

abbrev pub role_of_found : Caller → ℕ → Option UserRole → Option User → Action Response
role_of_found c k field none = pure (refuse 404 (user_id_not_found k))
role_of_found c k none (some u) = pure (refuse 400 validation_failed)
role_of_found c k (some role) (some u) = write_role c k u role

unfoldable pub update_user_role : Caller → ℕ → Option UserRole → Action Response
unfolding write_role
update_user_role c k field s =
    if is_admin c.role
    then role_of_found c k field (get_user k s.working.users) s
    else (ok (refuse 403 admin_required), s)

-- `AuditEventType(event_filter.upper())`: the filter is a test, true when there is none or no such type.
unfoldable pub list_audit_logs :
    Caller → (AuditEventType → Bool) → ℕ → ℕ → Session → Result (Option (Page AuditLog))
list_audit_logs c p page per_page s =
    if is_admin c.role
    then elim (paginate page per_page (
        newest_first (λ (l : AuditLog). l.created_at)
          (keep (λ (l : AuditLog). p l.event_type) s.working.audit_logs))) [
            | ok x ↦ ok (some x)
            | err e ↦ err e
          ]
    else ok none

abbrev pub answer_report : Action Report → Action Response
answer_report m = m >>= λ x. pure (respond 200 (Body.reconciliation x))

unfoldable pub run_reconciliation : Caller → Action Response
unfolding reconcile_system_balances
run_reconciliation c s =
    if is_admin c.role
    then answer_report reconcile_system_balances s
    else (ok (refuse 403 admin_required), s)
