-- ===== src/System/Secrets/Others.antt =====
-- app/routes/account_routes.py and app/routes/auth_routes.py: the views and the requests of administrators are
-- blind to the password hashes.
use bank_flow_digital_bankin.Base.{
  ℕ, Option, none, some, Bool-cases, Option-cases, inl, inr, ◌≡◌, refl,
}
use bank_flow_digital_bankin.Models.{
  User, UserRole, Account, AccountStatus, Report, AuditEventType, Details,
}
use bank_flow_digital_bankin.Database.{
  Session, Action, Result, ok, err, pure, gets, modify_session, flush, commit, violation, ◌>>=◌,
  ◌>>◌, get_user, modify_user, modify_account,
}
use bank_flow_digital_bankin.Database
use bank_flow_digital_bankin.Audit.{AuditEvent, add_log, audit_entry, record_audit_event}
use bank_flow_digital_bankin.Http.{Caller, Body, Response, respond, is_foreign}
use bank_flow_digital_bankin.Reconcile.{
  report, transfer_discrepancies, total_balances, total_credits, total_debits,
  reconcile_system_balances,
}
use bank_flow_digital_bankin.Accounts.Admin.{
  set_account_status, set_role, status_event, role_event, write_status, write_role, status_of_found,
  role_of_found, answer_report,
}
use bank_flow_digital_bankin.Accounts.Views.{show_account, get_account}
use bank_flow_digital_bankin.Auth.Routes.{show_user, me}
use bank_flow_digital_bankin.System.Secrets.{
  hide, hide_found, hide_response, hide_result, violation-hide, get_user-hide, modify_user-hide,
  BlindTo, commit-Blind, bind-Blind, bind-BlindTo, gets-Blind,
}
use bank_flow_digital_bankin.System.Secrets.Handlers.{record_audit_event-Blind}

-- What an action does on the blanked tables.
abbrev pub Seen : Action Response → Session → Type 0
Seen m s = m (hide s) ≡ (hide_result (m s).0, hide (m s).1)

show_user-hide :
    (o : Option User) (s : Session)
    → show_user (hide_found o) (hide s) ≡ hide_response (show_user o s)
show_user-hide none s = refl
show_user-hide (some u) s = refl

pub me-Seen : (c : Caller) (s : Session) → Seen (me c) s
unfolding me
me-Seen c s =
    rw
      (
        get_user-hide c.user_id s.working.users,
        show_user-hide (get_user c.user_id s.working.users) s,
      )
      refl

module _ (c : Caller) where
  show_account-hide :
      (k : ℕ) (o : Option Account) → hide_response (show_account c k o) ≡ show_account c k o
  show_account-hide k none = refl
  show_account-hide k (some a) = elim (Bool-cases (is_foreign c a)) [
    | inl y ↦ rw y refl
    | inr n ↦ rw n refl
  ]

  pub get_account-Seen : (k : ℕ) (s : Session) → Seen (get_account c k) s
  unfolding get_account
  get_account-Seen k s = rw (show_account-hide k (Database.get_account k s.working.accounts)) refl

  abbrev write_account : ℕ → AccountStatus → Action (Unit {0})
  write_account k st = modify_session (λ s. record s {
    working = record (s.working) {
      accounts = modify_account k (set_account_status st) s.working.accounts;
    };
  })

  pub status_of_found-BlindTo :
      (k : ℕ) (f : Option AccountStatus) (o : Option Account) → BlindTo (status_of_found c k f o)
  unfolding write_status
  status_of_found-BlindTo k f none = record { blind = λ s. refl }
  status_of_found-BlindTo k none (some a) = record { blind = λ s. refl }
  status_of_found-BlindTo k (some st) (some a) =
      bind-BlindTo (write_account k st) _ (record { blind = λ s. refl })
        (λ _.
          bind-BlindTo (record_audit_event (status_event c k a.status st)) _
            (record_audit_event-Blind (status_event c k a.status st))
            (λ _.
              bind-BlindTo commit
                (λ _. pure (respond 200 (Body.status_updated (set_account_status st a))))
                commit-Blind (λ _. record { blind = λ s. refl })))

  -- The session at the commit of a new role.
  abbrev with_role : ℕ → User → UserRole → Session → Session
  with_role k u role s =
      let t = record s {
        working = record (s.working) { users = modify_user k (set_role role) s.working.users };
      } in
      add_log (audit_entry (role_event c k u.role role) t) t

  pub role_of_found-Seen :
      (k : ℕ) (f : Option UserRole) (o : Option User) (s : Session)
      → role_of_found c k f (hide_found o) (hide s)
        ≡ (hide_result (role_of_found c k f o s).0, hide (role_of_found c k f o s).1)
  unfolding write_role record_audit_event add_log
  role_of_found-Seen k f none s = refl
  role_of_found-Seen k none (some u) s = refl
  role_of_found-Seen k (some role) (some u) s =
      let t = with_role k u role s in
      let moved = modify_user-hide k (set_role role) s.working.users (λ u. refl) in
      elim (Option-cases (violation t.working)) [
        | inl q ↦ rw (moved, commit, violation-hide t.working, q, moved) refl
        | inr (v, q) ↦ rw (moved, commit, violation-hide t.working, q, moved) refl
      ]

  report-hide : (s : Session) → report (hide s) ≡ report s
  unfolding report transfer_discrepancies total_balances total_credits total_debits
  report-hide s = refl

  abbrev run_event : Report → AuditEvent
  run_event x = record {
    event_type = AuditEventType.reconciliation_run;
    actor_id = none;
    target_user_id = none;
    target_account_id = none;
    details = Details.reconciled x;
  }

  pub run_reconciliation-BlindTo : BlindTo (answer_report reconcile_system_balances)
  unfolding reconcile_system_balances
  run_reconciliation-BlindTo =
      bind-BlindTo reconcile_system_balances (λ x. pure (respond 200 (Body.reconciliation x)))
        (bind-Blind (gets report) _ (gets-Blind report report-hide) (λ x.
          bind-Blind (record_audit_event (run_event x)) _ (record_audit_event-Blind (run_event x))
            (λ _.
              bind-Blind commit (λ _. pure x) commit-Blind (λ _. record { blind = λ s. refl }))))
        (λ x. record { blind = λ s. refl })
