-- ===== src/Reconcile/Healthy.antt =====
-- The reconciliation of valid tables finds nothing, and is itself a request that keeps them valid.
use bank_flow_digital_bankin.Base.{
  ◌+◌, ◌++◌, [], ◌∷◌, none, true, ◌≡◌, refl, ap, arith, all-append_one,
}
use bank_flow_digital_bankin.Models.{AuditLog, AuditEventType, Details}
use bank_flow_digital_bankin.Database.{Db, Session, ok, violation, integrity_ok, data_ok, log_fits}
use bank_flow_digital_bankin.Database.Sound.{sound}
use bank_flow_digital_bankin.Invariant.{IsValid, IsStored, IsStored-mono, seen}
use bank_flow_digital_bankin.Audit.{
  AuditEvent, add_log, audit_entry, context_fits, audit_entry-fits,
}
use bank_flow_digital_bankin.Reconcile.{report, reconcile_system_balances}
use bank_flow_digital_bankin.Reconcile.Pairs.{transfer_discrepancies-Paired}

-- An entry that fits its columns is no violation.
pub violation-add_log :
    (d : Db) (l : AuditLog)
    → violation d ≡ none
    → log_fits l ≡ true
    → violation (record d { audit_logs = d.audit_logs ++ l ∷ [] }) ≡ none
unfolding violation integrity_ok data_ok
violation-add_log d l h f =
    ground (arith, all-append_one log_fits d.audit_logs l (sound d h).logs_fit f)

-- The entry that the run leaves in the audit trail.
abbrev run_event : Session → AuditEvent
run_event s = record {
  event_type = AuditEventType.reconciliation_run;
  actor_id = none;
  target_user_id = none;
  target_account_id = none;
  details = Details.reconciled (report s);
}

abbrev pub run_entry : Session → AuditLog
run_entry s = audit_entry (run_event s) s

-- A report of tables in which every transaction has its pair.
report-IsHealthy :
    (s : Session)
    → IsStored s.ids s.working
    → ((report s).is_healthy ≡ true) × ((report s).transfer_discrepancies_count ≡ 0)
unfolding report
report-IsHealthy s v =
    let none_found = transfer_discrepancies-Paired s.working v.paired in
    (rw none_found refl, none_found)

abbrev reconciled_db : Session → Db
reconciled_db s = record (s.working) { audit_logs = s.working.audit_logs ++ run_entry s ∷ [] }

-- The run in closed form.
reconcile-eq :
    (s : Session)
    → violation s.working ≡ none
    → context_fits s.context ≡ true
    → reconcile_system_balances s ≡ (
      ok (report s),
      record s {
        committed = reconciled_db s;
        working = reconciled_db s;
        ids = record (s.ids) { log = s.ids.log + 1 };
      },
    )
unfolding reconcile_system_balances add_log
reconcile-eq s h f =
    ground (arith, violation-add_log s.working (run_entry s) h (audit_entry-fits (run_event s) s f))

reconciled-IsStored :
    (s : Session)
    → IsStored s.ids s.working
    → context_fits s.context ≡ true
    → IsStored s.ids (reconciled_db s)
reconciled-IsStored s v f = record {
  sound = violation-add_log s.working (run_entry s) v.sound (audit_entry-fits (run_event s) s f);
  transactions_below = v.transactions_below;
  links_below = v.links_below;
  records_answer = v.records_answer;
  paired = v.paired;
  accounts_below = v.accounts_below;
}

-- On valid tables, in a request whose address and id fit the audit trail, the reconciliation returns its report, which is healthy and counts no
-- discrepancy; it stores one more audit entry, no other change, and the session stays valid.
pub reconcile-IsHealthy :
    (s : Session)
    → IsValid s
    → context_fits s.context ≡ true
    → ((reconcile_system_balances s).0 ≡ ok (report s))
      × ((report s).is_healthy ≡ true)
      × ((report s).transfer_discrepancies_count ≡ 0)
      × IsValid (reconcile_system_balances s).1
      × ((reconcile_system_balances s).1.committed
          ≡ record (s.committed) { audit_logs = s.committed.audit_logs ++ run_entry s ∷ [] })
reconcile-IsHealthy s v f =
    let w = seen v in
    rw (reconcile-eq s w.sound f) (
      refl,
      (report-IsHealthy s w).0,
      (report-IsHealthy s w).1,
      record {
        clean = refl;
        stored = IsStored-mono (omega arith) (omega arith) (reconciled-IsStored s w f);
      },
      ap (λ (d : Db). record d { audit_logs = d.audit_logs ++ run_entry s ∷ [] }) v.clean,
    )
