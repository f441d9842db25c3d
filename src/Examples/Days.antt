-- ===== src/Examples/Days.antt =====
-- A day of requests at the small bank.
use bank_flow_digital_bankin.Base.{ℕ, ◌+◌, none, some, true, List, [], ◌∷◌, ◌≡◌, refl, all, map}
use bank_flow_digital_bankin.Base.Int.{pos, ◌-ℤ◌}
use bank_flow_digital_bankin.Base.Decimal.{whole}
use bank_flow_digital_bankin.Models.{User, AuditEventType, Details, customer, admin, frozen}
use bank_flow_digital_bankin.Database.{Session, RequestContext, rollback}
use bank_flow_digital_bankin.Http.{Caller, Body, respond, refuse, admin_required}
use bank_flow_digital_bankin.Invariant.{IsValid}
use bank_flow_digital_bankin.Examples.{bank, bank-IsValid}
use bank_flow_digital_bankin.Accounts.Payload.{given}
use bank_flow_digital_bankin.Reconcile.{report}
use bank_flow_digital_bankin.Audit.{AuditEvent, audit_entry}
use bank_flow_digital_bankin.Middleware.{set_request_id, request_id_or, find_header, after_request}
use bank_flow_digital_bankin.Middleware.Traced.{after_request-traced}
use bank_flow_digital_bankin.System.{World, Request, Arrival, arrive, handle, run}
use bank_flow_digital_bankin.System.Drift.{drift, registered_deposits}
use bank_flow_digital_bankin.System.Balance.{run-drift}
use bank_flow_digital_bankin.System.Explained.{run-explained}
use bank_flow_digital_bankin.System.Statuses.{has_its_status}
use bank_flow_digital_bankin.System.Statuses.Everyone.{run-statuses}
use bank_flow_digital_bankin.System.Secrets.{hide}
use bank_flow_digital_bankin.System.Secrets.Unseen.{hide_responses, run-unseen}
use bank_flow_digital_bankin.TransferRoutes.{an_id, a_key}
use bank_flow_digital_bankin.System.Access.{handle-admin_only, run-healthy}

abbrev world : World
world = record {
  libraries = record {
    generate_password_hash = λ p. p;
    check_password_hash = λ h p. true;
    create_access_token = λ u. u.email;
    is_email = λ e. true;
  };
  environment = λ key. none;
  is_url = λ t. true;
}

abbrev alice : Caller
alice = record { user_id = 1; role = customer }

abbrev operator : Caller
operator = record { user_id = 9; role = admin }

-- A request without an id of its own.
abbrev visit : RequestContext
visit = record {
  x_forwarded_for = none;
  remote_addr = some "10.0.0.7";
  user_agent = none;
  traced_request_id = none;
  x_request_id = none;
}

-- A request from one address, a second after the other.
abbrev sent : ℕ → Request → Arrival
sent now q = record { request = q; context = some visit; now = now }

abbrev all_sent : ℕ → List Request → List Arrival
all_sent now [] = []
all_sent now (q ∷ qs) = sent now q ∷ all_sent (now + 1) qs

abbrev day : List Request
day =
    Request.login (some ("alice@example.com", "secret"))
    ∷ Request.deposit_funds alice (some "d1") 1 (given (whole (pos 2_500)))
    ∷ Request.create_account alice none (λ i. "BF0000000009") (given (whole (pos 1_000)))
    ∷ Request.update_account_status operator 2 (some frozen)
    ∷ []

run-drift_example : drift (run world (all_sent 100 day) bank).1.committed ≡ drift bank.committed
run-drift_example = run-drift world (all_sent 100 day) bank bank-IsValid refl

-- A new customer, a refused registration of the same address, a deposit under a key and its replay.
abbrev busy_day : List Request
busy_day =
    Request.register (λ i. "BF0000000010")
      (record {
        full_name = some "Carol";
        email = some "carol@example.com";
        password = some "long enough";
        initial_deposit = given (whole (pos 7_500));
      })
    ∷ Request.register (λ i. "BF0000000011")
        (record {
          full_name = some "Carol";
          email = some "carol@example.com";
          password = some "long enough";
          initial_deposit = given (whole (pos 10));
        })
    ∷ Request.deposit_funds alice (some "d1") 1 (given (whole (pos 2_500)))
    ∷ Request.deposit_funds alice (some "d1") 1 (given (whole (pos 2_500)))
    ∷ Request.create_account alice (some "d1") (λ i. "BF0000000009") (given (whole (pos 1_000)))
    ∷ []

run-explained_example :
    let after = (run world (all_sent 100 busy_day) bank).1.committed in
    drift after -ℤ registered_deposits after.audit_logs
    ≡ drift bank.committed -ℤ registered_deposits bank.committed.audit_logs
run-explained_example = run-explained world (all_sent 100 busy_day) bank bank-IsValid refl

run-statuses_example : all has_its_status (run world (all_sent 100 busy_day) bank).0 ≡ true
run-statuses_example = run-statuses world (all_sent 100 busy_day) bank bank-IsValid

-- The bank with other password hashes, and requests that read the users.
abbrev other_hashes : Session
other_hashes =
    let users = map (λ (u : User). record u { password_hash = u.email }) bank.working.users in
    record bank {
      committed = record (bank.committed) { users = users };
      working = record (bank.working) { users = users };
    }

abbrev looks : List Request
looks =
    Request.me alice
    ∷ Request.update_user_role operator 1 (some admin)
    ∷ Request.create_transfer operator (record {
      sender_account_id = an_id 1;
      receiver_account_id = an_id 2;
      amount = given (whole (pos 500));
      idempotency_key = a_key none;
    })
    ∷ Request.run_reconciliation operator
    ∷ []

run-unseen_example :
    (hide_responses (run world (all_sent 100 looks) bank).0
      ≡ hide_responses (run world (all_sent 100 looks) other_hashes).0)
    × (hide (run world (all_sent 100 looks) bank).1
        ≡ hide (run world (all_sent 100 looks) other_hashes).1)
run-unseen_example = run-unseen world (all_sent 100 looks) bank other_hashes refl refl

run-healthy_example :
    let before =
      arrive
        (sent 200 (Request.run_reconciliation operator))
        (run world (all_sent 100 day) bank).1 in
    let (r, after) = handle world (Request.run_reconciliation operator) before in
    IsValid before
    × (r ≡ respond 200 (Body.reconciliation (report before)))
    × ((report before).is_healthy ≡ true)
    × ((report before).transfer_discrepancies_count ≡ 0)
    × IsValid after
run-healthy_example =
    run-healthy world (all_sent 100 day) bank (sent 200 (Request.run_reconciliation operator))
      operator bank-IsValid refl refl

handle-admin_only_example :
    handle world (Request.update_account_status alice 2 (some frozen)) bank
    ≡ (refuse 403 admin_required, rollback bank)
handle-admin_only_example =
    handle-admin_only world (Request.update_account_status alice 2 (some frozen)) bank {c = alice}
      refl refl

abbrev traced_bank : Session
traced_bank = record bank { context = some (set_request_id "4f1c" visit) }

abbrev alice_login : AuditEvent
alice_login = record {
  event_type = AuditEventType.login_success;
  actor_id = some 1;
  target_user_id = none;
  target_account_id = none;
  details = Details.logged_in "alice@example.com";
}

after_request-traced_example :
    let out = after_request (set_request_id "4f1c" visit) "/api/v1/auth/login" [] in
    (find_header "X-Request-ID" out ≡ some (request_id_or visit.x_request_id "4f1c"))
    × ((audit_entry alice_login traced_bank).request_id ≡ find_header "X-Request-ID" out)
    × (find_header "Cache-Control" out ≡ some "no-store, no-cache, must-revalidate, private")
    × (find_header "X-Frame-Options" out ≡ some "DENY")
after_request-traced_example =
    after_request-traced alice_login traced_bank "4f1c" "/api/v1/auth/login" visit [] refl refl
