-- ===== src/System/Access.antt =====
-- The requests for administrators (`if role != UserRole.ADMIN.value: return ..., 403`), and what the
-- reconciliation finds after other requests.
use bank_flow_digital_bankin.Base.{Option, none, some, true, false, List, ◌≡◌, refl, arith}
use bank_flow_digital_bankin.Models.{UserRole, is_admin}
use bank_flow_digital_bankin.Database.{Session, rollback}
use bank_flow_digital_bankin.Audit.{context_fits}
use bank_flow_digital_bankin.Http.{Caller, Body, respond, refuse, admin_required}
use bank_flow_digital_bankin.Invariant.{IsValid}
use bank_flow_digital_bankin.Reconcile.{report}
use bank_flow_digital_bankin.Reconcile.Healthy.{reconcile-IsHealthy}
use bank_flow_digital_bankin.Accounts.Admin.{
  update_account_status, update_user_role, run_reconciliation,
}
use bank_flow_digital_bankin.Profiles.{get_user_kyc_status, update_user_kyc_status}
use bank_flow_digital_bankin.Branding.{update_branding}
use bank_flow_digital_bankin.System.Keeps.{arrive-IsValid, handle-IsValid, run-IsValid}
use bank_flow_digital_bankin.System.{World, Request, Arrival, arrive, dispatch, handle, run}

-- Who sends a request that is for administrators only.
abbrev pub admin_caller : Request → Option Caller
admin_caller (Request.update_account_status c k f) = some c
admin_caller (Request.update_user_role c k f) = some c
admin_caller (Request.run_reconciliation c) = some c
admin_caller (Request.get_user_kyc_status c k) = some c
admin_caller (Request.update_user_kyc_status c k f) = some c
admin_caller (Request.update_branding c p) = some c
admin_caller _ = none

some-injective : {a b : Caller} → some a ≡ some b → a ≡ b
some-injective h = cc h

-- A request that is for administrators (a change of an account's status, of a user's role, of a
-- KYC status or of the branding, a look at a KYC status, a reconciliation) from a caller who is
-- none is refused with 403, and the session is what a rollback leaves.
pub handle-admin_only :
    (w : World) (q : Request) (s : Session) {c : Caller}
    → admin_caller q ≡ some c
    → is_admin c.role ≡ false
    → handle w q s ≡ (refuse 403 admin_required, rollback s)
unfolding handle dispatch update_account_status update_user_role run_reconciliation
    get_user_kyc_status update_user_kyc_status update_branding
handle-admin_only w (Request.update_account_status d k f) s h n = rw (some-injective h, n) refl
handle-admin_only w (Request.update_user_role d k f) s h n = rw (some-injective h, n) refl
handle-admin_only w (Request.run_reconciliation d) s h n = rw (some-injective h, n) refl
handle-admin_only w (Request.get_user_kyc_status d k) s h n = rw (some-injective h, n) refl
handle-admin_only w (Request.update_user_kyc_status d k f) s h n = rw (some-injective h, n) refl
handle-admin_only w (Request.update_branding d p) s h n = rw (some-injective h, n) refl
handle-admin_only w _ s h n = absurd (ground (arith, h))

-- Any sequence of requests to the routes, each with its own headers and time and whatever they
-- answer, takes a valid session to a valid one (the stored tables pass every check of the database
-- that is modelled, each transaction has its pair of ledger entries or none, every stored response
-- is one of its endpoint, and nothing is pending); an administrator's reconciliation, in a request
-- whose address and id fit the columns of the audit trail, is then answered 200 with a report that
-- is healthy and counts no discrepancy, and leaves a valid session.
pub run-healthy :
    (w : World) (qs : List Arrival) (s : Session) (q : Arrival) (c : Caller)
    → IsValid s
    → c.role ≡ UserRole.admin
    → context_fits q.context ≡ true
    → let before = arrive q (run w qs s).1 in
      let (r, after) = handle w (Request.run_reconciliation c) before in
      IsValid before
      × (r ≡ respond 200 (Body.reconciliation (report before)))
      × ((report before).is_healthy ≡ true)
      × ((report before).transfer_discrepancies_count ≡ 0)
      × IsValid after
unfolding handle dispatch run_reconciliation
run-healthy w qs s q c v role f =
    let before = arrive q (run w qs s).1 in
    let u = arrive-IsValid q (run-IsValid w qs s v) in
    let (answered, healthy, none_found, valid_after, stored_rows) =
      reconcile-IsHealthy before u f in
    (
      u,
      rw (role, answered) refl,
      healthy,
      none_found,
      handle-IsValid w (Request.run_reconciliation c) before u,
    )
