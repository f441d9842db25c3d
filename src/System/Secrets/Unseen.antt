-- ===== src/System/Secrets/Unseen.antt =====
-- app/routes: requests that neither register nor log in, on tables that differ in the password hashes.
use bank_flow_digital_bankin.Base.{
  Bool, true, false, List, [], ◌∷◌, any, Bool-cases, inl, inr, ◌≡◌, refl, arith, sym, ap, ◌∙◌,
  if◌then◌else◌,
}
use bank_flow_digital_bankin.Models.{is_admin}
use bank_flow_digital_bankin.Database.{Session, Action, Result, ok, get_user}
use bank_flow_digital_bankin.Http.{Caller, Response, refuse, admin_required}
use bank_flow_digital_bankin.Accounts.Admin.{
  update_account_status, role_of_found, update_user_role, run_reconciliation,
}
use bank_flow_digital_bankin.Accounts.Views.{list_accounts}
use bank_flow_digital_bankin.Database
use bank_flow_digital_bankin.Profiles.{
  find_profile, show_profile, update_my_profile, get_user_kyc_status, update_user_kyc_status,
}
use bank_flow_digital_bankin.Profiles.Payload.{load_profile_patch}
use bank_flow_digital_bankin.Branding.{update_branding, get_branding, effective_config}
use bank_flow_digital_bankin.Branding.Payload.{load_branding_patch}
use bank_flow_digital_bankin.System.Secrets.{
  hide, hide_response, hide_result, serve-hide, get_user-hide,
}
use bank_flow_digital_bankin.System.Secrets.Handlers.{create_account-BlindTo, deposit_funds-BlindTo}
use bank_flow_digital_bankin.System.Secrets.Transfers.{create_transfer-BlindTo}
use bank_flow_digital_bankin.System.Secrets.Others.{
  Seen, me-Seen, get_account-Seen, status_of_found-BlindTo, role_of_found-Seen,
  run_reconciliation-BlindTo,
}
use bank_flow_digital_bankin.System.Secrets.Settings.{
  get_my_profile-BlindTo, update_loaded-BlindTo, review_loaded-BlindTo, show_profile-hide,
  branding_loaded-BlindTo,
}
use bank_flow_digital_bankin.System.{World, Request, Arrival, arrive, dispatch, handle, run}

-- The requests that hash a password or check one.
abbrev pub takes_password : Request → Bool
takes_password (Request.register draw p) = true
takes_password (Request.login p) = true
takes_password _ = false

abbrev pub passes_password : Arrival → Bool
passes_password q = takes_password q.request

by_role : Caller → Session → Result Response × Session → Result Response × Session
by_role c s x = if is_admin c.role then x else (ok (refuse 403 admin_required), s)

by_role-hide :
    (c : Caller) (s : Session) (x y : Result Response × Session)
    → y ≡ (hide_result x.0, hide x.1)
    → by_role c (hide s) y ≡ (hide_result (by_role c s x).0, hide (by_role c s x).1)
unfolding by_role
by_role-hide c s x y h = elim (Bool-cases (is_admin c.role)) [ inl a ↦ rw a h | inr n ↦ rw n refl ]

abbrev pub hide_responses : List Response → List Response
hide_responses [] = []
hide_responses (r ∷ rs) = hide_response r ∷ hide_responses rs

module _ (w : World) where
  dispatch-Seen : (q : Request) (s : Session) → takes_password q ≡ false → Seen (dispatch w q) s
  unfolding dispatch list_accounts get_branding effective_config update_account_status
      update_user_role run_reconciliation get_user_kyc_status update_user_kyc_status
      update_my_profile update_branding by_role
  dispatch-Seen (Request.register draw p) s n = absurd (ground (arith, n))
  dispatch-Seen (Request.login p) s n = absurd (ground (arith, n))
  dispatch-Seen (Request.me c) s n = me-Seen c s
  dispatch-Seen (Request.list_accounts c) s n = refl
  dispatch-Seen (Request.get_account c k) s n = get_account-Seen c k s
  dispatch-Seen (Request.create_account c key draw f) s n =
      (create_account-BlindTo c key draw f).blind s
  dispatch-Seen (Request.deposit_funds c key k f) s n = (deposit_funds-BlindTo c key k f).blind s
  dispatch-Seen (Request.update_account_status c k f) s n =
      by_role-hide c s _ _
        ((status_of_found-BlindTo c k f (Database.get_account k s.working.accounts)).blind s)
  dispatch-Seen (Request.update_user_role c k f) s n =
      by_role-hide c s (role_of_found c k f (get_user k s.working.users) s) _ (
        rw (get_user-hide k s.working.users)
          (role_of_found-Seen c k f (get_user k s.working.users) s))
  dispatch-Seen (Request.run_reconciliation c) s n =
      by_role-hide c s _ _ ((run_reconciliation-BlindTo c).blind s)
  dispatch-Seen (Request.create_transfer c p) s n = (create_transfer-BlindTo c p).blind s
  dispatch-Seen (Request.get_my_profile c) s n = (get_my_profile-BlindTo c).blind s
  dispatch-Seen (Request.update_my_profile c today p) s n =
      (update_loaded-BlindTo c (load_profile_patch today p)).blind s
  dispatch-Seen (Request.get_user_kyc_status c k) s n =
      by_role-hide c s (ok (show_profile k (find_profile k s.working.user_profiles)), s) _
        (rw (show_profile-hide c k (find_profile k s.working.user_profiles)) refl)
  dispatch-Seen (Request.update_user_kyc_status c k f) s n =
      by_role-hide c s _ _ ((review_loaded-BlindTo c k f).blind s)
  dispatch-Seen Request.get_branding s n = refl
  dispatch-Seen (Request.update_branding c p) s n = by_role-hide c s _ _ (
      (branding_loaded-BlindTo c w.environment
          (load_branding_patch w.is_url w.libraries.is_email p)).blind
        s)

  handle-hide :
      (q : Request) (s : Session)
      → takes_password q ≡ false
      → handle w q (hide s) ≡ (hide_response (handle w q s).0, hide (handle w q s).1)
  unfolding handle
  handle-hide q s n = serve-hide (dispatch w q) s (dispatch-Seen q s n)

  run-hide :
      (qs : List Arrival) (s : Session)
      → any passes_password qs ≡ false
      → run w qs (hide s) ≡ (hide_responses (run w qs s).0, hide (run w qs s).1)
  unfolding run
  run-hide [] s n = refl
  run-hide (q ∷ qs) s n =
      rw
        (
          handle-hide q.request (arrive q s) (ground (arith, n)),
          run-hide qs (handle w q.request (arrive q s)).1 (ground (arith, n)),
        )
        refl

  -- Any sequence of requests that neither register nor log in, run from two sessions that differ
  -- at most in the password hashes of the users, gives the same responses and leaves the same
  -- session, but for the password hashes in the rows of users.
  pub run-unseen :
      (qs : List Arrival) (s t : Session)
      → any passes_password qs ≡ false
      → hide s ≡ hide t
      → (hide_responses (run w qs s).0 ≡ hide_responses (run w qs t).0)
        × (hide (run w qs s).1 ≡ hide (run w qs t).1)
  run-unseen qs s t n h =
      let same = sym (run-hide qs s n) ∙ ap (run w qs) h ∙ run-hide qs t n in
      (
        ap (λ (x : List Response × Session). x.0) same,
        ap (λ (x : List Response × Session). x.1) same,
      )
