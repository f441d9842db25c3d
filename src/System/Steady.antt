-- ===== src/System/Steady.antt =====
-- app/routes: the books under the requests that work beside the accounts and the ledger.
use bank_flow_digital_bankin.Base.{ℕ, Option, none, some, Bool-cases, inl, inr, ◌≡◌, refl, ◌∙◌, ap}
use bank_flow_digital_bankin.Models.{User, UserRole, UserProfile, KycStatus, is_admin}
use bank_flow_digital_bankin.Database.{Session, pure, commit, get_user}
use bank_flow_digital_bankin.Audit.{add_log, record_audit_event}
use bank_flow_digital_bankin.Http.{Caller, Body, respond, serve}
use bank_flow_digital_bankin.Invariant.{IsValid}
use bank_flow_digital_bankin.Reconcile.{reconcile_system_balances}
use bank_flow_digital_bankin.Accounts.Admin.{
  update_user_role, role_of_found, write_role, answer_report, run_reconciliation,
}
use bank_flow_digital_bankin.Profiles.{
  find_profile, get_my_profile, update_my_profile, update_loaded, update_user_kyc_status,
  review_loaded, review_found, get_user_kyc_status,
}
use bank_flow_digital_bankin.Profiles.Payload.{ProfilePayload, ProfilePatch, load_profile_patch}
use bank_flow_digital_bankin.Profiles.Fits.{load-fits}
use bank_flow_digital_bankin.Profiles.Keeps.{get_my_profile-shown, own-IsEnsured, with_own}
use bank_flow_digital_bankin.Profiles.Own.{write_profile-rewritten, rewritten}
use bank_flow_digital_bankin.System.Drift.{
  books, registered_deposits, other_entry, stored_books, books-beside, commit_beside-books,
  bind_last-books, serve-books,
}

module _ (c : Caller) (s : Session) (v : IsValid s) where
  review_found-books :
      (k : ℕ) (st : KycStatus) (o : Option UserProfile)
      → stored_books (review_found k st o s).1 ≡ stored_books s
  review_found-books k st none = refl
  review_found-books k st (some p) =
      bind_last-books _ _ (λ _ u. refl) commit _ (commit_beside-books s _ v refl refl refl refl)

  review_loaded-books :
      (k : ℕ) (o : Option KycStatus) → stored_books (review_loaded k o s).1 ≡ stored_books s
  review_loaded-books k none = refl
  review_loaded-books k (some st) = review_found-books k st (find_profile k s.working.user_profiles)

  pub update_user_kyc_status-books :
      (k : ℕ) (o : Option KycStatus)
      → stored_books (serve (update_user_kyc_status c k o) s).1 ≡ stored_books s
  unfolding update_user_kyc_status
  update_user_kyc_status-books k o = elim (Bool-cases (is_admin c.role)) [
    | inl y ↦ rw y (serve-books (review_loaded k o) s ∙ review_loaded-books k o)
    | inr n ↦ rw n refl
  ]

  pub get_user_kyc_status-books :
      (k : ℕ) → stored_books (serve (get_user_kyc_status c k) s).1 ≡ stored_books s
  unfolding get_user_kyc_status
  get_user_kyc_status-books k = elim (Bool-cases (is_admin c.role)) [
    | inl y ↦ rw y refl
    | inr n ↦ rw n refl
  ]

  role_of_found-books :
      (k : ℕ) (field : Option UserRole) (o : Option User)
      → stored_books (role_of_found c k field o s).1 ≡ stored_books s
  unfolding write_role record_audit_event add_log
  role_of_found-books k field none = refl
  role_of_found-books k none (some u) = refl
  role_of_found-books k (some role) (some u) =
      bind_last-books _ _ (λ _ u. refl) commit _
        (commit_beside-books s _ v refl refl refl (other_entry s.working.audit_logs _ refl))

  pub update_user_role-books :
      (k : ℕ) (o : Option UserRole)
      → stored_books (serve (update_user_role c k o) s).1 ≡ stored_books s
  unfolding update_user_role
  update_user_role-books k o = elim (Bool-cases (is_admin c.role)) [
    | inl y ↦ rw y (
        serve-books (role_of_found c k o (get_user k s.working.users)) s
        ∙ role_of_found-books k o (get_user k s.working.users))
    | inr n ↦ rw n refl
  ]

  reconcile-books : stored_books (reconcile_system_balances s).1 ≡ stored_books s
  unfolding reconcile_system_balances record_audit_event add_log
  reconcile-books =
      bind_last-books _ _ (λ _ u. refl) commit _
        (commit_beside-books s _ v refl refl refl (other_entry s.working.audit_logs _ refl))

  pub run_reconciliation-books : stored_books (serve (run_reconciliation c) s).1 ≡ stored_books s
  unfolding run_reconciliation
  run_reconciliation-books = elim (Bool-cases (is_admin c.role)) [
    | inl y ↦ rw y (
        serve-books (answer_report reconcile_system_balances) s
        ∙ bind_last-books (λ x. pure (respond 200 (Body.reconciliation x))) (stored_books s)
            (λ _ u. refl) reconcile_system_balances s reconcile-books)
    | inr n ↦ rw n refl
  ]

  own-books : books (with_own c.user_id s).working ≡ stored_books s
  own-books =
      let o = own-IsEnsured c.user_id s v in
      books-beside s.working (with_own c.user_id s).working o.accounts o.entries
        (ap registered_deposits o.logs)
      ∙ ap books v.clean

  pub get_my_profile-books : stored_books (serve (get_my_profile c) s).1 ≡ stored_books s
  get_my_profile-books = rw (get_my_profile-shown c s v).0 own-books

  loaded-books :
      (today : ℕ) (payload : ProfilePayload) (o : Option ProfilePatch)
      → load_profile_patch today payload ≡ o
      → stored_books (serve (update_loaded c o) s).1 ≡ stored_books s
  loaded-books today payload none h = refl
  loaded-books today payload (some x) h =
      let fits = load-fits today payload {x = x} h in
      rw (write_profile-rewritten c x s v fits) (
        books-beside (with_own c.user_id s).working (rewritten c x s v fits).working refl refl refl
        ∙ own-books)

  pub update_my_profile-books :
      (today : ℕ) (payload : ProfilePayload)
      → stored_books (serve (update_my_profile c today payload) s).1 ≡ stored_books s
  unfolding update_my_profile
  update_my_profile-books today payload =
      loaded-books today payload (load_profile_patch today payload) refl
