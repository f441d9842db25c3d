-- ===== src/Accounts/Admin/Freezing.antt =====
-- A frozen or closed account takes part in no transfer.
use bank_flow_digital_bankin.Audit.{context_fits}
use bank_flow_digital_bankin.Base.{ℕ, true, none, some, ◌≡◌, ◌≢◌, ◌⊎◌, ◌∙◌, ap, inl, inr}
use bank_flow_digital_bankin.Base.Rows.{key-get, get-modify_self}
use bank_flow_digital_bankin.Models.{Account, AccountStatus, Transaction, UserRole, active}
use bank_flow_digital_bankin.Database.{Session, ok, get_account}
use bank_flow_digital_bankin.Invariant.{IsValid}
use bank_flow_digital_bankin.Http.{Caller, serve}
use bank_flow_digital_bankin.Transfer.{TransferRequest, existing_transfer, execute_transfer}
use bank_flow_digital_bankin.Transfer.Cases.{Booked, transfer_cases}
use bank_flow_digital_bankin.Accounts.Admin.{set_account_status, update_account_status}
use bank_flow_digital_bankin.Accounts.Admin.Status.{
  changed, changed-IsValid, update_account_status-changed,
}

module _ (r : TransferRequest) (s : Session) (k : ℕ) {a : Account}
    (found : get_account k s.working.accounts ≡ some a) (idle : a.status ≢ active) where
  not_booked : (r.sender_id ≡ k) ⊎ (r.receiver_id ≡ k) → Booked r s → ⊥
  not_booked (inl e) b =
      let same : a ≡ b.sender = cc (e, found, b.accepted.found_sender) in
      idle (ap (λ (x : Account). x.status) same ∙ b.accepted.active_sender)
  not_booked (inr e) b =
      let same : a ≡ b.receiver = cc (e, found, b.accepted.found_receiver) in
      idle (ap (λ (x : Account). x.status) same ∙ b.accepted.active_receiver)

-- In a valid session, after an administrator has frozen or closed an account, in a request whose
-- address and id fit the columns of the audit trail, no new transfer from it or to it goes
-- through: the call raises and what is stored stays as it is.
pub inactive_blocks_transfers :
    (c : Caller) (k : ℕ) (st : AccountStatus) (s : Session) (r : TransferRequest) {a : Account}
    → IsValid s
    → c.role ≡ UserRole.admin
    → get_account k s.working.accounts ≡ some a
    → st ≢ active
    → (r.sender_id ≡ k) ⊎ (r.receiver_id ≡ k)
    → existing_transfer r.idempotency_key s.working ≡ none
    → context_fits s.context ≡ true
    → let after = (serve (update_account_status c k (some st)) s).1 in
      ((t : Transaction) → (execute_transfer r after).0 ≢ ok t)
      × ((execute_transfer r after).1.committed ≡ after.committed)
unfolding existing_transfer
inactive_blocks_transfers c k st s r {a} v role found idle ends fresh f =
    let after = changed c k a st s in
    let here : get_account k after.working.accounts ≡ some (set_account_status st a) =
      get-modify_self (λ (a : Account). a.account_id) k (set_account_status st) s.working.accounts
        found (key-get (λ (a : Account). a.account_id) k s.working.accounts found) in
    rw (update_account_status-changed c k st s v role found f).0
      (elim (transfer_cases r after (changed-IsValid c k a st s v found f)) [
        | inl b ↦ absurd (not_booked r after k here idle ends b)
        | inr (inl p) ↦ absurd (cc (p.found, fresh))
        | inr (inr n) ↦ ((λ t h. absurd (cc (h, n.raised))), n.committed)
      ])
