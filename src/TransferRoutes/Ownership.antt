-- ===== src/TransferRoutes/Ownership.antt =====
-- Who may send: `create_transfer` keeps the invariant, and a customer moves no money out of the
-- accounts of others.
use bank_flow_digital_bankin.Base.{
  ℕ, Option, none, some, false, ◌≡◌, ◌≢◌, refl, ◌∙◌, arith, inl, inr, Bool-cases, ◌==◌, ap,
}
use bank_flow_digital_bankin.Base.Int.{ℤ, ◌≤ℤ◌}
use bank_flow_digital_bankin.Base.Decimal.{sum_column, sum_column-ge, above_zero}
use bank_flow_digital_bankin.Models.{Account, UserRole}
use bank_flow_digital_bankin.Database.{Session, Result, ok, err, get_account, set_balance}
use bank_flow_digital_bankin.Http.{Caller, is_foreign, serve, finish, Response}
use bank_flow_digital_bankin.Invariant.{IsValid}
use bank_flow_digital_bankin.Invariant.Ends.{Ends, serve-IsValid}
use bank_flow_digital_bankin.Transfer.{TransferRequest, execute_transfer}
use bank_flow_digital_bankin.Transfer.Cases.{Booked, transfer_cases}
use bank_flow_digital_bankin.Transfer.Money.{Booked-moves}
use bank_flow_digital_bankin.Transfer.Keeps.{execute_transfer-IsValid}
use bank_flow_digital_bankin.TransferRoutes.{
  TransferPayload, load_transfer, create_loaded, create_transfer, send_from,
}

module _ (c : Caller) (s : Session) (v : IsValid s) where
  send_from-Ends : (r : TransferRequest) (o : Option Account) → Ends (send_from c r o s)
  send_from-Ends r none = v
  send_from-Ends r (some a) = elim (Bool-cases (is_foreign c a)) [
    | inl e ↦ rw e v
    | inr e ↦ rw e (execute_transfer-IsValid r s v)
  ]

  create_loaded-Ends : (o : Option TransferRequest) → Ends (create_loaded c o s)
  create_loaded-Ends none = v
  create_loaded-Ends (some r) = send_from-Ends r (get_account r.sender_id s.working.accounts)

-- A transfer request takes a valid session to a valid one, whatever it answers.
pub create_transfer-IsValid :
    (c : Caller) (p : TransferPayload) (s : Session)
    → IsValid s
    → IsValid (serve (create_transfer c p) s).1
unfolding create_transfer
create_transfer-IsValid c p s v =
    serve-IsValid (create_transfer c p) s (create_loaded-Ends c s v (load_transfer p))

owner :
    (c : Caller) (b : Account)
    → c.role ≡ UserRole.customer
    → is_foreign c b ≡ false
    → b.user_id ≡ c.user_id
owner c b role own = ground arith

finish-committed : (r : Result Response) (s : Session) → (finish r s).1.committed ≡ s.committed
finish-committed (ok r) s = refl
finish-committed (err e) s = refl

-- The stored balance of account `j` is at least `x`.
abbrev pub AtLeast : ℤ → ℕ → Session → Type 0
AtLeast x j s = (b : Account) × (get_account j s.committed.accounts ≡ some b) × (x ≤ℤ b.balance)

module _ (s : Session) (v : IsValid s) (j : ℕ) (a : Account)
    (found : get_account j s.working.accounts ≡ some a) where
  kept : (t : Session) → t.committed ≡ s.committed → AtLeast a.balance j t
  kept t e = (a, rw (e, ← v.clean) found, omega arith)

  moved :
      (r : TransferRequest)
      → Booked r s
      → j ≢ r.sender_id
      → AtLeast a.balance j (execute_transfer r s).1
  moved r k other =
      let (to_sender, to_receiver, rest) = Booked-moves r s k in
      elim (Bool-cases (j == r.receiver_id)) [
        | inl e ↦
            let q : j ≡ r.receiver_id = ground arith in
            let same : a ≡ k.receiver = cc (q, found, k.accepted.found_receiver) in
            (
              set_balance (sum_column k.receiver.balance r.amount) k.receiver,
              rw q to_receiver,
              rw same (sum_column-ge k.receiver.balance r.amount (above_zero r.amount k.positive)),
            )
        | inr e ↦ (a, rest j other (λ h. ground arith) ∙ found, omega arith)
      ]

  after_transfer :
      (r : TransferRequest) → j ≢ r.sender_id → AtLeast a.balance j (execute_transfer r s).1
  after_transfer r other = elim (transfer_cases r s v) [
    | inl k ↦ moved r k other
    | inr (inl k) ↦ rw k.result (kept s refl)
    | inr (inr k) ↦ kept (execute_transfer r s).1 k.committed
  ]

  module _ (c : Caller) (role : c.role ≡ UserRole.customer) (foreign : a.user_id ≢ c.user_id) where
    after_sending :
        (r : TransferRequest) (o : Option Account)
        → get_account r.sender_id s.working.accounts ≡ o
        → AtLeast a.balance j (send_from c r o s).1
    after_sending r none e = kept s refl
    after_sending r (some b) e = elim (Bool-cases (is_foreign c b)) [
      | inl out ↦ rw out (kept s refl)
      | inr own ↦ rw own (
          after_transfer r (λ h.
            let same : a ≡ b = cc (h, found, e) in
            foreign (ap (λ (x : Account). x.user_id) same ∙ owner c b role own)))
    ]

    after_loading : (o : Option TransferRequest) → AtLeast a.balance j (create_loaded c o s).1
    after_loading none = kept s refl
    after_loading (some r) = after_sending r (get_account r.sender_id s.working.accounts) refl

-- From a valid session a transfer request of a customer, whatever its payload, lowers the balance
-- of no account of another user.
pub create_transfer-keeps_others :
    (c : Caller) (p : TransferPayload) (s : Session) (j : ℕ) {a : Account}
    → IsValid s
    → c.role ≡ UserRole.customer
    → get_account j s.working.accounts ≡ some a
    → a.user_id ≢ c.user_id
    → (b : Account) × (get_account j (serve (create_transfer c p) s).1.committed.accounts ≡ some b)
      × (a.balance ≤ℤ b.balance)
unfolding create_transfer
create_transfer-keeps_others c p s j {a} v role found foreign =
    let (x, t) = create_loaded c (load_transfer p) s in
    rw (finish-committed x t) (after_loading s v j a found c role foreign (load_transfer p))
