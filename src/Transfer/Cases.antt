-- ===== src/Transfer/Cases.antt =====
-- The three ways in which `execute_transfer` ends, each with all that is known there. The properties of
-- the transfer engine are read off from these.
use bank_flow_digital_bankin.Base.{
  none, some, true, false, ◌≡◌, ◌≢◌, ◌⊎◌, refl, arith, Option-cases, inl, inr, Bool-cases, ◌∙◌, ap,
}
use bank_flow_digital_bankin.Base.Int.{pos}
use bank_flow_digital_bankin.Base.Decimal.{at_most}
use bank_flow_digital_bankin.Models.{Account, Transaction, active}
use bank_flow_digital_bankin.Database.{
  Session, Result, ok, err, Error, invalid_transfer, idempotency_key_conflict, rollback,
  or_rollback, violation, get_account,
}
use bank_flow_digital_bankin.Invariant.{IsValid, seen}
use bank_flow_digital_bankin.Transfer.{
  TransferRequest, same_parameters, existing_transfer, book_transfer, execute_transfer,
  notify_sender,
}
use bank_flow_digital_bankin.Transfer.Guards.{validation}
use bank_flow_digital_bankin.Transfer.Outcome.{by_key, by_accounts, execute_transfer-outcome}
use bank_flow_digital_bankin.Transfer.Booking.{
  tx, booked_db, booked, book_transfer-booked, book_transfer-err, book_transfer-flushed,
  notify_sender-db,
}

module _ (r : TransferRequest) (s : Session) where
  -- The two accounts of a request that passes the guards.
  pub record Accepted (a b : Account) : Type 0 where
    pub distinct : r.sender_id ≢ r.receiver_id
    pub found_sender : get_account r.sender_id s.working.accounts ≡ some a
    pub found_receiver : get_account r.receiver_id s.working.accounts ≡ some b
    pub active_sender : a.status ≡ active
    pub active_receiver : b.status ≡ active
    pub covered : at_most r.amount a.balance ≡ true

  pub record Booked : Type 0 where
    pub sender : Account
    pub receiver : Account
    pub accepted : Accepted sender receiver
    pub positive : at_most r.amount (pos 0) ≡ false
    pub fresh : existing_transfer r.idempotency_key s.working ≡ none
    pub checked : violation (booked_db r sender receiver s) ≡ none
    pub result : execute_transfer r s ≡ (
      ok (tx r sender receiver s),
      (notify_sender r s.ids.transaction sender (booked r sender receiver s)).1,
    )

  pub record Replayed : Type 0 where
    pub stored : Transaction
    pub found : existing_transfer r.idempotency_key s.working ≡ some stored
    pub same : same_parameters r stored ≡ true
    pub positive : at_most r.amount (pos 0) ≡ false
    pub result : execute_transfer r s ≡ (ok stored, s)

  pub record Refused : Type 0 where
    pub error : Error
    pub raised : (execute_transfer r s).0 ≡ err error
    pub committed : (execute_transfer r s).1.committed ≡ s.committed
    pub working : (execute_transfer r s).1.working ≡ s.committed
    pub outbox : (execute_transfer r s).1.outbox ≡ s.outbox

  -- A refusal that rolls the session back.
  refused_rollback :
      (e : Error) (t : Session)
      → execute_transfer r s ≡ (err e, rollback t)
      → t.committed ≡ s.committed
      → t.outbox ≡ s.outbox
      → Refused
  refused_rollback e t q same quiet = record {
    error = e;
    raised = ap (λ (x : Result Transaction × Session). x.0) q;
    committed = ap (λ (x : Result Transaction × Session). x.1.committed) q ∙ same;
    working = ap (λ (x : Result Transaction × Session). x.1.working) q ∙ same;
    outbox = ap (λ (x : Result Transaction × Session). x.1.outbox) q ∙ quiet;
  }

  pub validation-Accepted :
      (a b : Account) → validation r s.working.accounts ≡ ok (a, b) → Accepted a b
  validation-Accepted a b h = ground arith

  module _ (v : IsValid s) (positive : at_most r.amount (pos 0) ≡ false) where
    -- From here on the amount is positive, so the outcome is that of the key.
    keyed :
        (o : _)
        → existing_transfer r.idempotency_key s.working ≡ o
        → execute_transfer r s ≡ by_key r s o
    keyed o e = execute_transfer-outcome r s ∙ rw (positive, e)

    replay_cases :
        (t : Transaction)
        → existing_transfer r.idempotency_key s.working ≡ some t
        → Replayed ⊎ Refused
    replay_cases t e = elim (Bool-cases (same_parameters r t)) [
      | inl same ↦ inl (record {
        stored = t;
        found = e;
        same = same;
        positive = positive;
        result = keyed (some t) e ∙ rw same;
      })
      | inr other ↦
          inr (refused_rollback idempotency_key_conflict s (keyed (some t) e ∙ rw other) refl refl)
    ]

    module _ (fresh : existing_transfer r.idempotency_key s.working ≡ none) where
      accounted :
          (x : Result (Account × Account))
          → validation r s.working.accounts ≡ x
          → execute_transfer r s ≡ by_accounts r s x
      accounted x e = keyed none fresh ∙ rw e

      book_cases :
          (a b : Account)
          → Accepted a b
          → (execute_transfer r s ≡ or_rollback (book_transfer r a b) s)
          → (x : Result Transaction) → (book_transfer r a b s).0 ≡ x
          → Booked ⊎ Refused
      book_cases a b acc q (err e) h = inr (
          refused_rollback e (book_transfer r a b s).1 (q ∙ rw h) (book_transfer-err r a b s e h).0
            (book_transfer-err r a b s e h).1)
      book_cases a b acc q (ok t) h =
          let new = (seen v).transactions_below in
          let (e, c) = book_transfer-flushed r a b s new t h in
          inl (record {
            sender = a;
            receiver = b;
            accepted = acc;
            positive = positive;
            fresh = fresh;
            checked = c;
            result = q ∙ rw (book_transfer-booked r a b s new e c);
          })

      account_cases :
          (x : Result (Account × Account)) → validation r s.working.accounts ≡ x → Booked ⊎ Refused
      account_cases (err e) h = inr (refused_rollback e s (accounted (err e) h) refl refl)
      account_cases (ok (a, b)) h =
          book_cases a b (validation-Accepted a b h) (accounted (ok (a, b)) h)
            (book_transfer r a b s).0 refl

  widen : Booked ⊎ Refused → Booked ⊎ Replayed ⊎ Refused
  widen (inl b) = inl b
  widen (inr n) = inr (inr n)

  -- An amount of zero or less is refused before the session is touched.
  not_positive : IsValid s → at_most r.amount (pos 0) ≡ true → Refused
  not_positive v h =
      let q : execute_transfer r s ≡ (err invalid_transfer, s) =
        execute_transfer-outcome r s ∙ rw h in
      record {
        error = invalid_transfer;
        raised = ap (λ (x : Result Transaction × Session). x.0) q;
        committed = ap (λ (x : Result Transaction × Session). x.1.committed) q;
        working = ap (λ (x : Result Transaction × Session). x.1.working) q ∙ v.clean;
        outbox = ap (λ (x : Result Transaction × Session). x.1.outbox) q;
      }

  -- Every call books, replays or refuses.
  pub transfer_cases : IsValid s → Booked ⊎ Replayed ⊎ Refused
  transfer_cases v = elim (Bool-cases (at_most r.amount (pos 0))) [
    | inl bad ↦ inr (inr (not_positive v bad))
    | inr good ↦ elim (Option-cases (existing_transfer r.idempotency_key s.working)) [
      | inl fresh ↦ widen (account_cases v good fresh (validation r s.working.accounts) refl)
      | inr (t, e) ↦ inr (replay_cases v good t e)
    ]
  ]

  -- What is stored, seen, handed out and sent after a booking.
  pub Booked-committed :
      (k : Booked) → (execute_transfer r s).1.committed ≡ booked_db r k.sender k.receiver s
  Booked-committed k =
      rw k.result (notify_sender-db r s.ids.transaction k.sender (booked r k.sender k.receiver s)).0

  pub Booked-working :
      (k : Booked) → (execute_transfer r s).1.working ≡ booked_db r k.sender k.receiver s
  Booked-working k =
      rw k.result (notify_sender-db r s.ids.transaction k.sender (booked r k.sender k.receiver s)).1

  pub Booked-result : (k : Booked) → (execute_transfer r s).0 ≡ ok (tx r k.sender k.receiver s)
  Booked-result k = rw k.result
