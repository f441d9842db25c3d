-- ===== src/Transfer/Keeps.antt =====
-- `execute_transfer` as one database transaction: it commits everything or nothing, and keeps the
-- invariant either way.
use bank_flow_digital_bankin.Base.{
  ◌+◌, Option, none, some, [], ◌∷◌, ◌++◌, ◌≡◌, refl, arith, ◌∙◌, sym, inl, inr, Bool-cases,
}
use mathlib.Core.Path.{subst, subst₂}
use bank_flow_digital_bankin.Base.Rows.{Below-append, Below-modify, Below-mono}
use bank_flow_digital_bankin.Base.Decimal.{at_most}
use bank_flow_digital_bankin.Models.{Account, Transaction}
use bank_flow_digital_bankin.Database.{Session, Result, ok, err, violation, rollback, or_rollback}
use bank_flow_digital_bankin.Invariant.{IsStored, IsStored-mono, IsValid, seen}
use bank_flow_digital_bankin.Reconcile.Pairs.{
  LinksBelow-append, LinksBelow-mono, Paired-append_pair,
}
use bank_flow_digital_bankin.Transfer.{
  TransferRequest, same_parameters, notify_sender, book_transfer, execute_transfer,
  existing_transfer,
}
use bank_flow_digital_bankin.Base.Int.{pos}
use bank_flow_digital_bankin.Transfer.Guards.{validation}
use bank_flow_digital_bankin.Transfer.Outcome.{by_accounts, by_key, execute_transfer-outcome}
use bank_flow_digital_bankin.Transfer.Booking.{
  tx, debit_entry, credit_entry, booked_db, booked, book_transfer-booked, book_transfer-err,
  book_transfer-flushed, book_transfer-ids, notify_sender-db,
}

module _ (r : TransferRequest) (a b : Account) (s : Session) where
  booked-IsStored :
      IsStored s.ids s.working
      → violation (booked_db r a b s) ≡ none
      → IsStored (booked r a b s).ids (booked_db r a b s)
  booked-IsStored v q = record {
    sound = q;
    records_answer = v.records_answer;
    transactions_below =
        Below-append (λ (t : Transaction). t.transaction_id) (s.ids.transaction + 1)
          s.working.transactions (tx r a b s)
          (Below-mono (λ (t : Transaction). t.transaction_id) s.ids.transaction
            (s.ids.transaction + 1) s.working.transactions (omega arith) v.transactions_below)
          (omega arith);
    links_below =
        LinksBelow-append (s.ids.transaction + 1)
          (s.working.ledger_entries ++ debit_entry r a b s ∷ []) (credit_entry r a b s)
          (LinksBelow-append (s.ids.transaction + 1) s.working.ledger_entries (debit_entry r a b s)
            (LinksBelow-mono s.ids.transaction (s.ids.transaction + 1) s.working.ledger_entries
              (omega arith) v.links_below)
            (omega arith))
          (omega arith);
    paired =
        Paired-append_pair s.working.transactions s.working.ledger_entries (tx r a b s)
          (debit_entry r a b s) (credit_entry r a b s) v.transactions_below v.links_below v.paired
          refl refl refl refl refl refl;
    accounts_below =
        Below-modify (λ (a : Account). a.account_id) s.ids.account r.receiver_id _ _ (λ _. refl)
          (Below-modify (λ (a : Account). a.account_id) s.ids.account r.sender_id _
            s.working.accounts (λ _. refl) v.accounts_below);
  }

  booked-IsValid :
      IsStored s.ids s.working
      → violation (booked_db r a b s) ≡ none
      → (n : Session) → (n.committed ≡ booked_db r a b s)
      → (n.working ≡ booked_db r a b s)
      → (n.ids ≡ (booked r a b s).ids)
      → IsValid n
  booked-IsValid v q n ec ew ei = record {
    clean = ew ∙ sym ec;
    stored = subst₂ IsStored (sym ei) (sym ec) (booked-IsStored v q);
  }

  -- After a booking, with a rollback if it raised, the session is valid.
  book_transfer-IsValid : IsValid s → IsValid (or_rollback (book_transfer r a b) s).1
  book_transfer-IsValid v = go (book_transfer r a b s).0 refl
    where
      go :
          (x : Result Transaction)
          → (book_transfer r a b s).0 ≡ x
          → IsValid (or_rollback (book_transfer r a b) s).1
      go (ok t) h =
          let w = seen v in
          let (e, q) = book_transfer-flushed r a b s w.transactions_below t h in
          let (ec, ew, ei) = notify_sender-db r s.ids.transaction a (booked r a b s) in
          rw (h, book_transfer-booked r a b s w.transactions_below e q)
            (booked-IsValid w q (notify_sender r s.ids.transaction a (booked r a b s)).1 ec ew ei)
      go (err e) h =
          let same = (book_transfer-err r a b s e h).0 in
          let (t, n) = book_transfer-ids r a b s in
          rw h (record {
            clean = refl;
            stored =
                subst (IsStored (book_transfer r a b s).1.ids) (sym same)
                  (IsStored-mono t n v.stored);
          })

rollback-IsValid : {s : Session} → IsValid s → IsValid (rollback s)
rollback-IsValid v = record { clean = refl; stored = v.stored }

module _ (r : TransferRequest) (s : Session) (v : IsValid s) where
  by_accounts-IsValid : (x : Result (Account × Account)) → IsValid (by_accounts r s x).1
  by_accounts-IsValid (err e) = rollback-IsValid v
  by_accounts-IsValid (ok (a, b)) = book_transfer-IsValid r a b s v

  by_key-IsValid : (o : Option Transaction) → IsValid (by_key r s o).1
  by_key-IsValid none = by_accounts-IsValid (validation r s.working.accounts)
  by_key-IsValid (some t) = elim (Bool-cases (same_parameters r t)) [
    | inl same ↦ rw same v
    | inr other ↦ rw other (rollback-IsValid v)
  ]

  -- Whatever it returns, execute_transfer takes a valid session to a valid one: nothing is
  -- pending, and the stored tables satisfy the invariant.
  pub execute_transfer-IsValid : IsValid (execute_transfer r s).1
  execute_transfer-IsValid =
      rw (execute_transfer-outcome r s) (elim (Bool-cases (at_most r.amount (pos 0))) [
        | inl bad ↦ rw bad v
        | inr good ↦ rw good (by_key-IsValid (existing_transfer r.idempotency_key s.working))
      ])
