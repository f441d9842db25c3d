-- ===== src/Transfer/Replay.antt =====
-- The idempotency of `execute_transfer`: what a second call under the same key does.
use mathlib.Core.Path.{subst, subst₂}
use text.Mathlib.TextPositions.{eq_refl}
use bank_flow_digital_bankin.Base.{
  String, Option, none, some, true, false, List, [], ◌∷◌, ◌++◌, ◌≡◌, ◌≢◌, ◌⊎◌, inl, inr, sym, ap,
  ◌∙◌, arith,
}
use bank_flow_digital_bankin.Base.Int.{pos, eq_of_parts}
use bank_flow_digital_bankin.Base.Decimal.{at_most, equals, in_cents, to_column-in_cents}
use bank_flow_digital_bankin.Models.{Transaction}
use bank_flow_digital_bankin.Database.{
  Db, Session, Result, ok, err, idempotency_key_conflict, find_key, rollback,
}
use bank_flow_digital_bankin.Invariant.{IsValid}
use bank_flow_digital_bankin.Transfer.{
  TransferRequest, truthy, existing_transfer, same_parameters, execute_transfer,
}
use bank_flow_digital_bankin.Transfer.Outcome.{execute_transfer-outcome}
use bank_flow_digital_bankin.Transfer.Booking.{tx}
use bank_flow_digital_bankin.Transfer.Cases.{Booked, transfer_cases, Booked-working, Booked-result}

truthy-some : (o : Option String) (k : String) → truthy o ≡ some k → o ≡ some k
truthy-some none k h = ground arith
truthy-some (some j) k h = ground arith

existing_transfer-key :
    (o : Option String) (k : String) (d : Db)
    → truthy o ≡ some k
    → existing_transfer o d ≡ find_key k d.transactions
unfolding existing_transfer
existing_transfer-key o k d h = rw (h, existing_transfer)

ok-injective : {a b : Transaction} → ◌≡◌ {A = Result Transaction} (ok a) (ok b) → a ≡ b
ok-injective h = cc

other_parameters :
    (r q : TransferRequest) (t : Transaction)
    → same_parameters r t ≡ true
    → (q.sender_id ≢ r.sender_id)
      ⊎ (q.receiver_id ≢ r.receiver_id)
      ⊎ (equals q.amount r.amount.cents ≡ false)
    → same_parameters q t ≡ false
other_parameters r q t same other = ground (arith, eq_of_parts t.amount r.amount.cents)

-- A row added under a key that no row had is the one found under it.
find_key-append_new :
    (k : String) (txs : List Transaction) (t : Transaction)
    → find_key k txs ≡ none
    → t.idempotency_key ≡ some k
    → find_key k (txs ++ t ∷ []) ≡ some t
find_key-append_new k [] t h e = rw (e, eq_refl)
find_key-append_new k (u ∷ txs) t h e = ground (arith, find_key-append_new k txs t)

Booked-found :
    (r : TransferRequest) (s : Session) {k : String}
    → truthy r.idempotency_key ≡ some k
    → (b : Booked r s)
    → existing_transfer r.idempotency_key (execute_transfer r s).1.working
      ≡ some (tx r b.sender b.receiver s)
Booked-found r s {k} key b =
    rw (Booked-working r s b, existing_transfer-key r.idempotency_key k _ key)
      (find_key-append_new k s.working.transactions (tx r b.sender b.receiver s)
        (sym (existing_transfer-key r.idempotency_key k s.working key) ∙ b.fresh)
        (truthy-some r.idempotency_key k key))

module _ (r : TransferRequest) (s : Session) {k : String} (key : truthy r.idempotency_key ≡ some k)
    (exact : in_cents r.amount ≡ true) where
  -- A transaction is on record for the request.
  record Known (u : Session) (t : Transaction) : Type 0 where
    found : existing_transfer r.idempotency_key u.working ≡ some t
    same : same_parameters r t ≡ true
    positive : at_most r.amount (pos 0) ≡ false

  Booked-Known : (b : Booked r s) → Known (execute_transfer r s).1 (tx r b.sender b.receiver s)
  Booked-Known b = record {
    found = Booked-found r s key b;
    same = ground (arith, to_column-in_cents r.amount exact);
    positive = b.positive;
  }

  success-Known :
      IsValid s
      → (t : Transaction) → (execute_transfer r s).0 ≡ ok t
      → Known (execute_transfer r s).1 t
  success-Known v t h = elim (transfer_cases r s v) [
    | inl b ↦
        subst (Known (execute_transfer r s).1) (ok-injective (sym (Booked-result r s b) ∙ h))
          (Booked-Known b)
    | inr (inl k) ↦
        subst₂ Known (ap (λ (x : Result Transaction × Session). x.1) (sym k.result))
          (ok-injective (ap (λ (x : Result Transaction × Session). x.0) (sym k.result) ∙ h))
          (record { found = k.found; same = k.same; positive = k.positive })
    | inr (inr n) ↦ absurd (cc (n.raised, h))
  ]

module _ (r : TransferRequest) (u : Session) {t : Transaction} where
  keyed_replay :
      existing_transfer r.idempotency_key u.working ≡ some t
      → at_most r.amount (pos 0) ≡ false
      → same_parameters r t ≡ true
      → execute_transfer r u ≡ (ok t, u)
  keyed_replay found positive same = execute_transfer-outcome r u ∙ rw (positive, found, same)

  keyed_conflict :
      existing_transfer r.idempotency_key u.working ≡ some t
      → at_most r.amount (pos 0) ≡ false
      → same_parameters r t ≡ false
      → execute_transfer r u ≡ (err idempotency_key_conflict, rollback u)
  keyed_conflict found positive other = execute_transfer-outcome r u ∙ rw (positive, found, other)

-- From a valid session, once a transfer of whole cents under a non-empty key has succeeded, the
-- same request returns the same transaction and changes nothing: no second debit.
pub execute_transfer-replay :
    (r : TransferRequest) (s : Session) {k : String} {t : Transaction}
    → IsValid s
    → truthy r.idempotency_key ≡ some k
    → in_cents r.amount ≡ true
    → (execute_transfer r s).0 ≡ ok t
    → execute_transfer r (execute_transfer r s).1 ≡ (ok t, (execute_transfer r s).1)
execute_transfer-replay r s {t} v key exact h =
    let known = success-Known r s key exact v t h in
    keyed_replay r (execute_transfer r s).1 known.found known.positive known.same

-- From a valid session, once a transfer of whole cents under a non-empty key has succeeded, a
-- request for another sender, receiver or positive amount under the same key, a fraction of a cent
-- more included, is a conflict, which is rolled back and stores nothing.
pub execute_transfer-conflict :
    (r q : TransferRequest) (s : Session) {k : String} {t : Transaction}
    → IsValid s
    → truthy r.idempotency_key ≡ some k
    → in_cents r.amount ≡ true
    → (execute_transfer r s).0 ≡ ok t
    → q.idempotency_key ≡ r.idempotency_key
    → at_most q.amount (pos 0) ≡ false
    → (q.sender_id ≢ r.sender_id)
      ⊎ (q.receiver_id ≢ r.receiver_id)
      ⊎ (equals q.amount r.amount.cents ≡ false)
    → let u = (execute_transfer r s).1 in
      execute_transfer q u ≡ (err idempotency_key_conflict, rollback u)
execute_transfer-conflict r q s {t} v key exact h same_key positive other =
    let known = success-Known r s key exact v t h in
    keyed_conflict q (execute_transfer r s).1 {t = t} (rw same_key known.found) positive
      (other_parameters r q t known.same other)

-- From a valid session, once a new transfer of an amount with a fraction of a cent has succeeded
-- under a non-empty key, the same request again is not replayed: it is a conflict, which is rolled
-- back and stores nothing.
pub execute_transfer-not_replayed :
    (r : TransferRequest) (s : Session) {k : String} {t : Transaction}
    → IsValid s
    → truthy r.idempotency_key ≡ some k
    → in_cents r.amount ≡ false
    → existing_transfer r.idempotency_key s.working ≡ none
    → (execute_transfer r s).0 ≡ ok t
    → let u = (execute_transfer r s).1 in
      execute_transfer r u ≡ (err idempotency_key_conflict, rollback u)
execute_transfer-not_replayed r s v key odd fresh h = elim (transfer_cases r s v) [
  | inl b ↦
      keyed_conflict r (execute_transfer r s).1 {t = tx r b.sender b.receiver s}
        (Booked-found r s key b) b.positive (ground (arith, odd))
  | inr (inl k) ↦ absurd (cc (k.found, fresh))
  | inr (inr n) ↦ absurd (cc (n.raised, h))
]
