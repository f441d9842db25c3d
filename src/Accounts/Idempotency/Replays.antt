-- ===== src/Accounts/Idempotency/Replays.antt =====
-- app/routes/account_routes.py, `_check_idempotency`: in a valid session a stored response that is replayed is
-- one of the endpoint that was called.
use bank_flow_digital_bankin.Base.{
  String, Option, some, true, Bool-cases, Option-cases, inl, inr, List, [], ◌∷◌, ◌≡◌, arith, all, ℕ,
}
use bank_flow_digital_bankin.Models.{Endpoint, StoredBody, IdempotencyRecord, same_endpoint}
use bank_flow_digital_bankin.Database.{Session, find_record}
use bank_flow_digital_bankin.Transfer.{truthy}
use bank_flow_digital_bankin.Invariant.{answers, record_answers, IsValid, seen}
use bank_flow_digital_bankin.Accounts.Idempotency.{
  Check, fresh, conflict, replay, check_idempotency,
}

same_endpoint-answers :
    (e f : Endpoint) (b : StoredBody) (code : ℕ)
    → same_endpoint e f ≡ true
    → answers e b code ≡ true
    → answers f b code ≡ true
same_endpoint-answers Endpoint.create_account Endpoint.create_account b code h g = g
same_endpoint-answers Endpoint.create_account (Endpoint.deposit_funds k) b code h g =
    ground (arith, h)
same_endpoint-answers (Endpoint.deposit_funds j) Endpoint.create_account b code h g =
    ground (arith, h)
same_endpoint-answers (Endpoint.deposit_funds j) (Endpoint.deposit_funds k) b code h g =
    let same : j ≡ k = ground (arith, h) in rw (← same) g

find_record-answers :
    (k : String) (rows : List IdempotencyRecord) {r : IdempotencyRecord}
    → all record_answers rows ≡ true
    → find_record k rows ≡ some r
    → record_answers r ≡ true
find_record-answers k [] h found = ground (arith, found)
find_record-answers k (q ∷ rows) {r} h found =
    ground (arith, h, found, find_record-answers k rows {r = r})

abbrev pub CheckAnswers : Endpoint → Check → Type 0
CheckAnswers e fresh = Unit
CheckAnswers e conflict = Unit
CheckAnswers e (replay b code) = answers e b code ≡ true

pub check_idempotency-answers :
    (key : Option String) (e : Endpoint) (s : Session)
    → IsValid s
    → CheckAnswers e (check_idempotency key e s)
unfolding check_idempotency
check_idempotency-answers key e s v = elim (Option-cases (truthy key)) [
  | inl q ↦ rw (q, check_idempotency) tt
  | inr (k, q) ↦ elim (Option-cases (find_record k s.working.idempotency_records)) [
    | inl f ↦ rw (q, check_idempotency, f) tt
    | inr (r, f) ↦ elim (Bool-cases (same_endpoint r.endpoint e)) [
      | inr n ↦ rw (q, check_idempotency, f, n) tt
      | inl y ↦
          rw (q, check_idempotency, f, y)
            (same_endpoint-answers r.endpoint e r.response_body r.status_code y (
              find_record-answers k s.working.idempotency_records {r = r} (seen v).records_answer
                f))
    ]
  ]
]
