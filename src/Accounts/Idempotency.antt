-- ===== src/Accounts/Idempotency.antt =====
-- app/routes/account_routes.py: `_check_idempotency` and `_store_idempotency`.
pub mod Records
pub mod Replays
use bank_flow_digital_bankin.Base.{
  ℕ, ◌+◌, String, Option, none, some, not, [], ◌∷◌, ◌++◌, if◌then◌else◌,
}
use bank_flow_digital_bankin.Models.{Endpoint, StoredBody, IdempotencyRecord, same_endpoint}
use bank_flow_digital_bankin.Database.{
  Session, Action, Result, ok, err, integrity_error, commit, rollback, find_record,
}
use bank_flow_digital_bankin.Transfer.{truthy}
use bank_flow_digital_bankin.Http.{Body, Response, respond}

-- What `_check_idempotency` finds under a key.
pub data Check : Type 0 where
  fresh : Check
  conflict : Check
  replay : StoredBody → (status_code : ℕ) → Check

abbrev pub check_record : Endpoint → Option IdempotencyRecord → Check
check_record e none = fresh
check_record e (some r) =
    if not (same_endpoint r.endpoint e) then conflict else replay r.response_body r.status_code

unfoldable pub check_idempotency : Option String → Endpoint → Session → Check
check_idempotency key e s = elim (truthy key) [
  | none ↦ fresh
  | some k ↦ check_record e (find_record k s.working.idempotency_records)
]

-- `except IntegrityError: rollback()`; any other exception goes on.
abbrev pub forgive_duplicate : Result (Unit {0}) → Session → Result (Unit {0}) × Session
forgive_duplicate (err integrity_error) s = (ok tt, rollback s)
forgive_duplicate r s = (r, s)

abbrev pub new_record : String → Endpoint → StoredBody → ℕ → Session → IdempotencyRecord
new_record k e b code s = record {
  record_id = s.ids.idempotency;
  idempotency_key = k;
  endpoint = e;
  response_body = b;
  status_code = code;
  created_at = s.now;
}

abbrev pub add_record : String → Endpoint → StoredBody → ℕ → Session → Session
add_record k e b code s = record s {
  working = record (s.working) {
    idempotency_records = s.working.idempotency_records ++ new_record k e b code s ∷ [];
  };
  ids = record (s.ids) { idempotency = s.ids.idempotency + 1 };
}

-- The record is committed on its own, after the request's own commit.
unfoldable pub store_idempotency : Option String → Endpoint → StoredBody → ℕ → Action (Unit {0})
store_idempotency key e b code s = elim (truthy key) [
  | none ↦ (ok tt, s)
  | some k ↦ let (r, s') = commit (add_record k e b code s) in forgive_duplicate r s'
]

-- `headers.get("Idempotency-Key") or headers.get("X-Idempotency-Key")`
pub record KeyHeaders : Type 0 where
  pub idempotency_key : Option String
  pub x_idempotency_key : Option String

abbrev pub idem_key : KeyHeaders → Option String
idem_key h = elim (truthy h.idempotency_key) [ none ↦ h.x_idempotency_key | some k ↦ some k ]

abbrev pub replayed : StoredBody → ℕ → Response
replayed b code = respond code (Body.stored b)
