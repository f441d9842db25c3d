-- ===== src/Accounts/Deposit/Credits.antt =====
-- What a deposit that goes through does, and what its repetition does.
use bank_flow_digital_bankin.Base.{
  ℕ, Option, none, some, true, false, ◌≡◌, refl, ◌∙◌, arith, inl, inr, String, leb, Option-cases,
}
use bank_flow_digital_bankin.Base.Int.{pos, ◌+ℤ◌, ◌<ℤ◌}
use bank_flow_digital_bankin.Base.Decimal.{
  Decimal, to_column, sum_column, sum_column-pos, stored-pos,
}
use bank_flow_digital_bankin.Base.Rows.{all-get}
use bank_flow_digital_bankin.Models.{Account, Endpoint, active}
use bank_flow_digital_bankin.Database.{
  Session, ok, commit, get_account, violation, find_record, numeric_limit, fits_key, chars,
  max_key_length, account_ok,
}
use bank_flow_digital_bankin.Database.Sound.{sound}
use bank_flow_digital_bankin.Http.{Caller, is_foreign, serve, respond, Response, Body}
use bank_flow_digital_bankin.Transfer.{truthy}
use bank_flow_digital_bankin.Audit.{context_fits}
use bank_flow_digital_bankin.Invariant.{IsValid, seen}
use bank_flow_digital_bankin.Accounts.Payload.{AmountField, load_deposit}
use bank_flow_digital_bankin.Accounts.Idempotency.{fresh, check_idempotency, store_idempotency}
use bank_flow_digital_bankin.Accounts.Idempotency.Records.{
  recorded, store_idempotency-recorded, check_idempotency-recorded,
}
use bank_flow_digital_bankin.Accounts.Deposit.{
  book_deposit, deposited_body, deposit_amount, deposit_funds,
}
use bank_flow_digital_bankin.Accounts.Deposit.Money.{
  IsCredited, IsCredited-record, deposited-IsCredited,
}
use bank_flow_digital_bankin.Accounts.Deposit.Booking.{
  pending_deposit, deposited_db, book_deposit-commit, deposited_sound,
}

-- The session after a deposit, before its response is recorded.
abbrev pub deposited : Caller → ℕ → Account → Decimal → Session → Session
deposited c k a x s = record (pending_deposit c k a x s) { committed = deposited_db c k a x s }

-- A deposit request that passes every guard: the caller may use the account, which is active, the amount
-- is stored as a cent or more and leaves the balance within twelve digits, and the address and the id of the request fit
-- the audit trail.
pub record Admissible (c : Caller) (k : ℕ) (field : AmountField) (s : Session) (a : Account)
    (x : Decimal) : Type 0 where
  pub found : get_account k s.working.accounts ≡ some a
  pub own : is_foreign c a ≡ false
  pub running : a.status ≡ active
  pub loaded : load_deposit field ≡ some x
  pub traced : context_fits s.context ≡ true
  pub stored : pos 0 <ℤ to_column x
  pub room : sum_column a.balance x <ℤ pos numeric_limit

check_fresh :
    (e : Endpoint) (s : Session) (key : Option String) {j : String}
    → truthy key ≡ some j
    → check_idempotency key e s ≡ fresh
    → find_record j s.working.idempotency_records ≡ none
unfolding check_idempotency
check_fresh e s key q h = ground arith

module _ (c : Caller) (key : Option String) (k : ℕ) (field : AmountField) (s : Session)
    {a : Account} {x : Decimal} (v : IsValid s) (adm : Admissible c k field s a x) where
  abbrev deposit_answer : Response
  deposit_answer = respond 200 (Body.stored (deposited_body x a))

  tables_sound : violation (deposited_db c k a x s) ≡ none
  tables_sound =
      deposited_sound c k a x s adm.found adm.stored adm.room (sound s.working (seen v).sound)
        adm.traced

  grown : sum_column a.balance x ≡ a.balance +ℤ to_column x
  grown =
      let ok_row =
        all-get (λ (a : Account). a.account_id) account_ok k s.working.accounts
          (sound s.working (seen v).sound).accounts_ok adm.found in
      sum_column-pos a.balance x (ground (arith, ok_row)) (stored-pos x adm.stored)

  booked : book_deposit c k a x s ≡ (ok tt, deposited c k a x s)
  booked = book_deposit-commit c k a x s ∙ rw (tables_sound, commit)

  -- With the guards passed, the request is the booking, the record and the answer.
  passed :
      check_idempotency key (Endpoint.deposit_funds k) s ≡ fresh
      → deposit_funds c key k field s ≡ deposit_amount c key k a (some x) s
  unfolding deposit_funds
  passed new = rw (new, adm.found, adm.own, adm.running, adm.loaded)

  -- A deposit without a key.
  plain :
      truthy key ≡ none
      → check_idempotency key (Endpoint.deposit_funds k) s ≡ fresh
      → deposit_funds c key k field s ≡ (ok deposit_answer, deposited c k a x s)
  unfolding store_idempotency
  plain q new = passed new ∙ rw (booked, q, store_idempotency)

  -- A deposit under a fresh key.
  pub keyed :
      {j : String}
      → truthy key ≡ some j
      → leb (chars j) max_key_length ≡ true
      → check_idempotency key (Endpoint.deposit_funds k) s ≡ fresh
      → deposit_funds c key k field s ≡ (
        ok deposit_answer,
        recorded j (Endpoint.deposit_funds k) (deposited_body x a) 200 (deposited c k a x s),
      )
  keyed {j} q short new =
      passed new
      ∙ rw (
        booked,
        store_idempotency-recorded j (Endpoint.deposit_funds k) (deposited_body x a) 200
            (deposited c k a x s) tables_sound (check_fresh (Endpoint.deposit_funds k) s key q new)
            short key q,
      )

fits_truthy :
    (key : Option String) {j : String}
    → truthy key ≡ some j
    → fits_key key ≡ true
    → leb (chars j) max_key_length ≡ true
fits_truthy none q h = ground arith
fits_truthy (some i) q h = ground arith

-- From a valid session a deposit that passes the guards, of an amount that is stored as a cent or
-- more, in a request whose address and id fit the columns of the audit trail, under no key or a
-- fresh one of at most 128 characters, answers 200 with the new balance; the account has gained
-- the amount rounded to cents, the sums of all balances and of all credits have grown by it, and
-- the debits and the other accounts are as they were.
pub deposit_funds-credits :
    (c : Caller) (key : Option String) (k : ℕ) (field : AmountField) (s : Session) {a : Account}
    {x : Decimal}
    → IsValid s
    → Admissible c k field s a x
    → fits_key key ≡ true
    → check_idempotency key (Endpoint.deposit_funds k) s ≡ fresh
    → ((serve (deposit_funds c key k field) s).0 ≡ respond 200 (Body.stored (deposited_body x a)))
      × IsCredited k a (to_column x) s.working (serve (deposit_funds c key k field) s).1.committed
deposit_funds-credits c key k field s {a} {x} v adm short new = elim (Option-cases (truthy key)) [
  | inl q ↦
      rw (plain c key k field s v adm q new)
        (refl, deposited-IsCredited c k a x s adm.found (grown c key k field s v adm))
  | inr (j, q) ↦ rw (keyed c key k field s v adm q (fits_truthy key q short) new) (
    refl,
    IsCredited-record k a (to_column x) s.working (deposited_db c k a x s) _
        (deposited-IsCredited c k a x s adm.found (grown c key k field s v adm)),
  )
]

-- From a valid session, right after a deposit that passes the guards, of an amount that is stored
-- as a cent or more, in a request whose address and id fit the columns of the audit trail, under a
-- fresh, non-empty key of at most 128 characters, a request for a deposit into that account under
-- the key, whoever sends it and whatever its payload, gets the stored response and changes
-- nothing.
pub deposit_funds-replay :
    (c d : Caller) (key : Option String) (k : ℕ) (field again : AmountField) (s : Session)
    {a : Account} {x : Decimal} {j : String}
    → IsValid s
    → Admissible c k field s a x
    → truthy key ≡ some j
    → fits_key key ≡ true
    → check_idempotency key (Endpoint.deposit_funds k) s ≡ fresh
    → let after = (serve (deposit_funds c key k field) s).1 in
      serve (deposit_funds d key k again) after
      ≡ (respond 200 (Body.stored (deposited_body x a)), after)
unfolding deposit_funds
deposit_funds-replay c d key k field again s {a} {x} {j} v adm q short new =
    rw (keyed c key k field s v adm q (fits_truthy key q short) new) (
      rw (
        check_idempotency-recorded j (Endpoint.deposit_funds k) (deposited_body x a) 200
          (deposited c k a x s) (tables_sound c key k field s v adm)
          (check_fresh (Endpoint.deposit_funds k) s key q new) (fits_truthy key q short) key q))
