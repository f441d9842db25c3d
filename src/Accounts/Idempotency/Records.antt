-- ===== src/Accounts/Idempotency/Records.antt =====
-- What `_store_idempotency` does to a valid session, and what `_check_idempotency` finds afterwards.
use text.Mathlib.TextPositions.{eq_refl}
use bank_flow_digital_bankin.Base.{
  ℕ, String, Option, none, some, true, List, [], ◌∷◌, ◌++◌, ◌≡◌, refl, arith, all-append_one,
  Option-cases, inl, inr, leb,
}
use bank_flow_digital_bankin.Models.{
  IdempotencyRecord, Endpoint, StoredBody, same_endpoint, create_account, deposit_funds,
}
use bank_flow_digital_bankin.Database.{
  Session, Result, ok, err, integrity_error, commit, violation, find_record, record_fits,
  text_key_free, chars, max_key_length,
}
use bank_flow_digital_bankin.Database.Sound.{sound, no_violation}
use bank_flow_digital_bankin.Database.Unique.{unique_texts-append}
use bank_flow_digital_bankin.Transfer.{truthy}
use bank_flow_digital_bankin.Invariant.{
  answers, record_answers, IsStored, IsStored-mono, IsValid, seen,
}
use bank_flow_digital_bankin.Invariant.Ends.{Ends, commit-Ends}
use bank_flow_digital_bankin.Accounts.Idempotency.{
  replay, check_idempotency, store_idempotency, forgive_duplicate, add_record, new_record,
}

forgive_duplicate-Ends :
    (r : Result (Unit {0})) (s : Session)
    → Ends {A = Unit {0}} (r, s)
    → Ends {A = Unit {0}} (forgive_duplicate r s)
forgive_duplicate-Ends (ok tt) s h = h
forgive_duplicate-Ends (err integrity_error) s h = record { clean = refl; stored = h }
forgive_duplicate-Ends (err e) s h = h

abbrev key_of : IdempotencyRecord → String
key_of r = r.idempotency_key

module _ (e : Endpoint) (b : StoredBody) (code : ℕ) (s : Session) (v : IsValid s)
    (right : answers e b code ≡ true) where
  recorded-IsStored :
      (k : String)
      → violation (add_record k e b code s).working ≡ none
      → IsStored (add_record k e b code s).ids (add_record k e b code s).working
  recorded-IsStored k q =
      let w = seen v in
      record {
        sound = q;
        transactions_below = w.transactions_below;
        links_below = w.links_below;
        records_answer =
            all-append_one record_answers s.working.idempotency_records (new_record k e b code s)
              w.records_answer right;
        paired = w.paired;
        accounts_below = w.accounts_below;
      }

  store_some-Ends :
      (k : String)
      → Ends {A = Unit {0}}
          (let (r, s') = commit (add_record k e b code s) in forgive_duplicate r s')
  store_some-Ends k =
      forgive_duplicate-Ends (commit (add_record k e b code s)).0
        (commit (add_record k e b code s)).1
        (commit-Ends (add_record k e b code s) (IsStored-mono (omega arith) (omega arith) v.stored)
          (recorded-IsStored k))

  -- Storing a response of its endpoint leaves a valid session, or an exception and valid stored tables.
  pub store_idempotency-Ends : (key : Option String) → Ends (store_idempotency key e b code s)
  unfolding store_idempotency
  store_idempotency-Ends key = elim (Option-cases (truthy key)) [
    | inl q ↦ rw (q, store_idempotency) v
    | inr (k, q) ↦ rw (q, store_idempotency) (store_some-Ends k)
  ]

-- A text that no row of the table holds.
text_key_free-find :
    (k : String) (rows : List IdempotencyRecord)
    → find_record k rows ≡ none
    → text_key_free key_of k rows ≡ true
unfolding text_key_free
text_key_free-find k [] h = refl
text_key_free-find k (r ∷ rows) h = ground (arith, text_key_free-find k rows)

find_record-append_new :
    (k : String) (rows : List IdempotencyRecord) (r : IdempotencyRecord)
    → find_record k rows ≡ none
    → r.idempotency_key ≡ k
    → find_record k (rows ++ r ∷ []) ≡ some r
find_record-append_new k [] r h e = rw (e, eq_refl)
find_record-append_new k (q ∷ rows) r h e = ground (arith, find_record-append_new k rows r)

same_endpoint_refl : (e : Endpoint) → same_endpoint e e ≡ true
same_endpoint_refl create_account = refl
same_endpoint_refl (deposit_funds a) = ground arith

abbrev pub recorded : String → Endpoint → StoredBody → ℕ → Session → Session
recorded k e b code s = record (add_record k e b code s) {
  committed = (add_record k e b code s).working;
}

module _ (k : String) (e : Endpoint) (b : StoredBody) (code : ℕ) (s : Session)
    (sound_tables : violation s.working ≡ none)
    (new : find_record k s.working.idempotency_records ≡ none)
    (short : leb (chars k) max_key_length ≡ true) where
  recorded_sound : violation (recorded k e b code s).working ≡ none
  recorded_sound =
      let h = sound s.working sound_tables in
      no_violation (recorded k e b code s).working (record {
        accounts_ok = h.accounts_ok;
        accounts_fit = h.accounts_fit;
        transactions_ok = h.transactions_ok;
        transactions_fit = h.transactions_fit;
        entries_ok = h.entries_ok;
        entries_fit = h.entries_fit;
        records_fit =
            all-append_one record_fits s.working.idempotency_records (new_record k e b code s)
              h.records_fit short;
        keys_unique = h.keys_unique;
        profiles_fit = h.profiles_fit;
        profiles_unique = h.profiles_unique;
        configs_fit = h.configs_fit;
        users_fit = h.users_fit;
        logs_fit = h.logs_fit;
        numbers_unique = h.numbers_unique;
        emails_unique = h.emails_unique;
        records_unique =
            unique_texts-append key_of s.working.idempotency_records (new_record k e b code s)
              h.records_unique (text_key_free-find k s.working.idempotency_records new);
      })

  -- Under a fresh key of at most 128 characters the response is stored.
  pub store_idempotency-recorded :
      (key : Option String)
      → truthy key ≡ some k
      → store_idempotency key e b code s ≡ (ok tt, recorded k e b code s)
  unfolding store_idempotency
  store_idempotency-recorded key q = rw (q, store_idempotency, recorded_sound, commit)

  -- and is what the next check of the same endpoint finds.
  pub check_idempotency-recorded :
      (key : Option String)
      → truthy key ≡ some k
      → check_idempotency key e (recorded k e b code s) ≡ replay b code
  unfolding check_idempotency
  check_idempotency-recorded key q = rw (
    q,
    check_idempotency,
    find_record-append_new k s.working.idempotency_records (new_record k e b code s) new refl,
    same_endpoint_refl e,
  )
