-- ===== src/Statements/Rows.antt =====
-- What a CSV statement shows, and to whom.
use mathlib.Core.List.{Permᴰ}
use mathlib.Core.List.Permᴰ
use bank_flow_digital_bankin.Base.{
  ℕ, Option, none, some, Bool, true, false, not, ◌&&◌, ◌==◌, leb, ◌≤◌, List, [], ◌∷◌, ◌≡◌, refl,
  arith, map, keep, all, ap, String, inl, inr, Bool-cases, ◌≢◌,
}
use bank_flow_digital_bankin.Audit.{or_else}
use bank_flow_digital_bankin.Models.{Account, Transaction, debit, credit}
use bank_flow_digital_bankin.Database.{Session, ok, get_account, transaction_ok}
use bank_flow_digital_bankin.Database.Sound.{sound}
use bank_flow_digital_bankin.Invariant.{IsValid, seen}
use bank_flow_digital_bankin.Http.{Caller, is_foreign}
use bank_flow_digital_bankin.Statements.{
  CsvRow, csv_row, on_statement, from_passes, to_passes, insert_by_age, oldest_first,
  get_transactions, rows_for, or_empty, account_or_raise, allow, generate_csv_statement,
}

-- `from_date <= date <= to_date`, where they are given
abbrev pub in_range : Option ℕ → Option ℕ → ℕ → Bool
in_range none none d = true
in_range none (some b) d = leb d b
in_range (some a) none d = leb a d
in_range (some a) (some b) d = leb a d && leb d b

in_range-passes :
    (t : Transaction) (a b : Option ℕ)
    → (from_passes a t && to_passes b t) ≡ in_range a b t.created_at
in_range-passes t none none = refl
in_range-passes t none (some b) = refl
in_range-passes t (some a) none = ground arith
in_range-passes t (some a) (some b) = refl

allowed : (c : Caller) (a : Account) → is_foreign c a ≡ false → allow c (some a) ≡ ok a
allowed c a own = ground arith

-- No row is older than the one before it.
abbrev pub Chronological : List CsvRow → Type 0
Chronological [] = Unit
Chronological (r ∷ []) = Unit
Chronological (r ∷ q ∷ rows) = (r.date ≤ q.date) × Chronological (q ∷ rows)

module _ (k : ℕ) where
  insert-Chronological :
      (t : Transaction) (rows : List Transaction)
      → Chronological (map (csv_row k) rows)
      → Chronological (map (csv_row k) (insert_by_age t rows))
  insert-Chronological t [] h = tt
  insert-Chronological t (u ∷ []) h = ground arith
  insert-Chronological t (u ∷ w ∷ rows) h = ground (arith, insert-Chronological t (w ∷ rows) h.1)

  oldest_first-Chronological :
      (rows : List Transaction) → Chronological (map (csv_row k) (oldest_first rows))
  unfolding oldest_first
  oldest_first-Chronological [] = tt
  oldest_first-Chronological (t ∷ rows) =
      insert-Chronological t (oldest_first rows) (oldest_first-Chronological rows)

  insert-perm :
      (t : Transaction) (rows : List Transaction) → Permᴰ (insert_by_age t rows) (t ∷ rows)
  insert-perm t [] = Permᴰ.refl (t ∷ [])
  insert-perm t (u ∷ rows) = elim (Bool-cases (leb t.created_at u.created_at)) [
    | inl y ↦ rw y (Permᴰ.refl (t ∷ u ∷ rows))
    | inr n ↦ rw n (Permᴰ.trans (Permᴰ.cons refl (insert-perm t rows)) (Permᴰ.swap refl refl))
  ]

  oldest_first-perm : (rows : List Transaction) → Permᴰ (oldest_first rows) rows
  unfolding oldest_first
  oldest_first-perm [] = Permᴰ.nil
  oldest_first-perm (t ∷ rows) =
      Permᴰ.trans (insert-perm t (oldest_first rows)) (Permᴰ.cons refl (oldest_first-perm rows))

-- What a row says of its transfer, seen from account `k`.
pub record Shows (k : ℕ) (t : Transaction) (r : CsvRow) : Type 0 where
  pub id : r.transaction_id ≡ t.transaction_id
  pub date : r.date ≡ t.created_at
  pub amount : r.amount ≡ t.amount
  pub status : r.status ≡ t.status
  pub key : Option.some r.idempotency_key ≡ or_else t.idempotency_key (some "")
  pub sent :
      t.sender_account_id ≡ k
      → (r.direction ≡ debit) × (r.counter_party_account ≡ t.receiver_account_id)
  pub received :
      t.sender_account_id ≢ k
      → (r.direction ≡ credit) × (r.counter_party_account ≡ t.sender_account_id)

-- One row for each transfer, in their order.
abbrev pub AllShow : ℕ → List Transaction → List CsvRow → Type 0
AllShow k [] [] = Unit
AllShow k (t ∷ txs) (r ∷ rows) = Shows k t r × AllShow k txs rows
AllShow k _ _ = ⊥

key-shown : (o : Option String) → Option.some (or_empty o) ≡ or_else o (some "")
key-shown none = refl
key-shown (some k) = refl

csv_row-Shows : (k : ℕ) (t : Transaction) → Shows k t (csv_row k t)
csv_row-Shows k t = record {
  id = refl;
  date = refl;
  amount = refl;
  status = refl;
  key = key-shown t.idempotency_key;
  sent = λ h. ground (arith, h);
  received = λ h. ground (arith, h);
}

rows-AllShow : (k : ℕ) (txs : List Transaction) → AllShow k txs (map (csv_row k) txs)
rows-AllShow k [] = tt
rows-AllShow k (t ∷ txs) = (csv_row-Shows k t, rows-AllShow k txs)

-- A row for a transfer between two different accounts, within the dates.
module _ (k : ℕ) (from_date to_date : Option ℕ) where
  abbrev pub is_due : CsvRow → Bool
  is_due r = not (r.counter_party_account == k) && (in_range from_date to_date r.date)

  abbrev passes : Transaction → Bool
  passes t = transaction_ok t && on_statement k from_date to_date t

  due : (t : Transaction) → passes t ≡ true → is_due (csv_row k t) ≡ true
  due t h = ground (arith, h, in_range-passes t from_date to_date)

  all-insert :
      (t : Transaction) (rows : List Transaction)
      → passes t ≡ true
      → all passes rows ≡ true
      → all passes (insert_by_age t rows) ≡ true
  all-insert t [] h e = ground arith
  all-insert t (u ∷ rows) h e = ground (arith, all-insert t rows)

  all-oldest_first :
      (rows : List Transaction) → all passes rows ≡ true → all passes (oldest_first rows) ≡ true
  unfolding oldest_first
  all-oldest_first [] h = refl
  all-oldest_first (t ∷ rows) h =
      ground (arith, all-oldest_first rows, all-insert t (oldest_first rows))

  all-keep :
      (rows : List Transaction)
      → all transaction_ok rows ≡ true
      → all passes (keep (on_statement k from_date to_date) rows) ≡ true
  all-keep [] h = refl
  all-keep (t ∷ rows) h = ground (arith, all-keep rows)

  all-due :
      (rows : List Transaction) → all passes rows ≡ true → all is_due (map (csv_row k) rows) ≡ true
  all-due [] h = refl
  all-due (t ∷ rows) h = ground (arith, all-due rows, due t)

-- In a valid session an account's statement, if the caller may see it, has one row for each
-- transfer from or to the account within the dates, the oldest first: the rows show these
-- transfers, each with its id, date, amount, status, key, direction and other end; every row names
-- another account as the counter-party and has a date within the range, both ends included.
pub generate_csv_statement-rows :
    (c : Caller) (k : ℕ) (from_date to_date : Option ℕ) (s : Session) {a : Account}
    → IsValid s
    → get_account k s.working.accounts ≡ some a
    → is_foreign c a ≡ false
    → (txs : List Transaction) × (rows : List CsvRow) × (generate_csv_statement c k from_date
          to_date s
        ≡ ok rows)
      × Permᴰ txs (keep (on_statement k from_date to_date) s.working.transactions)
      × AllShow k txs rows
      × (all (is_due k from_date to_date) rows ≡ true)
      × Chronological rows
unfolding generate_csv_statement account_or_raise get_transactions
generate_csv_statement-rows c k from_date to_date s {a} v found own =
    let kept = keep (on_statement k from_date to_date) s.working.transactions in
    let fine = (sound s.working (seen v).sound).transactions_ok in
    (
      oldest_first kept,
      map (csv_row k) (oldest_first kept),
      rw found (ap (rows_for k (oldest_first kept)) (allowed c a own)),
      oldest_first-perm k kept,
      rows-AllShow k (oldest_first kept),
      all-due k from_date to_date (oldest_first kept) (
          all-oldest_first k from_date to_date kept
            (all-keep k from_date to_date s.working.transactions fine)),
      oldest_first-Chronological k kept,
    )
