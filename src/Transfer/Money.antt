-- ===== src/Transfer/Money.antt =====
-- What a transfer does to the balances and to the general ledger.
use bank_flow_digital_bankin.Base.{
  ℕ, none, some, true, false, arith, List, [], ◌∷◌, ◌++◌, ◌≡◌, ◌≢◌, inl, inr, refl, sym, ◌∙◌,
  keep-append_true, keep-append_false,
}
use bank_flow_digital_bankin.Base.Int.{ℤ, pos, ◌+ℤ◌, ◌-ℤ◌, int_laws}
use bank_flow_digital_bankin.Base.Rows.{all-get, key-get, get-modify_self, get-modify_ne}
use bank_flow_digital_bankin.Base.Decimal.{
  at_most, is_half_cent, to_column, sum_column, difference_column, sum_column-pos,
  difference_column-even, difference_column-half, above_zero,
}
use bank_flow_digital_bankin.Models.{Transaction, Account, LedgerEntry, is_debit, is_credit}
use bank_flow_digital_bankin.Database.{
  ok, Db, Session, get_account, modify_account, set_balance, account_ok,
}
use bank_flow_digital_bankin.Database.Sound.{IsSound, sound}
use bank_flow_digital_bankin.Invariant.{IsValid, seen}
use bank_flow_digital_bankin.Reconcile.{total_balances, total_debits, total_credits}
use bank_flow_digital_bankin.Reconcile.Sums.{total, sum-map, total-append, total-modify}
use bank_flow_digital_bankin.Transfer.{TransferRequest, existing_transfer, execute_transfer}
use bank_flow_digital_bankin.Transfer.Booking.{booked_db, debit_entry, credit_entry}
use bank_flow_digital_bankin.Transfer.Cases.{Accepted, Booked, transfer_cases, Booked-committed}

abbrev pub id_of : Account → ℕ
id_of a = a.account_id

abbrev balance_of : Account → ℤ
balance_of a = a.balance

module _ (r : TransferRequest) (s : Session) {a b : Account} (acc : Accepted r s a b) where
  abbrev pub after_debit : List Account
  after_debit =
      modify_account r.sender_id (set_balance (difference_column a.balance r.amount))
        s.working.accounts

  pub receiver_after_debit : get_account r.receiver_id after_debit ≡ some b
  receiver_after_debit =
      get-modify_ne id_of r.receiver_id r.sender_id
        (set_balance (difference_column a.balance r.amount)) s.working.accounts acc.found_sender
        (key-get id_of r.sender_id s.working.accounts acc.found_sender) (λ e. acc.distinct (sym e))
      ∙ acc.found_receiver

  pub booked-sender :
      get_account r.sender_id (booked_db r a b s).accounts
      ≡ some (set_balance (difference_column a.balance r.amount) a)
  booked-sender =
      get-modify_ne id_of r.sender_id r.receiver_id (set_balance (sum_column b.balance r.amount))
        after_debit receiver_after_debit
        (key-get id_of r.receiver_id s.working.accounts acc.found_receiver) acc.distinct
      ∙ get-modify_self id_of r.sender_id (set_balance (difference_column a.balance r.amount))
          s.working.accounts acc.found_sender
          (key-get id_of r.sender_id s.working.accounts acc.found_sender)

  pub booked-receiver :
      get_account r.receiver_id (booked_db r a b s).accounts
      ≡ some (set_balance (sum_column b.balance r.amount) b)
  booked-receiver =
      get-modify_self id_of r.receiver_id (set_balance (sum_column b.balance r.amount)) after_debit
        receiver_after_debit (key-get id_of r.receiver_id s.working.accounts acc.found_receiver)

  pub booked-others :
      (k : ℕ)
      → k ≢ r.sender_id
      → k ≢ r.receiver_id
      → get_account k (booked_db r a b s).accounts ≡ get_account k s.working.accounts
  booked-others k ns nr =
      get-modify_ne id_of k r.receiver_id (set_balance (sum_column b.balance r.amount)) after_debit
        receiver_after_debit (key-get id_of r.receiver_id s.working.accounts acc.found_receiver) nr
      ∙ get-modify_ne id_of k r.sender_id (set_balance (difference_column a.balance r.amount))
          s.working.accounts acc.found_sender
          (key-get id_of r.sender_id s.working.accounts acc.found_sender) ns

  -- The pair of entries adds the amount to both sides of the ledger.
  booked-credits : total_credits (booked_db r a b s) ≡ total_credits s.working +ℤ to_column r.amount
  unfolding total_credits
  booked-credits =
      let es = s.working.ledger_entries in
      rw
        (
          keep-append_true (λ (e : LedgerEntry). is_credit e.entry_type)
              (es ++ debit_entry r a b s ∷ []) (credit_entry r a b s) refl,
          keep-append_false (λ (e : LedgerEntry). is_credit e.entry_type) es (debit_entry r a b s)
              refl,
        )
        (simp
          (sum-map (λ (e : LedgerEntry). e.amount), total-append (λ (e : LedgerEntry). e.amount)))

  booked-debits : total_debits (booked_db r a b s) ≡ total_debits s.working +ℤ to_column r.amount
  unfolding total_debits
  booked-debits =
      let es = s.working.ledger_entries in
      rw
        (
          keep-append_false (λ (e : LedgerEntry). is_debit e.entry_type)
              (es ++ debit_entry r a b s ∷ []) (credit_entry r a b s) refl,
          keep-append_true (λ (e : LedgerEntry). is_debit e.entry_type) es (debit_entry r a b s)
              refl,
        )
        (simp
          (sum-map (λ (e : LedgerEntry). e.amount), total-append (λ (e : LedgerEntry). e.amount)))

  module _ (h : IsSound s.working) (positive : at_most r.amount (pos 0) ≡ false) where
    pub gains : sum_column b.balance r.amount ≡ b.balance +ℤ to_column r.amount
    gains =
        let ok_row =
          all-get id_of account_ok r.receiver_id s.working.accounts h.accounts_ok
            acc.found_receiver in
        sum_column-pos b.balance r.amount (ground (arith, ok_row)) (above_zero r.amount positive)

    module _ (even : is_half_cent r.amount ≡ false) where
      pub loses : difference_column a.balance r.amount ≡ a.balance -ℤ to_column r.amount
      loses =
          difference_column-even a.balance r.amount acc.covered (above_zero r.amount positive) even

      booked-total :
          total balance_of (booked_db r a b s).accounts ≡ total balance_of s.working.accounts
      booked-total = grind (
        int_laws,
        gains,
        loses,
        total-modify balance_of id_of r.receiver_id (set_balance (sum_column b.balance r.amount))
            after_debit receiver_after_debit,
        total-modify balance_of id_of r.sender_id
            (set_balance (difference_column a.balance r.amount)) s.working.accounts
            acc.found_sender,
      )

      pub booked-balances : total_balances (booked_db r a b s) ≡ total_balances s.working
      unfolding total_balances
      booked-balances = simp (sum-map balance_of) booked-total

    -- Half a cent is lost by nobody and gained by the receiver as a cent.
    module _ (half : is_half_cent r.amount ≡ true) where
      half-total :
          total balance_of (booked_db r a b s).accounts
          ≡ total balance_of s.working.accounts +ℤ pos 1
      half-total = grind (
        int_laws,
        gains,
        difference_column-half a.balance r.amount acc.covered (above_zero r.amount positive) half,
        total-modify balance_of id_of r.receiver_id (set_balance (sum_column b.balance r.amount))
            after_debit receiver_after_debit,
        total-modify balance_of id_of r.sender_id
            (set_balance (difference_column a.balance r.amount)) s.working.accounts
            acc.found_sender,
      )

      pub half-balances : total_balances (booked_db r a b s) ≡ total_balances s.working +ℤ pos 1
      unfolding total_balances
      half-balances = simp (sum-map balance_of) half-total

abbrev Conserved : Db → Db → Type 0
Conserved d d' =
    (total_balances d' ≡ total_balances d)
    × (total_credits d' +ℤ total_debits d ≡ total_debits d' +ℤ total_credits d)

Conserved-same : (d d' : Db) → d' ≡ d → Conserved d d'
Conserved-same d d' e = rw e (refl, omega int_laws)

-- From a valid session, whatever a transfer of an amount that does not end in exactly half a cent
-- returns, the sum of all stored balances stays the same, and the debits of the ledger grow by
-- exactly what the credits grow.
pub execute_transfer-conserves :
    (r : TransferRequest) (s : Session)
    → IsValid s
    → is_half_cent r.amount ≡ false
    → (total_balances (execute_transfer r s).1.committed ≡ total_balances s.committed)
      × (total_credits (execute_transfer r s).1.committed +ℤ total_debits s.committed
          ≡ total_debits (execute_transfer r s).1.committed +ℤ total_credits s.committed)
execute_transfer-conserves r s v even = elim (transfer_cases r s v) [
  | inl k ↦
      let m = booked-balances r s k.accepted (sound s.working (seen v).sound) k.positive even in
      let c = booked-credits r s k.accepted in
      let d = booked-debits r s k.accepted in
      rw (Booked-committed r s k, m, c, d, v.clean) (refl, omega int_laws)
  | inr (inl k) ↦ rw k.result (refl, omega int_laws)
  | inr (inr k) ↦ Conserved-same s.committed _ k.committed
]

-- From a valid session a new transfer that succeeds with an amount that ends in exactly half a
-- cent leaves the sum of all stored balances one cent higher, while the debits of the ledger grow
-- by exactly what the credits grow.
pub execute_transfer-makes_cent :
    (r : TransferRequest) (s : Session) {t : Transaction}
    → IsValid s
    → is_half_cent r.amount ≡ true
    → existing_transfer r.idempotency_key s.working ≡ none
    → (execute_transfer r s).0 ≡ ok t
    → (total_balances (execute_transfer r s).1.committed ≡ total_balances s.committed +ℤ pos 1)
      × (total_credits (execute_transfer r s).1.committed +ℤ total_debits s.committed
          ≡ total_debits (execute_transfer r s).1.committed +ℤ total_credits s.committed)
execute_transfer-makes_cent r s v half fresh done = elim (transfer_cases r s v) [
  | inl k ↦
      let m = half-balances r s k.accepted (sound s.working (seen v).sound) k.positive half in
      let c = booked-credits r s k.accepted in
      let d = booked-debits r s k.accepted in
      rw (Booked-committed r s k, m, c, d, v.clean) (refl, omega int_laws)
  | inr (inl k) ↦ absurd (cc (k.found, fresh))
  | inr (inr k) ↦ absurd (cc (k.raised, done))
]

-- A transfer that books takes the amount from the sender, gives it to the receiver, and leaves every
-- other account as it was.
pub Booked-moves :
    (r : TransferRequest) (s : Session) (k : Booked r s)
    → let after = (execute_transfer r s).1.committed.accounts in
      (get_account r.sender_id after
        ≡ some (set_balance (difference_column k.sender.balance r.amount) k.sender))
      × (get_account r.receiver_id after
          ≡ some (set_balance (sum_column k.receiver.balance r.amount) k.receiver))
      × ((j : ℕ)
          → j ≢ r.sender_id
          → j ≢ r.receiver_id
          → get_account j after ≡ get_account j s.working.accounts)
Booked-moves r s k =
    rw (Booked-committed r s k)
      (booked-sender r s k.accepted, booked-receiver r s k.accepted, booked-others r s k.accepted)

module _ (r : TransferRequest) (s : Session) {a b : Account}
    (sender : get_account r.sender_id s.working.accounts ≡ some a)
    (receiver : get_account r.receiver_id s.working.accounts ≡ some b)
    (even : is_half_cent r.amount ≡ false) (h : IsSound s.working) where
  abbrev Moved : Type 0
  Moved =
      let after = (execute_transfer r s).1.committed.accounts in
      (get_account r.sender_id after ≡ some (set_balance (a.balance -ℤ to_column r.amount) a))
      × (get_account r.receiver_id after ≡ some (set_balance (b.balance +ℤ to_column r.amount) b))
      × ((j : ℕ)
          → j ≢ r.sender_id
          → j ≢ r.receiver_id
          → get_account j after ≡ get_account j s.working.accounts)

  Booked-Moved : Booked r s → Moved
  Booked-Moved k =
      let ea : k.sender ≡ a = cc (k.accepted.found_sender, sender) in
      let eb : k.receiver ≡ b = cc (k.accepted.found_receiver, receiver) in
      let (x, y, z) = Booked-moves r s k in
      rw (← ea, ← eb, ← loses r s k.accepted h k.positive even, ← gains r s k.accepted h k.positive)
        (x, y, z)

-- From a valid session a new transfer that succeeds, whose amount does not end in exactly half a
-- cent, takes the amount, rounded to cents, from the sender's balance, adds it to the receiver's,
-- and leaves every other account and the rest of these two as they were.
pub execute_transfer-moves :
    (r : TransferRequest) (s : Session) {a b : Account} {t : Transaction}
    → IsValid s
    → is_half_cent r.amount ≡ false
    → existing_transfer r.idempotency_key s.working ≡ none
    → (execute_transfer r s).0 ≡ ok t
    → get_account r.sender_id s.working.accounts ≡ some a
    → get_account r.receiver_id s.working.accounts ≡ some b
    → let after = (execute_transfer r s).1.committed.accounts in
      (get_account r.sender_id after ≡ some (set_balance (a.balance -ℤ to_column r.amount) a))
      × (get_account r.receiver_id after ≡ some (set_balance (b.balance +ℤ to_column r.amount) b))
      × ((j : ℕ)
          → j ≢ r.sender_id
          → j ≢ r.receiver_id
          → get_account j after ≡ get_account j s.working.accounts)
execute_transfer-moves r s v even fresh done sender receiver = elim (transfer_cases r s v) [
  | inl k ↦ Booked-Moved r s sender receiver even (sound s.working (seen v).sound) k
  | inr (inl k) ↦ absurd (cc (k.found, fresh))
  | inr (inr n) ↦ absurd (cc (n.raised, done))
]
