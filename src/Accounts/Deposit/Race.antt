-- ===== src/Accounts/Deposit/Race.antt =====
-- Two deposits at once. `deposit_funds` reads the account without a lock, so two requests may both have
-- read it before either writes; each then books on the balance that it has read.
use bank_flow_digital_bankin.Base.{ℕ, some, ◌≡◌, refl, ◌∙◌, none, ap, true}
use bank_flow_digital_bankin.Base.Int.{pos, ◌+ℤ◌, ◌<ℤ◌}
use bank_flow_digital_bankin.Base.Rows.{key-get, get-modify_self, all-get}
use bank_flow_digital_bankin.Base.Decimal.{Decimal, to_column, sum_column}
use bank_flow_digital_bankin.Models.{Account}
use bank_flow_digital_bankin.Database.{
  Session, ok, commit, get_account, set_balance, violation, numeric_limit, account_ok,
}
use bank_flow_digital_bankin.Database.Sound.{sound}
use bank_flow_digital_bankin.Audit.{context_fits}
use bank_flow_digital_bankin.Invariant.{IsValid, seen}
use bank_flow_digital_bankin.Http.{Caller}
use bank_flow_digital_bankin.Reconcile.{total_credits}
use bank_flow_digital_bankin.Accounts.Deposit.{book_deposit}
use bank_flow_digital_bankin.Accounts.Deposit.Booking.{
  deposited_db, book_deposit-commit, stale_sound, deposited_sound,
}
use bank_flow_digital_bankin.Accounts.Deposit.Credits.{deposited}
use bank_flow_digital_bankin.Accounts.Deposit.Money.{deposited-credits}

booked :
    (c : Caller) (k : ℕ) (a : Account) (x : Decimal) (s : Session)
    → violation (deposited_db c k a x s) ≡ none
    → book_deposit c k a x s ≡ (ok tt, deposited c k a x s)
booked c k a x s q = book_deposit-commit c k a x s ∙ rw (q, commit)

module _ (c d : Caller) (k : ℕ) (x y : Decimal) (s : Session) {a : Account} (v : IsValid s)
    (found : get_account k s.working.accounts ≡ some a) (px : pos 0 <ℤ to_column x)
    (py : pos 0 <ℤ to_column y) (rx : sum_column a.balance x <ℤ pos numeric_limit)
    (ry : sum_column a.balance y <ℤ pos numeric_limit) (f : context_fits s.context ≡ true) where
  abbrev middle : Session
  middle = deposited c k a x s

  first_sound : violation middle.working ≡ none
  first_sound = deposited_sound c k a x s found px rx (sound s.working (seen v).sound) f

  first_found :
      get_account k middle.working.accounts ≡ some (set_balance (sum_column a.balance x) a)
  first_found =
      get-modify_self (λ (a : Account). a.account_id) k (set_balance (sum_column a.balance x))
        s.working.accounts found
        (key-get (λ (a : Account). a.account_id) k s.working.accounts found)

  second_sound : violation (deposited_db d k a y middle) ≡ none
  second_sound =
      stale_sound d k a y middle first_found
        (all-get (λ (a : Account). a.account_id) account_ok k s.working.accounts
          (sound s.working (seen v).sound).accounts_ok found)
        py ry (sound middle.working first_sound) f

  second_found :
      get_account k (deposited_db d k a y middle).accounts
      ≡ some (set_balance (sum_column a.balance y) a)
  second_found =
      get-modify_self (λ (a : Account). a.account_id) k (set_balance (sum_column a.balance y))
        middle.working.accounts first_found
        (key-get (λ (a : Account). a.account_id) k middle.working.accounts first_found)

  credits :
      total_credits (deposited_db d k a y middle)
      ≡ total_credits s.working +ℤ to_column x +ℤ to_column y
  credits =
      deposited-credits d k a y middle ∙ ap (λ z. z +ℤ to_column y) (deposited-credits c k a x s)

-- Two deposits into an account of a valid session that were both booked on the row as it was
-- before either, each stored as a cent or more and leaving the balance within twelve digits, in a
-- request whose address and id fit the columns of the audit trail, both commit; the account then
-- has only the second amount more, as the column takes it, while the sum of all credits has grown
-- by both.
pub book_deposit-lost_update :
    (c d : Caller) (k : ℕ) (x y : Decimal) (s : Session) {a : Account}
    → IsValid s
    → get_account k s.working.accounts ≡ some a
    → pos 0 <ℤ to_column x
    → pos 0 <ℤ to_column y
    → sum_column a.balance x <ℤ pos numeric_limit
    → sum_column a.balance y <ℤ pos numeric_limit
    → context_fits s.context ≡ true
    → let first = book_deposit c k a x s in
      let second = book_deposit d k a y first.1 in
      (first.0 ≡ ok tt)
      × (second.0 ≡ ok tt)
      × (get_account k second.1.committed.accounts ≡ some (set_balance (sum_column a.balance y) a))
      × (total_credits second.1.committed ≡ total_credits s.working +ℤ to_column x +ℤ to_column y)
book_deposit-lost_update c d k x y s {a} v found px py rx ry f =
    rw
      (
        booked c k a x s (first_sound c d k x y s v found px py rx ry f),
        booked d k a y (deposited c k a x s) (second_sound c d k x y s v found px py rx ry f),
      )
      (
        refl,
        refl,
        second_found c d k x y s v found px py rx ry f,
        credits c d k x y s v found px py rx ry f,
      )
