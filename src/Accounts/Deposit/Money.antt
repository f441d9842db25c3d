-- ===== src/Accounts/Deposit/Money.antt =====
-- The money of a deposit: the balances and the ledger before and after.
use bank_flow_digital_bankin.Base.{
  ℕ, some, List, ◌≡◌, ◌≢◌, refl, keep-append_true, keep-append_false,
}
use bank_flow_digital_bankin.Base.Int.{ℤ, ◌+ℤ◌, int_laws}
use bank_flow_digital_bankin.Base.Rows.{key-get, get-modify_self, get-modify_ne}
use bank_flow_digital_bankin.Base.Decimal.{Decimal, to_column, sum_column}
use bank_flow_digital_bankin.Models.{Account, LedgerEntry, IdempotencyRecord, is_credit, is_debit}
use bank_flow_digital_bankin.Database.{Db, Session, get_account, set_balance}
use bank_flow_digital_bankin.Http.{Caller}
use bank_flow_digital_bankin.Reconcile.{total_balances, total_credits, total_debits}
use bank_flow_digital_bankin.Reconcile.Sums.{sum-map, total-append, total-modify}
use bank_flow_digital_bankin.Accounts.Deposit.Booking.{deposited_db, deposit_entry}

-- `after` is `before` with `x` more on account `k`, credited in the ledger.
pub record IsCredited (k : ℕ) (a : Account) (x : ℤ) (before after : Db) : Type 0 where
  pub balance : get_account k after.accounts ≡ some (set_balance (a.balance +ℤ x) a)
  pub others : (j : ℕ) → j ≢ k → get_account j after.accounts ≡ get_account j before.accounts
  pub balances : total_balances after ≡ total_balances before +ℤ x
  pub credits : total_credits after ≡ total_credits before +ℤ x
  pub debits : total_debits after ≡ total_debits before

module _ (c : Caller) (k : ℕ) (a : Account) (x : Decimal) (s : Session) where
  pub deposited-credits :
      total_credits (deposited_db c k a x s) ≡ total_credits s.working +ℤ to_column x
  unfolding total_credits
  deposited-credits =
      rw
        (keep-append_true (λ (e : LedgerEntry). is_credit e.entry_type) s.working.ledger_entries
          (deposit_entry c k a x s) refl)
        (simp
          (sum-map (λ (e : LedgerEntry). e.amount), total-append (λ (e : LedgerEntry). e.amount)))

module _ (c : Caller) (k : ℕ) (a : Account) (x : Decimal) (s : Session)
    (found : get_account k s.working.accounts ≡ some a)
    (grown : sum_column a.balance x ≡ a.balance +ℤ to_column x) where
  deposited-balances :
      total_balances (deposited_db c k a x s) ≡ total_balances s.working +ℤ to_column x
  unfolding total_balances
  deposited-balances = simp (sum-map (λ (a : Account). a.balance)) (
      grind (
        int_laws,
        grown,
        total-modify (λ (a : Account). a.balance) (λ (a : Account). a.account_id) k
            (set_balance (sum_column a.balance x)) s.working.accounts found,
      ))

  deposited-debits : total_debits (deposited_db c k a x s) ≡ total_debits s.working
  unfolding total_debits
  deposited-debits = rw (
      keep-append_false (λ (e : LedgerEntry). is_debit e.entry_type) s.working.ledger_entries
        (deposit_entry c k a x s) refl)

  pub deposited-IsCredited : IsCredited k a (to_column x) s.working (deposited_db c k a x s)
  deposited-IsCredited = record {
    balance = rw (← grown) (
        get-modify_self (λ (a : Account). a.account_id) k (set_balance (sum_column a.balance x))
          s.working.accounts found
          (key-get (λ (a : Account). a.account_id) k s.working.accounts found));
    others = λ j ne.
        get-modify_ne (λ (a : Account). a.account_id) j k (set_balance (sum_column a.balance x))
          s.working.accounts found
          (key-get (λ (a : Account). a.account_id) k s.working.accounts found) ne;
    balances = deposited-balances;
    credits = deposited-credits c k a x s;
    debits = deposited-debits;
  }

-- A stored response touches no money.
pub IsCredited-record :
    (k : ℕ) (a : Account) (x : ℤ) (d e : Db) (rows : List IdempotencyRecord)
    → IsCredited k a x d e
    → IsCredited k a x d (record e { idempotency_records = rows })
unfolding total_balances total_credits total_debits
IsCredited-record k a x d e rows h = record {
  balance = h.balance;
  others = h.others;
  balances = h.balances;
  credits = h.credits;
  debits = h.debits;
}
