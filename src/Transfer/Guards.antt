-- ===== src/Transfer/Guards.antt =====
-- The guards of `execute_transfer`: what the sorted locks read, and which exception wins.
use bank_flow_digital_bankin.Base.{
  refl, false, Bool-cases, inl, inr, ℕ, ◌≤◌, Option, none, some, not, ◌&&◌, List, ◌==◌,
  if◌then◌else◌, ◌≡◌, arith,
}
use bank_flow_digital_bankin.Base.Decimal.{at_most}
use bank_flow_digital_bankin.Models.{Account, is_active}
use bank_flow_digital_bankin.Database.{
  Session, Result, ok, err, insufficient_balance, account_not_found, account_inactive,
  invalid_transfer, ◌>>=◌, get_account,
}
use bank_flow_digital_bankin.Transfer.{
  TransferRequest, lock_order, validate_accounts, guard_accounts, select_sender, select_receiver,
  both_found,
}

-- The locks are taken in one order whatever the direction of the transfer, the smaller id first.
pub lock_order_sorted :
    (a b : ℕ) → ((lock_order a b).0 ≤ (lock_order a b).1) × (lock_order a b ≡ lock_order b a)
unfolding lock_order
lock_order_sorted a b = ground arith

-- The checks of steps 2 to 4 with no locks: each account is read by its own id.
abbrev pub check_accounts :
    TransferRequest → Option Account → Option Account → Result (Account × Account)
check_accounts r none b = err account_not_found
check_accounts r (some a) none = err account_not_found
check_accounts r (some a) (some b) =
    if not (is_active a.status && is_active b.status)
    then err account_inactive
    else if not (at_most r.amount a.balance)
    then err insufficient_balance
    else ok (a, b)

abbrev pub validation : TransferRequest → List Account → Result (Account × Account)
validation r accounts =
    if r.sender_id == r.receiver_id
    then err invalid_transfer
    else check_accounts r (get_account r.sender_id accounts) (get_account r.receiver_id accounts)

guard_accounts-eq :
    (r : TransferRequest) (a b : Account) (s : Session)
    → guard_accounts r (a, b) s ≡ (check_accounts r (some a) (some b), s)
unfolding guard_accounts
guard_accounts-eq r a b s = ground arith

both_found-eq :
    (r : TransferRequest) (x y : Option Account) (s : Session)
    → (both_found x y >>= guard_accounts r) s ≡ (check_accounts r x y, s)
both_found-eq r none y s = refl
both_found-eq r (some a) none s = refl
both_found-eq r (some a) (some b) s = guard_accounts-eq r a b s

module _ (r : TransferRequest) (accounts : List Account)
    (ne : (r.sender_id == r.receiver_id) ≡ false) where
  select_sender-eq :
      let (first_id, second_id) = lock_order r.sender_id r.receiver_id in
      select_sender r first_id (get_account first_id accounts) (get_account second_id accounts)
      ≡ get_account r.sender_id accounts
  unfolding select_sender lock_order
  select_sender-eq = ground arith

  select_receiver-eq :
      let (first_id, second_id) = lock_order r.sender_id r.receiver_id in
      select_receiver r second_id (get_account first_id accounts) (get_account second_id accounts)
      ≡ get_account r.receiver_id accounts
  unfolding select_receiver lock_order
  select_receiver-eq = ground arith

-- Reading the two accounts in the order of their ids and sorting out which is which afterwards gives
-- the same accounts, the same exceptions and no other effect.
pub validate_accounts-eq :
    (r : TransferRequest) (s : Session)
    → validate_accounts r s ≡ (validation r s.working.accounts, s)
validate_accounts-eq r s = elim (Bool-cases (r.sender_id == r.receiver_id)) [
  | inl same ↦ rw same (unfold validate_accounts in rw same)
  | inr ne ↦
      let accounts = s.working.accounts in
      rw ne (
        unfold validate_accounts in
        rw (ne, select_sender-eq r accounts ne, select_receiver-eq r accounts ne)
          (both_found-eq r (get_account r.sender_id accounts) (get_account r.receiver_id accounts)
            s))
]
