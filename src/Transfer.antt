-- ===== src/Transfer.antt =====
-- app/services/transfer_service.py: `execute_transfer`. Its steps are functions of their own, composed
-- in the order of the code; the proofs stand in the modules below.
pub mod Guards
pub mod Outcome
pub mod Booking
pub mod Cases
pub mod Money
pub mod Replay
pub mod Succeeds
pub mod EmptyKey
pub mod Keeps
use bank_flow_digital_bankin.Base.{
  ℕ, ◌+◌, String, Option, none, some, Bool, not, ◌&&◌, ◌||◌, [], ◌∷◌, ◌++◌, ◌==◌, leb, str_eq,
  if◌then◌else◌,
}
use bank_flow_digital_bankin.Base.Int.{ℤ, pos, ◌+ℤ◌, ◌-ℤ◌, ltb_ℤ, leb_ℤ, eqb_ℤ}
use bank_flow_digital_bankin.Base.Decimal.{
  Decimal, at_most, equals, to_column, sum_column, difference_column,
}
use bank_flow_digital_bankin.Models.{
  Account, Transaction, LedgerEntry, LedgerEntryType, Description, transfer_to, transfer_from,
  TransactionStatus, AuditEventType, Details, is_active, debit, credit, completed,
}
use bank_flow_digital_bankin.Database.{
  Db, Session, Event, Action, insufficient_balance, account_not_found, account_inactive,
  invalid_transfer, idempotency_key_conflict, pure, raise, raise_if, gets, ◌>>=◌, ◌>>◌,
  modify_session, flush, commit, or_rollback, get_account, modify_account, set_balance, get_user,
  modify_transaction, set_status, find_key,
}
use bank_flow_digital_bankin.Ledger.{add_entry}
use bank_flow_digital_bankin.Audit.{AuditEvent, record_audit_event}

-- The arguments of `execute_transfer`; the amount is exact.
pub record TransferRequest : Type 0 where
  pub sender_id : ℕ
  pub receiver_id : ℕ
  pub amount : Decimal
  pub idempotency_key : Option String

-- `if idempotency_key:` - None and the empty text are false
abbrev pub truthy : Option String → Option String
truthy none = none
truthy (some k) = if str_eq k "" then none else some k

-- Step 1: the lookup by key.
unfoldable pub existing_transfer : Option String → Db → Option Transaction
existing_transfer key d = elim (truthy key) [ none ↦ none | some k ↦ find_key k d.transactions ]

abbrev pub same_parameters : TransferRequest → Transaction → Bool
same_parameters r t =
    t.sender_account_id == r.sender_id
    && (t.receiver_account_id == r.receiver_id && equals r.amount t.amount)

-- Step 3: `sorted([sender_id, receiver_id])`
unfoldable pub lock_order : ℕ → ℕ → ℕ × ℕ
lock_order a b = if leb a b then (a, b) else (b, a)

-- `query(Account).filter_by(account_id=k).with_for_update().first()`
abbrev pub lock_account : ℕ → Action (Option Account)
lock_account k = gets (λ s. get_account k s.working.accounts)

-- `not sender_account or not receiver_account`
abbrev pub both_found : Option Account → Option Account → Action (Account × Account)
both_found none b = raise account_not_found
both_found (some a) none = raise account_not_found
both_found (some a) (some b) = pure (a, b)

-- Step 4 on two accounts that were found.
unfoldable pub guard_accounts : TransferRequest → Account × Account → Action (Account × Account)
guard_accounts r (sender, receiver) = do
  raise_if (not (is_active sender.status) || not (is_active receiver.status)) account_inactive
  raise_if (not (at_most r.amount sender.balance)) insufficient_balance
  pure (sender, receiver)

-- Step 3, the end: which of the two locked accounts is the sender's, and which the receiver's.
unfoldable pub select_sender :
    TransferRequest → ℕ → Option Account → Option Account → Option Account
select_sender r first_id first second = if r.sender_id == first_id then first else second

unfoldable pub select_receiver :
    TransferRequest → ℕ → Option Account → Option Account → Option Account
select_receiver r second_id first second = if r.receiver_id == second_id then second else first

-- Steps 2 to 4: the guards, which hand on the two locked accounts.
unfoldable pub validate_accounts : TransferRequest → Action (Account × Account)
validate_accounts r = do
  raise_if (r.sender_id == r.receiver_id) invalid_transfer
  let first_id = (lock_order r.sender_id r.receiver_id).0
  let second_id = (lock_order r.sender_id r.receiver_id).1
  first ← lock_account first_id
  second ← lock_account second_id
  found ←
      both_found (select_sender r first_id first second) (select_receiver r second_id first second)
  guard_accounts r found

abbrev pub new_transaction : TransferRequest → Session → Transaction
new_transaction r s = record {
  transaction_id = s.ids.transaction;
  sender_account_id = r.sender_id;
  receiver_account_id = r.receiver_id;
  amount = to_column r.amount;
  status = TransactionStatus.pending;
  idempotency_key = r.idempotency_key;
  created_at = s.now;
}

-- Step 5: the row in state PENDING; the flush assigns its key.
unfoldable pub add_transaction : TransferRequest → Action Transaction
add_transaction r = do
  tx ← gets (new_transaction r)
  modify_session (λ s. record s {
    working = record (s.working) { transactions = s.working.transactions ++ tx ∷ [] };
    ids = record (s.ids) { transaction = s.ids.transaction + 1 };
  })
  flush
  pure tx

-- Step 6
unfoldable pub write_balances : TransferRequest → ℤ → ℤ → Action (Unit {0})
write_balances r new_sender new_receiver = modify_session (λ s. record s {
  working = record (s.working) {
    accounts =
        modify_account r.receiver_id (set_balance new_receiver)
          (modify_account r.sender_id (set_balance new_sender) s.working.accounts);
  };
})

-- Step 8
unfoldable pub complete : ℕ → Action (Unit {0})
complete id = modify_session (λ s. record s {
  working = record (s.working) {
    transactions = modify_transaction id (set_status completed) s.working.transactions;
  };
})

abbrev pub completed_event : TransferRequest → ℕ → Account → AuditEvent
completed_event r tx_id sender = record {
  event_type = AuditEventType.transfer_completed;
  actor_id = some sender.user_id;
  target_user_id = none;
  target_account_id = some r.receiver_id;
  details = Details.transfer tx_id r.sender_id r.receiver_id r.amount r.idempotency_key;
}

-- Step 11: the notice to the sender's user, if there is one with an address. It cannot fail.
unfoldable pub notify_sender : TransferRequest → ℕ → Account → Action (Unit {0})
notify_sender r tx_id sender = modify_session (λ s. elim (get_user sender.user_id s.working.users) [
  | none ↦ s
  | some user ↦ if str_eq user.email "" then s else record s {
    outbox =
        s.outbox
        ++ record {
          event = Event.transfer_completed tx_id r.amount r.sender_id r.receiver_id;
          recipient_email = user.email;
        }
          ∷ [];
  }
])

-- Steps 5 to 11, once the accounts are validated. The balances and the entries are written as their
-- columns take them, each value rounded by itself. The row that comes back is read after the commit.
unfoldable pub book_transfer : TransferRequest → Account → Account → Action Transaction
unfolding add_transaction write_balances add_entry complete record_audit_event notify_sender
book_transfer r sender receiver = do
  tx ← add_transaction r
  let new_sender_balance = difference_column sender.balance r.amount
  let new_receiver_balance = sum_column receiver.balance r.amount
  write_balances r new_sender_balance new_receiver_balance
  add_entry (some tx.transaction_id) r.sender_id debit (to_column r.amount) new_sender_balance
      (transfer_to r.receiver_id)
  add_entry (some tx.transaction_id) r.receiver_id credit (to_column r.amount) new_receiver_balance
      (transfer_from r.sender_id)
  complete tx.transaction_id
  record_audit_event (completed_event r tx.transaction_id sender)
  commit
  notify_sender r tx.transaction_id sender
  pure (set_status completed tx)

unfoldable pub new_transfer : TransferRequest → Action Transaction
unfolding validate_accounts lock_order guard_accounts select_sender select_receiver book_transfer
new_transfer r = do (sender, receiver) ← validate_accounts r; book_transfer r sender receiver

-- Step 1: a replay returns the stored row, and a key with other parameters is a conflict.
unfoldable pub transfer_or_replay : TransferRequest → Option Transaction → Action Transaction
unfolding new_transfer
transfer_or_replay r none = new_transfer r
transfer_or_replay r (some tx) =
    if same_parameters r tx then pure tx else raise idempotency_key_conflict

unfoldable pub execute_transfer : TransferRequest → Action Transaction
unfolding existing_transfer transfer_or_replay
execute_transfer r = do
  raise_if (at_most r.amount (pos 0)) invalid_transfer
  or_rollback (do
    found ← gets (λ s. existing_transfer r.idempotency_key s.working)
    transfer_or_replay r found)
