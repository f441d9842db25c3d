-- ===== src/Examples/Routes.antt =====
-- Requests of a customer and of an administrator at the small bank.
use mathlib.Core.List.{Permᴰ}
use bank_flow_digital_bankin.Base.{
  List, none, some, true, [], ◌∷◌, ◌≡◌, ◌≢◌, refl, arith, inl, all, keep,
}
use bank_flow_digital_bankin.Base.Int.{pos, ◌≤ℤ◌}
use bank_flow_digital_bankin.Base.Decimal.{whole}
use bank_flow_digital_bankin.Models.{
  Account, Transaction, active, frozen, customer, admin, completed,
}
use bank_flow_digital_bankin.Database.{Session, ok, get_account}
use bank_flow_digital_bankin.Http.{Caller, Page, Body, respond, serve}
use bank_flow_digital_bankin.Invariant.{IsValid}
use bank_flow_digital_bankin.Examples.{bank, bank-IsValid, account_row}
use bank_flow_digital_bankin.Transfer.{TransferRequest, execute_transfer, existing_transfer}
use bank_flow_digital_bankin.Accounts.Payload.{given}
use bank_flow_digital_bankin.TransferRoutes.{TransferPayload, an_id, a_key, create_transfer}
use bank_flow_digital_bankin.TransferRoutes.Ownership.{create_transfer-keeps_others}
use bank_flow_digital_bankin.TransferRoutes.History.{
  HistoryArgs, TypeFilter, involves, own_ids, get_transaction_history, page_where,
  get_transaction_history-own,
}
use bank_flow_digital_bankin.Listing.{newest_first, paginate}
use bank_flow_digital_bankin.Accounts.Admin.{set_account_status, update_account_status}
use bank_flow_digital_bankin.Accounts.Admin.Status.{changed, update_account_status-changed}
use bank_flow_digital_bankin.Accounts.Admin.Freezing.{inactive_blocks_transfers}
use bank_flow_digital_bankin.Statements.{CsvRow, generate_csv_statement, on_statement}
use bank_flow_digital_bankin.Statements.Rows.{
  AllShow, is_due, Chronological, generate_csv_statement-rows,
}

abbrev bob : Caller
bob = record { user_id = 2; role = customer }

abbrev operator : Caller
operator = record { user_id = 9; role = admin }

abbrev alice_account : Account
alice_account = account_row 1 "BF0000000001" (pos 100_000) active

-- Bob sends money to Alice.
abbrev payload : TransferPayload
payload = record {
  sender_account_id = an_id 2;
  receiver_account_id = an_id 1;
  amount = given (whole (pos 200));
  idempotency_key = a_key none;
}

create_transfer-keeps_others_example :
    (b : Account) × (get_account 1 (serve (create_transfer bob payload) bank).1.committed.accounts
      ≡ some b)
    × (pos 100_000 ≤ℤ b.balance)
create_transfer-keeps_others_example =
    create_transfer-keeps_others bob payload bank 1 {a = alice_account} bank-IsValid refl refl
      (λ e. omega (arith, e))

-- A bank with a transfer that Bob is no part of.
abbrev private_transfer : Transaction
private_transfer = record {
  transaction_id = 1;
  sender_account_id = 1;
  receiver_account_id = 3;
  amount = pos 5;
  status = completed;
  idempotency_key = none;
  created_at = 4;
}

abbrev shared_transfer : Transaction
shared_transfer = record private_transfer { transaction_id = 2; receiver_account_id = 2 }

abbrev busy : Session
busy = record bank {
  working = record (bank.working) { transactions = private_transfer ∷ shared_transfer ∷ [] };
}

abbrev query : HistoryArgs
query = record {
  page = 1;
  per_page = 10;
  status_filter = none;
  type_filter = TypeFilter.both;
  target_account_id = none;
}

abbrev bob_page : Page Transaction
bob_page = record {
  items = shared_transfer ∷ [];
  page = 1;
  per_page = 10;
  total_items = 1;
  total_pages = 1;
}

bob_history : (get_transaction_history bob query busy).0 ≡ ok (respond 200 (Body.history bob_page))
unfolding get_transaction_history page_where newest_first paginate
bob_history = refl

get_transaction_history-own_example :
    all (involves (own_ids 2 busy.working.accounts)) bob_page.items ≡ true
get_transaction_history-own_example =
    get_transaction_history-own bob query busy {x = bob_page} refl bob_history

update_account_status-changed_example :
    (serve (update_account_status operator 1 (some frozen)) bank ≡ (
      respond 200 (Body.status_updated (set_account_status frozen alice_account)),
      changed operator 1 alice_account frozen bank,
    ))
    × IsValid (changed operator 1 alice_account frozen bank)
update_account_status-changed_example =
    update_account_status-changed operator 1 frozen bank bank-IsValid refl refl refl

abbrev request : TransferRequest
request = record { sender_id = 1; receiver_id = 2; amount = whole (pos 5); idempotency_key = none }

inactive_blocks_transfers_example :
    let after = (serve (update_account_status operator 1 (some frozen)) bank).1 in
    ((t : Transaction) → (execute_transfer request after).0 ≢ ok t)
    × ((execute_transfer request after).1.committed ≡ after.committed)
unfolding existing_transfer
inactive_blocks_transfers_example =
    inactive_blocks_transfers operator 1 frozen bank request {a = alice_account} bank-IsValid refl
      refl (λ e. ground arith) (inl refl) refl refl

generate_csv_statement-rows_example :
    (txs : List Transaction) × (rows : List CsvRow) × (generate_csv_statement bob 2
        (some 3)
        none
        bank
      ≡ ok rows)
    × Permᴰ txs (keep (on_statement 2 (some 3) none) bank.working.transactions)
    × AllShow 2 txs rows
    × (all (is_due 2 (some 3) none) rows ≡ true)
    × Chronological rows
generate_csv_statement-rows_example =
    generate_csv_statement-rows bob 2 (some 3) none bank bank-IsValid refl refl
