-- ===== src/Invariant.antt =====
-- The invariant of the stored tables (app/models and what the services keep beyond its constraints).
pub mod Ends
use bank_flow_digital_bankin.Base.{ℕ, Bool, true, false, ◌&&◌, ◌==◌, all, ◌≤◌, none, ◌≡◌, sym}
use bank_flow_digital_bankin.Base.Rows.{Below, Below-mono}
use bank_flow_digital_bankin.Models.{Account, Transaction, Endpoint, StoredBody, IdempotencyRecord}
use bank_flow_digital_bankin.Database.{Db, Session, Counters, violation}
use bank_flow_digital_bankin.Reconcile.Pairs.{LinksBelow, LinksBelow-mono, Paired}
use mathlib.Core.Path.{subst}

-- A stored response is what its endpoint answers on success: 201 with a new account, or 200 with a deposit
-- on the account in the endpoint's path.
abbrev pub answers : Endpoint → StoredBody → ℕ → Bool
answers Endpoint.create_account (StoredBody.account_created a) code = code == 201
answers (Endpoint.deposit_funds k) (StoredBody.deposited x a) code =
    (code == 200) && (a.account_id == k)
answers _ _ _ = false

abbrev pub record_answers : IdempotencyRecord → Bool
record_answers r = answers r.endpoint r.response_body r.status_code

-- Stored tables pass the checks, no row has a key that was not handed out, and every transaction
-- has either no ledger entries or one debit and one credit of its amount; every stored response is one
-- of its endpoint.
pub record IsStored (ids : Counters) (d : Db) : Type 0 where
  pub sound : violation d ≡ none
  pub transactions_below :
      Below (λ (t : Transaction). t.transaction_id) ids.transaction d.transactions
  pub links_below : LinksBelow ids.transaction d.ledger_entries
  pub paired : Paired d.transactions d.ledger_entries
  pub accounts_below : Below (λ (a : Account). a.account_id) ids.account d.accounts
  pub records_answer : all record_answers d.idempotency_records ≡ true

-- Between two requests nothing is pending.
pub record IsValid (s : Session) : Type 0 where
  pub clean : s.working ≡ s.committed
  pub stored : IsStored s.ids s.committed

pub IsStored-mono :
    {m n : Counters} {d : Db}
    → m.transaction ≤ n.transaction
    → m.account ≤ n.account
    → IsStored m d
    → IsStored n d
IsStored-mono {m} {n} {d} t a h = record {
  sound = h.sound;
  transactions_below =
      Below-mono (λ (t : Transaction). t.transaction_id) m.transaction n.transaction d.transactions
        t h.transactions_below;
  links_below = LinksBelow-mono m.transaction n.transaction d.ledger_entries t h.links_below;
  paired = h.paired;
  accounts_below =
      Below-mono (λ (a : Account). a.account_id) m.account n.account d.accounts a h.accounts_below;
  records_answer = h.records_answer;
}

-- What is stored is also what a request sees at its start.
pub seen : {s : Session} → IsValid s → IsStored s.ids s.working
seen {s} v = subst (IsStored s.ids) (sym v.clean) v.stored

-- Tables that differ in neither the transactions, the ledger, the accounts nor the stored responses.
pub IsStored-beside :
    {m n : Counters} {d e : Db}
    → m.transaction ≤ n.transaction
    → m.account ≤ n.account
    → IsStored m d
    → violation e ≡ none
    → e.transactions ≡ d.transactions
    → e.ledger_entries ≡ d.ledger_entries
    → e.accounts ≡ d.accounts
    → e.idempotency_records ≡ d.idempotency_records
    → IsStored n e
IsStored-beside {m} {n} {d} {e} t a h q et el ea er =
    let w = IsStored-mono {m = m} {n = n} {d = d} t a h in
    record {
      sound = q;
      transactions_below = rw et w.transactions_below;
      links_below = rw el w.links_below;
      paired = rw (et, el) w.paired;
      accounts_below = rw ea w.accounts_below;
      records_answer = rw er w.records_answer;
    }
