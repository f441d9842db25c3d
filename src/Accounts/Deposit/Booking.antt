-- ===== src/Accounts/Deposit/Booking.antt =====
-- A deposit in closed form: the tables at its commit, and when the database takes them.
use bank_flow_digital_bankin.Base.{
  ℕ, ◌+◌, none, some, true, [], ◌∷◌, ◌++◌, ◌≡◌, refl, arith, all-append_one, ◌∙◌,
}
use bank_flow_digital_bankin.Base.Int.{pos, ◌+ℤ◌, +ℤ_parts, ◌<ℤ◌}
use bank_flow_digital_bankin.Base.Rows.{Below-modify, all-get, all-modify}
use bank_flow_digital_bankin.Base.Decimal.{
  Decimal, to_column, sum_column, sum_column-pos, stored-pos,
}
use bank_flow_digital_bankin.Models.{Account, LedgerEntry, credit, external_deposit}
use bank_flow_digital_bankin.Database.{
  Db, Session, commit, violation, get_account, modify_account, set_balance, account_ok,
  account_fits, entry_ok, entry_fits, numeric_limit, log_fits,
}
use bank_flow_digital_bankin.Database.Sound.{IsSound, no_violation}
use bank_flow_digital_bankin.Database.Unique.{unique_texts-modify}
use bank_flow_digital_bankin.Audit.{add_log, audit_entry, context_fits, audit_entry-fits}
use bank_flow_digital_bankin.Ledger.{new_entry}
use bank_flow_digital_bankin.Invariant.{IsStored}
use bank_flow_digital_bankin.Reconcile.Pairs.{LinksBelow-append, Paired-append_free}
use bank_flow_digital_bankin.Http.{Caller}
use bank_flow_digital_bankin.Accounts.Deposit.{book_deposit, deposit_event}

module _ (c : Caller) (k : ℕ) (a : Account) (x : Decimal) (s : Session) where
  abbrev pub deposit_entry : LedgerEntry
  deposit_entry =
      new_entry none k credit (to_column x) (sum_column a.balance x) (external_deposit k) s

  abbrev pub deposited_db : Db
  deposited_db = record (s.working) {
    accounts = modify_account k (set_balance (sum_column a.balance x)) s.working.accounts;
    ledger_entries = s.working.ledger_entries ++ deposit_entry ∷ [];
    audit_logs = s.working.audit_logs ++ audit_entry (deposit_event c k x a.balance) s ∷ [];
  }

  abbrev pub pending_deposit : Session
  pending_deposit = record s {
    working = deposited_db;
    ids = record (s.ids) { entry = s.ids.entry + 1; log = s.ids.log + 1 };
  }

  pub book_deposit-commit : book_deposit c k a x s ≡ commit pending_deposit
  unfolding book_deposit add_log
  book_deposit-commit = refl

  pub deposited-IsStored :
      IsStored s.ids s.working → violation deposited_db ≡ none → IsStored s.ids deposited_db
  deposited-IsStored v q = record {
    sound = q;
    transactions_below = v.transactions_below;
    records_answer = v.records_answer;
    links_below =
        LinksBelow-append s.ids.transaction s.working.ledger_entries deposit_entry v.links_below tt;
    paired =
        Paired-append_free s.working.transactions s.working.ledger_entries deposit_entry refl
          v.paired;
    accounts_below =
        Below-modify (λ (a : Account). a.account_id) s.ids.account k _ s.working.accounts
          (λ _. refl) v.accounts_below;
  }

  -- The row that the UPDATE finds may be newer than the `a` that was read.
  module _ {b : Account} (found : get_account k s.working.accounts ≡ some b)
      (old_ok : account_ok a ≡ true) (positive : pos 0 <ℤ to_column x)
      (room : sum_column a.balance x <ℤ pos numeric_limit) (h : IsSound s.working)
      (f : context_fits s.context ≡ true) where
    grown : sum_column a.balance x ≡ a.balance +ℤ to_column x
    grown = sum_column-pos a.balance x (ground (arith, old_ok)) (stored-pos x positive)

    pub stale_sound : violation deposited_db ≡ none
    stale_sound = no_violation deposited_db (record {
      accounts_ok =
          all-modify (λ (a : Account). a.account_id) account_ok k _ s.working.accounts h.accounts_ok
            found (ground (arith, old_ok, +ℤ_parts a.balance (to_column x), grown));
      accounts_fit =
          all-modify (λ (a : Account). a.account_id) account_fits k _ s.working.accounts
            h.accounts_fit found (ground arith);
      transactions_ok = h.transactions_ok;
      transactions_fit = h.transactions_fit;
      entries_ok =
          all-append_one entry_ok s.working.ledger_entries deposit_entry h.entries_ok
            (ground arith);
      entries_fit =
          all-append_one entry_fits s.working.ledger_entries deposit_entry h.entries_fit
            (ground (arith, old_ok, +ℤ_parts a.balance (to_column x), grown));
      records_fit = h.records_fit;
      keys_unique = h.keys_unique;
      numbers_unique =
          unique_texts-modify (λ (a : Account). a.account_number) (λ (a : Account). a.account_id) k
            (set_balance (sum_column a.balance x)) (λ _. refl) s.working.accounts
          ∙ h.numbers_unique;
      emails_unique = h.emails_unique;
      records_unique = h.records_unique;
      profiles_fit = h.profiles_fit;
      profiles_unique = h.profiles_unique;
      configs_fit = h.configs_fit;
      users_fit = h.users_fit;
      logs_fit =
          all-append_one log_fits s.working.audit_logs _ h.logs_fit
            (audit_entry-fits (deposit_event c k x a.balance) s f);
    })

  -- A positive deposit that leaves the balance within twelve digits is taken by the database.
  pub deposited_sound :
      get_account k s.working.accounts ≡ some a
      → pos 0 <ℤ to_column x
      → sum_column a.balance x <ℤ pos numeric_limit
      → IsSound s.working
      → context_fits s.context ≡ true
      → violation deposited_db ≡ none
  deposited_sound found positive room h f =
      stale_sound found
        (all-get (λ (a : Account). a.account_id) account_ok k s.working.accounts h.accounts_ok
          found)
        positive room h f
