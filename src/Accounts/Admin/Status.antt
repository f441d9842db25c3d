-- ===== src/Accounts/Admin/Status.antt =====
-- What a change of an account's status does.
use bank_flow_digital_bankin.Base.{
  ℕ, ◌+◌, none, some, [], ◌∷◌, ◌++◌, ◌≡◌, refl, ◌∙◌, true, all-append_one, arith,
}
use bank_flow_digital_bankin.Base.Rows.{Below-modify, all-get, all-modify}
use bank_flow_digital_bankin.Models.{Account, AccountStatus, UserRole}
use bank_flow_digital_bankin.Database.{
  Db, Session, ok, commit, violation, get_account, modify_account, account_ok, account_fits,
  log_fits, pure, ◌>>◌,
}
use bank_flow_digital_bankin.Database.Sound.{no_violation, sound}
use bank_flow_digital_bankin.Database.Unique.{unique_texts-modify}
use bank_flow_digital_bankin.Audit.{add_log, audit_entry, context_fits, audit_entry-fits}
use bank_flow_digital_bankin.Invariant.{IsStored, IsStored-mono, IsValid, seen}
use bank_flow_digital_bankin.Http.{Caller, Body, respond, serve}
use bank_flow_digital_bankin.Accounts.Admin.{
  set_account_status, status_event, write_status, update_account_status,
}

module _ (c : Caller) (k : ℕ) (a : Account) (st : AccountStatus) (s : Session) where
  abbrev pub changed_db : Db
  changed_db = record (s.working) {
    accounts = modify_account k (set_account_status st) s.working.accounts;
    audit_logs = s.working.audit_logs ++ audit_entry (status_event c k a.status st) s ∷ [];
  }

  abbrev pub changed : Session
  changed = record s {
    committed = changed_db;
    working = changed_db;
    ids = record (s.ids) { log = s.ids.log + 1 };
  }

  -- The change as it stands at the commit.
  abbrev pub pending_change : Session
  pending_change = record changed { committed = s.committed }

  pub write_status-commit :
      write_status c k a st s
      ≡ (commit >> pure (respond 200 (Body.status_updated (set_account_status st a))))
          pending_change
  unfolding write_status add_log
  write_status-commit = refl

  pub changed-IsStored :
      IsStored s.ids s.working → violation changed_db ≡ none → IsStored s.ids changed_db
  changed-IsStored w q = record {
    sound = q;
    transactions_below = w.transactions_below;
    links_below = w.links_below;
    records_answer = w.records_answer;
    paired = w.paired;
    accounts_below =
        Below-modify (λ (a : Account). a.account_id) s.ids.account k _ s.working.accounts
          (λ _. refl) w.accounts_below;
  }

  module _ (v : IsValid s) (found : get_account k s.working.accounts ≡ some a)
      (f : context_fits s.context ≡ true) where
    changed_sound : violation changed_db ≡ none
    changed_sound =
        let h = sound s.working (seen v).sound in
        no_violation changed_db (record {
          accounts_ok =
              all-modify (λ (a : Account). a.account_id) account_ok k _ s.working.accounts
                h.accounts_ok found
                (all-get (λ (a : Account). a.account_id) account_ok k s.working.accounts
                  h.accounts_ok found);
          accounts_fit =
              all-modify (λ (a : Account). a.account_id) account_fits k _ s.working.accounts
                h.accounts_fit found
                (all-get (λ (a : Account). a.account_id) account_fits k s.working.accounts
                  h.accounts_fit found);
          transactions_ok = h.transactions_ok;
          transactions_fit = h.transactions_fit;
          entries_ok = h.entries_ok;
          entries_fit = h.entries_fit;
          records_fit = h.records_fit;
          keys_unique = h.keys_unique;
          numbers_unique =
              unique_texts-modify (λ (a : Account). a.account_number)
                (λ (a : Account). a.account_id) k (set_account_status st) (λ _. refl)
                s.working.accounts
              ∙ h.numbers_unique;
          emails_unique = h.emails_unique;
          records_unique = h.records_unique;
          profiles_fit = h.profiles_fit;
          profiles_unique = h.profiles_unique;
          configs_fit = h.configs_fit;
          users_fit = h.users_fit;
          logs_fit =
              all-append_one log_fits s.working.audit_logs _ h.logs_fit
                (audit_entry-fits (status_event c k a.status st) s f);
        })

    pub changed-IsValid : IsValid changed
    changed-IsValid = record {
      clean = refl;
      stored = IsStored-mono (omega arith) (omega arith) (changed-IsStored (seen v) changed_sound);
    }

    pub written :
        write_status c k a st s
        ≡ (ok (respond 200 (Body.status_updated (set_account_status st a))), changed)
    written = write_status-commit ∙ rw (changed_sound, commit)

-- In a valid session an administrator's change of the status of an existing account, in a request
-- whose address and id fit the columns of the audit trail, is answered 200 with the changed
-- account, is committed with one entry of the audit trail, touches nothing else, and leaves a
-- valid session.
pub update_account_status-changed :
    (c : Caller) (k : ℕ) (st : AccountStatus) (s : Session) {a : Account}
    → IsValid s
    → c.role ≡ UserRole.admin
    → get_account k s.working.accounts ≡ some a
    → context_fits s.context ≡ true
    → (serve (update_account_status c k (some st)) s
        ≡ (respond 200 (Body.status_updated (set_account_status st a)), changed c k a st s))
      × IsValid (changed c k a st s)
unfolding update_account_status
update_account_status-changed c k st s {a} v role found f =
    (rw (role, found, written c k a st s v found f), changed-IsValid c k a st s v found f)
