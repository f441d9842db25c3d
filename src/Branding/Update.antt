-- ===== src/Branding/Update.antt =====
-- app/routes/config_routes.py, `update_branding`: its write in closed form, the row it works on and the
-- session in which it is stored.
use bank_flow_digital_bankin.Base.{
  ℕ, ◌+◌, String, none, true, List, [], ◌∷◌, ◌≡◌, refl, arith, all, ◌≢◌, ◌∙◌, Bool-cases, inl, inr,
  all-tail, ◌&&◌,
}
use bank_flow_digital_bankin.Models.{BankConfig}
use bank_flow_digital_bankin.Database.{
  Db, Session, ok, violation, flush, commit, config_fits, pure, ◌>>◌,
}
use bank_flow_digital_bankin.Database.Sound.{IsSound, no_violation, sound}
use bank_flow_digital_bankin.Audit.{
  add_log, audit_entry, record_audit_event, context_fits, audit_entry-fits,
}
use bank_flow_digital_bankin.Reconcile.Healthy.{violation-add_log}
use bank_flow_digital_bankin.Invariant.{IsStored-beside, IsValid, seen}
use bank_flow_digital_bankin.Http.{Caller, Body, respond}
use bank_flow_digital_bankin.Branding.Payload.{Environment, BrandingPatch}
use bank_flow_digital_bankin.Branding.{
  first_config, with_configs, new_config, or_create_config, get_or_create_singleton, merge,
  rewrite_config, stamp_config, same_texts, same_actor, modify_first, branding_event,
  write_branding, branding_given, to_dict,
}

-- Sound tables with other settings.
pub with_configs_sound :
    (d : Db) (rows : List BankConfig)
    → IsSound d
    → all config_fits rows ≡ true
    → violation (record d { bank_configs = rows }) ≡ none
with_configs_sound d rows h f =
    no_violation (record d { bank_configs = rows })
      (record {
        accounts_ok = h.accounts_ok;
        accounts_fit = h.accounts_fit;
        transactions_ok = h.transactions_ok;
        transactions_fit = h.transactions_fit;
        entries_ok = h.entries_ok;
        entries_fit = h.entries_fit;
        records_fit = h.records_fit;
        keys_unique = h.keys_unique;
        numbers_unique = h.numbers_unique;
        emails_unique = h.emails_unique;
        records_unique = h.records_unique;
        profiles_fit = h.profiles_fit;
        profiles_unique = h.profiles_unique;
        configs_fit = f;
        users_fit = h.users_fit;
        logs_fit = h.logs_fit;
      })

-- The row that a change works on, the rows after it, and the next key.
abbrev pub row_of : Session → List BankConfig → BankConfig
row_of s [] = new_config s
row_of s (c ∷ rows) = c

abbrev pub rows_of : Session → List BankConfig → List BankConfig
rows_of s [] = new_config s ∷ []
rows_of s (c ∷ rows) = c ∷ rows

abbrev pub next_of : Session → List BankConfig → ℕ
next_of s [] = s.ids.config + 1
next_of s (c ∷ rows) = s.ids.config

-- The session in which the row is stored.
abbrev pub with_row : Session → Session
with_row s = record (with_configs (rows_of s s.working.bank_configs) s) {
  ids = record (s.ids) { config = next_of s s.working.bank_configs };
}

pub given-write :
    (env : Environment) (c : Caller) (x : BrandingPatch) (s : Session) (fields : List String)
    → fields ≢ []
    → branding_given env c x fields s ≡ write_branding env c x s
given-write env c x s [] h = absurd (h refl)
given-write env c x s (f ∷ fields) h = refl

abbrev pub old_row : Session → BankConfig
old_row s = row_of s s.working.bank_configs

module _ (s : Session) (v : IsValid s) where
  rows_of-fit :
      (rows : List BankConfig)
      → all config_fits rows ≡ true
      → all config_fits (rows_of s rows) ≡ true
  rows_of-fit [] h = refl
  rows_of-fit (c ∷ rows) h = h

  pub with_row_sound : violation (with_row s).working ≡ none
  with_row_sound =
      let h = sound s.working (seen v).sound in
      with_configs_sound s.working (rows_of s s.working.bank_configs) h
        (rows_of-fit s.working.bank_configs h.configs_fit)

  or_create-row :
      (rows : List BankConfig)
      → s.working.bank_configs ≡ rows
      → or_create_config (first_config rows) s ≡ (ok (row_of s rows), with_row s)
  or_create-row [] e = ground (arith, e, with_row_sound, flush)
  or_create-row (c ∷ rows) e = ground (arith, e)

  pub get_or_create-row :
      get_or_create_singleton s ≡ (ok (row_of s s.working.bank_configs), with_row s)
  unfolding get_or_create_singleton
  get_or_create-row = or_create-row s.working.bank_configs refl

  abbrev pub row : BankConfig
  row = row_of s s.working.bank_configs

  module _ (c : Caller) (x : BrandingPatch) where
    abbrev pub rewrite_row : BankConfig → BankConfig
    rewrite_row = rewrite_config x c.user_id s.now

    abbrev pub new_rows : List BankConfig
    new_rows = modify_first rewrite_row (rows_of s s.working.bank_configs)

    abbrev pub changed : Session
    changed = with_configs new_rows (with_row s)

    abbrev pub logged : Session
    logged = add_log (audit_entry (branding_event c x row) changed) changed

    abbrev pub stored : Session
    stored = record logged { committed = logged.working }

    -- With what the database says of the new row.
    pub write_branding-eq :
        (env : Environment)
        → write_branding env c x s ≡ (
            (commit >> pure (respond 200 (Body.branding_updated (to_dict env (rewrite_row row)))))
              logged)
    unfolding write_branding record_audit_event
    write_branding-eq env = rw (get_or_create-row) refl

    pub stamp-fits :
        (now : ℕ) (a b : BankConfig) → config_fits (stamp_config now a b) ≡ config_fits b
    stamp-fits now a b =
        elim (Bool-cases (same_texts a b && same_actor a.updated_by_user_id b.updated_by_user_id)) [
          | inl same ↦ rw same refl
          | inr other ↦ rw other refl
        ]

    new_rows-fit :
        (rows : List BankConfig)
        → all config_fits rows ≡ true
        → config_fits (merge x c.user_id (row_of s rows)) ≡ true
        → all config_fits (modify_first rewrite_row (rows_of s rows)) ≡ true
    unfolding rewrite_config
    new_rows-fit [] h f =
        rw (stamp-fits s.now (new_config s) (merge x c.user_id (new_config s)), f) refl
    new_rows-fit (d ∷ rows) h f =
        rw (stamp-fits s.now d (merge x c.user_id d), f) (all-tail config_fits d rows h)

    module _ (fits : config_fits (merge x c.user_id row) ≡ true)
        (traced : context_fits s.context ≡ true) where
      logged_sound : violation logged.working ≡ none
      unfolding violation add_log
      logged_sound =
          let h = sound s.working (seen v).sound in
          violation-add_log changed.working _
            (with_configs_sound s.working new_rows h
              (new_rows-fit s.working.bank_configs h.configs_fit fits))
            (audit_entry-fits (branding_event c x row) changed traced)

      pub write_branding-stored :
          (env : Environment)
          → write_branding env c x s
            ≡ (ok (respond 200 (Body.branding_updated (to_dict env (rewrite_row row)))), stored)
      write_branding-stored env = write_branding-eq env ∙ rw (logged_sound, commit) refl

      pub stored-IsValid : IsValid stored
      unfolding add_log
      stored-IsValid = record {
        clean = refl;
        stored =
            IsStored-beside (omega arith) (omega arith) (seen v) logged_sound refl refl refl refl;
      }
