-- ===== src/Branding/TooLong.antt =====
-- app/routes/config_routes.py: a patch whose texts pass the schema but not the columns of the table.
use bank_flow_digital_bankin.Base.{
  String, some, List, [], ◌∷◌, ◌≡◌, refl, false, Bool, ◌∙◌, ◌≢◌, all,
}
use bank_flow_digital_bankin.Models.{BankConfig, UserRole, AuditLog}
use bank_flow_digital_bankin.Database.{
  Db, Session, config_fits, violation, integrity_ok, data_ok, data_range, commit, Error,
}
use bank_flow_digital_bankin.Database.Sound.{IsSound, sound}
use bank_flow_digital_bankin.Audit.{add_log}
use bank_flow_digital_bankin.Invariant.{IsValid, seen}
use bank_flow_digital_bankin.Http.{Caller, refuse, internal_error, serve}
use bank_flow_digital_bankin.Branding.Payload.{
  Environment, BrandingPayload, BrandingPatch, load_branding_patch, changed_fields,
}
use bank_flow_digital_bankin.Branding.{
  new_config, merge, rewrite_config, modify_first, update_branding, get_branding, effective_config,
}
use bank_flow_digital_bankin.Branding.Update.{
  row_of, rows_of, old_row, logged, new_rows, stamp-fits, write_branding-eq, given-write,
}

-- Sound tables but for a text of the settings.
too_long :
    (d : Db) (rows : List BankConfig) (logs : List AuditLog)
    → IsSound d
    → all config_fits rows ≡ false
    → violation (record d { bank_configs = rows; audit_logs = logs }) ≡ some data_range
unfolding violation integrity_ok data_ok
too_long d rows logs h f =
    rw
      (
        h.accounts_ok, h.transactions_ok, h.entries_ok, h.keys_unique, h.numbers_unique,
        h.emails_unique, h.records_unique, h.accounts_fit, h.transactions_fit, h.entries_fit,
        h.records_fit, h.profiles_fit, h.profiles_unique, f,
      )
      refl

module _ (s : Session) (v : IsValid s) (c : Caller) (x : BrandingPatch) where
  new_rows-long :
      (rows : List BankConfig)
      → config_fits (merge x c.user_id (row_of s rows)) ≡ false
      → all config_fits (modify_first (rewrite_config x c.user_id s.now) (rows_of s rows)) ≡ false
  unfolding rewrite_config
  new_rows-long [] f =
      rw (stamp-fits s v c x s.now (new_config s) (merge x c.user_id (new_config s)), f) refl
  new_rows-long (d ∷ rows) f = rw (stamp-fits s v c x s.now d (merge x c.user_id d), f) refl

  logged-long :
      config_fits (merge x c.user_id (old_row s)) ≡ false
      → violation (logged s v c x).working ≡ some data_range
  unfolding violation add_log integrity_ok data_ok
  logged-long f =
      too_long s.working (new_rows s v c x) (logged s v c x).working.audit_logs
        (sound s.working (seen v).sound) (new_rows-long s.working.bank_configs f)

-- In a valid session a change of the branding that the schema takes, but one of whose texts is
-- longer than its column, is answered 500 with the database's data error; nothing is stored and a
-- GET returns what it did.
pub update_branding-too_long :
    (env : Environment) (is_url is_email : String → Bool) (c : Caller) (payload : BrandingPayload)
    (s : Session) {x : BrandingPatch}
    → IsValid s
    → c.role ≡ UserRole.admin
    → load_branding_patch is_url is_email payload ≡ some x
    → changed_fields x ≢ []
    → config_fits (merge x c.user_id (old_row s)) ≡ false
    → let (r, after) = serve (update_branding env is_url is_email c payload) s in
      (r ≡ refuse 500 (internal_error Error.data_error))
      × (after.committed ≡ s.committed)
      × ((serve (get_branding env) after).0 ≡ (serve (get_branding env) s).0)
unfolding update_branding get_branding effective_config add_log
update_branding-too_long env is_url is_email c payload s {x} v role loaded some_field long =
    let given =
      given-write env c x s (changed_fields x) some_field ∙ write_branding-eq s v c x env in
    let failed = logged-long s v c x long in
    (
      rw (role, loaded, given, failed, commit) refl,
      rw (role, loaded, given, failed, commit) refl,
      rw (role, loaded, given, failed, commit, v.clean) refl,
    )
