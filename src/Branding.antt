-- ===== src/Branding.antt =====
-- app/models/branding.py and app/routes/config_routes.py: the white-label settings of the bank, one row
-- whose missing texts come from the environment and then from defaults.
pub mod Payload
pub mod Update
pub mod Shows
pub mod TooLong
use bank_flow_digital_bankin.Base.{
  ℕ, ◌+◌, String, Option, none, some, Bool, true, false, ◌&&◌, ◌||◌, not, List, [], ◌∷◌, ◌++◌, ◌==◌,
  map, if◌then◌else◌, str_eq,
}
use bank_flow_digital_bankin.Base.Rows
use bank_flow_digital_bankin.Models.{
  BankConfig, EffectiveBranding, AuditEventType, Details, is_admin,
}
use bank_flow_digital_bankin.Database.{
  Session, Action, ok, pure, gets, modify_session, flush, commit, ◌>>=◌, ◌>>◌,
}
use bank_flow_digital_bankin.Audit.{AuditEvent, record_audit_event}
use bank_flow_digital_bankin.Http.{
  Caller, Body, Response, respond, refuse, admin_required, validation_failed, no_branding_fields,
}
use bank_flow_digital_bankin.Branding.Payload.{
  Environment, BrandingPayload, BrandingPatch, load_branding_patch, changed_fields,
}

-- `_v(db_val, env_key, default)`
abbrev pub effective : Environment → Option String → String → String → String
effective env none key default = elim (env key) [ none ↦ default | some t ↦ t ]
effective env (some t) key default = t

-- `to_dict`
unfoldable pub to_dict : Environment → BankConfig → EffectiveBranding
to_dict env c = record {
  bank_name = effective env c.bank_name "BANK_NAME" "BankFlow";
  bank_tagline = effective env c.bank_tagline "BANK_TAGLINE" "Double-Entry Digital Banking";
  bank_logo_url = effective env c.bank_logo_url "BANK_LOGO_URL" "";
  primary_color = effective env c.primary_color "BANK_PRIMARY_COLOR" "#2563eb";
  secondary_color = effective env c.secondary_color "BANK_SECONDARY_COLOR" "#1e40af";
  accent_color = effective env c.accent_color "BANK_ACCENT_COLOR" "#3b82f6";
  support_email = effective env c.support_email "BANK_SUPPORT_EMAIL" "support@bankflow.io";
  support_phone = effective env c.support_phone "BANK_SUPPORT_PHONE" "";
  bank_country = effective env c.bank_country "BANK_COUNTRY" "US";
  currency_code = effective env c.currency_code "BANK_CURRENCY_CODE" "USD";
  currency_symbol = effective env c.currency_symbol "BANK_CURRENCY_SYMBOL" "$";
  routing_number = effective env c.routing_number "BANK_ROUTING_NUMBER" "";
  swift_code = effective env c.swift_code "BANK_SWIFT_CODE" "";
  updated_at = c.updated_at;
}

-- A row that is not stored: every column is NULL.
abbrev pub blank_config : BankConfig
blank_config = record {
  config_id = 0;
  bank_name = none;
  bank_tagline = none;
  bank_logo_url = none;
  primary_color = none;
  secondary_color = none;
  accent_color = none;
  support_email = none;
  support_phone = none;
  bank_country = none;
  currency_code = none;
  currency_symbol = none;
  routing_number = none;
  swift_code = none;
  updated_at = none;
  updated_by_user_id = none;
}

-- `cls.query.first()`
abbrev pub first_config : List BankConfig → Option BankConfig
first_config [] = none
first_config (c ∷ rows) = some c

abbrev pub effective_of : Environment → Option BankConfig → EffectiveBranding
effective_of env none = to_dict env blank_config
effective_of env (some c) = to_dict env c

-- `BankConfig.effective_config()`
unfoldable pub effective_config : Environment → Session → EffectiveBranding
unfolding to_dict
effective_config env s = effective_of env (first_config s.working.bank_configs)

unfoldable pub get_branding : Environment → Action Response
unfolding effective_config
get_branding env s = (ok (respond 200 (Body.branding (effective_config env s))), s)

abbrev pub with_configs : List BankConfig → Session → Session
with_configs rows s = record s { working = record (s.working) { bank_configs = rows } }

abbrev pub new_config : Session → BankConfig
new_config s = record blank_config { config_id = s.ids.config; updated_at = some s.now }

abbrev pub create_config : Action BankConfig
create_config = do
  c ← gets new_config
  modify_session (λ s. record (with_configs (s.working.bank_configs ++ c ∷ []) s) {
    ids = record (s.ids) { config = s.ids.config + 1 };
  })
  flush
  pure c

abbrev pub or_create_config : Option BankConfig → Action BankConfig
or_create_config none = create_config
or_create_config (some c) = pure c

unfoldable pub get_or_create_singleton : Action BankConfig
get_or_create_singleton = do
  found ← gets (λ s. first_config s.working.bank_configs)
  or_create_config found

-- `if field in validated: setattr(row, field, validated[field])`; the inner `none` is a null.
abbrev pub merged : Option (Option String) → Option String → Option String
merged none old = old
merged (some new) old = new

abbrev pub merge : BrandingPatch → ℕ → BankConfig → BankConfig
merge x actor c = record c {
  bank_name = merged x.bank_name c.bank_name;
  bank_tagline = merged x.bank_tagline c.bank_tagline;
  bank_logo_url = merged x.bank_logo_url c.bank_logo_url;
  primary_color = merged x.primary_color c.primary_color;
  secondary_color = merged x.secondary_color c.secondary_color;
  accent_color = merged x.accent_color c.accent_color;
  support_email = merged x.support_email c.support_email;
  support_phone = merged x.support_phone c.support_phone;
  bank_country = merged x.bank_country c.bank_country;
  currency_code = merged x.currency_code c.currency_code;
  currency_symbol = merged x.currency_symbol c.currency_symbol;
  routing_number = merged x.routing_number c.routing_number;
  swift_code = merged x.swift_code c.swift_code;
  updated_by_user_id = some actor;
}

abbrev pub same_text : Option String → Option String → Bool
same_text none none = true
same_text (some a) (some b) = str_eq a b
same_text _ _ = false

abbrev pub same_actor : Option ℕ → Option ℕ → Bool
same_actor none none = true
same_actor (some a) (some b) = a == b
same_actor _ _ = false

abbrev pub same_texts : BankConfig → BankConfig → Bool
same_texts c d =
    same_text c.bank_name d.bank_name
    && (same_text c.bank_tagline d.bank_tagline
        && (same_text c.bank_logo_url d.bank_logo_url
            && (same_text c.primary_color d.primary_color
                && (same_text c.secondary_color d.secondary_color
                    && (same_text c.accent_color d.accent_color
                        && (same_text c.support_email d.support_email
                            && (same_text c.support_phone d.support_phone
                                && (same_text c.bank_country d.bank_country
                                    && (same_text c.currency_code d.currency_code
                                        && (same_text c.currency_symbol d.currency_symbol
                                            && (same_text c.routing_number d.routing_number
                                                && same_text c.swift_code d.swift_code)))))))))))

-- An UPDATE, which sets `updated_at`, is sent only if an attribute has changed.
abbrev pub stamp_config : ℕ → BankConfig → BankConfig → BankConfig
stamp_config now c d =
    if same_texts c d && same_actor c.updated_by_user_id d.updated_by_user_id
    then d
    else record d { updated_at = some now }

unfoldable pub rewrite_config : BrandingPatch → ℕ → ℕ → BankConfig → BankConfig
rewrite_config x actor now c = stamp_config now c (merge x actor c)

-- The write to the row that was found, which is the first.
abbrev pub modify_first : (BankConfig → BankConfig) → List BankConfig → List BankConfig
modify_first f [] = []
modify_first f (c ∷ rows) = f c ∷ rows

abbrev pub change :
    String → Option (Option String) → Option String → List (String × Option String × Option String)
change name none old = []
change name (some new) old = (name, old, new) ∷ []

-- `changed_fields`: each field that was given, with its old and its new value
abbrev pub changes : BrandingPatch → BankConfig → List (String × Option String × Option String)
changes x c =
    change "bank_name" x.bank_name c.bank_name
    ++ (change "bank_tagline" x.bank_tagline c.bank_tagline
        ++ (change "bank_logo_url" x.bank_logo_url c.bank_logo_url
            ++ (change "primary_color" x.primary_color c.primary_color
                ++ (change "secondary_color" x.secondary_color c.secondary_color
                    ++ (change "accent_color" x.accent_color c.accent_color
                        ++ (change "support_email" x.support_email c.support_email
                            ++ (change "support_phone" x.support_phone c.support_phone
                                ++ (change "bank_country" x.bank_country c.bank_country
                                    ++ (change "currency_code" x.currency_code c.currency_code
                                        ++ (change "currency_symbol" x.currency_symbol
                                              c.currency_symbol
                                            ++ (change "routing_number" x.routing_number
                                                  c.routing_number
                                                ++ change "swift_code" x.swift_code
                                                    c.swift_code)))))))))))

abbrev pub branding_event : Caller → BrandingPatch → BankConfig → AuditEvent
branding_event c x row = record {
  event_type = AuditEventType.branding_updated;
  actor_id = some c.user_id;
  target_user_id = none;
  target_account_id = none;
  details = Details.branding_changed (changed_fields x) (changes x row);
}

unfoldable pub write_branding : Environment → Caller → BrandingPatch → Action Response
unfolding get_or_create_singleton record_audit_event to_dict
write_branding env c x = do
  row ← get_or_create_singleton
  new ← gets (λ s. rewrite_config x c.user_id s.now row)
  modify_session
      (λ s. with_configs (modify_first (rewrite_config x c.user_id s.now) s.working.bank_configs) s)
  record_audit_event (branding_event c x row)
  commit
  pure (respond 200 (Body.branding_updated (to_dict env new)))

-- `if not validated:` - no field was given
abbrev pub branding_given : Environment → Caller → BrandingPatch → List String → Action Response
branding_given env c x [] = pure (refuse 400 no_branding_fields)
branding_given env c x (f ∷ fields) = write_branding env c x

abbrev pub branding_loaded : Environment → Caller → Option BrandingPatch → Action Response
branding_loaded env c none = pure (refuse 400 validation_failed)
branding_loaded env c (some x) = branding_given env c x (changed_fields x)

unfoldable pub update_branding :
    Environment → (String → Bool) → (String → Bool) → Caller → BrandingPayload → Action Response
unfolding write_branding load_branding_patch
update_branding env is_url is_email c payload s =
    if is_admin c.role
    then branding_loaded env c (load_branding_patch is_url is_email payload) s
    else (ok (refuse 403 admin_required), s)
