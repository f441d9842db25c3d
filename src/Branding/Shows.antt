-- ===== src/Branding/Shows.antt =====
-- app/routes/config_routes.py, app/models/branding.py: what is shown of a changed row.
use bank_flow_digital_bankin.Base.{
  ℕ, String, Option, none, some, List, [], ◌∷◌, ◌≡◌, refl, true, Bool-cases, inl, inr, ◌∙◌, ◌&&◌,
  ◌≢◌, Bool, ap,
}
use bank_flow_digital_bankin.Models.{BankConfig, EffectiveBranding, UserRole}
use bank_flow_digital_bankin.Database.{Session, config_fits}
use bank_flow_digital_bankin.Invariant.{IsValid}
use bank_flow_digital_bankin.Audit.{context_fits}
use bank_flow_digital_bankin.Http.{Caller, Body, respond, serve}
use bank_flow_digital_bankin.Branding.Payload.{
  Environment, BrandingPayload, BrandingPatch, load_branding_patch, changed_fields,
}
use bank_flow_digital_bankin.Branding.{
  first_config, new_config, merge, merged, rewrite_config, same_texts, same_actor, modify_first,
  update_branding, get_branding, effective_config, effective_of, effective, to_dict,
}
use bank_flow_digital_bankin.Branding.Update.{
  old_row, given-write, row_of, rows_of, write_branding-stored, stored-IsValid,
}

-- What is shown of a field after a patch with its value: the text that was given, after a null what an
-- empty row shows, and without a value what was shown before.
abbrev pub Shown : Option (Option String) → (empty before after : String) → Type 0
Shown none empty before after = after ≡ before
Shown (some none) empty before after = after ≡ empty
Shown (some (some t)) empty before after = after ≡ t

pub record ShowsPatch (x : BrandingPatch) (empty before after : EffectiveBranding) : Type 0 where
  pub bank_name : Shown x.bank_name empty.bank_name before.bank_name after.bank_name
  pub bank_tagline : Shown x.bank_tagline empty.bank_tagline before.bank_tagline after.bank_tagline
  pub bank_logo_url :
      Shown x.bank_logo_url empty.bank_logo_url before.bank_logo_url after.bank_logo_url
  pub primary_color :
      Shown x.primary_color empty.primary_color before.primary_color after.primary_color
  pub secondary_color :
      Shown x.secondary_color empty.secondary_color before.secondary_color after.secondary_color
  pub accent_color : Shown x.accent_color empty.accent_color before.accent_color after.accent_color
  pub support_email :
      Shown x.support_email empty.support_email before.support_email after.support_email
  pub support_phone :
      Shown x.support_phone empty.support_phone before.support_phone after.support_phone
  pub bank_country : Shown x.bank_country empty.bank_country before.bank_country after.bank_country
  pub currency_code :
      Shown x.currency_code empty.currency_code before.currency_code after.currency_code
  pub currency_symbol :
      Shown x.currency_symbol empty.currency_symbol before.currency_symbol after.currency_symbol
  pub routing_number :
      Shown x.routing_number empty.routing_number before.routing_number after.routing_number
  pub swift_code : Shown x.swift_code empty.swift_code before.swift_code after.swift_code

merged-Shown :
    (env : Environment) (o : Option (Option String)) (old : Option String) (key default : String)
    → Shown o
        (effective env none key default)
        (effective env old key default)
        (effective env (merged o old) key default)
merged-Shown env none old key default = refl
merged-Shown env (some none) old key default = refl
merged-Shown env (some (some t)) old key default = refl

-- What an empty row shows: the environment and the defaults.
abbrev pub without_row : Environment → EffectiveBranding
without_row env = effective_of env none

merge-ShowsPatch :
    (env : Environment) (x : BrandingPatch) (actor : ℕ) (c : BankConfig)
    → ShowsPatch x (without_row env) (to_dict env c) (to_dict env (merge x actor c))
unfolding to_dict
merge-ShowsPatch env x actor c = record {
  bank_name = merged-Shown env x.bank_name c.bank_name _ _;
  bank_tagline = merged-Shown env x.bank_tagline c.bank_tagline _ _;
  bank_logo_url = merged-Shown env x.bank_logo_url c.bank_logo_url _ _;
  primary_color = merged-Shown env x.primary_color c.primary_color _ _;
  secondary_color = merged-Shown env x.secondary_color c.secondary_color _ _;
  accent_color = merged-Shown env x.accent_color c.accent_color _ _;
  support_email = merged-Shown env x.support_email c.support_email _ _;
  support_phone = merged-Shown env x.support_phone c.support_phone _ _;
  bank_country = merged-Shown env x.bank_country c.bank_country _ _;
  currency_code = merged-Shown env x.currency_code c.currency_code _ _;
  currency_symbol = merged-Shown env x.currency_symbol c.currency_symbol _ _;
  routing_number = merged-Shown env x.routing_number c.routing_number _ _;
  swift_code = merged-Shown env x.swift_code c.swift_code _ _;
}

-- The time of a change is no text.
abbrev stamp_shown : EffectiveBranding → Option ℕ → EffectiveBranding
stamp_shown b t = record b { updated_at = t }

ShowsPatch-stamped :
    (x : BrandingPatch) (empty before after : EffectiveBranding) (t u : Option ℕ)
    → ShowsPatch x empty before after
    → ShowsPatch x empty (stamp_shown before t) (stamp_shown after u)
ShowsPatch-stamped x empty before after t u h = record {
  bank_name = h.bank_name;
  bank_tagline = h.bank_tagline;
  bank_logo_url = h.bank_logo_url;
  primary_color = h.primary_color;
  secondary_color = h.secondary_color;
  accent_color = h.accent_color;
  support_email = h.support_email;
  support_phone = h.support_phone;
  bank_country = h.bank_country;
  currency_code = h.currency_code;
  currency_symbol = h.currency_symbol;
  routing_number = h.routing_number;
  swift_code = h.swift_code;
}

rewrite-ShowsPatch :
    (env : Environment) (x : BrandingPatch) (actor now : ℕ) (c : BankConfig) (t : Option ℕ)
    → ShowsPatch x
        (without_row env)
        (stamp_shown (to_dict env c) t)
        (to_dict env (rewrite_config x actor now c))
unfolding rewrite_config to_dict
rewrite-ShowsPatch env x actor now c t =
    let h = merge-ShowsPatch env x actor c in
    elim (Bool-cases
      (same_texts c (merge x actor c) && same_actor c.updated_by_user_id (some actor))) [
        | inl same ↦ rw same (
            ShowsPatch-stamped x (without_row env) (to_dict env c) (to_dict env (merge x actor c)) t
              _ h)
        | inr other ↦ rw other (
            ShowsPatch-stamped x (without_row env) (to_dict env c) (to_dict env (merge x actor c)) t
              _ h)
      ]

module _ (s : Session) (v : IsValid s) (c : Caller) (x : BrandingPatch) (env : Environment) where
  shown-ShowsPatch :
      (rows : List BankConfig)
      → ShowsPatch x
          (without_row env)
          (effective_of env (first_config rows))
          (to_dict env (rewrite_config x c.user_id s.now (row_of s rows)))
  unfolding to_dict
  shown-ShowsPatch [] = rewrite-ShowsPatch env x c.user_id s.now (new_config s) none
  shown-ShowsPatch (d ∷ rows) = rewrite-ShowsPatch env x c.user_id s.now d d.updated_at

  first-modify :
      (rows : List BankConfig)
      → effective_of env
          (first_config (modify_first (rewrite_config x c.user_id s.now) (rows_of s rows)))
        ≡ to_dict env (rewrite_config x c.user_id s.now (row_of s rows))
  first-modify [] = refl
  first-modify (d ∷ rows) = refl

-- In a valid session an administrator's change of at least one field of the branding, whose texts
-- fit their columns, in a request whose address and id fit the columns of the audit trail, is
-- answered 200 with a branding that a GET then returns: it shows each text that was given, for a
-- null what an empty row shows, and every other text as before; the session stays valid.
pub update_branding-shown :
    (env : Environment) (is_url is_email : String → Bool) (c : Caller) (payload : BrandingPayload)
    (s : Session) {x : BrandingPatch}
    → IsValid s
    → c.role ≡ UserRole.admin
    → load_branding_patch is_url is_email payload ≡ some x
    → changed_fields x ≢ []
    → config_fits (merge x c.user_id (old_row s)) ≡ true
    → context_fits s.context ≡ true
    → let (r, after) = serve (update_branding env is_url is_email c payload) s in
      (b : EffectiveBranding) × (r ≡ respond 200 (Body.branding_updated b))
      × ((serve (get_branding env) after).0 ≡ respond 200 (Body.branding b))
      × ShowsPatch x (without_row env) (effective_config env s) b
      × IsValid after
unfolding update_branding get_branding effective_config
update_branding-shown env is_url is_email c payload s {x} v role loaded some_field fits traced =
    let wrote = write_branding-stored s v c x fits traced env in
    let given = given-write env c x s (changed_fields x) some_field ∙ wrote in
    (
      to_dict env (rewrite_config x c.user_id s.now (old_row s)),
      rw (role, loaded, given) refl,
      rw (role, loaded, given)
          (ap (λ b. respond 200 (Body.branding b))
            (first-modify s v c x env s.working.bank_configs)),
      shown-ShowsPatch s v c x env s.working.bank_configs,
      rw (role, loaded, given) (stored-IsValid s v c x fits traced),
    )
