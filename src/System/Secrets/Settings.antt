-- ===== src/System/Secrets/Settings.antt =====
-- app/routes/profile_routes.py and app/routes/config_routes.py: the requests on profiles and on the branding
-- are blind to the password hashes.
use bank_flow_digital_bankin.Base.{
  ℕ, ◌+◌, String, Option, none, some, List, [], ◌∷◌, ◌++◌, ◌≡◌, refl,
}
use bank_flow_digital_bankin.Models.{UserProfile, KycStatus, BankConfig}
use bank_flow_digital_bankin.Database.{Action, pure, gets, modify_session, flush, commit}
use bank_flow_digital_bankin.Audit.{record_audit_event}
use bank_flow_digital_bankin.Http.{Caller, Body, respond}
use bank_flow_digital_bankin.Profiles.{
  find_profile, blank_profile, or_create, get_or_create_profile, get_my_profile, apply_patch,
  write_profile, update_loaded, show_profile, review_loaded, review_found, set_kyc, modify_profile,
  with_profiles,
}
use bank_flow_digital_bankin.Profiles.Payload.{ProfilePatch}
use bank_flow_digital_bankin.Branding.{
  new_config, or_create_config, get_or_create_singleton, first_config, with_configs, modify_first,
  rewrite_config, branding_event, to_dict, write_branding, branding_given, branding_loaded,
}
use bank_flow_digital_bankin.Branding.Payload.{Environment, BrandingPatch, changed_fields}
use bank_flow_digital_bankin.System.Secrets.{
  hide_response, Blind, BlindTo, commit-Blind, flush-Blind, bind-Blind, bind-BlindTo,
}
use bank_flow_digital_bankin.System.Secrets.Handlers.{record_audit_event-Blind}

module _ (c : Caller) where
  abbrev add_profile : UserProfile → Action (Unit {0})
  add_profile p = modify_session (λ s.
      record (with_profiles (s.working.user_profiles ++ p ∷ []) s) {
        ids = record (s.ids) { profile = s.ids.profile + 1 };
      })

  or_create-Blind : (k : ℕ) (o : Option UserProfile) → Blind (or_create k o)
  or_create-Blind k (some p) = record { blind = λ s. refl }
  or_create-Blind k none =
      bind-Blind (gets (blank_profile k)) _ (record { blind = λ s. refl })
        (λ p.
          bind-Blind (add_profile p) _ (record { blind = λ s. refl })
            (λ _. bind-Blind flush (λ _. pure p) flush-Blind (λ _. record { blind = λ s. refl })))

  get_or_create_profile-Blind : (k : ℕ) → Blind (get_or_create_profile k)
  unfolding get_or_create_profile
  get_or_create_profile-Blind k =
      bind-Blind (gets (λ s. find_profile k s.working.user_profiles)) (or_create k)
        (record { blind = λ s. refl }) (or_create-Blind k)

  pub get_my_profile-BlindTo : BlindTo (get_my_profile c)
  unfolding get_my_profile
  get_my_profile-BlindTo =
      bind-BlindTo (get_or_create_profile c.user_id) _ (get_or_create_profile-Blind c.user_id) (λ p.
        bind-BlindTo commit (λ _. pure (respond 200 (Body.profile p))) commit-Blind
          (λ _. record { blind = λ s. refl }))

  abbrev store_patch : ProfilePatch → Action (Unit {0})
  store_patch x = modify_session (λ s.
      with_profiles (modify_profile c.user_id (apply_patch x s.now) s.working.user_profiles) s)

  pub update_loaded-BlindTo : (o : Option ProfilePatch) → BlindTo (update_loaded c o)
  unfolding write_profile
  update_loaded-BlindTo none = record { blind = λ s. refl }
  update_loaded-BlindTo (some x) =
      bind-BlindTo (get_or_create_profile c.user_id) _ (get_or_create_profile-Blind c.user_id) (λ p.
        bind-BlindTo (gets (λ s. apply_patch x s.now p)) _ (record { blind = λ s. refl })
          (λ q.
            bind-BlindTo (store_patch x) _ (record { blind = λ s. refl })
              (λ _.
                bind-BlindTo commit (λ _. pure (respond 200 (Body.profile_updated q))) commit-Blind
                  (λ _. record { blind = λ s. refl }))))

  abbrev store_kyc : ℕ → KycStatus → Action (Unit {0})
  store_kyc k st =
      modify_session
        (λ s. with_profiles (modify_profile k (set_kyc st s.now) s.working.user_profiles) s)

  review_found-BlindTo :
      (k : ℕ) (st : KycStatus) (o : Option UserProfile) → BlindTo (review_found k st o)
  review_found-BlindTo k st none = record { blind = λ s. refl }
  review_found-BlindTo k st (some p) =
      bind-BlindTo (gets (λ s. set_kyc st s.now p)) _ (record { blind = λ s. refl })
        (λ q.
          bind-BlindTo (store_kyc k st) _ (record { blind = λ s. refl })
            (λ _.
              bind-BlindTo commit (λ _. pure (respond 200 (Body.kyc_updated q))) commit-Blind
                (λ _. record { blind = λ s. refl })))

  pub review_loaded-BlindTo : (k : ℕ) (o : Option KycStatus) → BlindTo (review_loaded k o)
  review_loaded-BlindTo k none = record { blind = λ s. refl }
  review_loaded-BlindTo k (some st) =
      bind-BlindTo (gets (λ s. find_profile k s.working.user_profiles)) (review_found k st)
        (record { blind = λ s. refl }) (review_found-BlindTo k st)

  pub show_profile-hide :
      (k : ℕ) (o : Option UserProfile) → hide_response (show_profile k o) ≡ show_profile k o
  show_profile-hide k none = refl
  show_profile-hide k (some p) = refl

  module _ (env : Environment) where
    abbrev add_config : BankConfig → Action (Unit {0})
    add_config d = modify_session (λ s. record (with_configs (s.working.bank_configs ++ d ∷ []) s) {
      ids = record (s.ids) { config = s.ids.config + 1 };
    })

    or_create_config-Blind : (o : Option BankConfig) → Blind (or_create_config o)
    or_create_config-Blind (some d) = record { blind = λ s. refl }
    or_create_config-Blind none =
        bind-Blind (gets new_config) _ (record { blind = λ s. refl })
          (λ d.
            bind-Blind (add_config d) _ (record { blind = λ s. refl })
              (λ _. bind-Blind flush (λ _. pure d) flush-Blind (λ _. record { blind = λ s. refl })))

    get_or_create_singleton-Blind : Blind get_or_create_singleton
    unfolding get_or_create_singleton
    get_or_create_singleton-Blind =
        bind-Blind (gets (λ s. first_config s.working.bank_configs)) or_create_config
          (record { blind = λ s. refl }) or_create_config-Blind

    abbrev store_branding : BrandingPatch → Action (Unit {0})
    store_branding x = modify_session (λ s.
        with_configs (modify_first (rewrite_config x c.user_id s.now) s.working.bank_configs) s)

    write_branding-BlindTo : (x : BrandingPatch) → BlindTo (write_branding env c x)
    unfolding write_branding
    write_branding-BlindTo x =
        bind-BlindTo get_or_create_singleton _ get_or_create_singleton-Blind (λ row.
          bind-BlindTo (gets (λ s. rewrite_config x c.user_id s.now row)) _
            (record { blind = λ s. refl })
            (λ new.
              bind-BlindTo (store_branding x) _ (record { blind = λ s. refl })
                (λ _.
                  bind-BlindTo (record_audit_event (branding_event c x row)) _
                    (record_audit_event-Blind (branding_event c x row))
                    (λ _.
                      bind-BlindTo commit
                        (λ _. pure (respond 200 (Body.branding_updated (to_dict env new))))
                        commit-Blind (λ _. record { blind = λ s. refl })))))

    branding_given-BlindTo :
        (x : BrandingPatch) (fields : List String) → BlindTo (branding_given env c x fields)
    branding_given-BlindTo x [] = record { blind = λ s. refl }
    branding_given-BlindTo x (f ∷ fields) = write_branding-BlindTo x

    pub branding_loaded-BlindTo : (o : Option BrandingPatch) → BlindTo (branding_loaded env c o)
    branding_loaded-BlindTo none = record { blind = λ s. refl }
    branding_loaded-BlindTo (some x) = branding_given-BlindTo x (changed_fields x)
