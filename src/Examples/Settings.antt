-- ===== src/Examples/Settings.antt =====
-- Changes of Alice's profile and of the branding at the small bank.
use bank_flow_digital_bankin.Base.{
  ℕ, String, Option, none, some, Bool, true, false, ◌≡◌, ◌≢◌, refl, arith, zero, suc,
}
use bank_flow_digital_bankin.Models.{
  UserProfile, KycStatus, IdType, EffectiveBranding, customer, admin,
}
use bank_flow_digital_bankin.Database.{
  Session, Error, violation, integrity_ok, text_key_free, number_free, data_ok,
}
use bank_flow_digital_bankin.Http.{
  Caller, Body, Field, missing, given, respond, refuse, internal_error, serve,
}
use bank_flow_digital_bankin.Invariant.{IsValid}
use bank_flow_digital_bankin.Examples.{bank, bank-IsValid}
use bank_flow_digital_bankin.Profiles.{
  find_profile, blank_profile, get_my_profile, update_my_profile, get_or_create_profile,
}
use bank_flow_digital_bankin.Profiles.Payload.{ProfilePayload, ProfilePatch, load_profile_patch}
use bank_flow_digital_bankin.Profiles.Keeps.{own_profile}
use bank_flow_digital_bankin.System.Beside.{get_my_profile-IsValid}
use bank_flow_digital_bankin.Profiles
use bank_flow_digital_bankin.Profiles.Own.{update_my_profile-shown, update_my_profile-keeps_kyc}
use bank_flow_digital_bankin.Branding.{merge, update_branding, get_branding, effective_config}
use bank_flow_digital_bankin.Branding.Payload.{
  Environment, BrandingPayload, BrandingPatch, load_branding_patch,
}
use bank_flow_digital_bankin.Branding
use bank_flow_digital_bankin.Branding.Shows.{without_row, update_branding-shown}
use bank_flow_digital_bankin.Branding.TooLong.{update_branding-too_long}

abbrev alice : Caller
alice = record { user_id = 1; role = customer }

abbrev operator : Caller
operator = record { user_id = 2; role = admin }

abbrev profile_payload : ProfilePayload
profile_payload = record {
  phone_number = given (some "+91 98");
  date_of_birth = given (some 10);
  id_type = given (some IdType.pan);
  id_number = given none;
  address_line1 = missing;
  address_city = given (some "Guntur");
  address_country = missing;
  has_unknown = false;
}

abbrev profile_patch : ProfilePatch
profile_patch = record {
  phone_number = some "+91 98";
  date_of_birth = some 10;
  id_type = some IdType.pan;
  id_number = none;
  address_line1 = none;
  address_city = some "Guntur";
  address_country = none;
}

profile_loaded : load_profile_patch 20 profile_payload ≡ some profile_patch
unfolding load_profile_patch
profile_loaded = refl

update_my_profile-shown_example :
    let (r, after) = serve (update_my_profile alice 20 profile_payload) bank in
    (q : UserProfile) × (r ≡ respond 200 (Body.profile_updated q))
    × ((serve (get_my_profile alice) after).0 ≡ respond 200 (Body.profile q))
    × Profiles.Shows.ShowsPatch profile_patch q
    × (q.kyc_status ≡ (own_profile 1 bank).kyc_status)
    × IsValid after
update_my_profile-shown_example =
    update_my_profile-shown alice 20 profile_payload bank {x = profile_patch} bank-IsValid
      profile_loaded

-- Alice's profile is there from an earlier request.
abbrev alice_profile : UserProfile
alice_profile = blank_profile 1 bank

abbrev visited : Session
visited = (serve (get_my_profile alice) bank).1

visited-IsValid : IsValid visited
visited-IsValid = get_my_profile-IsValid alice bank bank-IsValid

visited_profile : find_profile 1 visited.working.user_profiles ≡ some alice_profile
unfolding get_my_profile get_or_create_profile violation integrity_ok text_key_free number_free
    data_ok
visited_profile = refl

update_my_profile-keeps_kyc_example :
    (q : UserProfile) × (find_profile 1
        (serve (update_my_profile alice 20 profile_payload) visited).1.committed.user_profiles
      ≡ some q)
    × (q.kyc_status ≡ KycStatus.pending)
    × (◌≢◌ {A = ℕ} 1 1 → q ≡ alice_profile)
update_my_profile-keeps_kyc_example =
    update_my_profile-keeps_kyc alice 20 profile_payload visited 1 {p = alice_profile}
      visited-IsValid visited_profile

abbrev no_environment : Environment
no_environment key = none

abbrev any_text : String → Bool
any_text t = true

abbrev branding_payload : Field (Option String) → BrandingPayload
branding_payload logo = record {
  bank_name = given (some "Acme");
  bank_tagline = missing;
  bank_logo_url = logo;
  primary_color = given (some "#abc");
  secondary_color = missing;
  accent_color = missing;
  support_email = given none;
  support_phone = missing;
  bank_country = missing;
  currency_code = missing;
  currency_symbol = missing;
  routing_number = missing;
  swift_code = missing;
  has_unknown = false;
}

abbrev branding_patch : Option (Option String) → BrandingPatch
branding_patch logo = record {
  bank_name = some (some "Acme");
  bank_tagline = none;
  bank_logo_url = logo;
  primary_color = some (some "#abc");
  secondary_color = none;
  accent_color = none;
  support_email = some none;
  support_phone = none;
  bank_country = none;
  currency_code = none;
  currency_symbol = none;
  routing_number = none;
  swift_code = none;
}

branding_payload_loaded :
    load_branding_patch any_text any_text (branding_payload missing) ≡ some (branding_patch none)
unfolding load_branding_patch
branding_payload_loaded = refl

update_branding-shown_example :
    let (r, after) =
      serve
        (update_branding no_environment any_text any_text operator (branding_payload missing))
        bank in
    (b : EffectiveBranding) × (r ≡ respond 200 (Body.branding_updated b))
    × ((serve (get_branding no_environment) after).0 ≡ respond 200 (Body.branding b))
    × Branding.Shows.ShowsPatch
        (branding_patch none)
        (without_row no_environment)
        (effective_config no_environment bank)
        b
    × IsValid after
update_branding-shown_example =
    update_branding-shown no_environment any_text any_text operator (branding_payload missing) bank
      {x = branding_patch none} bank-IsValid refl branding_payload_loaded (λ h. ground (arith, h))
      refl refl

-- A text of `n` characters.
abbrev letters : ℕ → String
letters zero = ""
letters (suc n) = String.◌∷◌ "a" (letters n)

-- An address of 513 characters, one more than the column takes.
abbrev long_logo : Option String
long_logo = some (letters 513)

long_loaded :
    load_branding_patch any_text any_text (branding_payload (given long_logo))
    ≡ some (branding_patch (some long_logo))
unfolding load_branding_patch
long_loaded = refl

update_branding-too_long_example :
    let (r, after) =
      serve
        (update_branding no_environment any_text any_text operator
          (branding_payload (given long_logo)))
        bank in
    (r ≡ refuse 500 (internal_error Error.data_error))
    × (after.committed ≡ bank.committed)
    × ((serve (get_branding no_environment) after).0 ≡ (serve (get_branding no_environment) bank).0)
update_branding-too_long_example =
    update_branding-too_long no_environment any_text any_text operator
      (branding_payload (given long_logo)) bank {x = branding_patch (some long_logo)} bank-IsValid
      refl long_loaded (λ h. ground (arith, h)) refl
