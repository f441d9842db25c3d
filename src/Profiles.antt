-- ===== src/Profiles.antt =====
-- app/routes/profile_routes.py: the profile of a user and the status of its review. A date is a day's
-- number, and `today` is the day of the server's clock.
pub mod Payload
pub mod Fits
pub mod Keeps
pub mod Shows
pub mod Own
use bank_flow_digital_bankin.Base.{
  ℕ, ◌+◌, String, Option, none, some, Bool, true, false, not, ◌&&◌, List, [], ◌∷◌, ◌++◌, ◌==◌,
  str_eq, if◌then◌else◌,
}
use bank_flow_digital_bankin.Base.Rows
use bank_flow_digital_bankin.Models.{
  UserProfile, KycStatus, IdType, aadhaar, passport, pan, other, is_admin,
}
use bank_flow_digital_bankin.Database.{
  Db, Session, Action, Result, ok, err, pure, gets, modify_session, flush, commit, ◌>>=◌, ◌>>◌,
}
use bank_flow_digital_bankin.Http.{
  Caller, Body, Response, respond, refuse, admin_required, validation_failed, no_profile,
}
use bank_flow_digital_bankin.Profiles.Payload.{ProfilePayload, ProfilePatch, load_profile_patch}

-- `UserProfile.query.filter_by(user_id=k).first()`; the column is unique, so it names the row.
abbrev pub find_profile : ℕ → List UserProfile → Option UserProfile
find_profile = Rows.get (λ (p : UserProfile). p.user_id)

abbrev pub modify_profile : ℕ → (UserProfile → UserProfile) → List UserProfile → List UserProfile
modify_profile = Rows.modify (λ (p : UserProfile). p.user_id)

abbrev pub blank_profile : ℕ → Session → UserProfile
blank_profile k s = record {
  profile_id = s.ids.profile;
  user_id = k;
  phone_number = none;
  date_of_birth = none;
  id_type = none;
  id_number = none;
  address_line1 = none;
  address_city = none;
  address_country = none;
  kyc_status = KycStatus.pending;
  created_at = s.now;
  updated_at = s.now;
}

abbrev pub with_profiles : List UserProfile → Session → Session
with_profiles rows s = record s { working = record (s.working) { user_profiles = rows } }

abbrev pub create_profile : ℕ → Action UserProfile
create_profile k = do
  p ← gets (blank_profile k)
  modify_session (λ s. record (with_profiles (s.working.user_profiles ++ p ∷ []) s) {
    ids = record (s.ids) { profile = s.ids.profile + 1 };
  })
  flush
  pure p

abbrev pub or_create : ℕ → Option UserProfile → Action UserProfile
or_create k none = create_profile k
or_create k (some p) = pure p

unfoldable pub get_or_create_profile : ℕ → Action UserProfile
get_or_create_profile k = do
  found ← gets (λ s. find_profile k s.working.user_profiles)
  or_create k found

unfoldable pub get_my_profile : Caller → Action Response
unfolding get_or_create_profile
get_my_profile c = do
  p ← get_or_create_profile c.user_id
  commit
  pure (respond 200 (Body.profile p))

-- `if value is not None: setattr(profile, field, value)`
abbrev pub or_keep : {A : Type 0} → Option A → Option A → Option A
or_keep none old = old
or_keep (some a) old = some a

abbrev pub patched : ProfilePatch → UserProfile → UserProfile
patched x p = record p {
  phone_number = or_keep x.phone_number p.phone_number;
  date_of_birth = or_keep x.date_of_birth p.date_of_birth;
  id_type = or_keep x.id_type p.id_type;
  id_number = or_keep x.id_number p.id_number;
  address_line1 = or_keep x.address_line1 p.address_line1;
  address_city = or_keep x.address_city p.address_city;
  address_country = or_keep x.address_country p.address_country;
}

abbrev pub same_option : {A : Type 0} → (A → A → Bool) → Option A → Option A → Bool
same_option eq none none = true
same_option eq (some a) (some b) = eq a b
same_option eq _ _ = false

abbrev pub same_id_type : IdType → IdType → Bool
same_id_type aadhaar aadhaar = true
same_id_type passport passport = true
same_id_type pan pan = true
same_id_type other other = true
same_id_type _ _ = false

-- No attribute has changed, so that SQLAlchemy sends no UPDATE.
abbrev pub same_fields : UserProfile → UserProfile → Bool
same_fields p q =
    same_option str_eq p.phone_number q.phone_number
    && (same_option (λ a b. a == b) p.date_of_birth q.date_of_birth
        && (same_option same_id_type p.id_type q.id_type
            && (same_option str_eq p.id_number q.id_number
                && (same_option str_eq p.address_line1 q.address_line1
                    && (same_option str_eq p.address_city q.address_city
                        && same_option str_eq p.address_country q.address_country)))))

-- `updated_at` is set by an UPDATE: `onupdate=utc_now`
abbrev pub stamp_profile : ℕ → UserProfile → UserProfile → UserProfile
stamp_profile now p q = if same_fields p q then q else record q { updated_at = now }

unfoldable pub apply_patch : ProfilePatch → ℕ → UserProfile → UserProfile
apply_patch x now p = stamp_profile now p (patched x p)

unfoldable pub write_profile : Caller → ProfilePatch → Action Response
unfolding get_or_create_profile
write_profile c x = do
  p ← get_or_create_profile c.user_id
  q ← gets (λ s. apply_patch x s.now p)
  modify_session (λ s.
      with_profiles (modify_profile c.user_id (apply_patch x s.now) s.working.user_profiles) s)
  commit
  pure (respond 200 (Body.profile_updated q))

abbrev pub update_loaded : Caller → Option ProfilePatch → Action Response
update_loaded c none = pure (refuse 400 validation_failed)
update_loaded c (some x) = write_profile c x

unfoldable pub update_my_profile : Caller → ℕ → ProfilePayload → Action Response
unfolding write_profile load_profile_patch
update_my_profile c today payload = update_loaded c (load_profile_patch today payload)

abbrev pub show_profile : ℕ → Option UserProfile → Response
show_profile k none = refuse 404 (no_profile k)
show_profile k (some p) = respond 200 (Body.profile p)

unfoldable pub get_user_kyc_status : Caller → ℕ → Action Response
get_user_kyc_status c k s =
    if is_admin c.role
    then (ok (show_profile k (find_profile k s.working.user_profiles)), s)
    else (ok (refuse 403 admin_required), s)

abbrev pub same_kyc : KycStatus → KycStatus → Bool
same_kyc KycStatus.pending KycStatus.pending = true
same_kyc KycStatus.verified KycStatus.verified = true
same_kyc KycStatus.rejected KycStatus.rejected = true
same_kyc _ _ = false

unfoldable pub set_kyc : KycStatus → ℕ → UserProfile → UserProfile
set_kyc st now p =
    if same_kyc p.kyc_status st then p else record p { kyc_status = st; updated_at = now }

abbrev pub review_found : ℕ → KycStatus → Option UserProfile → Action Response
review_found k st none = pure (refuse 404 (no_profile k))
review_found k st (some p) = do
  q ← gets (λ s. set_kyc st s.now p)
  modify_session
      (λ s. with_profiles (modify_profile k (set_kyc st s.now) s.working.user_profiles) s)
  commit
  pure (respond 200 (Body.kyc_updated q))

-- `_kyc_status_schema.load(data)` has read the status, or `none`.
abbrev pub review_loaded : ℕ → Option KycStatus → Action Response
review_loaded k none = pure (refuse 400 validation_failed)
review_loaded k (some st) = do
  found ← gets (λ s. find_profile k s.working.user_profiles)
  review_found k st found

unfoldable pub update_user_kyc_status : Caller → ℕ → Option KycStatus → Action Response
unfolding set_kyc
update_user_kyc_status c k payload s =
    if is_admin c.role then review_loaded k payload s else (ok (refuse 403 admin_required), s)
