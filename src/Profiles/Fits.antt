-- ===== src/Profiles/Fits.antt =====
-- app/routes/profile_routes.py: the texts of a patch and of a profile against the lengths of the columns of
-- app/models/profile.py.
use bank_flow_digital_bankin.Base.{
  ℕ, String, Option, none, some, Bool, true, [], ◌∷◌, ◌≡◌, arith, Bool-cases, inl, inr,
}
use bank_flow_digital_bankin.Models.{UserProfile, IdType}
use bank_flow_digital_bankin.Database.{profile_fits, all_fit, fits_text}
use bank_flow_digital_bankin.Profiles.Payload.{
  ProfilePatch, ProfilePayload, load_profile_patch, load_text, load_dob, load_id_type, patch_of,
}
use bank_flow_digital_bankin.Http.{Field, missing, malformed, given}
use bank_flow_digital_bankin.Profiles.{patched, same_fields, or_keep, apply_patch}

-- A profile whose every text fits its column still does after a patch that the schema has let through.
abbrev pub patch_fits : ProfilePatch → Bool
patch_fits x = all_fit (
    (20, x.phone_number)
    ∷ (64, x.id_number)
    ∷ (255, x.address_line1)
    ∷ (100, x.address_city)
    ∷ (64, x.address_country)
    ∷ [])

load_text-fits :
    (n : ℕ) (f : Field (Option String)) {o : Option String}
    → load_text n f ≡ some o
    → fits_text n o ≡ true
load_text-fits n missing h = ground arith
load_text-fits n malformed h = ground arith
load_text-fits n (given none) h = ground arith
load_text-fits n (given (some t)) h = ground arith

or_keep-fits :
    (n : ℕ) (o old : Option String)
    → fits_text n o ≡ true
    → fits_text n old ≡ true
    → fits_text n (or_keep o old) ≡ true
or_keep-fits n none old h e = e
or_keep-fits n (some t) old h e = h

patch_of-eq-some :
    (a : Option (Option String)) (b : Option (Option ℕ)) (c : Option (Option IdType))
    (d e f g : Option (Option String)) {x : ProfilePatch}
    → patch_of a b c d e f g ≡ some x
    → (a ≡ some x.phone_number)
      × (d ≡ some x.id_number)
      × (e ≡ some x.address_line1)
      × (f ≡ some x.address_city)
      × (g ≡ some x.address_country)
patch_of-eq-some (some a) (some b) (some c) (some d) (some e) (some f) (some g) {x} h = ground arith
patch_of-eq-some a b c d e f g {x} h = ground arith

pub load-fits :
    (today : ℕ) (p : ProfilePayload) {x : ProfilePatch}
    → load_profile_patch today p ≡ some x
    → patch_fits x ≡ true
unfolding load_profile_patch
load-fits today p {x} h = elim (Bool-cases p.has_unknown) [
  | inl odd ↦ absurd (ground (arith, h, odd))
  | inr plain ↦
      let (a, d, e, f, g) =
        patch_of-eq-some (load_text 20 p.phone_number) (load_dob today p.date_of_birth)
          (load_id_type p.id_type) (load_text 64 p.id_number) (load_text 255 p.address_line1)
          (load_text 100 p.address_city) (load_text 64 p.address_country) {x = x} (rw plain at h) in
      ground (
        arith,
        load_text-fits 20 p.phone_number a,
        load_text-fits 64 p.id_number d,
        load_text-fits 255 p.address_line1 e,
        load_text-fits 100 p.address_city f,
        load_text-fits 64 p.address_country g,
      )
]

patched-fits :
    (x : ProfilePatch) (p : UserProfile)
    → patch_fits x ≡ true
    → profile_fits p ≡ true
    → profile_fits (patched x p) ≡ true
patched-fits x p h e = ground (
  arith,
  or_keep-fits 20 x.phone_number p.phone_number,
  or_keep-fits 64 x.id_number p.id_number,
  or_keep-fits 255 x.address_line1 p.address_line1,
  or_keep-fits 100 x.address_city p.address_city,
  or_keep-fits 64 x.address_country p.address_country,
)

pub apply_patch-fits :
    (x : ProfilePatch) (now : ℕ) (p : UserProfile)
    → patch_fits x ≡ true
    → profile_fits p ≡ true
    → profile_fits (apply_patch x now p) ≡ true
unfolding apply_patch
apply_patch-fits x now p h e = elim (Bool-cases (same_fields p (patched x p))) [
  | inl same ↦ rw same (patched-fits x p h e)
  | inr other ↦ rw other (patched-fits x p h e)
]
