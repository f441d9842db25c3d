-- ===== src/Profiles/Payload.antt =====
-- app/routes/profile_routes.py: `ProfilePatchSchema`. A field that is absent or null is loaded as None; a
-- field that the schema does not name makes the payload invalid.
use bank_flow_digital_bankin.Base.{ℕ, String, Option, none, some, Bool, leb, ltb, if◌then◌else◌}
use bank_flow_digital_bankin.Models.{IdType}
use bank_flow_digital_bankin.Database.{chars}
use bank_flow_digital_bankin.Http.{Field, missing, malformed, given}

pub record ProfilePayload : Type 0 where
  pub phone_number : Field (Option String)
  pub date_of_birth : Field (Option ℕ)
  pub id_type : Field (Option IdType)
  pub id_number : Field (Option String)
  pub address_line1 : Field (Option String)
  pub address_city : Field (Option String)
  pub address_country : Field (Option String)
  pub has_unknown : Bool

-- What the schema hands on.
pub record ProfilePatch : Type 0 where
  pub phone_number : Option String
  pub date_of_birth : Option ℕ
  pub id_type : Option IdType
  pub id_number : Option String
  pub address_line1 : Option String
  pub address_city : Option String
  pub address_country : Option String

-- A text of at most `n` characters; the outer `none` is a validation error.
abbrev pub load_text : ℕ → Field (Option String) → Option (Option String)
load_text n missing = some none
load_text n malformed = none
load_text n (given none) = some none
load_text n (given (some t)) = if leb (chars t) n then some (some t) else none

-- `validate_dob`: not after today
abbrev pub load_dob : ℕ → Field (Option ℕ) → Option (Option ℕ)
load_dob today missing = some none
load_dob today malformed = none
load_dob today (given none) = some none
load_dob today (given (some d)) = if ltb today d then none else some (some d)

-- one of the values of IdType
abbrev pub load_id_type : Field (Option IdType) → Option (Option IdType)
load_id_type missing = some none
load_id_type malformed = none
load_id_type (given o) = some o

abbrev pub patch_of :
    Option (Option String)
    → Option (Option ℕ)
    → Option (Option IdType)
    → Option (Option String)
    → Option (Option String)
    → Option (Option String)
    → Option (Option String)
    → Option ProfilePatch
patch_of (some phone) (some dob) (some kind) (some number) (some line) (some city) (some country) =
    some (record {
      phone_number = phone;
      date_of_birth = dob;
      id_type = kind;
      id_number = number;
      address_line1 = line;
      address_city = city;
      address_country = country;
    })
patch_of _ _ _ _ _ _ _ = none

-- `_profile_patch_schema.load(data)`
unfoldable pub load_profile_patch : ℕ → ProfilePayload → Option ProfilePatch
load_profile_patch today p =
    if p.has_unknown
    then none
    else patch_of (load_text 20 p.phone_number) (load_dob today p.date_of_birth)
        (load_id_type p.id_type) (load_text 64 p.id_number) (load_text 255 p.address_line1)
        (load_text 100 p.address_city) (load_text 64 p.address_country)
