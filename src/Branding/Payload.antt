-- ===== src/Branding/Payload.antt =====
-- app/routes/config_routes.py: `BrandingPatchSchema`. A field that is absent is not in the result; a
-- field that the schema does not name makes the payload invalid.
use Prim.Native.Char.{code}
use bank_flow_digital_bankin.Base.{
  ℕ, String, Option, none, some, Bool, true, false, ◌&&◌, ◌||◌, List, [], ◌∷◌, ◌++◌, ◌==◌, leb,
  if◌then◌else◌,
}
use bank_flow_digital_bankin.Database.{chars}
use bank_flow_digital_bankin.Http.{Field, missing, malformed, given, has_length}

-- `os.getenv`
abbrev pub Environment : Type 0
Environment = String → Option String

pub record BrandingPayload : Type 0 where
  pub bank_name : Field (Option String)
  pub bank_tagline : Field (Option String)
  pub bank_logo_url : Field (Option String)
  pub primary_color : Field (Option String)
  pub secondary_color : Field (Option String)
  pub accent_color : Field (Option String)
  pub support_email : Field (Option String)
  pub support_phone : Field (Option String)
  pub bank_country : Field (Option String)
  pub currency_code : Field (Option String)
  pub currency_symbol : Field (Option String)
  pub routing_number : Field (Option String)
  pub swift_code : Field (Option String)
  pub has_unknown : Bool

-- What the schema hands on: a field that was given, with its text or null.
pub record BrandingPatch : Type 0 where
  pub bank_name : Option (Option String)
  pub bank_tagline : Option (Option String)
  pub bank_logo_url : Option (Option String)
  pub primary_color : Option (Option String)
  pub secondary_color : Option (Option String)
  pub accent_color : Option (Option String)
  pub support_email : Option (Option String)
  pub support_phone : Option (Option String)
  pub bank_country : Option (Option String)
  pub currency_code : Option (Option String)
  pub currency_symbol : Option (Option String)
  pub routing_number : Option (Option String)
  pub swift_code : Option (Option String)

-- The hexadecimal digits.
abbrev pub is_hex : ℕ → Bool
is_hex c = (leb b'0' c && leb c b'9') || ((leb b'a' c && leb c b'f') || (leb b'A' c && leb c b'F'))

abbrev pub all_hex : String → Bool
all_hex String.[] = true
all_hex (String.◌∷◌ c s) = is_hex (code c) && all_hex s

-- Without a line feed at the end, which `$` lets through.
abbrev pub drop_line_feed : String → String
drop_line_feed String.[] = String.[]
drop_line_feed (String.◌∷◌ c String.[]) = if code c == 10 then String.[] else String.◌∷◌ c String.[]
drop_line_feed (String.◌∷◌ c (String.◌∷◌ d s)) = String.◌∷◌ c (drop_line_feed (String.◌∷◌ d s))

abbrev pub is_hex_run : String → Bool
is_hex_run s = leb 3 (chars s) && (leb (chars s) 8 && all_hex s)

-- `^#[0-9a-fA-F]{3,8}$`
abbrev pub is_color : String → Bool
is_color String.[] = false
is_color (String.◌∷◌ c s) = (code c == b'#') && is_hex_run (drop_line_feed s)

-- A field that must pass the test if it is given, and may be null only if `nullable`. The inner `none`
-- is an absent field, the outer one a validation error.
abbrev pub load_field :
    Bool → (String → Bool) → Field (Option String) → Option (Option (Option String))
load_field nullable test missing = some none
load_field nullable test malformed = none
load_field nullable test (given none) = if nullable then some (some none) else none
load_field nullable test (given (some t)) = if test t then some (some (some t)) else none

-- All thirteen fields have loaded.
abbrev pub with_loaded : {A B : Type 0} → Option A → (A → Option B) → Option B
with_loaded none f = none
with_loaded (some a) f = f a

-- `_branding_patch_schema.load(data)`; the tests of an address on the web and of a mail address are
-- marshmallow's.
unfoldable pub load_branding_patch :
    (String → Bool) → (String → Bool) → BrandingPayload → Option BrandingPatch
load_branding_patch is_url is_email p =
    if p.has_unknown
    then none
    else with_loaded (load_field false (has_length 0 120) p.bank_name) (λ name.
      with_loaded (load_field false (has_length 0 255) p.bank_tagline) (λ tagline.
        with_loaded (load_field true is_url p.bank_logo_url) (λ logo.
          with_loaded (load_field false is_color p.primary_color) (λ primary.
            with_loaded (load_field false is_color p.secondary_color) (λ secondary.
              with_loaded (load_field false is_color p.accent_color) (λ accent.
                with_loaded (load_field true is_email p.support_email) (λ email.
                  with_loaded (load_field false (has_length 0 40) p.support_phone) (λ phone.
                    with_loaded (load_field false (has_length 0 64) p.bank_country) (λ country.
                      with_loaded (load_field false (has_length 3 8) p.currency_code) (λ currency.
                        with_loaded (load_field false (has_length 0 8) p.currency_symbol) (λ symbol.
                          with_loaded (load_field false (has_length 0 20) p.routing_number)
                            (λ routing.
                              with_loaded (load_field false (has_length 0 20) p.swift_code)
                                (λ swift. some (record {
                                  bank_name = name;
                                  bank_tagline = tagline;
                                  bank_logo_url = logo;
                                  primary_color = primary;
                                  secondary_color = secondary;
                                  accent_color = accent;
                                  support_email = email;
                                  support_phone = phone;
                                  bank_country = country;
                                  currency_code = currency;
                                  currency_symbol = symbol;
                                  routing_number = routing;
                                  swift_code = swift;
                                }))))))))))))))

-- The field's name, if it was given.
abbrev pub named : String → Option (Option String) → List String
named name none = []
named name (some v) = name ∷ []

-- `list(changed_fields.keys())`, in the order of `_BRANDING_FIELDS`
abbrev pub changed_fields : BrandingPatch → List String
changed_fields x =
    named "bank_name" x.bank_name
    ++ (named "bank_tagline" x.bank_tagline
        ++ (named "bank_logo_url" x.bank_logo_url
            ++ (named "primary_color" x.primary_color
                ++ (named "secondary_color" x.secondary_color
                    ++ (named "accent_color" x.accent_color
                        ++ (named "support_email" x.support_email
                            ++ (named "support_phone" x.support_phone
                                ++ (named "bank_country" x.bank_country
                                    ++ (named "currency_code" x.currency_code
                                        ++ (named "currency_symbol" x.currency_symbol
                                            ++ (named "routing_number" x.routing_number
                                                ++ named "swift_code" x.swift_code)))))))))))
