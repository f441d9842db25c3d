-- ===== src/Models/Branding.antt =====
-- app/models/branding.py: the row of the white-label settings.
use bank_flow_digital_bankin.Base.{ℕ, String, Option}

pub record BankConfig : Type 0 where
  pub config_id : ℕ
  pub bank_name : Option String
  pub bank_tagline : Option String
  pub bank_logo_url : Option String
  pub primary_color : Option String
  pub secondary_color : Option String
  pub accent_color : Option String
  pub support_email : Option String
  pub support_phone : Option String
  pub bank_country : Option String
  pub currency_code : Option String
  pub currency_symbol : Option String
  pub routing_number : Option String
  pub swift_code : Option String
  pub updated_at : Option ℕ
  pub updated_by_user_id : Option ℕ

-- `to_dict` of a row: what the frontend is given. Every text has a value.
pub record EffectiveBranding : Type 0 where
  pub bank_name : String
  pub bank_tagline : String
  pub bank_logo_url : String
  pub primary_color : String
  pub secondary_color : String
  pub accent_color : String
  pub support_email : String
  pub support_phone : String
  pub bank_country : String
  pub currency_code : String
  pub currency_symbol : String
  pub routing_number : String
  pub swift_code : String
  pub updated_at : Option ℕ
