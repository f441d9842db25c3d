-- ===== src/Models/Profile.antt =====
-- app/models/profile.py: the identity profile of a user. A date of birth is a day's number.
use bank_flow_digital_bankin.Base.{ℕ, String, Option}

pub data KycStatus : Type 0 where
  pending verified rejected : KycStatus

pub data IdType : Type 0 where
  aadhaar passport pan other : IdType

pub record UserProfile : Type 0 where
  pub profile_id : ℕ
  pub user_id : ℕ
  pub phone_number : Option String
  pub date_of_birth : Option ℕ
  pub id_type : Option IdType
  pub id_number : Option String
  pub address_line1 : Option String
  pub address_city : Option String
  pub address_country : Option String
  pub kyc_status : KycStatus
  pub created_at : ℕ
  pub updated_at : ℕ
