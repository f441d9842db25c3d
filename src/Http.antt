-- ===== src/Http.antt =====
-- Requests and responses of the routes (app/routes), and what the application does with an exception
-- that a route lets through (app/__init__.py). A body is what the JSON text of a response stands for.
pub mod Answers
use bank_flow_digital_bankin.Base.{ℕ, String, Bool, not, ◌&&◌, ◌==◌, leb, List}
use bank_flow_digital_bankin.Models.{
  User, UserRole, Account, AccountStatus, Transaction, StoredBody, Report, AuditLog, UserProfile,
  EffectiveBranding, is_admin,
}
use bank_flow_digital_bankin.Database.{Session, Action, Result, ok, err, Error, rollback, chars}

-- A field of a payload: absent, not of its type, or a value.
pub data Field (A : Type 0) : Type 0 where
  missing malformed : Field A
  given : A → Field A

-- marshmallow's `validate.Length` on the characters of a text
abbrev pub has_length : ℕ → ℕ → String → Bool
has_length least most t = leb least (chars t) && leb (chars t) most

-- `get_current_user_and_role()`: the identity and the role claim of the caller's token.
pub record Caller : Type 0 where
  pub user_id : ℕ
  pub role : UserRole

-- `not account or (account.user_id != user_id and role != ADMIN)`, on an account that was found
abbrev pub is_foreign : Caller → Account → Bool
is_foreign c a = not (a.user_id == c.user_id) && not (is_admin c.role)

-- The texts of the error responses.
pub data Message : Type 0 where
  account_id_not_found : (account_id : ℕ) → Message
  user_id_not_found : (user_id : ℕ) → Message
  user_not_found : Message
  admin_required : Message
  validation_failed : Message
  key_conflict : Message
  number_generation_failed : Message
  only_active_receive : AccountStatus → Message
  domain_error : Error → Message
  transfer_processing_error : Error → Message
  unexpected_transfer_error : Error → Message
  internal_error : Error → Message
  no_profile : (user_id : ℕ) → Message
  no_branding_fields : Message
  registration_failed : Error → Message
  authentication_failed : Error → Message

-- One page of a listing.
pub record Page (A : Type 0) : Type 0 where
  pub items : List A
  pub page : ℕ
  pub per_page : ℕ
  pub total_items : ℕ
  pub total_pages : ℕ

pub data Body : Type 0 where
  error : Message → Body
  stored : StoredBody → Body
  account : Account → Body
  accounts : List Account → Body
  status_updated : Account → Body
  role_updated : User → Body
  transferred : Transaction → Body
  history : Page Transaction → Body
  audit_logs : Page AuditLog → Body
  reconciliation : Report → Body
  authenticated : (user : User) (access_token : String) → Body
  registered : (user : User) (primary_account : Account) (access_token : String) → Body
  profile : UserProfile → Body
  profile_updated : UserProfile → Body
  kyc_updated : UserProfile → Body
  branding : EffectiveBranding → Body
  branding_updated : EffectiveBranding → Body
  user_with_accounts : User → List Account → Body

pub record Response : Type 0 where
  pub status : ℕ
  pub body : Body

abbrev pub respond : ℕ → Body → Response
respond code b = record { status = code; body = b }

abbrev pub refuse : ℕ → Message → Response
refuse code m = respond code (error m)

-- The end of a request: the session is removed, which drops what is not committed, and an exception
-- becomes the response of `handle_unexpected_error`.
abbrev pub finish : Result Response → Session → Response × Session
finish (ok r) s = (r, rollback s)
finish (err e) s = (refuse 500 (internal_error e), rollback s)

abbrev pub serve : Action Response → Session → Response × Session
serve m s = let (r, s') = m s in finish r s'
