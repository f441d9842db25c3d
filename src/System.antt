-- ===== src/System.antt =====
-- app/__init__.py registers the blueprints of app/routes; here their routes are one system, whose requests
-- run one after the other, each in a session of its own. The readings that the listings give are no
-- requests here, since they write nothing.
pub mod Beside
pub mod Registers
pub mod Keeps
pub mod Drift
pub mod Money
pub mod Openings
pub mod Steady
pub mod Balance
pub mod Explained
pub mod Statuses
pub mod Secrets
pub mod Access
use bank_flow_digital_bankin.Base.{ℕ, String, Option, Bool, List, [], ◌∷◌}
use bank_flow_digital_bankin.Models.{AccountStatus, UserRole, KycStatus}
use bank_flow_digital_bankin.Database.{Session, Action, RequestContext}
use bank_flow_digital_bankin.Http.{Caller, Response, serve}
use bank_flow_digital_bankin.Accounts.Payload.{AmountField}
use bank_flow_digital_bankin.Accounts.Create
use bank_flow_digital_bankin.Accounts.Deposit
use bank_flow_digital_bankin.Accounts.Admin
use bank_flow_digital_bankin.Accounts.Views
use bank_flow_digital_bankin.TransferRoutes
use bank_flow_digital_bankin.TransferRoutes.{TransferPayload}
use bank_flow_digital_bankin.Auth.{Libraries}
use bank_flow_digital_bankin.Auth.Routes
use bank_flow_digital_bankin.Auth.Routes.{RegisterPayload}
use bank_flow_digital_bankin.Profiles
use bank_flow_digital_bankin.Profiles.Payload.{ProfilePayload}
use bank_flow_digital_bankin.Branding
use bank_flow_digital_bankin.Branding.Payload.{BrandingPayload, Environment}

-- What the routes take from outside the repository.
pub record World : Type 0 where
  pub libraries : Libraries
  pub environment : Environment
  pub is_url : String → Bool

-- A request for each route that works on the tables, with the numbers that are drawn and the day.
pub data Request : Type 0 where
  register : (draw : ℕ → String) → RegisterPayload → Request
  login : Option (String × String) → Request
  me : Caller → Request
  list_accounts : Caller → Request
  get_account : Caller → ℕ → Request
  create_account :
      Caller → (idempotency_key : Option String) → (draw : ℕ → String) → AmountField → Request
  deposit_funds : Caller → (idempotency_key : Option String) → ℕ → AmountField → Request
  update_account_status : Caller → ℕ → Option AccountStatus → Request
  update_user_role : Caller → ℕ → Option UserRole → Request
  run_reconciliation : Caller → Request
  create_transfer : Caller → TransferPayload → Request
  get_my_profile : Caller → Request
  update_my_profile : Caller → (today : ℕ) → ProfilePayload → Request
  get_user_kyc_status : Caller → ℕ → Request
  update_user_kyc_status : Caller → ℕ → Option KycStatus → Request
  get_branding : Request
  update_branding : Caller → BrandingPayload → Request

-- The route of a request.
unfoldable pub dispatch : World → Request → Action Response
dispatch w (Request.register draw p) = Routes.register w.libraries draw p
dispatch w (Request.login p) = Routes.login w.libraries p
dispatch w (Request.me c) = Routes.me c
dispatch w (Request.list_accounts c) = Views.list_accounts c
dispatch w (Request.get_account c k) = Views.get_account c k
dispatch w (Request.create_account c key draw f) = Create.create_account c key draw f
dispatch w (Request.deposit_funds c key k f) = Deposit.deposit_funds c key k f
dispatch w (Request.update_account_status c k f) = Admin.update_account_status c k f
dispatch w (Request.update_user_role c k f) = Admin.update_user_role c k f
dispatch w (Request.run_reconciliation c) = Admin.run_reconciliation c
dispatch w (Request.create_transfer c p) = TransferRoutes.create_transfer c p
dispatch w (Request.get_my_profile c) = Profiles.get_my_profile c
dispatch w (Request.update_my_profile c today p) = Profiles.update_my_profile c today p
dispatch w (Request.get_user_kyc_status c k) = Profiles.get_user_kyc_status c k
dispatch w (Request.update_user_kyc_status c k f) = Profiles.update_user_kyc_status c k f
dispatch w Request.get_branding = Branding.get_branding w.environment
dispatch w (Request.update_branding c p) =
    Branding.update_branding w.environment w.is_url w.libraries.is_email c p

-- A request as it arrives: with its headers and its peer, at its time.
pub record Arrival : Type 0 where
  pub request : Request
  pub context : Option RequestContext
  pub now : ℕ

-- The session in which an arrival is handled.
abbrev pub arrive : Arrival → Session → Session
arrive q s = record s { context = q.context; now = q.now }

-- One request, and any number of them with their responses.
unfoldable pub handle : World → Request → Session → Response × Session
unfolding dispatch
handle w q = serve (dispatch w q)

unfoldable pub run : World → List Arrival → Session → List Response × Session
unfolding handle
run w [] s = ([], s)
run w (q ∷ qs) s =
    let (r, t) = handle w q.request (arrive q s) in let (rs, u) = run w qs t in (r ∷ rs, u)
