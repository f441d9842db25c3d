-- ===== src/Seed.antt =====
-- seed.py: `seed_database`, which fills a database for development. What it prints is left out, and the three
-- descriptions of its ledger entries are one.
use bank_flow_digital_bankin.Base.{
  ℕ, String, Option, none, some, Bool, not, ◌&&◌, ◌||◌, List, [], ◌∷◌, str_eq, if◌then◌else◌,
}
use bank_flow_digital_bankin.Base.Int.{pos}
use bank_flow_digital_bankin.Base.Decimal.{whole, to_column}
use bank_flow_digital_bankin.Models.{
  User, UserRole, Report, customer, admin, is_admin, credit, provision_balance,
}
use bank_flow_digital_bankin.Database.{
  Session, Action, Result, ok, err, Error, pure, raise, gets, commit, ◌>>=◌, ◌>>◌, find_email,
}
use bank_flow_digital_bankin.Ledger.{add_entry}
use bank_flow_digital_bankin.Reconcile.{reconcile_system_balances}
use bank_flow_digital_bankin.Auth.{Libraries, register_user}
use bank_flow_digital_bankin.Auth.Clean.{lower}
use bank_flow_digital_bankin.Auth.Demo.{DemoUser, demo_alice, demo_bob, start_up}
use bank_flow_digital_bankin.Branding.Payload.{Environment}
use bank_flow_digital_bankin.Configuration.{or_default}
use bank_flow_digital_bankin.Configuration.Texts.{contains}

-- `os.getenv(name, "").lower()`
abbrev pub setting : Environment → String → String
setting env name = lower (or_default (env name) "")

unfoldable pub is_production : Environment → Bool
unfolding lower
is_production env =
    str_eq (setting env "FLASK_ENV") "production"
    || (str_eq (setting env "ENV") "production"
        || (contains "aivencloud.com" (setting env "DATABASE_URL")
            || contains "rds.amazonaws.com" (setting env "DATABASE_URL")))

-- `User.query.filter_by(role=UserRole.ADMIN).first()`
abbrev pub find_admin : List User → Option User
find_admin [] = none
find_admin (u ∷ users) = let rest = find_admin users in if is_admin u.role then some u else rest

-- What the script draws: the numbers of its accounts and the administrator's password.
pub record Draws : Type 0 where
  pub alice_at_start : ℕ → String
  pub bob_at_start : ℕ → String
  pub admin_number : ℕ → String
  pub alice_number : ℕ → String
  pub bob_number : ℕ → String
  pub admin_password : String

abbrev pub seed_admin : Draws → DemoUser
seed_admin x = record {
  full_name = "System Administrator";
  email = "admin@bankflow.local";
  password = x.admin_password;
  initial_deposit = whole (pos 1_000_000);
}

-- The status with which the script is left, an exception, or the report.
pub data SeedEnd : Type 0 where
  exited : (status : ℕ) → SeedEnd
  raised : Error → SeedEnd
  seeded : Report → SeedEnd

module _ (lib : Libraries) where
  -- The registration, the ledger entry of its deposit, and the commit.
  abbrev pub provision_user : (ℕ → String) → DemoUser → UserRole → Action (Unit {0})
  provision_user draw d role = do
    x ← register_user lib draw d.full_name d.email d.password d.initial_deposit role
    add_entry none x.1.account_id credit (to_column d.initial_deposit) (to_column d.initial_deposit)
        provision_balance
    commit

  abbrev pub admin_found : Draws → Option User → Action (Unit {0})
  admin_found x none = provision_user x.admin_number (seed_admin x) admin
  admin_found x (some u) = pure tt

  -- For a user who is there the password is to be hashed with `bcrypt`, a name that the script never
  -- imports.
  abbrev pub customer_found : (ℕ → String) → DemoUser → Option User → Action (Unit {0})
  customer_found draw d none = provision_user draw d customer
  customer_found draw d (some u) = raise Error.name_error

  abbrev pub seed_customer : (ℕ → String) → DemoUser → Action (Unit {0})
  seed_customer draw d = do
    found ← gets (λ s. find_email d.email s.working.users)
    customer_found draw d found

  -- In the context of the application, to the reconciliation.
  unfoldable pub seed_in_app : Draws → Action Report
  unfolding register_user add_entry reconcile_system_balances
  seed_in_app x = do
    found ← gets (λ s. find_admin s.working.users)
    admin_found x found
    seed_customer x.alice_number demo_alice
    seed_customer x.bob_number demo_bob
    reconcile_system_balances

abbrev pub end_of : Result Report × Session → SeedEnd × Session
end_of (ok r, s) = (seeded r, s)
end_of (err e, s) = (raised e, s)

-- `create_app` comes before the seeding.
unfoldable pub seed_database :
    Environment → Libraries → Draws → (force : Bool) → Session → SeedEnd × Session
unfolding is_production start_up seed_in_app
seed_database env lib x force s =
    if is_production env && not force
    then (exited 1, s)
    else end_of (seed_in_app lib x (start_up lib x.alice_at_start x.bob_at_start s))
