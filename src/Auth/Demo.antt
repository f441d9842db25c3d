-- ===== src/Auth/Demo.antt =====
-- app/services/auth_service.py, `ensure_demo_accounts`, which app/__init__.py runs at every start of the
-- application.
pub mod Active
use bank_flow_digital_bankin.Base.{
  ℕ, ◌+◌, String, Option, none, some, Bool, List, [], ◌∷◌, ◌++◌, map, ◌==◌, if◌then◌else◌,
}
use bank_flow_digital_bankin.Base.Int.{ℤ, pos}
use bank_flow_digital_bankin.Base.Decimal.{Decimal, whole}
use bank_flow_digital_bankin.Models.{User, Account, active, customer}
use bank_flow_digital_bankin.Database.{
  Session, Action, Result, ok, err, Error, pure, raise, gets, modify_session, commit, ◌>>=◌, ◌>>◌,
  find_email, modify_user, rollback,
}
use bank_flow_digital_bankin.Accounts.Numbers.{generate_account_number, max_acct_retries}
use bank_flow_digital_bankin.Accounts.Views.{owned_by}
use bank_flow_digital_bankin.Auth.{Libraries, register_user, primary_account}

pub record DemoUser : Type 0 where
  pub full_name : String
  pub email : String
  pub password : String
  pub initial_deposit : Decimal

abbrev pub demo_alice : DemoUser
demo_alice = record {
  full_name = "Alice Johnson";
  email = "alice@example.com";
  password = "Password123!";
  initial_deposit = whole (pos 250_000);
}

abbrev pub demo_bob : DemoUser
demo_bob = record {
  full_name = "Bob Smith";
  email = "bob@example.com";
  password = "Password123!";
  initial_deposit = whole (pos 150_000);
}

-- `except Exception: db.session.rollback()`
abbrev pub forgive : {A : Type 0} → Result A → Session → Result (Unit {0}) × Session
forgive (ok a) s = (ok tt, s)
forgive (err e) s = (ok tt, rollback s)

abbrev pub set_password : String → User → User
set_password hash u = record u { password_hash = hash }

-- `for acc in user.accounts: if acc.status != ACTIVE: acc.status = ACTIVE`
abbrev pub activate : ℕ → Account → Account
activate user a = if a.user_id == user then record a { status = active } else a

module _ (lib : Libraries) (draw : ℕ → String) (d : DemoUser) where
  abbrev pub register_demo : Action (Unit {0})
  register_demo s =
      let (r, t) =
        register_user lib draw d.full_name d.email d.password d.initial_deposit customer s in
      forgive r t

  abbrev pub with_password : User → Session → Session
  with_password u s = record s {
    working = record (s.working) {
      users =
          modify_user u.user_id (set_password (lib.generate_password_hash d.password))
            s.working.users;
    };
  }

  -- The account that a user without one is given.
  abbrev pub give_account : User → Option (String × ℕ) → Action (Unit {0})
  give_account u none = raise Error.account
  give_account u (some (number, _)) = modify_session (λ s. record s {
    working = record (s.working) {
      accounts = s.working.accounts ++ primary_account lib u number d.initial_deposit s ∷ [];
    };
    ids = record (s.ids) { account = s.ids.account + 1 };
  })

  abbrev pub activate_all : User → Session → Session
  activate_all u s = record s {
    working = record (s.working) { accounts = map (activate u.user_id) s.working.accounts };
  }

  -- `if not user.accounts: ... else: ...`
  abbrev pub accounts_of : User → List Account → Action (Unit {0})
  accounts_of u [] = do
    number ← gets (λ s. generate_account_number draw max_acct_retries 0 s.working.accounts)
    give_account u number
  accounts_of u (a ∷ rows) = modify_session (activate_all u)

  abbrev pub sync_demo : User → Action (Unit {0})
  sync_demo u = do
    modify_session (with_password u)
    rows ← gets (λ s. owned_by u.user_id s.working.accounts)
    accounts_of u rows
    commit

  abbrev pub demo_found : Option User → Action (Unit {0})
  demo_found none = register_demo
  demo_found (some u) = sync_demo u

  -- One turn of the loop.
  unfoldable pub ensure_demo_account : Action (Unit {0})
  unfolding register_user
  ensure_demo_account = do found ← gets (λ s. find_email d.email s.working.users); demo_found found

unfoldable pub ensure_demo_accounts :
    Libraries → (draw_alice draw_bob : ℕ → String) → Action (Unit {0})
unfolding ensure_demo_account
ensure_demo_accounts lib draw_alice draw_bob =
    ensure_demo_account lib draw_alice demo_alice >> ensure_demo_account lib draw_bob demo_bob

-- The start of the application: an exception is passed over, and the session is removed.
unfoldable pub start_up : Libraries → (draw_alice draw_bob : ℕ → String) → Session → Session
unfolding ensure_demo_accounts
start_up lib draw_alice draw_bob s = rollback (ensure_demo_accounts lib draw_alice draw_bob s).1
