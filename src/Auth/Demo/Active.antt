-- ===== src/Auth/Demo/Active.antt =====
-- app/services/auth_service.py, `ensure_demo_accounts`: what it does to the accounts of a demo user.
use bank_flow_digital_bankin.Base.{ℕ, String, Bool, ◌||◌, not, List, ◌==◌}
use bank_flow_digital_bankin.Models.{User, Account, is_active}
use bank_flow_digital_bankin.Database.{Session, Result, commit, ◌>>=◌}
use bank_flow_digital_bankin.Invariant.{IsValid}
use bank_flow_digital_bankin.Auth.{Libraries}
use bank_flow_digital_bankin.Auth.Demo.{DemoUser, activate_all, with_password, accounts_of}

module _ (user : ℕ) where
  abbrev number_of : Account → String
  number_of a = a.account_number

  -- An account that is another user's, or active.
  abbrev pub is_running : Account → Bool
  is_running a = not (a.user_id == user) || is_active a.status

module _ (lib : Libraries) (draw : ℕ → String) (d : DemoUser) (s : Session) (v : IsValid s)
    (u : User) where
  abbrev activated : Session
  activated = activate_all lib draw d u (with_password lib draw d u s)

  abbrev rest : List Account → Result (Unit {0}) × Session
  rest rows = (accounts_of lib draw d u rows >>= λ _. commit) (with_password lib draw d u s)
