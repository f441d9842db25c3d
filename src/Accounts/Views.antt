-- ===== src/Accounts/Views.antt =====
-- app/routes/account_routes.py: `list_accounts`, `get_account` and `list_all_users_admin`, which
-- read the tables. Rows are stored in the order of their keys, which is the order that is asked for.
use bank_flow_digital_bankin.Base.{ℕ, Option, none, some, List, map, keep, ◌==◌, if◌then◌else◌}
use bank_flow_digital_bankin.Models.{Account, User, is_admin}
use bank_flow_digital_bankin.Database.{Session, Action, gets, pure, ◌>>=◌}
use bank_flow_digital_bankin.Database
use bank_flow_digital_bankin.Http.{
  Caller, is_foreign, Body, Response, respond, refuse, account_id_not_found,
}

abbrev pub owned_by : ℕ → List Account → List Account
owned_by k = keep (λ (a : Account). a.user_id == k)

unfoldable pub list_accounts : Caller → Action Response
list_accounts c = gets (λ s.
    let rows = s.working.accounts in
    respond 200 (Body.accounts (if is_admin c.role then rows else owned_by c.user_id rows)))

abbrev pub show_account : Caller → ℕ → Option Account → Response
show_account c k none = refuse 404 (account_id_not_found k)
show_account c k (some a) =
    if is_foreign c a then refuse 404 (account_id_not_found k) else respond 200 (Body.account a)

unfoldable pub get_account : Caller → ℕ → Action Response
get_account c k = gets (λ s. show_account c k (Database.get_account k s.working.accounts))

-- Every user with the accounts that the user owns.
unfoldable pub list_all_users_admin : Caller → Session → Option (List (User × List Account))
list_all_users_admin c s =
    if is_admin c.role
    then some (map (λ (u : User). (u, owned_by u.user_id s.working.accounts)) s.working.users)
    else none
