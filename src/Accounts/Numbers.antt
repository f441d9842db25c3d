-- ===== src/Accounts/Numbers.antt =====
-- app/services/auth_service.py: `generate_account_number`.
pub mod Fresh
use bank_flow_digital_bankin.Base.{ℕ, zero, suc, ◌+◌, String, Option, none, some, List}
use bank_flow_digital_bankin.Models.{Account}
use bank_flow_digital_bankin.Database.{find_number}

-- `generate_account_number`: at most `left` candidates, the next being the `i`th that is drawn; the
-- number and the draws made, or `none` for `AccountError`. The waits between the attempts are left out.
unfoldable pub generate_account_number : (ℕ → String) → ℕ → ℕ → List Account → Option (String × ℕ)
generate_account_number draw zero i accounts = none
generate_account_number draw (suc left) i accounts =
    let rest = generate_account_number draw left (i + 1) accounts in
    elim (find_number (draw i) accounts) [ none ↦ some (draw i, i + 1) | some _ ↦ rest ]

abbrev pub max_acct_retries : ℕ
max_acct_retries = 5
