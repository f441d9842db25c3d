-- ===== src/Accounts/Numbers/Fresh.antt =====
-- What the number generator promises.
use bank_flow_digital_bankin.Base.{
  ℕ, zero, suc, ◌+◌, ◌<◌, String, none, some, List, ◌≡◌, ◌≢◌, arith, Option-cases, inl, inr,
}
use bank_flow_digital_bankin.Models.{Account}
use bank_flow_digital_bankin.Database.{find_number}
use bank_flow_digital_bankin.Accounts.Numbers.{generate_account_number}

module _ (draw : ℕ → String) (accounts : List Account) where
  -- A number that is handed out belongs to no account.
  number_fresh :
      (left i : ℕ) {n : String} {j : ℕ}
      → generate_account_number draw left i accounts ≡ some (n, j)
      → find_number n accounts ≡ none
  unfolding generate_account_number
  number_fresh zero i h = absurd (ground (arith, h))
  number_fresh (suc left) i {n} {j} h = elim (Option-cases (find_number (draw i) accounts)) [
    | inl q ↦ let e : draw i ≡ n = ground (arith, h, q) in rw (← e) q
    | inr (a, q) ↦ number_fresh left (i + 1) {n = n} {j = j} (ground (arith, h, q))
  ]

  -- With no number handed out, every candidate was taken.
  all_taken :
      (left i : ℕ)
      → generate_account_number draw left i accounts ≡ none
      → (m : ℕ) → m < left
      → find_number (draw (i + m)) accounts ≢ none
  unfolding generate_account_number
  all_taken zero i h m lt = absurd (omega arith)
  all_taken (suc left) i h zero lt = ground (arith, h)
  all_taken (suc left) i h (suc m) lt = elim (Option-cases (find_number (draw i) accounts)) [
    | inl q ↦ absurd (ground (arith, h, q))
    | inr (a, q) ↦
        let e : i + suc m ≡ i + 1 + m = omega arith in
        rw e (all_taken left (i + 1) (ground (arith, h, q)) m (omega arith))
  ]

-- An account number that is handed out belongs to no account, and if none is handed out, every
-- candidate of the attempts was taken.
pub generate_account_number_lem :
    (draw : ℕ → String) (left i : ℕ) (accounts : List Account)
    → ((n : String) (j : ℕ)
        → generate_account_number draw left i accounts ≡ some (n, j)
        → find_number n accounts ≡ none)
      × (generate_account_number draw left i accounts ≡ none
          → (m : ℕ) → m < left
          → find_number (draw (i + m)) accounts ≢ none)
generate_account_number_lem draw left i accounts =
    ((λ n j h. number_fresh draw accounts left i h), all_taken draw accounts left i)
