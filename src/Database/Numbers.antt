-- ===== src/Database/Numbers.antt =====
-- The unique columns of numbers under the writes of the program.
use bank_flow_digital_bankin.Base.{
  ℕ, none, true, ◌&&◌, not, List, [], ◌∷◌, ◌++◌, ◌≡◌, refl, arith, ◌==◌,
}
use bank_flow_digital_bankin.Base.Rows.{get, modify}
use bank_flow_digital_bankin.Database.{unique_numbers, number_free}

module _ {ℓ} {A : Type ℓ} (f : A → ℕ) where
  number_free-append :
      (k : ℕ) (rows : List A) (a : A)
      → number_free f k (rows ++ a ∷ []) ≡ (number_free f k rows && not (k == f a))
  unfolding number_free
  number_free-append k [] a = ground arith
  number_free-append k (b ∷ rows) a = ground (arith, number_free-append k rows a)

  number_free-cons :
      (k : ℕ) (b : A) (rows : List A)
      → number_free f k (b ∷ rows) ≡ (not (k == f b) && number_free f k rows)
  unfolding number_free
  number_free-cons k b rows = ground arith

  pub unique_numbers-append :
      (rows : List A) (a : A)
      → unique_numbers f rows ≡ true
      → number_free f (f a) rows ≡ true
      → unique_numbers f (rows ++ a ∷ []) ≡ true
  unique_numbers-append [] a h e = ground (arith)
  unique_numbers-append (b ∷ rows) a h e = ground (
    arith,
    unique_numbers-append rows a,
    number_free-append (f b) rows a,
    number_free-cons (f a) b rows,
  )

  -- A number that no row holds is not found.
  pub number_free-get : (k : ℕ) (rows : List A) → get f k rows ≡ none → number_free f k rows ≡ true
  unfolding number_free
  number_free-get k [] h = refl
  number_free-get k (b ∷ rows) h = ground (arith, number_free-get k rows)

  number_free-modify :
      (key : A → ℕ) (i : ℕ) (g : A → A) (same : (a : A) → f (g a) ≡ f a) (k : ℕ) (rows : List A)
      → number_free f k (modify key i g rows) ≡ number_free f k rows
  unfolding number_free
  number_free-modify key i g same k [] = refl
  number_free-modify key i g same k (b ∷ rows) =
      ground (arith, same b, number_free-modify key i g same k rows)

  pub unique_numbers-modify :
      (key : A → ℕ) (i : ℕ) (g : A → A) (same : (a : A) → f (g a) ≡ f a) (rows : List A)
      → unique_numbers f (modify key i g rows) ≡ unique_numbers f rows
  unique_numbers-modify key i g same [] = refl
  unique_numbers-modify key i g same (b ∷ rows) = ground (
    arith,
    same b,
    unique_numbers-modify key i g same rows,
    number_free-modify key i g same (f b) rows,
  )
