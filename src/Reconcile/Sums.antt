-- ===== src/Reconcile/Sums.antt =====
-- Sums of amounts under the writes of the program.
use bank_flow_digital_bankin.Base.{ℕ, some, List, [], ◌∷◌, ◌++◌, ◌≡◌, refl, map, arith}
use bank_flow_digital_bankin.Base.Int.{ℤ, pos, ◌+ℤ◌, int_laws}
use bank_flow_digital_bankin.Base.Rows.{get, modify}
use bank_flow_digital_bankin.Reconcile.{sum_from, sum}

sum_from-acc : (acc : ℤ) (xs : List ℤ) → sum_from acc xs ≡ acc +ℤ sum xs
sum_from-acc acc [] = omega int_laws
sum_from-acc acc (x ∷ xs) =
    rw (sum_from-acc (acc +ℤ x) xs, sum_from-acc (pos 0 +ℤ x) xs) (omega int_laws)

pub sum-cons : (x : ℤ) (xs : List ℤ) → sum (x ∷ xs) ≡ x +ℤ sum xs
sum-cons x xs = rw (sum_from-acc (pos 0 +ℤ x) xs) (omega int_laws)

-- A sum over rows, as a recursion on the rows.
module _ {ℓ} {A : Type ℓ} (f : A → ℤ) where
  pub total : List A → ℤ
  total [] = pos 0
  total (a ∷ rows) = f a +ℤ total rows

  pub sum-map : (rows : List A) → sum (map f rows) ≡ total rows
  unfolding total
  sum-map [] = refl
  sum-map (a ∷ rows) = rw (sum-cons (f a) (map f rows), sum-map rows)

  pub total-append : (rows : List A) (a : A) → total (rows ++ a ∷ []) ≡ total rows +ℤ f a
  unfolding total
  total-append [] a = omega int_laws
  total-append (b ∷ rows) a = rw (total-append rows a) (omega int_laws)

  pub total-modify :
      (key : A → ℕ) (k : ℕ) (g : A → A) (rows : List A) {a : A}
      → get key k rows ≡ some a
      → total (modify key k g rows) +ℤ f a ≡ total rows +ℤ f (g a)
  unfolding total
  total-modify key k g [] h = ground arith
  total-modify key k g (b ∷ rows) {a} h = grind (int_laws, total-modify key k g rows {a = a})
