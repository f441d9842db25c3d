-- ===== src/Base/Rows.antt =====
-- A table as the list of its rows, by primary key: `query.filter_by(id=k).first()` and an UPDATE of
-- the row with that key. `key` reads the primary key of a row.
use bank_flow_digital_bankin.Base.Tests.{◌==◌, if◌then◌else◌}
use bank_flow_digital_bankin.Base.Lists.{all}
use Prim.Native.Nat.{ℕ, ◌<◌, ◌≤◌}
use mathlib.Core.Path.{◌≡◌, refl}
use mathlib.Core.Logic.{◌≢◌}
use mathlib.Core.Bool.{Bool, true}
use mathlib.Core.Option.{Option, none, some}
use mathlib.Core.List.{List, [], ◌∷◌, ◌++◌}
use native.Mathlib.Omega.{arith}

module _ {ℓ} {A : Type ℓ} (key : A → ℕ) where
  abbrev pub get : ℕ → List A → Option A
  get k [] = none
  get k (a ∷ rows) = if k == key a then some a else get k rows

  abbrev pub modify : ℕ → (A → A) → List A → List A
  modify k f [] = []
  modify k f (a ∷ rows) = if k == key a then f a ∷ rows else a ∷ modify k f rows

  -- every key lies below the table's AUTO_INCREMENT counter
  abbrev pub Below : ℕ → List A → Type 0
  Below n [] = Unit
  Below n (a ∷ rows) = (key a < n) × Below n rows

  pub key-get : (k : ℕ) (rows : List A) {a : A} → get k rows ≡ some a → key a ≡ k
  key-get k [] h = ground arith
  key-get k (b ∷ rows) {a} h = ground (arith, key-get k rows {a = a})

  pub get-modify_self :
      (k : ℕ) (f : A → A) (rows : List A) {a : A}
      → get k rows ≡ some a
      → key (f a) ≡ k
      → get k (modify k f rows) ≡ some (f a)
  get-modify_self k f [] h e = ground arith
  get-modify_self k f (b ∷ rows) {a} h e = ground (arith, get-modify_self k f rows {a = a})

  pub get-modify_ne :
      (j k : ℕ) (f : A → A) (rows : List A) {a : A}
      → get k rows ≡ some a
      → key (f a) ≡ k
      → j ≢ k
      → get j (modify k f rows) ≡ get j rows
  get-modify_ne j k f [] h e d = ground arith
  get-modify_ne j k f (b ∷ rows) {a} h e d = ground (arith, get-modify_ne j k f rows {a = a})

  pub all-get :
      (p : A → Bool) (k : ℕ) (rows : List A) {a : A}
      → all p rows ≡ true
      → get k rows ≡ some a
      → p a ≡ true
  all-get p k [] h e = ground arith
  all-get p k (b ∷ rows) {a} h e = ground (arith, all-get p k rows {a = a})

  pub all-modify :
      (p : A → Bool) (k : ℕ) (f : A → A) (rows : List A) {a : A}
      → all p rows ≡ true
      → get k rows ≡ some a
      → p (f a) ≡ true
      → all p (modify k f rows) ≡ true
  all-modify p k f [] h e q = refl
  all-modify p k f (b ∷ rows) {a} h e q = ground (arith, all-modify p k f rows {a = a})

  -- The row that was added last has the newest key, so an UPDATE by that key finds it.
  pub modify-append_new :
      (n : ℕ) (f : A → A) (rows : List A) (a : A)
      → Below n rows
      → key a ≡ n
      → modify n f (rows ++ a ∷ []) ≡ rows ++ f a ∷ []
  modify-append_new n f [] a h e = ground arith
  modify-append_new n f (b ∷ rows) a h e = ground (arith, modify-append_new n f rows a h.1 e)

  pub Below-mono : (m n : ℕ) (rows : List A) → m ≤ n → Below m rows → Below n rows
  Below-mono m n [] le h = tt
  Below-mono m n (a ∷ rows) le h = (omega arith, Below-mono m n rows le h.1)

  pub Below-append :
      (n : ℕ) (rows : List A) (a : A) → Below n rows → key a < n → Below n (rows ++ a ∷ [])
  Below-append n [] a h lt = (lt, tt)
  Below-append n (b ∷ rows) a h lt = (h.0, Below-append n rows a h.1 lt)

  -- An UPDATE that leaves the keys alone.
  pub Below-modify :
      (n k : ℕ) (f : A → A) (rows : List A)
      → ((a : A) → key (f a) ≡ key a)
      → Below n rows
      → Below n (modify k f rows)
  Below-modify n k f [] same h = tt
  Below-modify n k f (b ∷ rows) same h = ground (arith, same b, Below-modify n k f rows same h.1)

  pub get-Below : (n k : ℕ) (rows : List A) → Below n rows → n ≤ k → get k rows ≡ none
  get-Below n k [] h le = refl
  get-Below n k (b ∷ rows) h le = ground (arith, get-Below n k rows h.1 le)
