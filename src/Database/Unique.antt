-- ===== src/Database/Unique.antt =====
-- The unique columns under the writes of the program: a row added with a fresh value, and an UPDATE that
-- leaves the column alone.
use bank_flow_digital_bankin.Base.{
  ℕ, String, Option, none, some, true, ◌&&◌, not, List, [], ◌∷◌, ◌++◌, ◌≡◌, refl, arith, any-append,
  str_eq, eq_iff, &&-eq-true,
}
use bank_flow_digital_bankin.Base.Rows.{modify}
use bank_flow_digital_bankin.Models.{Transaction}
use bank_flow_digital_bankin.Database.{
  unique_keys, unique_texts, key_free, text_key_free, column_eq, find_key,
}

str_eq_sym : (a b : String) → str_eq a b ≡ str_eq b a
str_eq_sym a b = ground (arith, eq_iff a b, eq_iff b a)

module _ {ℓ} {A : Type ℓ} (f : A → String) where
  text_key_free-append :
      (k : String) (rows : List A) (a : A)
      → text_key_free f k (rows ++ a ∷ []) ≡ (text_key_free f k rows && not (str_eq k (f a)))
  unfolding text_key_free
  text_key_free-append k [] a = ground arith
  text_key_free-append k (b ∷ rows) a = ground (arith, text_key_free-append k rows a)

  text_key_free-head :
      (k : String) (b : A) (rows : List A)
      → text_key_free f k (b ∷ rows) ≡ (not (str_eq k (f b)) && text_key_free f k rows)
  unfolding text_key_free
  text_key_free-head k b rows = ground arith

  pub unique_texts-append :
      (rows : List A) (a : A)
      → unique_texts f rows ≡ true
      → text_key_free f (f a) rows ≡ true
      → unique_texts f (rows ++ a ∷ []) ≡ true
  unique_texts-append [] a h e = ground (arith)
  unique_texts-append (b ∷ rows) a h e = ground (
    arith,
    unique_texts-append rows a,
    text_key_free-append (f b) rows a,
    text_key_free-head (f a) b rows,
    str_eq_sym (f a) (f b),
  )

  text_key_free-modify :
      (key : A → ℕ) (i : ℕ) (g : A → A) (same : (a : A) → f (g a) ≡ f a) (k : String)
      (rows : List A)
      → text_key_free f k (modify key i g rows) ≡ text_key_free f k rows
  unfolding text_key_free
  text_key_free-modify key i g same k [] = refl
  text_key_free-modify key i g same k (b ∷ rows) =
      ground (arith, same b, text_key_free-modify key i g same k rows)

  pub unique_texts-modify :
      (key : A → ℕ) (i : ℕ) (g : A → A) (same : (a : A) → f (g a) ≡ f a) (rows : List A)
      → unique_texts f (modify key i g rows) ≡ unique_texts f rows
  unique_texts-modify key i g same [] = refl
  unique_texts-modify key i g same (b ∷ rows) = ground (
    arith,
    same b,
    unique_texts-modify key i g same rows,
    text_key_free-modify key i g same (f b) rows,
  )

key_free-append :
    (o : Option String) (txs : List Transaction) (t : Transaction)
    → key_free o txs ≡ true
    → key_free o (t ∷ []) ≡ true
    → key_free o (txs ++ t ∷ []) ≡ true
unfolding key_free
key_free-append none txs t h e = refl
key_free-append (some k) txs t h e =
    ground (arith, any-append (λ (t : Transaction). column_eq k t.idempotency_key) txs (t ∷ []))

key_free-tail :
    (o : Option String) (b : Transaction) (txs : List Transaction)
    → key_free o (b ∷ txs) ≡ true
    → key_free o txs ≡ true
unfolding key_free
key_free-tail none b txs h = refl
key_free-tail (some k) b txs h = ground arith

key_free-nil : (o : Option String) → key_free o [] ≡ true
unfolding key_free
key_free-nil none = refl
key_free-nil (some k) = refl

-- Freedom of one row's key from another's goes both ways.
key_free_swap :
    (ka kb : Option String) (a b : Transaction) (txs : List Transaction)
    → a.idempotency_key ≡ ka
    → b.idempotency_key ≡ kb
    → key_free ka (b ∷ txs) ≡ true
    → key_free kb (a ∷ []) ≡ true
unfolding key_free
key_free_swap ka none a b txs ea eb h = refl
key_free_swap none (some k) a b txs ea eb h = ground arith
key_free_swap (some j) (some k) a b txs ea eb h = ground (arith, str_eq_sym j k)

pub unique_keys-append :
    (txs : List Transaction) (t : Transaction)
    → unique_keys txs ≡ true
    → key_free t.idempotency_key txs ≡ true
    → unique_keys (txs ++ t ∷ []) ≡ true
unique_keys-append [] t h e = rw (key_free-nil t.idempotency_key)
unique_keys-append (b ∷ txs) t h e = ground (
  arith,
  unique_keys-append txs t,
  key_free-tail t.idempotency_key b txs e,
  key_free-append b.idempotency_key txs t,
  key_free_swap t.idempotency_key b.idempotency_key t b txs refl refl e,
)

-- A text that no row holds is not found.
pub find_key-free :
    (k : String) (txs : List Transaction) → find_key k txs ≡ none → key_free (some k) txs ≡ true
unfolding key_free
find_key-free k [] h = refl
find_key-free k (t ∷ txs) h = ground (arith, find_key-free k txs)

key_free-last :
    (o : Option String) (txs : List Transaction) (t : Transaction)
    → key_free o (txs ++ t ∷ []) ≡ true
    → key_free o (t ∷ []) ≡ true
unfolding key_free
key_free-last none txs t h = refl
key_free-last (some k) txs t h =
    ground (arith, any-append (λ (t : Transaction). column_eq k t.idempotency_key) txs (t ∷ []))

key_free-cons :
    (o : Option String) (b : Transaction) (txs : List Transaction)
    → key_free o (b ∷ []) ≡ true
    → key_free o txs ≡ true
    → key_free o (b ∷ txs) ≡ true
unfolding key_free
key_free-cons none b txs h e = refl
key_free-cons (some k) b txs h e = ground arith

-- The converse: in a table of unique keys the last row's key is no other row's.
pub unique_keys-last :
    (txs : List Transaction) (t : Transaction)
    → unique_keys (txs ++ t ∷ []) ≡ true
    → key_free t.idempotency_key txs ≡ true
unique_keys-last [] t h = key_free-nil t.idempotency_key
unique_keys-last (b ∷ txs) t h =
    let both =
      &&-eq-true (key_free b.idempotency_key (txs ++ t ∷ [])) (unique_keys (txs ++ t ∷ [])) h in
    key_free-cons t.idempotency_key b txs
      (key_free_swap b.idempotency_key t.idempotency_key b t [] refl refl
        (key_free-last b.idempotency_key txs t both.0))
      (unique_keys-last txs t both.1)
