-- ===== src/Base/Decimal.antt =====
-- The decimal amounts of the requests, which may have more than two places, and the values that a
-- `Numeric(12, 2)` column takes of them: the database rounds to whole cents, half away from zero.
use Prim.Native.Nat.{ℕ}
use mathlib.Core.Path.{◌≡◌, refl}
use mathlib.Core.Bool.{Bool, true, false, ◌&&◌, ◌||◌, not}
use mathlib.Core.List.{List, [], ◌∷◌}
use native.Mathlib.Omega.{arith}
use bank_flow_digital_bankin.Base.Tests.{ltb, leb, ◌==◌, if◌then◌else◌}
use bank_flow_digital_bankin.Base.Int.{
  ℤ, pos, ◌+ℤ◌, ◌-ℤ◌, ◌≤ℤ◌, ◌<ℤ◌, ltb_ℤ, eqb_ℤ, +ℤ_parts, -ℤ_parts, eq_of_parts,
}

-- The amount is `cents` and the fraction of a cent whose decimal digits follow: 10.005 is a thousand cents
-- and the digit 5, and -0.3 cents are -1 cent and the digit 7.
pub record Decimal : Type 0 where
  pub cents : ℤ
  pub digits : List ℕ

abbrev pub whole : ℤ → Decimal
whole v = record { cents = v; digits = [] }

abbrev pub no_fraction : List ℕ → Bool
no_fraction [] = true
no_fraction (d ∷ ds) = (d == 0) && no_fraction ds

-- The fraction is half a cent or more.
abbrev pub half_or_more : List ℕ → Bool
half_or_more [] = false
half_or_more (d ∷ ds) = leb 5 d

abbrev pub more_than_half : List ℕ → Bool
more_than_half [] = false
more_than_half (d ∷ ds) = ltb 5 d || ((d == 5) && not (no_fraction ds))

abbrev pub in_cents : Decimal → Bool
in_cents x = no_fraction x.digits

-- `x <= v`
abbrev pub at_most : Decimal → ℤ → Bool
at_most x v = ltb_ℤ x.cents v || (eqb_ℤ x.cents v && in_cents x)

-- `v == x`
abbrev pub equals : Decimal → ℤ → Bool
equals x v = eqb_ℤ v x.cents && in_cents x

-- The fraction is half a cent to the digit.
abbrev pub is_half_cent : Decimal → Bool
is_half_cent x = half_or_more x.digits && not (more_than_half x.digits)

-- The rounding of the column.
unfoldable pub to_column : Decimal → ℤ
to_column x =
    if (if ltb_ℤ x.cents (pos 0) then more_than_half x.digits else half_or_more x.digits)
    then x.cents +ℤ pos 1
    else x.cents

-- What the column takes of `b + x`
unfoldable pub sum_column : ℤ → Decimal → ℤ
unfolding to_column
sum_column b x = to_column (record x { cents = b +ℤ x.cents })

-- What it takes of `b - x`, which is -(x - b)
unfoldable pub difference_column : ℤ → Decimal → ℤ
unfolding to_column
difference_column b x = pos 0 -ℤ to_column (record x { cents = x.cents -ℤ b })

less_than_half : (ds : List ℕ) → no_fraction ds ≡ true → half_or_more ds ≡ false
less_than_half [] h = refl
less_than_half (d ∷ ds) h = ground arith

not_more : (ds : List ℕ) → no_fraction ds ≡ true → more_than_half ds ≡ false
not_more [] h = refl
not_more (d ∷ ds) h = ground arith

-- An amount in whole cents is stored as it is.
pub to_column-in_cents : (x : Decimal) → in_cents x ≡ true → to_column x ≡ x.cents
unfolding to_column
to_column-in_cents x h = ground (arith, less_than_half x.digits h, not_more x.digits h)

more-half : (ds : List ℕ) → more_than_half ds ≡ true → half_or_more ds ≡ true
more-half [] h = h
more-half (d ∷ ds) h = ground arith

-- An amount up to `v` is stored as one up to `v`.
pub to_column-le : (x : Decimal) (v : ℤ) → at_most x v ≡ true → to_column x ≤ℤ v
unfolding to_column
to_column-le x v h =
    ground (arith, less_than_half x.digits, not_more x.digits, +ℤ_parts x.cents (pos 1))

pub le-to_column : (x : Decimal) → x.cents ≤ℤ to_column x
unfolding to_column
le-to_column x = ground (arith, +ℤ_parts x.cents (pos 1))

pub above_zero : (x : Decimal) → at_most x (pos 0) ≡ false → pos 0 ≤ℤ x.cents
above_zero x h = ground arith

pub stored-pos : (x : Decimal) → pos 0 <ℤ to_column x → pos 0 ≤ℤ x.cents
unfolding to_column
stored-pos x h =
    ground (arith, less_than_half x.digits, not_more x.digits, +ℤ_parts x.cents (pos 1))

pub sum_column-ge : (b : ℤ) (x : Decimal) → pos 0 ≤ℤ x.cents → b ≤ℤ sum_column b x
unfolding sum_column
sum_column-ge b x h =
    omega (arith, +ℤ_parts b x.cents, le-to_column (record x { cents = b +ℤ x.cents }))

-- A balance that is not negative gains what the amount is stored as.
pub sum_column-pos :
    (b : ℤ) (x : Decimal) → pos 0 ≤ℤ b → pos 0 ≤ℤ x.cents → sum_column b x ≡ b +ℤ to_column x
unfolding sum_column to_column
sum_column-pos b x h k = ground (
  arith,
  +ℤ_parts b x.cents,
  +ℤ_parts x.cents (pos 1),
  +ℤ_parts (b +ℤ x.cents) (pos 1),
  +ℤ_parts b (x.cents +ℤ pos 1),
  eq_of_parts (b +ℤ x.cents +ℤ pos 1) (b +ℤ (x.cents +ℤ pos 1)),
)

module _ (b : ℤ) (x : Decimal) (covered : at_most x b ≡ true) where
  abbrev short : Decimal
  short = record x { cents = x.cents -ℤ b }

  short-at_most : at_most short (pos 0) ≡ true
  short-at_most = ground (arith, -ℤ_parts x.cents b)

  -- A balance that covers the amount does not become negative, nor does it grow.
  pub difference_column-bounds :
      pos 0 ≤ℤ x.cents → (pos 0 ≤ℤ difference_column b x) × (difference_column b x ≤ℤ b)
  unfolding difference_column
  difference_column-bounds h = omega (
    arith,
    -ℤ_parts (pos 0) (to_column short),
    -ℤ_parts x.cents b,
    to_column-le short (pos 0) short-at_most,
    le-to_column short,
  )

  -- It loses what the amount is stored as, unless that is rounded up from half a cent.
  pub difference_column-even :
      pos 0 ≤ℤ x.cents → is_half_cent x ≡ false → difference_column b x ≡ b -ℤ to_column x
  unfolding difference_column to_column
  difference_column-even h even = ground (
    arith,
    less_than_half x.digits,
    not_more x.digits,
    more-half x.digits,
    -ℤ_parts x.cents b,
    +ℤ_parts x.cents (pos 1),
    +ℤ_parts (x.cents -ℤ b) (pos 1),
    -ℤ_parts (pos 0) (x.cents -ℤ b),
    -ℤ_parts (pos 0) (x.cents -ℤ b +ℤ pos 1),
    -ℤ_parts b x.cents,
    -ℤ_parts b (x.cents +ℤ pos 1),
    eq_of_parts (pos 0 -ℤ (x.cents -ℤ b)) (b -ℤ x.cents),
    eq_of_parts (pos 0 -ℤ (x.cents -ℤ b +ℤ pos 1)) (b -ℤ (x.cents +ℤ pos 1)),
  )

  -- With half a cent it loses one cent less.
  pub difference_column-half :
      pos 0 ≤ℤ x.cents → is_half_cent x ≡ true → difference_column b x ≡ b -ℤ to_column x +ℤ pos 1
  unfolding difference_column to_column
  difference_column-half h half = ground (
    arith,
    less_than_half x.digits,
    not_more x.digits,
    more-half x.digits,
    -ℤ_parts x.cents b,
    +ℤ_parts x.cents (pos 1),
    -ℤ_parts (pos 0) (x.cents -ℤ b),
    -ℤ_parts b (x.cents +ℤ pos 1),
    +ℤ_parts (b -ℤ (x.cents +ℤ pos 1)) (pos 1),
    eq_of_parts (pos 0 -ℤ (x.cents -ℤ b)) (b -ℤ (x.cents +ℤ pos 1) +ℤ pos 1),
  )

-- Half a cent is lost by nobody: 100.00 and 50.00 with a transfer of 0.005 are 100.00 and 50.01.
half_a_cent :
    (difference_column (pos 10_000) (record { cents = pos 0; digits = 5 ∷ [] }) ≡ pos 10_000)
    × (sum_column (pos 5_000) (record { cents = pos 0; digits = 5 ∷ [] }) ≡ pos 5_001)
unfolding difference_column sum_column to_column ◌+ℤ◌ ◌-ℤ◌
half_a_cent = (refl, refl)
