-- ===== src/StatementRoutes/Dates.antt =====
-- app/routes/statement_routes.py: `_parse_date`, which reads a date as `strptime` does with "%Y-%m-%d": four
-- digits for the year, one or two for the month and the day, or a space and one digit for the day. The
-- digits are those of ASCII, and a time is a number of seconds from the first day of the calendar.
use Prim.Native.Char.{Char, code}
use bank_flow_digital_bankin.Base.{
  ◌≡◌, arith, ℕ, ◌+◌, ◌-◌, ◌*◌, ◌/◌, ◌%◌, String, Option, none, some, Bool, ◌&&◌, ◌||◌, not, ◌==◌,
  leb, if◌then◌else◌, zero, suc,
}
use bank_flow_digital_bankin.Transfer.{truthy}

abbrev pub digit : Char → Option ℕ
digit c = if leb b'0' (code c) && leb (code c) b'9' then some (code c - b'0') else none

abbrev pub append_digit : Option ℕ → Option ℕ → Option ℕ
append_digit (some n) (some d) = some (10 * n + d)
append_digit _ _ = none

abbrev pub within : ℕ → ℕ → Option ℕ → Option ℕ
within least most none = none
within least most (some n) = if leb least n && leb n most then some n else none

-- `%Y`
abbrev pub year_of : String → Option ℕ
year_of (String.◌∷◌ a (String.◌∷◌ b (String.◌∷◌ c (String.◌∷◌ d String.[])))) =
    append_digit (append_digit (append_digit (digit a) (digit b)) (digit c)) (digit d)
year_of _ = none

-- One or two digits.
abbrev pub short_number : String → Option ℕ
short_number (String.◌∷◌ a String.[]) = digit a
short_number (String.◌∷◌ a (String.◌∷◌ b String.[])) = append_digit (digit a) (digit b)
short_number _ = none

-- `%m`
abbrev pub month_of : String → Option ℕ
month_of s = within 1 12 (short_number s)

-- `%d`
abbrev pub day_of : String → Option ℕ
day_of (String.◌∷◌ a (String.◌∷◌ b String.[])) =
    within 1 31 (if code a == b' ' then digit b else append_digit (digit a) (digit b))
day_of s = within 1 31 (short_number s)

-- The text before the first dash and the text after it.
abbrev pub prepend : Char → Option (String × String) → Option (String × String)
prepend c none = none
prepend c (some (before, after)) = some (String.◌∷◌ c before, after)

abbrev pub split_dash : String → Option (String × String)
split_dash String.[] = none
split_dash (String.◌∷◌ c s) =
    let rest = split_dash s in if code c == b'-' then some ("", s) else prepend c rest

abbrev pub is_leap : ℕ → Bool
is_leap y = (y % 4 == 0) && (not (y % 100 == 0) || (y % 400 == 0))

abbrev pub days_in_month : ℕ → ℕ → ℕ
days_in_month y m =
    if m == 2
    then (if is_leap y then 29 else 28)
    else if (m == 4) || ((m == 6) || ((m == 9) || (m == 11)))
    then 30
    else 31

-- The days of the year before its month, and of the calendar before the year.
abbrev pub days_before_month : ℕ → ℕ → ℕ
days_before_month y zero = 0
days_before_month y (suc m) =
    let rest = days_before_month y m in if m == 0 then 0 else rest + days_in_month y m

abbrev pub days_before_year : ℕ → ℕ
days_before_year y = 365 * (y - 1) + (y - 1) / 4 + (y - 1) / 400 - (y - 1) / 100

abbrev pub seconds_per_day : ℕ
seconds_per_day = 86_400

-- The first second of a day that there is.
abbrev pub midnight : ℕ → ℕ → ℕ → Option ℕ
midnight y m d =
    if leb 1 y && leb d (days_in_month y m)
    then some (seconds_per_day * (days_before_year y + days_before_month y m + (d - 1)))
    else none

abbrev pub midnight_of : Option ℕ → Option ℕ → Option ℕ → Option ℕ
midnight_of (some y) (some m) (some d) = midnight y m d
midnight_of _ _ _ = none

abbrev pub month_and_day : Option ℕ → Option (String × String) → Option ℕ
month_and_day y none = none
month_and_day y (some (m, d)) = midnight_of y (month_of m) (day_of d)

abbrev pub strptime_parts : Option (String × String) → Option ℕ
strptime_parts none = none
strptime_parts (some (y, rest)) = month_and_day (year_of y) (split_dash rest)

-- `datetime.strptime(raw, "%Y-%m-%d")`, none for a ValueError
unfoldable pub strptime : String → Option ℕ
strptime raw = strptime_parts (split_dash raw)

-- `if not raw: return None`
abbrev pub parse_raw : Option String → Option ℕ
parse_raw none = none
parse_raw (some raw) = strptime raw

unfoldable pub parse_date : Option String → Option ℕ
unfolding strptime
parse_date arg = parse_raw (truthy arg)

midnight-mod : (y m d : ℕ) {n : ℕ} → midnight y m d ≡ some n → n % 86_400 ≡ 0
midnight-mod y m d h = ground (arith, h)

strptime_parts-mod :
    (o : Option (String × String)) {n : ℕ} → strptime_parts o ≡ some n → n % 86_400 ≡ 0
strptime_parts-mod none h = absurd (cc h)
strptime_parts-mod (some (y, rest)) h = of_rest (split_dash rest) h
  where
    of_day : (a b c : Option ℕ) {n : ℕ} → midnight_of a b c ≡ some n → n % 86_400 ≡ 0
    of_day none b c h = absurd (cc h)
    of_day (some a) none c h = absurd (cc h)
    of_day (some a) (some b) none h = absurd (cc h)
    of_day (some a) (some b) (some c) h = midnight-mod a b c h

    of_rest :
        (o : Option (String × String)) {n : ℕ}
        → month_and_day (year_of y) o ≡ some n
        → n % 86_400 ≡ 0
    of_rest none h = absurd (cc h)
    of_rest (some (m, d)) h = of_day (year_of y) (month_of m) (day_of d) h

-- A text is read as the first second of a day.
pub parse_date-midnight : (arg : Option String) {n : ℕ} → parse_date arg ≡ some n → n % 86_400 ≡ 0
unfolding parse_date strptime
parse_date-midnight arg h = of_raw (truthy arg) h
  where
    of_raw : (o : Option String) {n : ℕ} → parse_raw o ≡ some n → n % 86_400 ≡ 0
    of_raw none h = absurd (cc h)
    of_raw (some raw) h = strptime_parts-mod (split_dash raw) h
