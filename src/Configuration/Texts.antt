-- ===== src/Configuration/Texts.antt =====
-- The tests and cuts of texts that app/core/config.py and app/db.py use: `startswith`, `in`, `split` and
-- `replace` of a prefix.
use Prim.Native.Char.{Char, code}
use bank_flow_digital_bankin.Base.{
  ℕ, String, Bool, true, false, ◌&&◌, ◌||◌, ◌==◌, List, [], ◌∷◌, if◌then◌else◌,
}

-- `not s`
abbrev pub is_empty : String → Bool
is_empty String.[] = true
is_empty (String.◌∷◌ c s) = false

abbrev pub starts_with : String → String → Bool
starts_with String.[] s = true
starts_with (String.◌∷◌ c p) String.[] = false
starts_with (String.◌∷◌ c p) (String.◌∷◌ d s) = (code c == code d) && starts_with p s

-- The text after as many characters as the first text has.
abbrev pub after_prefix : String → String → String
after_prefix String.[] s = s
after_prefix (String.◌∷◌ c p) String.[] = String.[]
after_prefix (String.◌∷◌ c p) (String.◌∷◌ d s) = after_prefix p s

abbrev pub concat : String → String → String
concat String.[] s = s
concat (String.◌∷◌ c p) s = String.◌∷◌ c (concat p s)

-- `p in s`
abbrev pub contains : String → String → Bool
contains p String.[] = starts_with p String.[]
contains p (String.◌∷◌ c s) = starts_with p (String.◌∷◌ c s) || contains p s

abbrev pub contains_any : List String → String → Bool
contains_any [] s = false
contains_any (p ∷ ps) s = contains p s || contains_any ps s

-- The text before the first character with this code, or all of it: `s.split(c)[0]`.
abbrev pub before : ℕ → String → String
before n String.[] = String.[]
before n (String.◌∷◌ c s) =
    let rest = before n s in if code c == n then String.[] else String.◌∷◌ c rest

abbrev pub onto_first : Char → List String → List String
onto_first c [] = String.◌∷◌ c String.[] ∷ []
onto_first c (p ∷ ps) = String.◌∷◌ c p ∷ ps

-- `s.split(c)`
abbrev pub split : ℕ → String → List String
split n String.[] = String.[] ∷ []
split n (String.◌∷◌ c s) =
    let rest = split n s in if code c == n then String.[] ∷ rest else onto_first c rest
