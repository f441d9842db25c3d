-- ===== src/Auth/Clean.antt =====
-- `str.strip` and `str.lower` on ASCII texts; other characters stay as they are.
use Prim.Native.Char.{Char, code}
use bank_flow_digital_bankin.Base.{String, Bool, ◌&&◌, ◌||◌, ◌==◌, leb, if◌then◌else◌}

-- The white space of ASCII.
abbrev pub is_space : Char → Bool
is_space c = (leb 9 (code c) && leb (code c) 13) || (leb 28 (code c) && leb (code c) 32)

abbrev pub strip_start : String → String
strip_start String.[] = String.[]
strip_start (String.◌∷◌ c s) =
    let rest = strip_start s in if is_space c then rest else String.◌∷◌ c s

abbrev pub glue : Char → String → String
glue c String.[] = if is_space c then String.[] else String.◌∷◌ c String.[]
glue c (String.◌∷◌ d s) = String.◌∷◌ c (String.◌∷◌ d s)

abbrev pub strip_end : String → String
strip_end String.[] = String.[]
strip_end (String.◌∷◌ c s) = glue c (strip_end s)

unfoldable pub strip : String → String
strip s = strip_end (strip_start s)

-- The character of the second text at the place of `c` in the first.
abbrev pub place_of : Char → String → String → Char
place_of c (String.◌∷◌ u us) (String.◌∷◌ l ls) =
    let rest = place_of c us ls in if code c == code u then l else rest
place_of c _ _ = c

abbrev pub lower_char : Char → Char
lower_char c = place_of c "ABCDEFGHIJKLMNOPQRSTUVWXYZ" "abcdefghijklmnopqrstuvwxyz"

unfoldable pub lower : String → String
lower String.[] = String.[]
lower (String.◌∷◌ c s) = String.◌∷◌ (lower_char c) (lower s)
