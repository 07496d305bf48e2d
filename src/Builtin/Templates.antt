-- ===== src/Builtin/Templates.antt =====
-- builtin_execution.py: `_validate_path`, `_validate_key`, `_resolve`, and templates:
-- `_render_template` with the matches of `_TEMPLATE_RE`, on ASCII texts.
use agency_os.Prelude.{
  ℕ, suc, zero, Bool, true, false, ◌&&◌, ◌||◌, not, Option, none, some, List, [], ◌∷◌, ◌++◌, ◌==◌,
  leb, length, if◌then◌else◌, Text, codes, is_digit, is_empty, strip, split_on,
}
use agency_os.Builtin.Values.{
  Value, Dict, null, boolean, number, text, array, object, get, is_part, decimal,
}
use agency_os.Builtin.Runs.{
  Run, ok, ◌>>=◌, ◌>>◌, reject, require, bad_key, bad_path, path_not_found, template_too_long,
  Limits,
}

-- `[A-Za-z0-9_]`
abbrev is_key_char : ℕ → Bool
is_key_char c = is_digit c || leb b'A' c && leb c b'Z' || leb b'a' c && leb c b'z' || c == b'_'

abbrev all_key_chars : Text → Bool
all_key_chars [] = true
all_key_chars (c ∷ s) = is_key_char c && all_key_chars s

-- `_KEY_RE.fullmatch(part)`
abbrev pub is_segment : Text → Bool
is_segment s = not (is_empty s) && all_key_chars s

abbrev pub all_segments : List Text → Bool
all_segments [] = true
all_segments (p ∷ ps) = is_segment p && all_segments ps

abbrev pub segments : Text → List Text
segments path = split_on b'.' path

unfoldable pub validate_path : Option Value → Run (Unit {0})
validate_path (some (text path)) =
    require (not (is_empty path) && all_segments (segments path)) bad_path
validate_path _ = reject bad_path

unfoldable pub validate_key : Option Value → Run (Unit {0})
validate_key (some (text key)) = require (not (is_empty key)) bad_key
validate_key _ = reject bad_key

-- `current[part]` where it is there, and `_MISSING`
abbrev pub at_part : Text → Value → Option Value
at_part part (object d) = get part d
at_part part _ = none

abbrev pub going : (Value → Run (Option Value)) → Option Value → Run (Option Value)
going next none = ok none
going next (some v) = next v

unfoldable pub resolve_parts : List Text → Value → Run (Option Value)
resolve_parts [] current = ok (some current)
resolve_parts (part ∷ parts) current = do
  require (is_segment part) bad_path
  going (resolve_parts parts) (at_part part current)

-- `none` is `_MISSING`
unfoldable pub resolve : Dict → Text → Run (Option Value)
unfolding resolve_parts
resolve context path = resolve_parts (segments path) (object context)

unfoldable pub stringify : Limits → Value → Text
stringify limits (text s) = s
stringify limits null = codes "null"
stringify limits (boolean true) = codes "True"
stringify limits (boolean false) = codes "False"
stringify limits (number n) = decimal n
stringify limits (array xs) = limits.dumps (array xs)
stringify limits (object d) = limits.dumps (object d)

-- the text up to the first "}}", and the text after it
abbrev pub push_front : ℕ → Option (Text × Text) → Option (Text × Text)
push_front c none = none
push_front c (some (raw, rest)) = some (c ∷ raw, rest)

abbrev pub closes : ℕ → Text → Bool
closes c [] = false
closes c (d ∷ s) = c == b'}' && d == b'}'

abbrev pub after_close : Text → Text
after_close [] = []
after_close (d ∷ s) = s

unfoldable pub until_close : Text → Option (Text × Text)
until_close [] = none
until_close (c ∷ s) =
    let rest = until_close s in if closes c s then some ([], after_close s) else push_front c rest

abbrev pub has_newline : Text → Bool
has_newline [] = false
has_newline (c ∷ s) = c == 10 || has_newline s

-- `.` does not match a newline, the `\s*` on both sides do
abbrev pub one_line : Option (Text × Text) → Option (Text × Text)
one_line none = none
one_line (some (raw, rest)) = if has_newline (strip raw) then none else some (raw, rest)

abbrev pub opens : ℕ → Text → Bool
opens c [] = false
opens c (d ∷ s) = c == b'{' && d == b'{'

-- a match of `_TEMPLATE_RE` that starts at the first character
unfoldable pub match_at : ℕ → Text → Option (Text × Text)
unfolding until_close
match_at c s = if opens c s then one_line (until_close (after_close s)) else none

-- a character that is copied, or what stands between the braces of a match
pub data Piece : Type 0 where
  plain : ℕ → Piece
  braces : Text → Piece

-- the matches from left to right; every piece takes one character at least
abbrev pub continue_with : (Text → List Piece) → ℕ → Text → Option (Text × Text) → List Piece
continue_with rest c s none = plain c ∷ rest s
continue_with rest c s (some (raw, s')) = braces raw ∷ rest s'

unfoldable pub pieces : ℕ → Text → List Piece
unfolding match_at
pieces zero s = []
pieces (suc fuel) [] = []
pieces (suc fuel) (c ∷ s) = continue_with (pieces fuel) c s (match_at c s)

-- `expression.partition("??")`
abbrev is_fallback : ℕ → Text → Bool
is_fallback c [] = false
is_fallback c (d ∷ s) = c == b'?' && d == b'?'

abbrev partition : Text → Text × Text
partition [] = ([], [])
partition (c ∷ s) =
    let rest = partition s in if is_fallback c s then ([], after_close s) else (c ∷ rest.0, rest.1)

-- the value of a path, the default of a path that is missing
abbrev pub filled : Limits → Text → Option Value → Run Text
filled limits default (some v) = ok (stringify limits v)
filled limits default none = if is_empty default then reject path_not_found else ok default

-- the path and the default of an expression; a default that is empty counts as none
unfoldable pub path_of : Text → Text
path_of expression =
    if is_part (codes "??") expression then strip (partition expression).0 else expression

unfoldable pub default_of : Text → Text
default_of expression =
    if is_part (codes "??") expression then strip (partition expression).1 else []

-- `_sub`
unfoldable pub expand : Limits → Dict → Text → Run Text
unfolding resolve stringify path_of default_of
expand limits context raw = do
  value ← resolve context (path_of (strip raw))
  filled limits (default_of (strip raw)) value

unfoldable pub substitute : Limits → Dict → List Piece → Run Text
unfolding expand
substitute limits context [] = ok []
substitute limits context (plain c ∷ ps) = do rest ← substitute limits context ps; ok (c ∷ rest)
substitute limits context (braces raw ∷ ps) = do
  s ← expand limits context raw
  rest ← substitute limits context ps
  ok (s ++ rest)

abbrev pub is_template : Text → Bool
is_template s = is_part (codes "{{") s

unfoldable pub render_template : Limits → Dict → Text → Run Text
unfolding substitute pieces
render_template limits context s =
    if is_template s
    then (do
      require (leb (length s) limits.max_template_length) template_too_long
      substitute limits context (pieces (length s) s))
    else ok s
