-- ===== src/Prelude/Texts.antt =====
-- Text as the list of its code points, for the parts of the program that walk it.
use Prim.Native.Nat.{ℕ, ◌+◌, ◌-◌, ◌*◌}
use Prim.Native.Char.{code}
use Prim.Native.String.{String}
use mathlib.Core.Bool.{Bool, true, false, not, ◌&&◌, ◌||◌}
use mathlib.Core.List.{List, [], ◌∷◌}
use agency_os.Prelude.Tests.{◌==◌, leb, if◌then◌else◌}

abbrev pub Text : Type 0
Text = List ℕ

abbrev pub codes : String → Text
codes String.[] = []
codes (String.◌∷◌ c s) = code c ∷ codes s

-- `s == t` on texts
abbrev pub same_text : Text → Text → Bool
same_text [] [] = true
same_text [] (_ ∷ _) = false
same_text (_ ∷ _) [] = false
same_text (a ∷ s) (b ∷ t) = a == b && same_text s t

-- `str.isspace` on ASCII
abbrev pub is_space : ℕ → Bool
is_space c = c == 32 || leb 9 c && leb c 13 || leb 28 c && leb c 31

abbrev pub is_digit : ℕ → Bool
is_digit c = leb b'0' c && leb c b'9'

-- `str.upper` on ASCII
abbrev pub to_upper : ℕ → ℕ
to_upper c = if leb b'a' c && leb c b'z' then c - 32 else c

abbrev pub to_lower : ℕ → ℕ
to_lower c = if leb b'A' c && leb c b'Z' then c + 32 else c

abbrev pub is_empty : Text → Bool
is_empty [] = true
is_empty (_ ∷ _) = false

abbrev pub strip_start : Text → Text
strip_start [] = []
strip_start (c ∷ s) = let rest = strip_start s in if is_space c then rest else c ∷ s

abbrev pub strip_end : Text → Text
strip_end [] = []
strip_end (c ∷ s) = let rest = strip_end s in if is_space c && is_empty rest then [] else c ∷ rest

-- `s.strip()`
abbrev pub strip : Text → Text
strip s = strip_end (strip_start s)

abbrev push_char : ℕ → List Text → List Text
push_char c [] = (c ∷ []) ∷ []
push_char c (w ∷ ws) = (c ∷ w) ∷ ws

-- the pieces between the characters that the test marks; never empty
abbrev pub split_by : (ℕ → Bool) → Text → List Text
split_by sep [] = [] ∷ []
split_by sep (c ∷ s) = let rest = split_by sep s in if sep c then [] ∷ rest else push_char c rest

-- `s.split(sep)`
abbrev pub split_on : ℕ → Text → List Text
split_on sep s = split_by (λ c. c == sep) s

abbrev non_empty : List Text → List Text
non_empty [] = []
non_empty (w ∷ ws) = let rest = non_empty ws in if is_empty w then rest else w ∷ rest

-- `s.split()`
abbrev pub words : Text → List Text
words s = non_empty (split_by is_space s)

-- the two parts of `s.partition(sep)`
abbrev pub before : ℕ → Text → Text
before sep [] = []
before sep (c ∷ s) = let rest = before sep s in if c == sep then [] else c ∷ rest

abbrev pub after : ℕ → Text → Text
after sep [] = []
after sep (c ∷ s) = let rest = after sep s in if c == sep then s else rest

abbrev all_digits : Text → Bool
all_digits [] = true
all_digits (c ∷ s) = is_digit c && all_digits s

-- `s.isdigit()` on ASCII
abbrev pub is_number : Text → Bool
is_number s = not (is_empty s) && all_digits s

abbrev number_from : ℕ → Text → ℕ
number_from n [] = n
number_from n (c ∷ s) = number_from (n * 10 + (c - 48)) s

-- `int(s)`, where `is_number s`
abbrev pub number_of : Text → ℕ
number_of s = number_from 0 s
