-- ===== src/Cron/Parse.antt =====
-- schedule_cron.py: `_coerce_item`, `_parse_field`, `validate_cron`, `_fields_from`. Expressions are
-- ASCII texts; `none` is the ValueError, its message left out.
pub mod Bounds
use agency_os.Prelude.{
  ℕ, zero, suc, ◌+◌, ◌-◌, Bool, true, false, ◌&&◌, ◌||◌, not, Option, none, some, List, [], ◌∷◌,
  ◌++◌, map, ◌==◌, leb, ltb, if◌then◌else◌, Text, codes, same_text, contains, strip, is_empty,
  split_on, words, before, after, is_number, number_of, to_upper,
}

pub data Field : Type 0 where
  minute hour day_of_month month day_of_week : Field

-- `_FIELDS`
abbrev pub lower : Field → ℕ
lower day_of_month = 1
lower month = 1
lower _ = 0

abbrev pub upper : Field → ℕ
upper minute = 59
upper hour = 23
upper day_of_month = 31
upper month = 12
upper day_of_week = 6

abbrev pub month_names : List (Text × ℕ)
month_names =
    (codes "JAN", 1)
    ∷ (codes "FEB", 2)
    ∷ (codes "MAR", 3)
    ∷ (codes "APR", 4)
    ∷ (codes "MAY", 5)
    ∷ (codes "JUN", 6)
    ∷ (codes "JUL", 7)
    ∷ (codes "AUG", 8)
    ∷ (codes "SEP", 9)
    ∷ (codes "OCT", 10)
    ∷ (codes "NOV", 11)
    ∷ (codes "DEC", 12)
    ∷ []

abbrev pub day_names : List (Text × ℕ)
day_names =
    (codes "SUN", 0)
    ∷ (codes "MON", 1)
    ∷ (codes "TUE", 2)
    ∷ (codes "WED", 3)
    ∷ (codes "THU", 4)
    ∷ (codes "FRI", 5)
    ∷ (codes "SAT", 6)
    ∷ []

-- `None` is no table, and so has no name
unfoldable pub names_for : Field → List (Text × ℕ)
names_for month = month_names
names_for day_of_week = day_names
names_for _ = []

unfoldable pub lookup_name : List (Text × ℕ) → Text → Option ℕ
lookup_name [] token = none
lookup_name ((name, v) ∷ rest) token =
    let found = lookup_name rest token in if same_text name token then some v else found

abbrev pub in_range : Field → ℕ → Option ℕ
in_range f v = if leb (lower f) v && leb v (upper f) then some v else none

-- 7 is Sunday in the day-of-week field.
abbrev pub sunday : Field → ℕ → ℕ
sunday day_of_week v = if v == 7 then 0 else v
sunday _ v = v

unfoldable pub coerce_item : Field → Text → Option ℕ
coerce_item f token = elim (lookup_name (names_for f) token) [
  | some v ↦ in_range f v
  | none ↦ if is_number token then in_range f (sunday f (number_of token)) else none
]

-- `range(start, stop, step)` for a step of at least 1; the fuel is `stop - start`
unfoldable pub range_from : ℕ → ℕ → ℕ → ℕ → List ℕ
range_from zero start stop step = []
range_from (suc fuel) start stop step =
    let rest = range_from fuel (start + step) stop step in
    if ltb start stop then start ∷ rest else []

unfoldable pub range : ℕ → ℕ → ℕ → List ℕ
unfolding range_from
range start stop step = range_from (stop - start) start stop step

-- `start, _, end = item.partition("-")`, both coerced; `None` if one is refused or they are swapped
unfoldable pub parse_range : Field → Text → ℕ → Option (List ℕ)
parse_range f item step = elim (coerce_item f (before b'-' item)) [
  | none ↦ none
  | some start ↦ elim (coerce_item f (after b'-' item)) [
    | none ↦ none
    | some end ↦ if ltb end start then none else some (range start (end + 1) step)
  ]
]

abbrev pub one_of : Option ℕ → Option (List ℕ)
one_of none = none
one_of (some v) = some (v ∷ [])

abbrev pub is_star : Text → Bool
is_star s = same_text s (codes "*")

abbrev pub is_wildcard : Text → Bool
is_wildcard s = same_text s (codes "*") || same_text s (codes "?")

-- an item without its step
unfoldable pub parse_base : Field → Text → ℕ → Option (List ℕ)
unfolding parse_range
parse_base f item step =
    if contains item b'-'
    then parse_range f item step
    else if is_star item
    then some (range (lower f) (upper f + 1) step)
    else one_of (coerce_item f item)

-- one comma-separated item, stripped and in upper case
unfoldable pub parse_item : Field → Text → Option (List ℕ)
parse_item f item =
    if is_empty item || is_wildcard item
    then none
    else if contains item b'/'
    then (let step_raw = after b'/' item in
        if is_number step_raw && leb 1 (number_of step_raw)
        then parse_base f (before b'/' item) (number_of step_raw)
        else none)
    else parse_base f item 1

unfoldable pub parse_items : Field → List Text → Option (List ℕ)
parse_items f [] = some []
parse_items f (item ∷ items) =
    let rest = parse_items f items in
    elim (parse_item f (map to_upper (strip item))) [
      | none ↦ none
      | some values ↦ elim rest [ none ↦ none | some more ↦ some (values ++ more) ]
    ]

-- the `set[int] | None` of a field: `None` is a wildcard
pub data Allowed : Type 0 where
  any : Allowed
  these : List ℕ → Allowed

abbrev these_of : Option (List ℕ) → Option Allowed
these_of none = none
these_of (some values) = some (these values)

unfoldable pub parse_field : Field → Text → Option Allowed
parse_field f value =
    if is_wildcard (strip value) then some any else these_of (parse_items f (split_on b',' value))

pub record Schedule : Type 0 where
  pub minutes : Allowed
  pub hours : Allowed
  pub days : Allowed
  pub months : Allowed
  pub weekdays : Allowed

infixl 10 ◌>>=◌
abbrev ◌>>=◌ : {A B : Type 0} → Option A → (A → Option B) → Option B
none >>= f = none
some a >>= f = f a

-- `validate_cron` and `_fields_from`: exactly five fields, each of which parses
unfoldable pub schedule_of : List Text → Option Schedule
schedule_of (a ∷ b ∷ c ∷ d ∷ e ∷ []) = do
  minutes ← parse_field minute a
  hours ← parse_field hour b
  days ← parse_field day_of_month c
  months ← parse_field month d
  weekdays ← parse_field day_of_week e
  some (record {
    minutes = minutes;
    hours = hours;
    days = days;
    months = months;
    weekdays = weekdays;
  })
schedule_of _ = none

unfoldable pub fields_from : Text → Option Schedule
fields_from expression =
    if is_empty (strip expression) then none else schedule_of (words expression)
