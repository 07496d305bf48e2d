-- ===== src/Cron/Parse/Bounds.antt =====
-- schedule_cron.py: the bounds of `_parse_field`.
use agency_os.Prelude.{
  codes, ap, ◌⊎◌, refl, ℕ, zero, suc, ◌+◌, ◌-◌, ◌≤◌, ◌≡◌, refl, Option, none, some, List, [], ◌∷◌,
  ◌++◌, All, arith, Bool-cases, Option-cases, inl, inr, Text, strip, to_upper, map, before, after,
  is_number, number_of, split_on, contains, is_empty, leb, ltb, ◌&&◌, ◌||◌,
}
use mathlib.Core.Option.{some-injective}
use agency_os.Cron.Parse.{
  day_of_week, names_for, lookup_name, Field, lower, upper, coerce_item, lookup_name, names_for,
  in_range, sunday, range_from, range, parse_range, parse_base, parse_item, parse_items,
  parse_field, these, is_star, is_wildcard, one_of,
}

abbrev pub InField : Field → ℕ → Type 0
InField f x = (lower f ≤ x) × (x ≤ upper f)

in_range-InField : (f : Field) (v x : ℕ) → in_range f v ≡ some x → InField f x
in_range-InField f v x h = ground arith

pub coerce_item-InField :
    (f : Field) (token : Text) (x : ℕ) → coerce_item f token ≡ some x → InField f x
unfolding coerce_item
coerce_item-InField f token x h = elim (Option-cases (lookup_name (names_for f) token)) [
  | inr (v, named) ↦ in_range-InField f v x (rw (named, coerce_item) at h)
  | inl unnamed ↦ elim (Bool-cases (is_number token)) [
    | inl digits ↦
        in_range-InField f (sunday f (number_of token)) x (rw (unnamed, digits, coerce_item) at h)
    | inr other ↦ cc (rw (unnamed, other, coerce_item) at h)
  ]
]

range_from-bounds :
    (lo hi fuel start stop step : ℕ)
    → lo ≤ start
    → stop ≤ hi + 1
    → All (λ x. (lo ≤ x) × (x ≤ hi)) (range_from fuel start stop step)
unfolding range_from
range_from-bounds lo hi zero start stop step a b = tt
range_from-bounds lo hi (suc fuel) start stop step a b = elim (Bool-cases (ltb start stop)) [
  | inl lt ↦
      rw lt
        ((a, ground arith), range_from-bounds lo hi fuel (start + step) stop step (omega arith) b)
  | inr ge ↦ rw ge tt
]

range-bounds :
    (lo hi start stop step : ℕ)
    → lo ≤ start
    → stop ≤ hi + 1
    → All (λ x. (lo ≤ x) × (x ≤ hi)) (range start stop step)
unfolding range
range-bounds lo hi start stop step a b = range_from-bounds lo hi (stop - start) start stop step a b

pub All-append {ℓ κ} :
    {A : Type ℓ} (P : A → Type κ) (xs ys : List A) → All P xs → All P ys → All P (xs ++ ys)
All-append P [] ys a b = b
All-append P (x ∷ xs) ys a b = (a.0, All-append P xs ys a.1 b)

-- two results of one parse
inside_of :
    (f : Field) {xs ys : List ℕ} → some xs ≡ some ys → All (InField f) xs → All (InField f) ys
inside_of f {xs = xs} {ys = ys} h a = let same : xs ≡ ys = some-injective _ _ h in rw (← same) a

pub parse_range-InField :
    (f : Field) (item : Text) (step : ℕ) (xs : List ℕ)
    → parse_range f item step ≡ some xs
    → All (InField f) xs
unfolding parse_range
parse_range-InField f item step xs h = elim (Option-cases (coerce_item f (before b'-' item))) [
  | inl bad ↦ cc (rw (bad, parse_range) at h)
  | inr (start, a) ↦ elim (Option-cases (coerce_item f (after b'-' item))) [
    | inl bad ↦ cc (rw (a, bad, parse_range) at h)
    | inr (end, b) ↦ elim (Bool-cases (ltb end start)) [
      | inl swapped ↦ cc (rw (a, b, swapped, parse_range) at h)
      | inr fine ↦
          let low = (coerce_item-InField f (before b'-' item) start a).0 in
          let high = (coerce_item-InField f (after b'-' item) end b).1 in
          inside_of f (rw (a, b, fine, parse_range) at h)
            (range-bounds (lower f) (upper f) start (end + 1) step low (omega arith))
    ]
  ]
]

one_of-InField :
    (f : Field) (v : Option ℕ) (xs : List ℕ)
    → ((x : ℕ) → v ≡ some x → InField f x)
    → one_of v ≡ some xs
    → All (InField f) xs
one_of-InField f none xs inside h = cc
one_of-InField f (some x) xs inside h = inside_of f h (inside x refl, tt)

parse_base-InField :
    (f : Field) (item : Text) (step : ℕ) (xs : List ℕ)
    → parse_base f item step ≡ some xs
    → All (InField f) xs
unfolding parse_base
parse_base-InField f item step xs h = elim (Bool-cases (contains item b'-')) [
  | inl dash ↦ parse_range-InField f item step xs (rw dash at h)
  | inr plain ↦ elim (Bool-cases (is_star item)) [
    | inl star ↦
        inside_of f (rw (plain, star) at h) (
          range-bounds (lower f) (upper f) (lower f) (upper f + 1) step (omega arith) (omega arith))
    | inr other ↦
        one_of-InField f (coerce_item f item) xs (coerce_item-InField f item)
          (rw (plain, other) at h)
  ]
]

parse_item-InField :
    (f : Field) (item : Text) (xs : List ℕ) → parse_item f item ≡ some xs → All (InField f) xs
unfolding parse_item
parse_item-InField f item xs h = elim (Bool-cases (is_empty item || is_wildcard item)) [
  | inl bad ↦ cc (rw bad at h)
  | inr item_ok ↦ elim (Bool-cases (contains item b'/')) [
    | inr plain ↦ parse_base-InField f item 1 xs (rw (item_ok, plain) at h)
    | inl slash ↦
        elim (Bool-cases (is_number (after b'/' item) && leb 1 (number_of (after b'/' item)))) [
          | inl good ↦
              parse_base-InField f (before b'/' item) (number_of (after b'/' item)) xs
                (rw (item_ok, slash, good) at h)
          | inr bad ↦ cc (rw (item_ok, slash, bad) at h)
        ]
  ]
]

parse_items-InField :
    (f : Field) (items : List Text) (xs : List ℕ)
    → parse_items f items ≡ some xs
    → All (InField f) xs
unfolding parse_items
parse_items-InField f [] xs h = inside_of f h tt
parse_items-InField f (item ∷ items) xs h =
    elim (Option-cases (parse_item f (map to_upper (strip item)))) [
      | inl bad ↦ cc (rw (bad, parse_items) at h)
      | inr (values, a) ↦ elim (Option-cases (parse_items f items)) [
        | inl bad ↦ cc (rw (a, bad, parse_items) at h)
        | inr (more, b) ↦ inside_of f (rw (a, b, parse_items) at h) (
            All-append (InField f) values more (parse_item-InField f _ values a)
              (parse_items-InField f items more b))
      ]
    ]

-- Every value that a field admits explicitly lies within the bounds of the field.
pub parse_field-InField :
    (f : Field) (value : Text) (xs : List ℕ)
    → parse_field f value ≡ some (these xs)
    → All (InField f) xs
unfolding parse_field
parse_field-InField f value xs h = elim (Bool-cases (is_wildcard (strip value))) [
  | inl star ↦ cc (rw (star, parse_field) at h)
  | inr other ↦ elim (Option-cases (parse_items f (split_on b',' value))) [
    | inl bad ↦ cc (rw (other, bad, parse_field) at h)
    | inr (ys, a) ↦
        let found : these ys ≡ these xs = some-injective _ _ (rw (other, a, parse_field) at h) in
        let same : ys ≡ xs = cc found in rw (← same) (parse_items-InField f _ ys a)
  ]
]

seven : coerce_item day_of_week (codes "7") ≡ some 0
unfolding coerce_item lookup_name names_for
seven = refl

only_sunday : (step : ℕ) → range 0 1 step ≡ 0 ∷ []
unfolding range range_from
only_sunday step = refl

-- A day-of-week range that ends in 7 is refused, or admits Sunday alone.
pub range_to_seven :
    (item : Text) (step : ℕ)
    → after b'-' item ≡ codes "7"
    → (parse_range day_of_week item step ≡ none)
      ⊎ (parse_range day_of_week item step ≡ some (0 ∷ []))
unfolding parse_range
range_to_seven item step e =
    let stop : coerce_item day_of_week (after b'-' item) ≡ some 0 = rw e seven in
    elim (Option-cases (coerce_item day_of_week (before b'-' item))) [
      | inl bad ↦ inl (rw (bad, parse_range) refl)
      | inr (start, a) ↦ elim (Bool-cases (ltb 0 start)) [
        | inl late ↦ inl (rw (a, stop, late, parse_range) refl)
        | inr first ↦
            let e : start ≡ 0 = ground arith in
            inr (rw (a, stop, first, e, parse_range) (ap some (only_sunday step)))
      ]
    ]
