-- ===== src/Builtin/Values.antt =====
-- The JSON values that backend/app/services/builtin_execution.py works on, with the operators of
-- Python that it uses: `==`, the orders, `in`, `str` of a number. Texts are lists of code points;
-- floating-point numbers are left out.
use agency_os.Prelude.{
  ℕ, suc, zero, ◌+◌, ◌/◌, ◌%◌, Bool, true, false, ◌&&◌, ◌||◌, Option, none, some, [], ◌∷◌, ◌++◌,
  ◌==◌, ltb, if◌then◌else◌, Text, same_text,
}
use agency_os.Prelude.Int.{ℤ, pos, negsuc}

mutual
  pub data Value : Type 0 where
    null : Value
    boolean : Bool → Value
    number : ℤ → Value
    text : Text → Value
    array : Items → Value
    object : Dict → Value

  pub data Items : Type 0 where
    nil : Items
    cons : Value → Items → Items

  pub data Dict : Type 0 where
    end : Dict
    entry : Text → Value → Dict → Dict

-- `d.get(key)`, and `none` for a missing key
unfoldable pub get : Text → Dict → Option Value
get key end = none
get key (entry k v d) = let rest = get key d in if same_text k key then some v else rest

-- `d[key] = value`
unfoldable pub put : Text → Value → Dict → Dict
put key value end = entry key value end
put key value (entry k v d) =
    let rest = put key value d in if same_text k key then entry k value d else entry k v rest

abbrev pub length_of : Dict → ℕ
length_of end = 0
length_of (entry k v d) = suc (length_of d)

-- a bool is an int
abbrev pub as_number : Value → Option ℤ
as_number (boolean true) = some (pos 1)
as_number (boolean false) = some (pos 0)
as_number (number n) = some n
as_number _ = none

abbrev same_int : ℤ → ℤ → Bool
same_int (pos a) (pos b) = a == b
same_int (pos a) (negsuc b) = false
same_int (negsuc a) (pos b) = false
same_int (negsuc a) (negsuc b) = a == b

abbrev pub same_number : Option ℤ → Option ℤ → Bool
same_number none _ = false
same_number (some a) none = false
same_number (some a) (some b) = same_int a b

abbrev pub on_found : (Value → Bool) → Option Value → Bool
on_found test none = false
on_found test (some v) = test v

-- `==`; two dicts are equal when they have the same keys with equal values
unfoldable mutual
  pub same_value : Value → Value → Bool
  same_value null null = true
  same_value null _ = false
  same_value (text s) (text t) = same_text s t
  same_value (text s) _ = false
  same_value (array xs) (array ys) = same_items xs ys
  same_value (array xs) _ = false
  same_value (object d) (object e) = length_of d == length_of e && within d e
  same_value (object d) _ = false
  same_value (boolean a) w = same_number (as_number (boolean a)) (as_number w)
  same_value (number n) w = same_number (some n) (as_number w)

  pub same_items : Items → Items → Bool
  same_items nil nil = true
  same_items nil (cons y ys) = false
  same_items (cons x xs) nil = false
  same_items (cons x xs) (cons y ys) = same_value x y && same_items xs ys

  pub within : Dict → Dict → Bool
  within end e = true
  within (entry k v d) e = on_found (same_value v) (get k e) && within d e

pub data Sign : Type 0 where
  less equal greater : Sign

abbrev sign_of : ℕ → ℕ → Sign
sign_of a b = if ltb a b then less else if a == b then equal else greater

abbrev pub sign_of_ints : ℤ → ℤ → Sign
sign_of_ints (pos a) (pos b) = sign_of a b
sign_of_ints (pos a) (negsuc b) = greater
sign_of_ints (negsuc a) (pos b) = less
sign_of_ints (negsuc a) (negsuc b) = sign_of b a

abbrev pub sign_of_texts : Text → Text → Sign
sign_of_texts [] [] = equal
sign_of_texts [] (c ∷ t) = less
sign_of_texts (c ∷ s) [] = greater
sign_of_texts (a ∷ s) (b ∷ t) = let rest = sign_of_texts s t in if a == b then rest else sign_of a b

abbrev sign_of_numbers : Option ℤ → Option ℤ → Option Sign
sign_of_numbers none _ = none
sign_of_numbers (some a) none = none
sign_of_numbers (some a) (some b) = some (sign_of_ints a b)

-- the order behind `<`, `<=`, `>` and `>=`; `none` is a TypeError
unfoldable mutual
  unfolding same_value

  pub compare_values : Value → Value → Option Sign
  compare_values (text s) (text t) = some (sign_of_texts s t)
  compare_values (array xs) (array ys) = compare_items xs ys
  compare_values (boolean a) w = sign_of_numbers (as_number (boolean a)) (as_number w)
  compare_values (number n) w = sign_of_numbers (some n) (as_number w)
  compare_values _ _ = none

  -- two lists are compared at the first items that differ
  pub compare_items : Items → Items → Option Sign
  compare_items nil nil = some equal
  compare_items nil (cons y ys) = some less
  compare_items (cons x xs) nil = some greater
  compare_items (cons x xs) (cons y ys) =
      let rest = compare_items xs ys in
      let here = compare_values x y in if same_value x y then rest else here

unfoldable pub is_item : Value → Items → Bool
is_item x nil = false
is_item x (cons y ys) = same_value x y || is_item x ys

abbrev starts_with : Text → Text → Bool
starts_with [] s = true
starts_with (c ∷ t) [] = false
starts_with (c ∷ t) (d ∷ s) = c == d && starts_with t s

-- `part in whole` on texts
abbrev pub is_part : Text → Text → Bool
is_part part [] = starts_with part []
is_part part (c ∷ whole) = starts_with part (c ∷ whole) || is_part part whole

abbrev digits : ℕ → ℕ → Text
digits zero n = []
digits (suc fuel) n =
    let rest = digits fuel (n / 10) in
    if ltb n 10 then (b'0' + n) ∷ [] else rest ++ (b'0' + n % 10) ∷ []

-- `str(n)`; a number has fewer digits than its successor counts
abbrev pub decimal : ℤ → Text
decimal (pos n) = digits (suc n) n
decimal (negsuc n) = b'-' ∷ digits (suc (suc n)) (suc n)
