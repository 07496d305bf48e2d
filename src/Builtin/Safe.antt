-- ===== src/Builtin/Safe.antt =====
-- What a definition that the validator admits can still raise: failures that depend on the input.
use agency_os.Prelude.{
  ◌≡◌, refl, Bool, true, false, ◌||◌, not, Option, none, some, List, [], ◌∷◌, leb, length,
  Bool-cases, inl, inr, Text, strip,
}
use agency_os.Builtin.Values.{
  Value, Items, Dict, null, boolean, number, text, array, object, nil, cons, is_item, Sign,
  compare_values,
}
use agency_os.Builtin.Runs.{
  Run, ok, fail, ◌>>=◌, builtin_error, key_error_then, python_error, Reason, require, not_an_object,
  steps_not_a_list, unknown_step_type, missing_field, message_missing, bad_guard, step_limit,
  depth_limit, bad_path, template_too_long, Limits,
}
use agency_os.Builtin.Templates.{
  resolve_parts, resolve, at_part, is_segment, segments, Piece, plain, braces, expand, substitute,
  render_template, is_template, filled, pieces, going, path_of, default_of,
}
use agency_os.Builtin.Validate.{
  GuardOp, eq, ne, gt, gte, lt, lte, is_in, not_in, contains, exists, missing, is_collection_op,
  is_array,
}
use agency_os.Builtin.Engine.{
  is_contained, any_contained, found_in, is_containing, apply_op, or_null, judge, set_value,
  ordered,
}

-- the reasons that are left to a run after the validation
abbrev pub is_open : Reason → Bool
is_open not_an_object = false
is_open steps_not_a_list = false
is_open unknown_step_type = false
is_open missing_field = false
is_open message_missing = false
is_open bad_guard = false
is_open step_limit = false
is_open depth_limit = false
is_open _ = true

-- a result with the property, or a failure for an open reason, or for a missing "then"
abbrev pub Safe : {A : Type 0} → (A → Type 0) → Run A → Type 0
Safe P (ok a) = P a
Safe P (fail (builtin_error r)) = is_open r ≡ true
Safe P (fail key_error_then) = Unit
Safe P (fail python_error) = ⊥

abbrev pub Any : {A : Type 0} → A → Type 0
Any a = Unit

pub Safe-bind :
    {A B : Type 0} (P : A → Type 0) (Q : B → Type 0) (m : Run A) (f : A → Run B)
    → Safe P m
    → ((a : A) → P a → Safe Q (f a))
    → Safe Q (m >>= f)
Safe-bind P Q (ok a) f h g = g a h
Safe-bind P Q (fail (builtin_error r)) f h g = h
Safe-bind P Q (fail key_error_then) f h g = tt
Safe-bind P Q (fail python_error) f h g = h

pub require-Safe : (t : Bool) (r : Reason) → is_open r ≡ true → Safe Any (require t r)
require-Safe true r h = tt
require-Safe false r h = h

going-Safe :
    (next : Value → Run (Option Value)) (o : Option Value)
    → ((v : Value) → Safe Any (next v))
    → Safe Any (going next o)
going-Safe next none h = tt
going-Safe next (some v) h = h v

resolve_parts-Safe : (parts : List Text) (v : Value) → Safe Any (resolve_parts parts v)
unfolding resolve_parts
resolve_parts-Safe [] v = tt
resolve_parts-Safe (part ∷ parts) v =
    Safe-bind Any Any (require (is_segment part) bad_path) _
      (require-Safe (is_segment part) bad_path refl)
      (λ a p. going-Safe (resolve_parts parts) (at_part part v) (resolve_parts-Safe parts))

pub resolve-Safe : (context : Dict) (path : Text) → Safe Any (resolve context path)
unfolding resolve
resolve-Safe context path = resolve_parts-Safe (segments path) (object context)

filled-Safe :
    (limits : Limits) (default : Text) (o : Option Value) → Safe Any (filled limits default o)
filled-Safe limits default (some v) = tt
filled-Safe limits [] none = refl
filled-Safe limits (c ∷ default) none = tt

expand-Safe : (limits : Limits) (context : Dict) (raw : Text) → Safe Any (expand limits context raw)
unfolding expand
expand-Safe limits context raw =
    Safe-bind Any Any (resolve context (path_of (strip raw)))
      (filled limits (default_of (strip raw))) (resolve-Safe context (path_of (strip raw)))
      (λ o p. filled-Safe limits (default_of (strip raw)) o)

substitute-Safe :
    (limits : Limits) (context : Dict) (ps : List Piece) → Safe Any (substitute limits context ps)
unfolding substitute
substitute-Safe limits context [] = tt
substitute-Safe limits context (plain c ∷ ps) =
    Safe-bind Any Any (substitute limits context ps) _ (substitute-Safe limits context ps)
      (λ a p. tt)
substitute-Safe limits context (braces raw ∷ ps) =
    Safe-bind Any Any (expand limits context raw) _ (expand-Safe limits context raw) (λ a p.
      Safe-bind Any Any (substitute limits context ps) _ (substitute-Safe limits context ps)
        (λ b q. tt))

render_template-Safe :
    (limits : Limits) (context : Dict) (s : Text) → Safe Any (render_template limits context s)
unfolding render_template
render_template-Safe limits context s = elim (Bool-cases (is_template s)) [
  | inl yea ↦ rw yea (
      Safe-bind Any Any (require (leb (length s) limits.max_template_length) template_too_long) _
        (require-Safe _ template_too_long refl)
        (λ a p. substitute-Safe limits context (pieces (length s) s)))
  | inr nay ↦ rw nay tt
]

pub set_value-Safe :
    (limits : Limits) (context : Dict) (v : Value) → Safe Any (set_value limits context v)
set_value-Safe limits context (text s) =
    Safe-bind Any Any (render_template limits context s) _ (render_template-Safe limits context s)
      (λ a p. tt)
set_value-Safe limits context null = tt
set_value-Safe limits context (boolean b) = tt
set_value-Safe limits context (number n) = tt
set_value-Safe limits context (array xs) = tt
set_value-Safe limits context (object d) = tt

ordered-Safe : (test : Sign → Bool) (o : Option Sign) → Safe Any (ordered test o)
ordered-Safe test none = refl
ordered-Safe test (some sign) = tt

any_contained-Safe : (xs ys : Items) → Safe Any (any_contained xs (array ys))
unfolding any_contained is_contained
any_contained-Safe nil ys = tt
any_contained-Safe (cons x xs) ys = elim (Bool-cases (is_item x ys)) [
  | inl yea ↦ rw yea tt
  | inr nay ↦ rw nay (any_contained-Safe xs ys)
]

found_in-Safe : (v : Value) (ys : Items) → Safe Any (found_in v (array ys))
unfolding found_in is_contained
found_in-Safe (array xs) ys = any_contained-Safe xs ys
found_in-Safe null ys = tt
found_in-Safe (boolean b) ys = tt
found_in-Safe (number n) ys = tt
found_in-Safe (text s) ys = tt
found_in-Safe (object d) ys = tt

is_containing-Safe : (v : Value) (ys : Items) → Safe Any (is_containing v (array ys))
unfolding is_containing
is_containing-Safe (array xs) ys = refl
is_containing-Safe null ys = refl
is_containing-Safe (boolean b) ys = refl
is_containing-Safe (number n) ys = refl
is_containing-Safe (text s) ys = refl
is_containing-Safe (object d) ys = refl

-- a collection operator on a list, and any other operator
pub judge-Safe :
    (op : GuardOp) (expected : Option Value) (o : Option Value)
    → (not (is_collection_op op) || is_array expected) ≡ true
    → Safe Any (judge op (or_null expected) o)
unfolding apply_op
judge-Safe missing expected none h = tt
judge-Safe eq expected none h = tt
judge-Safe ne expected none h = tt
judge-Safe gt expected none h = tt
judge-Safe gte expected none h = tt
judge-Safe lt expected none h = tt
judge-Safe lte expected none h = tt
judge-Safe is_in expected none h = tt
judge-Safe not_in expected none h = tt
judge-Safe contains expected none h = tt
judge-Safe exists expected none h = tt
judge-Safe eq expected (some v) h = tt
judge-Safe ne expected (some v) h = tt
judge-Safe gt expected (some v) h = ordered-Safe _ (compare_values v (or_null expected))
judge-Safe gte expected (some v) h = ordered-Safe _ (compare_values v (or_null expected))
judge-Safe lt expected (some v) h = ordered-Safe _ (compare_values v (or_null expected))
judge-Safe lte expected (some v) h = ordered-Safe _ (compare_values v (or_null expected))
judge-Safe exists expected (some v) h = tt
judge-Safe missing expected (some v) h = tt
judge-Safe is_in (some (array ys)) (some v) h = found_in-Safe v ys
judge-Safe not_in (some (array ys)) (some v) h =
    Safe-bind Any Any (found_in v (array ys)) _ (found_in-Safe v ys) (λ a p. tt)
judge-Safe contains (some (array ys)) (some v) h = is_containing-Safe v ys
judge-Safe is_in none (some v) h = cc
judge-Safe is_in (some null) (some v) h = cc
judge-Safe is_in (some (boolean b)) (some v) h = cc
judge-Safe is_in (some (number n)) (some v) h = cc
judge-Safe is_in (some (text s)) (some v) h = cc
judge-Safe is_in (some (object d)) (some v) h = cc
judge-Safe not_in none (some v) h = cc
judge-Safe not_in (some null) (some v) h = cc
judge-Safe not_in (some (boolean b)) (some v) h = cc
judge-Safe not_in (some (number n)) (some v) h = cc
judge-Safe not_in (some (text s)) (some v) h = cc
judge-Safe not_in (some (object d)) (some v) h = cc
judge-Safe contains none (some v) h = cc
judge-Safe contains (some null) (some v) h = cc
judge-Safe contains (some (boolean b)) (some v) h = cc
judge-Safe contains (some (number n)) (some v) h = cc
judge-Safe contains (some (text s)) (some v) h = cc
judge-Safe contains (some (object d)) (some v) h = cc
