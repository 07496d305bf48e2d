-- ===== src/Builtin/Definitions.antt =====
-- Whole definitions: what a run of an admitted definition can raise, and two admitted definitions that
-- cannot do what they say.
use agency_os.Prelude.{
  ℕ, suc, zero, ◌-◌, ◌≤◌, ◌≡◌, refl, sym, ◌∙◌, Bool, true, false, ◌||◌, not, Option, none, some,
  leb, ltb, length, arith, Text, codes, is_empty,
}
use mathlib.Core.Path.{subst}
use agency_os.Builtin.Values.{
  Value, Items, Dict, null, boolean, number, text, array, object, nil, cons, end, entry, get,
}
use agency_os.Builtin.Runs.{
  Run, ok, fail, ◌>>=◌, require, result_too_large, bad_key, key_error_then, Limits,
}
use agency_os.Builtin.Templates.{validate_key, validate_path, resolve}
use agency_os.Builtin.Validate.{
  GuardOp, op_named, is_array, is_collection_op, listed, validate_guard, validate_steps,
  validate_builtin_definition,
}
use agency_os.Builtin.Engine.{
  State, judge, or_null, evaluate_guard, run_steps, produced, select_output, run_builtin_definition,
  is_containing, apply_op,
}
use agency_os.Builtin.Safe.{Safe, Any, Safe-bind, require-Safe}
use agency_os.Builtin.Admitted.{bind_ok, object-IsGuard}
use agency_os.Builtin.Soundness.{Within}
use agency_os.Builtin.Nesting.{steps-Fits}

produced-Safe : (key : Text) (o : Option Value) → Safe Any (produced o)
produced-Safe key none = refl
produced-Safe key (some v) = tt

key-Safe : (key : Text) → Safe Any (validate_key (some (text key)))
unfolding validate_key
key-Safe key = require-Safe (not (is_empty key)) bad_key refl

select-Safe : (context : Dict) (o : Option Value) → Safe Any (select_output context o)
select-Safe context none = tt
select-Safe context (some null) = tt
select-Safe context (some (text key)) =
    Safe-bind Any Any (validate_key (some (text key))) _ (key-Safe key) (λ u p.
      Safe-bind Any Any (produced (get key context)) _ (produced-Safe key (get key context))
        (λ v q. tt))
select-Safe context (some (boolean b)) = refl
select-Safe context (some (number n)) = refl
select-Safe context (some (array xs)) = refl
select-Safe context (some (object d)) = refl

abbrev start : Dict → State
start input_data = record { context = entry (codes "input") (object input_data) end; spent = 0 }

-- A definition that `validate_builtin_definition` admits, run under the same limits on any input,
-- returns a dict or raises. What it raises is the KeyError of a condition with no "then", or a
-- `BuiltinExecutionError` for a bad key or path, a path or an output that is not found, a template
-- that is too long, values that cannot be compared or searched, an `error_if` step, or a result that
-- is too large; the definition alone may bring some of these about. It is never another exception of
-- Python, nor an error for the limit on steps or on depth, for steps that are no list of objects, for
-- a step of unknown type or with a field missing, or for a malformed guard.
pub admitted-Safe :
    (limits : Limits) (definition input_data : Dict) (n : ℕ)
    → validate_builtin_definition limits definition ≡ ok n
    → Safe Any (run_builtin_definition limits definition input_data)
unfolding validate_builtin_definition run_builtin_definition
admitted-Safe limits definition input_data n h =
    let left : ℕ = limits.max_depth - 1 in
    let (steps, hs, hn) =
      bind_ok (listed (get (codes "steps") definition)) (λ xs. validate_steps limits left xs 0) n
        h in
    let (up, safe) = steps-Fits limits left steps 0 n (start input_data) hn (omega arith) in
    rw hs (
      Safe-bind (Within n) Any (run_steps limits left steps (start input_data)) _ safe (λ s le.
        Safe-bind Any Any
          (require (leb (length (limits.dumps (object s.context))) limits.max_result_size)
            result_too_large)
          _ (require-Safe _ result_too_large refl)
          (λ u p. select-Safe s.context (get (codes "output_key") definition))))

-- not true: false, or an error
abbrev pub NeverHolds : Run Bool → Type 0
NeverHolds (ok true) = ⊥
NeverHolds (ok false) = Unit
NeverHolds (fail e) = Unit

bind-NeverHolds :
    {A : Type 0} (m : Run A) (f : A → Run Bool)
    → ((a : A) → NeverHolds (f a))
    → NeverHolds (m >>= f)
bind-NeverHolds (ok a) f h = h a
bind-NeverHolds (fail e) f h = tt

containing-NeverHolds : (v : Value) (ys : Items) → NeverHolds (is_containing v (array ys))
unfolding is_containing
containing-NeverHolds null ys = tt
containing-NeverHolds (boolean b) ys = tt
containing-NeverHolds (number n) ys = tt
containing-NeverHolds (text s) ys = tt
containing-NeverHolds (array xs) ys = tt
containing-NeverHolds (object d) ys = tt

judge-NeverHolds :
    (expected : Option Value) (o : Option Value)
    → is_array expected ≡ true
    → NeverHolds (judge GuardOp.contains (or_null expected) o)
unfolding apply_op
judge-NeverHolds expected none h = tt
judge-NeverHolds (some (array ys)) (some v) h = containing-NeverHolds v ys
judge-NeverHolds none (some v) h = cc
judge-NeverHolds (some null) (some v) h = cc
judge-NeverHolds (some (boolean b)) (some v) h = cc
judge-NeverHolds (some (number n)) (some v) h = cc
judge-NeverHolds (some (text s)) (some v) h = cc
judge-NeverHolds (some (object d)) (some v) h = cc

same_op : (op op' : GuardOp) → ◌≡◌ {A = Option GuardOp} (some op) (some op') → op ≡ op'
same_op op op' h = cc

-- A guard with the operator "contains" that the validator admits never evaluates to true, whatever
-- the context: the validator asks for a list as its value, and the engine for a text.
pub contains-NeverHolds :
    (context guard : Dict) (u : Unit {0})
    → validate_guard (some (object guard)) ≡ ok u
    → get (codes "op") guard ≡ some (text (codes "contains"))
    → NeverHolds (evaluate_guard context (some (object guard)))
unfolding evaluate_guard
contains-NeverHolds context guard u h is =
    let g = object-IsGuard guard u h in
    let expected = get (codes "value") guard in
    let is_text : ◌≡◌ {A = Option Value} (some (text g.op_text)) (some (text (codes "contains"))) =
      sym g.has_op ∙ is in
    let same : g.op_text ≡ codes "contains" = cc in
    let known : ◌≡◌ {A = Option GuardOp} (some GuardOp.contains) (some g.op) =
      subst (λ t. op_named t ≡ some g.op) same g.is_op in
    let fits : is_array expected ≡ true =
      subst (λ op. (not (is_collection_op op) || is_array expected) ≡ true)
        (sym (same_op GuardOp.contains g.op known)) g.fits in
    rw (g.has_path, is)
      (bind-NeverHolds (resolve context g.path) (judge GuardOp.contains (or_null expected))
        (λ o. judge-NeverHolds expected o fits))

-- a condition on the input, with no branches
abbrev bare_condition : Items
bare_condition =
    cons
      (object (
        entry (codes "type") (text (codes "condition")) (
          entry (codes "if")
            (object (
              entry (codes "path") (text (codes "input"))
                (entry (codes "op") (text (codes "exists")) end)))
            end)))
      nil

abbrev pub no_branches : Dict
no_branches = entry (codes "steps") (array bare_condition) end

no_steps : (limits : Limits) (k b : ℕ) → validate_steps limits k nil b ≡ ok b
unfolding validate_steps
no_steps limits zero b = refl
no_steps limits (suc k) b = refl

bare_condition_lem :
    (limits : Limits) (k : ℕ) (input_data : Dict)
    → ltb limits.max_steps 1 ≡ false
    → (validate_steps limits (suc k) bare_condition 0 ≡ ok 1)
      × (run_steps limits (suc k) bare_condition (start input_data) ≡ fail key_error_then)
unfolding validate_steps run_steps get validate_path resolve
bare_condition_lem limits k input_data room =
    (rw room (rw (no_steps limits k 1) (rw (no_steps limits k 1) refl)), rw room refl)

-- A condition with no "then" is admitted, whenever the limits leave room for one step and one level,
-- and its run ends in a KeyError if its guard holds, on every input.
pub condition_without_then :
    (limits : Limits) (input_data : Dict)
    → 1 ≤ limits.max_steps
    → 2 ≤ limits.max_depth
    → (validate_builtin_definition limits no_branches ≡ ok 1)
      × (run_builtin_definition limits no_branches input_data ≡ fail key_error_then)
unfolding validate_builtin_definition run_builtin_definition get
condition_without_then limits input_data room deep =
    let left : limits.max_depth - 1 ≡ suc (limits.max_depth - 2) = omega arith in
    let fits : ltb limits.max_steps 1 ≡ false = ground arith in
    let (admitted, runs) = bare_condition_lem limits (limits.max_depth - 2) input_data fits in
    (rw left admitted, rw left (rw runs refl))
