-- ===== src/Builtin/Engine.antt =====
-- builtin_execution.py: `_evaluate_guard`, `_run_steps` and `run_builtin_definition`. The hook
-- `on_step`, which only observes, is left out. A key that is no text is taken for an error, as the
-- dicts of the model have texts for keys.
use agency_os.Prelude.{
  ℕ, suc, zero, ◌-◌, Bool, true, false, not, Option, none, some, [], ◌∷◌, length, leb,
  if◌then◌else◌, is_some, Text, codes,
}
use agency_os.Builtin.Values.{
  Value, Items, Dict, null, text, array, object, nil, cons, end, entry, get, put, same_value,
  compare_values, is_item, is_part, Sign, less, greater,
}
use agency_os.Builtin.Runs.{
  Run, ok, fail, ◌>>=◌, ◌>>◌, reject, require, or_key_error, bad_guard, bad_key, depth_limit,
  path_not_found, not_comparable, not_containable, raised, result_too_large, output_not_produced,
  key_error_then, python_error, Limits,
}
use agency_os.Builtin.Templates.{resolve, render_template, validate_key}
use agency_os.Builtin.Validate.{
  StepType, set_step, copy_step, condition_step, error_if_step, type_named, GuardOp, eq, ne, gt,
  gte, lt, lte, is_in, not_in, contains, exists, missing, op_named, check_budget, Nested, each,
  listed,
}

pub record State : Type 0 where
  pub context : Dict
  pub spent : ℕ

abbrev is_hashable : Value → Bool
is_hashable (array xs) = false
is_hashable (object d) = false
is_hashable _ = true

-- `x in container`
unfoldable pub is_contained : Value → Value → Run Bool
is_contained x (array xs) = ok (is_item x xs)
is_contained (text s) (text t) = ok (is_part s t)
is_contained (text k) (object d) = ok (is_some (get k d))
is_contained x (object d) = if is_hashable x then ok false else fail python_error
is_contained x container = fail python_error

-- `any(item in expected for item in actual)`
abbrev or_next : Bool → Run Bool → Run Bool
or_next true rest = ok true
or_next false rest = rest

unfoldable pub any_contained : Items → Value → Run Bool
unfolding is_contained
any_contained nil expected = ok false
any_contained (cons x xs) expected = do
  found ← is_contained x expected
  or_next found (any_contained xs expected)

unfoldable pub found_in : Value → Value → Run Bool
unfolding is_contained any_contained
found_in (array xs) expected = any_contained xs expected
found_in actual expected = is_contained actual expected

abbrev pub ordered : (Sign → Bool) → Option Sign → Run Bool
ordered test none = reject not_comparable
ordered test (some sign) = ok (test sign)

abbrev is_greater : Sign → Bool
is_greater greater = true
is_greater _ = false

abbrev is_less : Sign → Bool
is_less less = true
is_less _ = false

unfoldable pub is_containing : Value → Value → Run Bool
unfolding is_contained
is_containing (text s) (text t) = is_contained (text t) (text s)
is_containing (array xs) (text t) = is_contained (text t) (array xs)
is_containing _ _ = reject not_containable

-- an operator on a value that is there
unfoldable pub apply_op : GuardOp → Value → Value → Run Bool
unfolding found_in is_containing
apply_op eq actual expected = ok (same_value actual expected)
apply_op ne actual expected = ok (not (same_value actual expected))
apply_op gt actual expected = ordered is_greater (compare_values actual expected)
apply_op gte actual expected = ordered (λ s. not (is_less s)) (compare_values actual expected)
apply_op lt actual expected = ordered is_less (compare_values actual expected)
apply_op lte actual expected = ordered (λ s. not (is_greater s)) (compare_values actual expected)
apply_op is_in actual expected = found_in actual expected
apply_op not_in actual expected = do found ← found_in actual expected; ok (not found)
apply_op contains actual expected = is_containing actual expected
apply_op exists actual expected = ok true
apply_op missing actual expected = ok false

abbrev pub apply_missing : GuardOp → Run Bool
apply_missing missing = ok true
apply_missing _ = ok false

abbrev pub or_null : Option Value → Value
or_null none = null
or_null (some v) = v

abbrev pub judge : GuardOp → Value → Option Value → Run Bool
judge op expected none = apply_missing op
judge op expected (some actual) = apply_op op actual expected

-- An operator that is not known is no operator on a missing value, and refused on another.
abbrev pub judge_named : Option GuardOp → Value → Option Value → Run Bool
judge_named (some op) expected actual = judge op expected actual
judge_named none expected none = ok false
judge_named none expected (some actual) = reject bad_guard

-- `path.split(".")` on what is no text, and an operator that cannot be hashed, are other errors
abbrev pub judge_at : Dict → Option Value → Option Value → Value → Run Bool
judge_at context (some (text path)) (some (text op)) expected = do
  actual ← resolve context path
  judge_named (op_named op) expected actual
judge_at context (some (text path)) (some op) expected =
    if is_hashable op
    then (do actual ← resolve context path; judge_named none expected actual)
    else fail python_error
judge_at context _ _ expected = fail python_error

unfoldable pub evaluate_guard : Dict → Option Value → Run Bool
unfolding apply_op
evaluate_guard context (some (object guard)) =
    judge_at context (get (codes "path") guard) (get (codes "op") guard)
      (or_null (get (codes "value") guard))
evaluate_guard context _ = fail python_error

-- what `for step in branch` goes through
abbrev characters : Text → Items
characters [] = nil
characters (c ∷ s) = cons (text (c ∷ [])) (characters s)

abbrev keys : Dict → Items
keys end = nil
keys (entry k v d) = cons (text k) (keys d)

abbrev pub iterated : Value → Run Items
iterated (array xs) = ok xs
iterated (text s) = ok (characters s)
iterated (object d) = ok (keys d)
iterated _ = fail python_error

abbrev pub then_branch : Option Value → Run Items
then_branch none = fail key_error_then
then_branch (some v) = iterated v

abbrev pub else_branch : Option Value → Run Items
else_branch none = ok nil
else_branch (some v) = iterated v

abbrev pub store : Option Value → Value → State → Run State
store (some (text key)) value s = ok (record s { context = put key value s.context })
store _ value s = fail python_error

-- the value of a set step: a template is rendered, anything else is copied
abbrev pub set_value : Limits → Dict → Value → Run Value
set_value limits context (text s) = do
  rendered ← render_template limits context s
  ok (text rendered)
set_value limits context value = ok value

unfoldable pub run_set : Limits → Dict → State → Run State
run_set limits step s = do
  value ← or_key_error (get (codes "value") step)
  stored ← set_value limits s.context value
  store (get (codes "key") step) stored s

abbrev pub copied : Option Value → Run Value
copied none = reject path_not_found
copied (some v) = ok v

abbrev pub source_of : Dict → Option Value → Run (Option Value)
source_of context (some (text path)) = resolve context path
source_of context _ = fail python_error

unfoldable pub run_copy : Dict → State → Run State
run_copy step s = do
  resolved ← source_of s.context (get (codes "from") step)
  value ← copied resolved
  store (get (codes "to") step) value s

abbrev pub message_of : Option Value → Run State
message_of (some (text message)) = reject (raised message)
message_of (some v) = reject (raised [])
message_of none = fail python_error

unfoldable pub run_error_if : Dict → State → Run State
unfolding evaluate_guard
run_error_if step s = do
  holds ← evaluate_guard s.context (get (codes "if") step)
  if holds then message_of (get (codes "message") step) else ok s

abbrev pub chosen : Bool → Dict → Run Items
chosen true step = then_branch (get (codes "then") step)
chosen false step = else_branch (get (codes "else") step)

unfoldable pub run_condition : Nested State → Dict → State → Run State
unfolding evaluate_guard
run_condition none step s = reject depth_limit
run_condition (some nested) step s = do
  holds ← evaluate_guard s.context (get (codes "if") step)
  branch ← chosen holds step
  nested branch s

unfoldable pub run_typed : Limits → Nested State → StepType → Dict → State → Run State
unfolding run_set run_copy run_error_if run_condition
run_typed limits nested set_step step s = run_set limits step s
run_typed limits nested copy_step step s = run_copy step s
run_typed limits nested condition_step step s = run_condition nested step s
run_typed limits nested error_if_step step s = run_error_if step s

-- a step of a type that is not known does nothing
abbrev pub run_found : Limits → Nested State → Option StepType → Dict → State → Run State
unfolding run_typed
run_found limits nested none step s = ok s
run_found limits nested (some step_type) step s = run_typed limits nested step_type step s

abbrev pub run_named : Limits → Nested State → Option Value → Dict → State → Run State
unfolding run_found
run_named limits nested (some (text t)) step s = run_found limits nested (type_named t) step s
run_named limits nested (some v) step s = ok s
run_named limits nested none step s = fail python_error

abbrev pub run_kind : Limits → Nested State → Value → State → Run State
unfolding run_named
run_kind limits nested (object step) s = run_named limits nested (get (codes "type") step) step s
run_kind limits nested _ s = fail python_error

unfoldable pub run_step : Limits → Nested State → Value → State → Run State
unfolding run_kind check_budget
run_step limits nested step s = do
  spent ← check_budget limits.max_steps s.spent
  run_kind limits nested step (record s { spent = spent })

unfoldable pub run_steps : Limits → ℕ → Items → State → Run State
unfolding run_step each
run_steps limits zero = each (run_step limits none)
run_steps limits (suc left) = each (run_step limits (some (run_steps limits left)))

abbrev pub produced : Option Value → Run Value
produced none = reject output_not_produced
produced (some v) = ok v

abbrev pub select_output : Dict → Option Value → Run Dict
select_output context none = ok context
select_output context (some null) = ok context
select_output context (some (text key)) = do
  validate_key (some (text key))
  value ← produced (get key context)
  ok (entry key value end)
select_output context (some v) = reject bad_key

unfoldable pub run_builtin_definition : Limits → Dict → Dict → Run Dict
unfolding run_steps
run_builtin_definition limits definition input_data = do
  steps ← listed (get (codes "steps") definition)
  s ←
      run_steps limits (limits.max_depth - 1) steps
        (record { context = entry (codes "input") (object input_data) end; spent = 0 })
  require (leb (length (limits.dumps (object s.context))) limits.max_result_size) result_too_large
  select_output s.context (get (codes "output_key") definition)
