-- ===== src/Builtin/Validate.antt =====
-- builtin_execution.py: `validate_builtin_definition` with its parts. The budget counts the steps that
-- have been seen; the nesting that is left stands for `max_depth - depth`.
use agency_os.Prelude.{
  ℕ, suc, zero, ◌+◌, ◌-◌, Bool, true, false, ◌&&◌, ◌||◌, not, Option, none, some, ltb,
  if◌then◌else◌, is_some, Text, codes, same_text, is_empty,
}
use agency_os.Builtin.Values.{Value, Items, Dict, text, array, object, nil, cons, get}
use agency_os.Builtin.Runs.{
  Run, ok, fail, ◌>>=◌, ◌>>◌, reject, require, not_an_object, steps_not_a_list, unknown_step_type,
  missing_field, message_missing, bad_key, bad_guard, step_limit, depth_limit, python_error, Limits,
}
use agency_os.Builtin.Templates.{validate_path, validate_key}

pub data StepType : Type 0 where
  set_step copy_step condition_step error_if_step : StepType

abbrev pub type_named : Text → Option StepType
type_named s =
    if same_text s (codes "set")
    then some set_step
    else if same_text s (codes "copy")
    then some copy_step
    else if same_text s (codes "condition")
    then some condition_step
    else if same_text s (codes "error_if")
    then some error_if_step
    else none

pub data GuardOp : Type 0 where
  eq ne gt gte lt lte is_in not_in contains exists missing : GuardOp

abbrev pub op_named : Text → Option GuardOp
op_named s =
    if same_text s (codes "eq")
    then some eq
    else if same_text s (codes "ne")
    then some ne
    else if same_text s (codes "gt")
    then some gt
    else if same_text s (codes "gte")
    then some gte
    else if same_text s (codes "lt")
    then some lt
    else if same_text s (codes "lte")
    then some lte
    else if same_text s (codes "in")
    then some is_in
    else if same_text s (codes "not_in")
    then some not_in
    else if same_text s (codes "contains")
    then some contains
    else if same_text s (codes "exists")
    then some exists
    else if same_text s (codes "missing")
    then some missing
    else none

abbrev pub is_collection_op : GuardOp → Bool
is_collection_op is_in = true
is_collection_op not_in = true
is_collection_op contains = true
is_collection_op _ = false

abbrev pub is_array : Option Value → Bool
is_array (some (array xs)) = true
is_array _ = false

-- `_check_budget`
unfoldable pub check_budget : ℕ → ℕ → Run ℕ
check_budget limit spent = if ltb limit (spent + 1) then reject step_limit else ok (spent + 1)

abbrev pub known_op : Option GuardOp → Run GuardOp
known_op none = reject bad_guard
known_op (some op) = ok op

abbrev pub guard_op : Option Value → Run GuardOp
guard_op (some (text s)) = known_op (op_named s)
guard_op _ = reject bad_guard

unfoldable pub validate_guard : Option Value → Run (Unit {0})
validate_guard (some (object guard)) = do
  validate_path (get (codes "path") guard)
  op ← guard_op (get (codes "op") guard)
  require (not (is_collection_op op) || is_array (get (codes "value") guard)) bad_guard
validate_guard _ = reject bad_guard

-- `step.get(key, [])` where it has to be a list
abbrev pub listed : Option Value → Run Items
listed none = ok nil
listed (some (array xs)) = ok xs
listed _ = reject steps_not_a_list

abbrev pub is_text : Value → Bool
is_text (text s) = true
is_text _ = false

-- `"key" in step and not isinstance(step["key"], str)`
abbrev pub text_if_given : Option Value → Bool
text_if_given none = true
text_if_given (some v) = is_text v

abbrev pub is_message : Option Value → Bool
is_message (some (text s)) = not (is_empty s)
is_message _ = false

abbrev pub Nested : Type 0 → Type 0
Nested S = Option (Items → S → Run S)

unfoldable pub validate_set : Dict → Run (Unit {0})
validate_set step = do
  require (is_some (get (codes "key") step) && is_some (get (codes "value") step)) missing_field
  validate_key (get (codes "key") step)

unfoldable pub validate_copy : Dict → Run (Unit {0})
validate_copy step = do
  require (is_some (get (codes "from") step) && is_some (get (codes "to") step)) missing_field
  validate_path (get (codes "from") step)
  validate_key (get (codes "to") step)

unfoldable pub validate_error_if : Dict → Run (Unit {0})
unfolding validate_guard
validate_error_if step = do
  require (is_message (get (codes "message") step)) message_missing
  require (is_some (get (codes "if") step)) missing_field
  validate_guard (get (codes "if") step)

-- both branches count, the one that is not taken too
unfoldable pub validate_condition : Nested ℕ → Dict → ℕ → Run ℕ
unfolding validate_guard
validate_condition none step spent = do
  require (is_some (get (codes "if") step)) missing_field
  validate_guard (get (codes "if") step)
  branch ← listed (get (codes "then") step)
  reject depth_limit
validate_condition (some nested) step spent = do
  require (is_some (get (codes "if") step)) missing_field
  validate_guard (get (codes "if") step)
  branch ← listed (get (codes "then") step)
  spent_then ← nested branch spent
  other ← listed (get (codes "else") step)
  nested other spent_then

-- a list or a dict is not hashable, and cannot be looked for in a set
abbrev pub known_type : Option StepType → Run StepType
known_type none = reject unknown_step_type
known_type (some t) = ok t

abbrev pub checked_type : Option Value → Run StepType
checked_type (some (text s)) = known_type (type_named s)
checked_type (some (array xs)) = fail python_error
checked_type (some (object d)) = fail python_error
checked_type _ = reject unknown_step_type

unfoldable pub validate_typed : Nested ℕ → StepType → Dict → ℕ → Run ℕ
unfolding validate_set validate_copy validate_error_if validate_condition
validate_typed nested set_step step spent = do validate_set step; ok spent
validate_typed nested copy_step step spent = do validate_copy step; ok spent
validate_typed nested error_if_step step spent = do validate_error_if step; ok spent
validate_typed nested condition_step step spent = validate_condition nested step spent

unfoldable pub validate_step : Limits → Nested ℕ → Value → ℕ → Run ℕ
unfolding validate_typed check_budget
validate_step limits nested (object step) spent = do
  spent' ← check_budget limits.max_steps spent
  step_type ← checked_type (get (codes "type") step)
  require (text_if_given (get (codes "key") step)) bad_key
  validate_typed nested step_type step spent'
validate_step limits nested _ spent = reject not_an_object

-- `for step in steps`
unfoldable pub each : {S : Type 0} → (Value → S → Run S) → Items → S → Run S
each f nil s = ok s
each f (cons x xs) s = f x s >>= each f xs

unfoldable pub validate_steps : Limits → ℕ → Items → ℕ → Run ℕ
unfolding validate_step each
validate_steps limits zero = each (validate_step limits none)
validate_steps limits (suc left) = each (validate_step limits (some (validate_steps limits left)))

-- A definition that is no object is refused by the type of the column.
unfoldable pub validate_builtin_definition : Limits → Dict → Run ℕ
unfolding validate_steps
validate_builtin_definition limits definition = do
  steps ← listed (get (codes "steps") definition)
  validate_steps limits (limits.max_depth - 1) steps 0
