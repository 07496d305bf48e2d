-- ===== src/Builtin/Examples.antt =====
-- Small definitions, and the theorems about the engine at them.
use agency_os.Prelude.{◌≡◌, refl, some, [], Text, codes}
use agency_os.Prelude.Int.{pos}
use agency_os.Builtin.Values.{
  Value, Dict, number, text, array, object, nil, cons, end, entry, get, put, same_value,
}
use agency_os.Builtin.Runs.{ok, reject, missing_field, Limits}
use agency_os.Builtin.Templates.{validate_path, validate_key, render_template, resolve, substitute}
use agency_os.Builtin.Validate.{validate_builtin_definition, validate_guard}
use agency_os.Builtin.Engine.{run_builtin_definition, evaluate_guard}
use agency_os.Builtin.Safe.{Safe, Any}
use agency_os.Builtin.Definitions.{admitted-Safe, NeverHolds, contains-NeverHolds}

abbrev limits : Limits
limits = record {
  max_steps = 10;
  max_depth = 3;
  max_template_length = 80;
  max_result_size = 200;
  dumps = λ v. [];
}

abbrev guard_on : Text → Text → Value → Value
guard_on path op value = object (
    entry (codes "path") (text path)
      (entry (codes "op") (text op) (entry (codes "value") value end)))

-- {"steps": [copy input.name to name, set greeting, if name == "Ada" then set vip]}
abbrev greeting : Dict
greeting =
    entry (codes "steps")
      (array (
        cons
          (object (
            entry (codes "type") (text (codes "copy")) (
              entry (codes "from") (text (codes "input.name"))
                (entry (codes "to") (text (codes "name")) end))))
          (cons
            (object (
              entry (codes "type") (text (codes "set")) (
                entry (codes "key") (text (codes "greeting"))
                  (entry (codes "value") (text (codes "Hi {{ name }}")) end))))
            (cons
              (object (
                entry (codes "type") (text (codes "condition")) (
                  entry (codes "if") (guard_on (codes "name") (codes "eq") (text (codes "Ada"))) (
                    entry (codes "then")
                      (array (
                        cons
                          (object (
                            entry (codes "type") (text (codes "set")) (
                              entry (codes "key") (text (codes "vip"))
                                (entry (codes "value") (number (pos 1)) end))))
                          nil))
                      end))))
              nil))))
      (entry (codes "output_key") (text (codes "greeting")) end)

abbrev ada : Dict
ada = entry (codes "name") (text (codes "Ada")) end

greeted :
    run_builtin_definition limits greeting ada
    ≡ ok (entry (codes "greeting") (text (codes "Hi Ada")) end)
unfolding run_builtin_definition resolve render_template substitute get put same_value validate_key
greeted = refl

-- the second step of the example in the module's documentation: a set step with an id and no key
documented_step :
    validate_builtin_definition limits (
      entry
        (codes "steps")
        (array (
          cons
            (object (
              entry (codes "type") (text (codes "set")) (
                entry
                  (codes "id")
                  (text (codes "greeting"))
                  (entry (codes "value") (text (codes "Hello {{ lead.first_name }}")) end))))
            nil))
        end)
    ≡ reject missing_field
unfolding validate_builtin_definition get
documented_step = refl

admitted-Safe_example : Safe Any (run_builtin_definition limits greeting ada)
unfolding validate_builtin_definition get validate_path validate_key
admitted-Safe_example = admitted-Safe limits greeting ada 4 refl

-- {"path": "tags", "op": "contains", "value": ["vip"]}
abbrev vip_guard : Dict
vip_guard = entry (codes "path") (text (codes "tags")) (
    entry (codes "op") (text (codes "contains"))
      (entry (codes "value") (array (cons (text (codes "vip")) nil)) end))

contains-NeverHolds_example : NeverHolds (evaluate_guard ada (some (object vip_guard)))
unfolding validate_guard get validate_path
contains-NeverHolds_example = contains-NeverHolds ada vip_guard tt refl refl
