-- ===== src/Builtin/Soundness.antt =====
-- The steps that the validator admits, one by one, except conditions.
use agency_os.Prelude.{
  ℕ, ◌≤◌, ◌≡◌, refl, true, ◌&&◌, Option, none, some, is_some, arith, Bool-cases, inl, inr, codes,
}
use agency_os.Builtin.Values.{Value, Dict, null, boolean, number, text, array, object, get}
use agency_os.Builtin.Runs.{ok, ◌>>◌, require, missing_field, message_missing, Limits}
use agency_os.Builtin.Templates.{resolve, validate_key, validate_path}
use agency_os.Builtin.Validate.{
  validate_set, validate_copy, validate_error_if, validate_guard, is_message,
}
use agency_os.Builtin.Engine.{
  State, judge, or_null, evaluate_guard, set_value, run_set, run_copy, run_error_if, message_of,
  copied, store,
}
use agency_os.Builtin.Safe.{Safe, Any, Safe-bind, resolve-Safe, set_value-Safe, judge-Safe}
use agency_os.Builtin.Admitted.{
  IsText, key-IsText, some_of, admitted-IsGuard, require_then, path_then,
}

-- the steps that were run are no more than those that were counted
abbrev pub Within : ℕ → State → Type 0
Within b s = s.spent ≤ b

pub evaluate-Safe :
    (context : Dict) (o : Option Value) (u : Unit {0})
    → validate_guard o ≡ ok u
    → Safe Any (evaluate_guard context o)
unfolding evaluate_guard
evaluate-Safe context o u h =
    let (guard, is, g) = admitted-IsGuard o u h in
    let expected = get (codes "value") guard in
    let judged =
      Safe-bind Any Any (resolve context g.path) (judge g.op (or_null expected))
        (resolve-Safe context g.path) (λ a p. judge-Safe g.op expected a g.fits) in
    rw (is, g.has_path, g.has_op, g.is_op) judged

store-Within :
    (o : Option Value) (v : Value) (s : State) (b : ℕ)
    → IsText o
    → s.spent ≤ b
    → Safe (Within b) (store o v s)
store-Within o v s b (key, e) h = rw e h

module _ (limits : Limits) (step : Dict) (s : State) (b : ℕ) (spent : s.spent ≤ b) where
  pub set-Safe : (u : Unit {0}) → validate_set step ≡ ok u → Safe (Within b) (run_set limits step s)
  unfolding validate_set run_set
  set-Safe u h =
      let key = get (codes "key") step in
      let value = get (codes "value") step in
      let (there, h1) =
        require_then (is_some key && is_some value) missing_field (validate_key key) u h in
      let is_key = key-IsText key u h1 in
      let (v, has) = some_of value (ground arith) in
      rw has (
        Safe-bind Any (Within b) (set_value limits s.context v)
          (λ stored. store (get (codes "key") step) stored s) (set_value-Safe limits s.context v)
          (λ stored q. store-Within (get (codes "key") step) stored s b is_key spent))

  copied-Safe : (o : Option Value) → Safe Any (copied o)
  copied-Safe none = refl
  copied-Safe (some v) = tt

  pub copy-Safe : (u : Unit {0}) → validate_copy step ≡ ok u → Safe (Within b) (run_copy step s)
  unfolding validate_copy run_copy
  copy-Safe u h =
      let source = get (codes "from") step in
      let target = get (codes "to") step in
      let (there, h1) =
        require_then (is_some source && is_some target) missing_field
          (validate_path source >> validate_key target) u h in
      let ((path, has), h2) = path_then source (validate_key target) u h1 in
      let is_key = key-IsText target u h2 in
      rw has (
        Safe-bind Any (Within b) (resolve s.context path) _ (resolve-Safe s.context path) (λ o r.
          Safe-bind Any (Within b) (copied o) (λ v. store (get (codes "to") step) v s)
            (copied-Safe o) (λ v t. store-Within (get (codes "to") step) v s b is_key spent)))

  message-Safe : (o : Option Value) → is_message o ≡ true → Safe (Within b) (message_of o)
  message-Safe (some (text m)) h = refl
  message-Safe (some null) h = refl
  message-Safe (some (boolean c)) h = refl
  message-Safe (some (number n)) h = refl
  message-Safe (some (array xs)) h = refl
  message-Safe (some (object d)) h = refl
  message-Safe none h = cc

  pub error_if-Safe :
      (u : Unit {0}) → validate_error_if step ≡ ok u → Safe (Within b) (run_error_if step s)
  unfolding validate_error_if run_error_if
  error_if-Safe u h =
      let guard = get (codes "if") step in
      let (is, h1) =
        require_then (is_message (get (codes "message") step)) message_missing
          (require (is_some guard) missing_field >> validate_guard guard) u h in
      let (there, h2) = require_then (is_some guard) missing_field (validate_guard guard) u h1 in
      Safe-bind Any (Within b) (evaluate_guard s.context (get (codes "if") step)) _
        (evaluate-Safe s.context (get (codes "if") step) u h2)
        (λ holds r. elim (Bool-cases holds) [
          | inl yea ↦ rw yea (message-Safe (get (codes "message") step) is)
          | inr nay ↦ rw nay spent
        ])
