-- ===== src/Builtin/Nesting.antt =====
-- The steps of a definition that the validator admits, level by level: the engine counts no more steps
-- than the validator did, and goes no deeper.
use agency_os.Prelude.{
  ℕ, suc, zero, ◌+◌, ◌≤◌, ◌≡◌, refl, sym, Bool, true, false, Option, none, some, is_some, arith,
  codes,
}
use agency_os.Builtin.Values.{
  Value, Items, Dict, null, boolean, number, text, array, object, nil, cons, get,
}
use agency_os.Builtin.Runs.{
  Run, ok, fail, ◌>>=◌, ◌>>◌, reject, depth_limit, Failure, builtin_error, require, missing_field,
  bad_key, Limits,
}
use agency_os.Builtin.Validate.{
  StepType, set_step, copy_step, condition_step, error_if_step, check_budget, checked_type,
  text_if_given, validate_set, validate_copy, validate_error_if, validate_condition, validate_typed,
  validate_step, validate_steps, validate_guard, listed, Nested, each,
}
use agency_os.Builtin.Engine.{
  State, evaluate_guard, run_set, run_copy, run_error_if, run_condition, run_typed, run_step,
  run_steps, chosen, then_branch, else_branch,
}
use agency_os.Builtin.Safe.{Safe, Any, Safe-bind}
use agency_os.Builtin.Admitted.{bind_ok, type_of, IsListed, listed_ok, budget_ok, require_then}
use agency_os.Builtin.Soundness.{Within, evaluate-Safe, set-Safe, copy-Safe, error_if-Safe}

-- a loop of the validator and a loop of the engine over the same steps
abbrev Fits : (Items → ℕ → Run ℕ) → (Items → State → Run State) → Type 0
Fits check run =
    (xs : Items) (b b' : ℕ) (s : State)
    → check xs b ≡ ok b'
    → s.spent ≤ b
    → (b ≤ b') × Safe (Within b') (run xs s)

abbrev Agrees : Nested ℕ → Nested State → Type 0
Agrees none none = Unit
Agrees none (some run) = ⊥
Agrees (some check) none = ⊥
Agrees (some check) (some run) = Fits check run

then-Safe : (o : Option Value) (xs : Items) → IsListed o xs → Safe (λ ys. ys ≡ xs) (then_branch o)
then-Safe none xs h = tt
then-Safe (some v) xs h = rw h refl

else-Safe : (o : Option Value) (xs : Items) → IsListed o xs → Safe (λ ys. ys ≡ xs) (else_branch o)
else-Safe none xs h = sym h
else-Safe (some v) xs h = rw h refl

Safe-weaken : (b b' : ℕ) (m : Run State) → b ≤ b' → Safe (Within b) m → Safe (Within b') m
Safe-weaken b b' (ok s) le h = omega arith
Safe-weaken b b' (fail (builtin_error r)) le h = h
Safe-weaken b b' (fail Failure.key_error_then) le h = h
Safe-weaken b b' (fail Failure.python_error) le h = h

module _ (check : Items → ℕ → Run ℕ) (run : Items → State → Run State) (fit : Fits check run)
    (step : Dict) (b b' : ℕ) (s : State) (spent : s.spent ≤ b) where
  branch-Safe :
      (xs ys : Items) (b1 : ℕ)
      → IsListed (get (codes "then") step) xs
      → IsListed (get (codes "else") step) ys
      → check xs b ≡ ok b1
      → check ys b1 ≡ ok b'
      → (holds : Bool) → Safe (Within b') (chosen holds step >>= λ branch. run branch s)
  branch-Safe xs ys b1 is_then is_else h1 h2 true =
      let (up, safe) = fit xs b b1 s h1 spent in
      let (up', safe') = fit ys b1 b' s h2 (omega arith) in
      Safe-bind (λ zs. zs ≡ xs) (Within b') (then_branch (get (codes "then") step))
        (λ branch. run branch s) (then-Safe (get (codes "then") step) xs is_then)
        (λ zs e. rw e (Safe-weaken b1 b' (run xs s) up' safe))
  branch-Safe xs ys b1 is_then is_else h1 h2 false =
      let (up, safe) = fit xs b b1 s h1 spent in
      let (up', safe') = fit ys b1 b' s h2 (omega arith) in
      Safe-bind (λ zs. zs ≡ ys) (Within b') (else_branch (get (codes "else") step))
        (λ branch. run branch s) (else-Safe (get (codes "else") step) ys is_else)
        (λ zs e. rw e safe')

  condition-Safe :
      validate_condition (some check) step b ≡ ok b'
      → (b ≤ b') × Safe (Within b') (run_condition (some run) step s)
  unfolding validate_condition run_condition
  condition-Safe h =
      let guard = get (codes "if") step in
      let inner : Items → ℕ → Run ℕ =
        λ xs b1. listed (get (codes "else") step) >>= λ other. check other b1 in
      let body : Items → Run ℕ = λ xs. check xs b >>= inner xs in
      let branches : Run ℕ = listed (get (codes "then") step) >>= body in
      let (there, h1) =
        require_then (is_some guard) missing_field (validate_guard guard >>= λ v. branches) b' h in
      let (u, is_guard, h2) = bind_ok (validate_guard guard) (λ v. branches) b' h1 in
      let (xs, is_then, h3) = bind_ok (listed (get (codes "then") step)) body b' h2 in
      let (b1, h4, h5) = bind_ok (check xs b) (inner xs) b' h3 in
      let (ys, is_else, h6) =
        bind_ok (listed (get (codes "else") step)) (λ other. check other b1) b' h5 in
      let (up, safe) = fit xs b b1 s h4 spent in
      let (up', safe') = fit ys b1 b' s h6 (omega arith) in
      (
        omega arith,
        Safe-bind Any (Within b') (evaluate_guard s.context guard)
            (λ holds. chosen holds step >>= λ branch. run branch s)
            (evaluate-Safe s.context guard u is_guard)
            (λ holds a.
              branch-Safe xs ys b1 (listed_ok (get (codes "then") step) xs is_then)
                (listed_ok (get (codes "else") step) ys is_else) h4 h6 holds),
      )

-- below the last level no condition is admitted
never_admitted : (step : Dict) (b b' : ℕ) → validate_condition none step b ≡ ok b' → ⊥
unfolding validate_condition
never_admitted step b b' h =
    let guard = get (codes "if") step in
    let last : Items → Run ℕ = λ branch. reject depth_limit in
    let branches : Run ℕ = listed (get (codes "then") step) >>= last in
    let (there, h1) =
      require_then (is_some guard) missing_field (validate_guard guard >>= λ v. branches) b' h in
    let (u, is_guard, h2) = bind_ok (validate_guard guard) (λ v. branches) b' h1 in
    let (xs, is_then, h3) = bind_ok (listed (get (codes "then") step)) last b' h2 in
    let e : ⊥ = cc in e

budget_passes : (limit b : ℕ) → b + 1 ≤ limit → check_budget limit b ≡ ok (b + 1)
unfolding check_budget
budget_passes limit b h = ground arith

condition-Agrees :
    (nv : Nested ℕ) (nr : Nested State)
    → Agrees nv nr
    → (step : Dict) (b b' : ℕ) (s : State) → s.spent ≤ b
    → validate_condition nv step b ≡ ok b'
    → (b ≤ b') × Safe (Within b') (run_condition nr step s)
condition-Agrees (some check) (some run) fit step b b' s spent h =
    condition-Safe check run fit step b b' s spent h
condition-Agrees (some check) none fit step b b' s spent h = absurd fit
condition-Agrees none (some run) fit step b b' s spent h = absurd fit
condition-Agrees none none fit step b b' s spent h = absurd (never_admitted step b b' h)

typed-Agrees :
    (limits : Limits) (nv : Nested ℕ) (nr : Nested State)
    → Agrees nv nr
    → (t : StepType) (step : Dict) (b b' : ℕ) (s : State) → s.spent ≤ b
    → validate_typed nv t step b ≡ ok b'
    → (b ≤ b') × Safe (Within b') (run_typed limits nr t step s)
unfolding validate_typed run_typed
typed-Agrees limits nv nr fit condition_step step b b' s spent h =
    condition-Agrees nv nr fit step b b' s spent h
typed-Agrees limits nv nr fit set_step step b b' s spent h =
    let (u, hu, e) = bind_ok (validate_set step) (λ v. ok b) b' h in
    let same : b ≡ b' = cc in
    (
      ground arith,
      Safe-weaken b b' (run_set limits step s) (ground arith) (set-Safe limits step s b spent u hu),
    )
typed-Agrees limits nv nr fit copy_step step b b' s spent h =
    let (u, hu, e) = bind_ok (validate_copy step) (λ v. ok b) b' h in
    let same : b ≡ b' = cc in
    (
      ground arith,
      Safe-weaken b b' (run_copy step s) (ground arith) (copy-Safe limits step s b spent u hu),
    )
typed-Agrees limits nv nr fit error_if_step step b b' s spent h =
    let (u, hu, e) = bind_ok (validate_error_if step) (λ v. ok b) b' h in
    let same : b ≡ b' = cc in
    (
      ground arith,
      Safe-weaken b b' (run_error_if step s) (ground arith)
          (error_if-Safe limits step s b spent u hu),
    )

module _ (limits : Limits) (nv : Nested ℕ) (nr : Nested State) (fit : Agrees nv nr) where
  object-Agrees :
      (step : Dict) (b b' : ℕ) (s : State)
      → validate_step limits nv (object step) b ≡ ok b'
      → s.spent ≤ b
      → (b ≤ b') × Safe (Within b') (run_step limits nr (object step) s)
  unfolding validate_step run_step
  object-Agrees step b b' s h spent =
      let kind = get (codes "type") step in
      let given = text_if_given (get (codes "key") step) in
      let typed : ℕ → StepType → Run ℕ =
        λ n t. require given bad_key >> validate_typed nv t step n in
      let checked : ℕ → Run ℕ = λ n. checked_type kind >>= typed n in
      let (n, hn, h1) = bind_ok (check_budget limits.max_steps b) checked b' h in
      let (t, ht, h2) = bind_ok (checked_type kind) (typed n) b' h1 in
      let (key, h3) = require_then given bad_key (validate_typed nv t step n) b' h2 in
      let (grown, room) = budget_ok limits.max_steps b n hn in
      let (w, is, named) = type_of kind t ht in
      let room' : s.spent + 1 ≤ limits.max_steps = omega arith in
      let below : s.spent + 1 ≤ n = omega arith in
      let (up, safe) =
        typed-Agrees limits nv nr fit t step n b' (record s { spent = s.spent + 1 }) below h3 in
      (omega arith, rw (budget_passes limits.max_steps s.spent room', is, named) safe)

  step-Agrees :
      (v : Value) (b b' : ℕ) (s : State)
      → validate_step limits nv v b ≡ ok b'
      → s.spent ≤ b
      → (b ≤ b') × Safe (Within b') (run_step limits nr v s)
  unfolding validate_step
  step-Agrees (object step) b b' s h spent = object-Agrees step b b' s h spent
  step-Agrees null b b' s h spent = absurd (let e : ⊥ = cc in e)
  step-Agrees (boolean c) b b' s h spent = absurd (let e : ⊥ = cc in e)
  step-Agrees (number n) b b' s h spent = absurd (let e : ⊥ = cc in e)
  step-Agrees (text t) b b' s h spent = absurd (let e : ⊥ = cc in e)
  step-Agrees (array xs) b b' s h spent = absurd (let e : ⊥ = cc in e)

  each-Fits : Fits (each (validate_step limits nv)) (each (run_step limits nr))
  unfolding each
  each-Fits nil b b' s h spent = (ground arith, ground arith)
  each-Fits (cons x xs) b b' s h spent =
      let (b1, h1, h2) =
        bind_ok (validate_step limits nv x b) (each (validate_step limits nv) xs) b' h in
      let (up, safe) = step-Agrees x b b1 s h1 spent in
      let (up', safe') = each-Fits xs b1 b' (record s { spent = b1 }) h2 (omega arith) in
      (
        omega arith,
        Safe-bind (Within b1) (Within b') (run_step limits nr x s) (each (run_step limits nr) xs)
            safe (λ s' le. (each-Fits xs b1 b' s' h2 le).1),
      )

pub steps-Fits :
    (limits : Limits) (left : ℕ) → Fits (validate_steps limits left) (run_steps limits left)
unfolding validate_steps run_steps
steps-Fits limits zero = each-Fits limits none none tt
steps-Fits limits (suc left) =
    each-Fits limits (some (validate_steps limits left)) (some (run_steps limits left))
      (steps-Fits limits left)
