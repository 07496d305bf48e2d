-- ===== src/Builtin/Runs.antt =====
-- How a step of the engine ends: with a value, with a `BuiltinExecutionError`, of which the reason is
-- kept in place of the message, or with another exception of Python.
use agency_os.Prelude.{ℕ, Bool, true, false, Option, none, some, Text}
use agency_os.Builtin.Values.{Value}

pub data Reason : Type 0 where
  not_an_object steps_not_a_list unknown_step_type missing_field message_missing : Reason
  bad_key bad_path bad_guard step_limit depth_limit : Reason
  path_not_found template_too_long not_comparable not_containable : Reason
  raised : Text → Reason
  result_too_large output_not_produced : Reason

-- `key_error_then` is the KeyError of `step["then"]`; any other exception is `python_error`
pub data Failure : Type 0 where
  builtin_error : Reason → Failure
  key_error_then python_error : Failure

pub data Run (A : Type 0) : Type 0 where
  ok : A → Run A
  fail : Failure → Run A

infixl 10 ◌>>=◌ ◌>>◌
abbrev pub ◌>>=◌ : {A B : Type 0} → Run A → (A → Run B) → Run B
ok a >>= f = f a
fail e >>= f = fail e

abbrev pub ◌>>◌ : {B : Type 0} → Run (Unit {0}) → Run B → Run B
m >> k = m >>= λ _. k

abbrev pub reject : {A : Type 0} → Reason → Run A
reject r = fail (builtin_error r)

-- `if not test: raise BuiltinExecutionError(...)`
abbrev pub require : Bool → Reason → Run (Unit {0})
require true r = ok tt
require false r = reject r

-- `d[key]`
abbrev pub or_key_error : {A : Type 0} → Option A → Run A
or_key_error none = fail python_error
or_key_error (some a) = ok a

-- the limits of core/config.py, and the text that `json.dumps` makes of a value
pub record Limits : Type 0 where
  pub max_steps : ℕ
  pub max_depth : ℕ
  pub max_template_length : ℕ
  pub max_result_size : ℕ
  pub dumps : Value → Text
