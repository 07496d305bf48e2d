-- ===== src/Builtin/Admitted.antt =====
-- What the validator's acceptance of a step says of its fields.
use agency_os.Prelude.{
  ℕ, ◌+◌, ◌≤◌, ◌≡◌, refl, Bool, true, false, ◌||◌, not, Option, none, some, is_some, arith, Text,
  codes,
}
use agency_os.Builtin.Values.{
  Value, Items, Dict, null, boolean, number, text, array, object, nil, get,
}
use agency_os.Builtin.Runs.{Run, ok, fail, ◌>>=◌, ◌>>◌, Reason, require, bad_guard, bad_guard}
use agency_os.Builtin.Templates.{validate_path, validate_key}
use agency_os.Builtin.Validate.{
  StepType, type_named, GuardOp, op_named, is_collection_op, is_array, check_budget, guard_op,
  known_op, known_type, validate_guard, listed, checked_type,
}

-- inversion of a successful bind
pub bind_ok :
    {A B : Type 0} (m : Run A) (f : A → Run B) (b : B)
    → (m >>= f) ≡ ok b
    → (a : A) × (m ≡ ok a) × (f a ≡ ok b)
bind_ok (ok a) f b h = (a, refl, h)
bind_ok (fail e) f b h = absurd (let e : ⊥ = cc in e)

pub require_ok : (t : Bool) (r : Reason) (u : Unit {0}) → require t r ≡ ok u → t ≡ true
require_ok true r u h = refl
require_ok false r u h = cc

-- a key that is a text
abbrev pub IsText : Option Value → Type 0
IsText o = (s : Text) × (o ≡ some (text s))

pub key-IsText : (o : Option Value) (u : Unit {0}) → validate_key o ≡ ok u → IsText o
unfolding validate_key
key-IsText (some (text s)) u h = (s, refl)
key-IsText (some null) u h = cc
key-IsText (some (boolean b)) u h = cc
key-IsText (some (number n)) u h = cc
key-IsText (some (array xs)) u h = cc
key-IsText (some (object d)) u h = cc
key-IsText none u h = cc

pub path-IsText : (o : Option Value) (u : Unit {0}) → validate_path o ≡ ok u → IsText o
unfolding validate_path
path-IsText (some (text s)) u h = (s, refl)
path-IsText (some null) u h = cc
path-IsText (some (boolean b)) u h = cc
path-IsText (some (number n)) u h = cc
path-IsText (some (array xs)) u h = cc
path-IsText (some (object d)) u h = cc
path-IsText none u h = cc

pub type_of :
    (o : Option Value) (t : StepType)
    → checked_type o ≡ ok t
    → (s : Text) × (o ≡ some (text s)) × (type_named s ≡ some t)
type_of (some (text s)) t h = (s, refl, named (type_named s) h)
  where
    named : (n : Option StepType) → known_type n ≡ ok t → n ≡ some t
    named none k = cc
    named (some t') k = cc
type_of (some null) t h = cc
type_of (some (boolean b)) t h = cc
type_of (some (number n)) t h = cc
type_of (some (array xs)) t h = cc
type_of (some (object d)) t h = cc
type_of none t h = cc

op_of :
    (o : Option Value) (op : GuardOp)
    → guard_op o ≡ ok op
    → (s : Text) × (o ≡ some (text s)) × (op_named s ≡ some op)
op_of (some (text s)) op h = (s, refl, named (op_named s) h)
  where
    named : (n : Option GuardOp) → known_op n ≡ ok op → n ≡ some op
    named none k = cc
    named (some t') k = cc
op_of (some null) op h = cc
op_of (some (boolean b)) op h = cc
op_of (some (number n)) op h = cc
op_of (some (array xs)) op h = cc
op_of (some (object d)) op h = cc
op_of none op h = cc

pub some_of : (o : Option Value) → is_some o ≡ true → (v : Value) × (o ≡ some v)
some_of none h = cc
some_of (some v) h = (v, refl)

-- a list of steps, or none at all
abbrev pub IsListed : Option Value → Items → Type 0
IsListed none xs = xs ≡ nil
IsListed (some v) xs = v ≡ array xs

pub listed_ok : (o : Option Value) (xs : Items) → listed o ≡ ok xs → IsListed o xs
listed_ok none xs h = cc
listed_ok (some (array ys)) xs h = cc
listed_ok (some null) xs h = cc
listed_ok (some (boolean b)) xs h = cc
listed_ok (some (number n)) xs h = cc
listed_ok (some (text s)) xs h = cc
listed_ok (some (object d)) xs h = cc

-- a guard with a path, a known operator, and a list where the operator wants one
pub record IsGuard (guard : Dict) : Type 0 where
  pub path : Text
  pub op_text : Text
  pub op : GuardOp
  pub has_path : get (codes "path") guard ≡ some (text path)
  pub has_op : get (codes "op") guard ≡ some (text op_text)
  pub is_op : op_named op_text ≡ some op
  pub fits : (not (is_collection_op op) || is_array (get (codes "value") guard)) ≡ true

pub object-IsGuard :
    (guard : Dict) (u : Unit {0}) → validate_guard (some (object guard)) ≡ ok u → IsGuard guard
unfolding validate_guard
object-IsGuard guard u h =
    let (p, hp, h1) = bind_ok (validate_path (get (codes "path") guard)) _ u h in
    let (op, ho, h2) = bind_ok (guard_op (get (codes "op") guard)) _ u h1 in
    let (path, has) = path-IsText (get (codes "path") guard) p hp in
    let (s, is, named) = op_of (get (codes "op") guard) op ho in
    record {
      path = path;
      op_text = s;
      op = op;
      has_path = has;
      has_op = is;
      is_op = named;
      fits = require_ok _ bad_guard u h2;
    }

pub admitted-IsGuard :
    (o : Option Value) (u : Unit {0})
    → validate_guard o ≡ ok u
    → (guard : Dict) × (o ≡ some (object guard)) × IsGuard guard
unfolding validate_guard
admitted-IsGuard (some (object guard)) u h = (guard, refl, object-IsGuard guard u h)
admitted-IsGuard (some null) u h = absurd (let e : ⊥ = cc in e)
admitted-IsGuard (some (boolean b)) u h = absurd (let e : ⊥ = cc in e)
admitted-IsGuard (some (number n)) u h = absurd (let e : ⊥ = cc in e)
admitted-IsGuard (some (text s)) u h = absurd (let e : ⊥ = cc in e)
admitted-IsGuard (some (array xs)) u h = absurd (let e : ⊥ = cc in e)
admitted-IsGuard none u h = absurd (let e : ⊥ = cc in e)

pub budget_ok : (limit b b' : ℕ) → check_budget limit b ≡ ok b' → (b' ≡ b + 1) × (b + 1 ≤ limit)
unfolding check_budget
budget_ok limit b b' h = ground arith

pub require_then :
    {B : Type 0} (t : Bool) (r : Reason) (rest : Run B) (b : B)
    → (require t r >> rest) ≡ ok b
    → (t ≡ true) × (rest ≡ ok b)
require_then true r rest b h = (refl, h)
require_then false r rest b h = absurd (let e : ⊥ = cc in e)

pub path_then :
    {B : Type 0} (o : Option Value) (rest : Run B) (b : B)
    → (validate_path o >> rest) ≡ ok b
    → IsText o × (rest ≡ ok b)
path_then o rest b h =
    let (u, hu, k) = bind_ok (validate_path o) (λ x. rest) b h in (path-IsText o u hu, k)
