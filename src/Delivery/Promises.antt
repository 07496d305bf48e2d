-- ===== src/Delivery/Promises.antt =====
-- The methods of the outbox's service and worker, and what they may do to its rows.
use agency_os.Prelude.{ℕ, Bool, true, false, Option, none, some, String, if◌then◌else◌}
use agency_os.Db.Store.{and_then, ◌>>=◌, pure, raise, gets, modify, refuse_if, or_raise}
use agency_os.Db.Session.{Result, ok, err}
use agency_os.Delivery.Rows.{Delivery, Transition, transition, run}
use agency_os.Delivery.Outbox.{Outbox, M, Others, DeliveryEventType, Counters, event, count, apply}
use agency_os.Delivery.Lifecycle.{Runs, Runs-refl, Runs-trans, Runs-one}

-- `m` changes rows only by statements that advance each row by one edge at most, and adds or removes
-- none
pub record Moves {A : Type 0} (m : M A) : Type 0 where
  pub moves : (o : Outbox) → Runs o.deliveries (m o).1.deliveries

and_then-Runs :
    {A B : Type 0} (r : Result A) (f : A → M B)
    → ((a : A) → Moves (f a))
    → (o : Outbox) → Runs o.deliveries (and_then r f o).1.deliveries
and_then-Runs (ok a) f h o = (h a).moves o
and_then-Runs (err e) f h o = Runs-refl o.deliveries

pub Moves-bind :
    {A B : Type 0} (m : M A) (f : A → M B) → Moves m → ((a : A) → Moves (f a)) → Moves (m >>= f)
Moves-bind m f h g = record {
  moves = λ o.
      Runs-trans o.deliveries (m o).1.deliveries (and_then (m o).0 f (m o).1).1.deliveries
        (h.moves o) (and_then-Runs (m o).0 f g (m o).1);
}

pub Moves-pure : {A : Type 0} (a : A) → Moves (pure a)
Moves-pure a = record { moves = λ o. Runs-refl o.deliveries }

pub Moves-raise : {A : Type 0} (code : String) (status : ℕ) → Moves (raise {A = A} code status)
Moves-raise code status = record { moves = λ o. Runs-refl o.deliveries }

pub Moves-gets : {A : Type 0} (f : Outbox → A) → Moves (gets f)
Moves-gets f = record { moves = λ o. Runs-refl o.deliveries }

pub Moves-refuse_if : (b : Bool) (code : String) (status : ℕ) → Moves (refuse_if b code status)
Moves-refuse_if true code status = Moves-raise code status
Moves-refuse_if false code status = Moves-pure tt

pub Moves-or_raise :
    {A : Type 0} (found : Option A) (code : String) (status : ℕ)
    → Moves (or_raise found code status)
Moves-or_raise none code status = Moves-raise code status
Moves-or_raise (some a) code status = Moves-pure a

pub Moves-count : (f : Counters → Counters) → Moves (count f)
Moves-count f = record { moves = λ o. Runs-refl o.deliveries }

pub Moves-event :
    (o : ℕ) (d : Delivery) (event_type : DeliveryEventType) → Moves (event o d event_type)
unfolding event
Moves-event organization_id d event_type = record { moves = λ o. Runs-refl o.deliveries }

pub Moves-apply : (o i at : ℕ) (t : Transition) → Moves (apply o i at t)
unfolding apply run
Moves-apply organization_id i at t = record {
  moves = λ o. Runs-one (transition organization_id i at t) o.deliveries;
}

pub Moves-if : {A : Type 0} (b : Bool) (m n : M A) → Moves m → Moves n → Moves (if b then m else n)
Moves-if true m n h k = h
Moves-if false m n h k = k

-- the other sessions run such statements too
abbrev pub Respectful : Others → Type 0
Respectful others = (n : ℕ) → Moves (modify (others n))

pub ruleset moves_rules = (
  Moves-bind, Moves-pure, Moves-raise, Moves-gets, Moves-refuse_if, Moves-or_raise, Moves-count,
  Moves-event, Moves-apply, Moves-if,
)
