-- ===== src/Delivery/Budget.antt =====
-- delivery_worker.py, `_attempt` and `_land`: the budget of attempts of one delivery. The promotion
-- runs an hour after a failed attempt, the longest that the backoff may ask for.
use agency_os.Prelude.{
  ℕ, ◌+◌, ◌*◌, ◌≤◌, ◌≡◌, refl, String, Bool, true, false, ◌&&◌, ◌||◌, Option, none, some, List, ltb,
  is_some, if◌then◌else◌, arith, inl, inr, Bool-cases,
}
use agency_os.Db.Rows.{update_rows}
use agency_os.Db.Session.{Result, ok, err}
use agency_os.Db.Store.{and_then, ◌>>=◌, pure}
use agency_os.Delivery.Outbox.{Outbox, M, Others, alone, event, apply}
use agency_os.Delivery.Rows.{
  Delivery, delivered, retrying, failed, cancelled, same_status, Transition, mark_delivered,
  guard_of, values_of, keyed, is_due, is_processing, is_promotable,
}
use agency_os.Delivery.Worker.{
  Outcome, answered, declined, overdue, permanent, retryable, raised, provider_available, max_delay,
  backoff, landing, note_landed, note_delivered, land, returned_ok, settle, attempt,
}

abbrev pub is_settled : Delivery → Bool
is_settled d =
    same_status d.status delivered || same_status d.status failed || same_status d.status cancelled

-- the row waits for a claim, is due at every time from `from` on, and has attempts left
abbrev pub is_ready : ℕ → Delivery → Bool
is_ready from d = is_due from d && ltb d.attempts d.max_attempts

backoff_le : (base a : ℕ) → backoff base a ≤ max_delay
unfolding backoff
backoff_le base a = ground arith

abbrev pub waits : ℕ → Delivery → Bool
waits at d =
    same_status d.status retrying
    && is_some d.next_attempt_at
    && is_promotable (at + max_delay) d
    && ltb d.attempts d.max_attempts

landing_guard :
    (base : ℕ) (d : Delivery) (p : Bool) (x : String) (at now : ℕ)
    → is_processing d ≡ true
    → guard_of (landing base d p x at) now d ≡ true
unfolding landing guard_of
landing_guard base d p x at now h = ground arith

landing_fate :
    (base : ℕ) (d : Delivery) (p : Bool) (x : String) (at now : ℕ)
    → (is_settled (values_of (landing base d p x at) now d)
        || waits at (values_of (landing base d p x at) now d))
      ≡ true
unfolding landing values_of
landing_fate base d p x at now = ground (arith, backoff_le base d.attempts)

-- the transition that `_attempt` comes to
abbrev pub verdict : ℕ → Delivery → ℕ → Outcome → Transition
verdict base d at (answered metadata) = mark_delivered metadata
verdict base d at (declined error) = landing base d false error at
verdict base d at overdue = landing base d false "provider exceeded timeout" at
verdict base d at (permanent error) = landing base d true error at
verdict base d at (retryable error) = landing base d false error at
verdict base d at (raised error) = landing base d false error at

pub verdict_guard :
    (base : ℕ) (d : Delivery) (at now : ℕ) (x : Outcome)
    → is_processing d ≡ true
    → guard_of (verdict base d at x) now d ≡ true
unfolding guard_of
verdict_guard base d at now (answered m) h = h
verdict_guard base d at now (declined x) h = landing_guard base d false x at now h
verdict_guard base d at now overdue h = landing_guard base d false _ at now h
verdict_guard base d at now (permanent x) h = landing_guard base d true x at now h
verdict_guard base d at now (retryable x) h = landing_guard base d false x at now h
verdict_guard base d at now (raised x) h = landing_guard base d false x at now h

abbrev pub fate : ℕ → Delivery → Bool
fate at d = is_settled d || waits at d

pub verdict_fate :
    (base : ℕ) (d : Delivery) (at now : ℕ) (x : Outcome)
    → fate at (values_of (verdict base d at x) now d) ≡ true
unfolding values_of
verdict_fate base d at now (answered m) = refl
verdict_fate base d at now (declined x) = landing_fate base d false x at now
verdict_fate base d at now overdue = landing_fate base d false _ at now
verdict_fate base d at now (permanent x) = landing_fate base d true x at now
verdict_fate base d at now (retryable x) = landing_fate base d false x at now
verdict_fate base d at now (raised x) = landing_fate base d false x at now

-- what no landing touches
pub record Kept (c r : Delivery) : Type 0 where
  pub attempts : r.attempts ≡ c.attempts
  pub budget : r.max_attempts ≡ c.max_attempts
  pub organization : r.organization_id ≡ c.organization_id
  pub schedule : r.scheduled_for ≡ c.scheduled_for

landing_kept :
    (base : ℕ) (c : Delivery) (p : Bool) (x : String) (at now : ℕ)
    → Kept c (values_of (landing base c p x at) now c)
unfolding landing values_of
landing_kept base c p x at now = record {
  attempts = ground arith;
  budget = ground arith;
  organization = ground arith;
  schedule = ground arith;
}

pub verdict_kept :
    (base : ℕ) (c : Delivery) (at now : ℕ) (x : Outcome)
    → Kept c (values_of (verdict base c at x) now c)
unfolding values_of
verdict_kept base c at now (answered m) = record {
  attempts = refl;
  budget = refl;
  organization = refl;
  schedule = refl;
}
verdict_kept base c at now (declined x) = landing_kept base c false x at now
verdict_kept base c at now overdue = landing_kept base c false _ at now
verdict_kept base c at now (permanent x) = landing_kept base c true x at now
verdict_kept base c at now (retryable x) = landing_kept base c false x at now
verdict_kept base c at now (raised x) = landing_kept base c false x at now

-- the tables after a transition of one row
abbrev pub moved : ℕ → Delivery → ℕ → Transition → List Delivery → List Delivery
moved organization_id d at t rows =
    update_rows (keyed organization_id d.id (guard_of t at)) (values_of t at) rows

note_landed-deliveries :
    (o : ℕ) (t : Transition) (d : Option Delivery) (box : Outbox)
    → (note_landed o t d box).1.deliveries ≡ box.deliveries
unfolding note_landed event
note_landed-deliveries o t d box = ground arith

note_delivered-deliveries :
    (o : ℕ) (d : Option Delivery) (box : Outbox)
    → (note_delivered o d box).1.deliveries ≡ box.deliveries
unfolding note_delivered event
note_delivered-deliveries o none box = refl
note_delivered-deliveries o (some d) box = refl

pub keyed_self :
    (d : Delivery) (guard : Delivery → Bool) (b : Bool)
    → guard d ≡ b
    → keyed d.organization_id d.id guard d ≡ b
keyed_self d guard b h = ground arith

and_then-pure :
    {A B : Type 0} (r : Result A) (f : A → B) (box : Outbox)
    → (and_then r (λ a. pure (f a)) box).1 ≡ box
and_then-pure (ok a) f box = refl
and_then-pure (err e) f box = refl

pub then_pure :
    {A B : Type 0} (m : M A) (f : A → B) (box : Outbox)
    → ((m >>= λ a. pure (f a)) box).1 ≡ (m box).1
then_pure m f box = and_then-pure (m box).0 f (m box).1

-- a channel without a provider raises before any call
abbrev pub result : (Delivery → Outcome) → Delivery → Outcome
result provider d =
    if provider_available d.channel then provider d else raised "No delivery provider registered"

module _ (base : ℕ) (provider : Delivery → Outcome) (clock : ℕ → ℕ) where
  pub settle-deliveries :
      (others : Others) (k o : ℕ) (d : Delivery) (x : Outcome) (box : Outbox)
      → (settle base provider others clock k o d x box).1.deliveries
        ≡ moved o d (clock (2 * k + 1)) (verdict base d (clock (2 * k + 1)) x) box.deliveries
  unfolding settle land returned_ok apply event
  settle-deliveries others k o d (answered m) box = note_delivered-deliveries o _ _
  settle-deliveries others k o d (declined x) box = note_landed-deliveries o _ _ _
  settle-deliveries others k o d overdue box = note_landed-deliveries o _ _ _
  settle-deliveries others k o d (permanent x) box = note_landed-deliveries o _ _ _
  settle-deliveries others k o d (retryable x) box = note_landed-deliveries o _ _ _
  settle-deliveries others k o d (raised x) box = note_landed-deliveries o _ _ _

  pub attempt-deliveries :
      (k o : ℕ) (d : Delivery) (box : Outbox)
      → (attempt base provider alone clock k o d box).1.deliveries
        ≡ moved o d
            (clock (2 * k + 1))
            (verdict base d (clock (2 * k + 1)) (result provider d))
            box.deliveries
  unfolding attempt event
  attempt-deliveries k o d box = elim (Bool-cases (provider_available d.channel)) [
    | inl there ↦ rw there (settle-deliveries alone k o d (provider d) _)
    | inr missing ↦ rw missing (settle-deliveries alone k o d (raised _) _)
  ]
