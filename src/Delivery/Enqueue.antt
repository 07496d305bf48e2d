-- ===== src/Delivery/Enqueue.antt =====
-- delivery_service.py, `enqueue`.
use agency_os.Prelude.{
  ℕ, ◌≡◌, refl, Bool, true, ◌&&◌, not, Option, none, some, List, ◌==◌, leb, arith, Bool-cases, inl,
  inr,
}
use agency_os.Db.Session.{Result, ok, err}
use agency_os.Delivery.Outbox.{Outbox}
use agency_os.Delivery.Rows.{Delivery}
use agency_os.Delivery.Service.{
  Env, Request, is_given, payload_too_large, count_pending, get_by_idempotency, new_delivery,
  first_event, violates, insert, existing_or_insert, enqueue,
}
use agency_os.Delivery.Worker.{provider_available}

-- a call that raises, or that returns the delivery of an earlier call, and changes no table
abbrev pub Unqueued : Outbox → Option Delivery → Result Delivery × Outbox → Type 0
Unqueued box earlier (ok d, box') = (earlier ≡ some d) × (box' ≡ box)
Unqueued box earlier (err e, box') = box' ≡ box

violates_lem :
    (d : Delivery) (o : ℕ) (rows : List Delivery) → violates d (first_event o) rows ≡ true
unfolding violates
violates_lem d o rows = ground arith

insert-Unqueued :
    (d : Delivery) (o : ℕ) (box : Outbox) → Unqueued box none (insert d (first_event o) box)
unfolding insert
insert-Unqueued d o box = elim (Bool-cases (is_given d.idempotency_key)) [
  | inl g ↦ rw (violates_lem d o box.deliveries, g) refl
  | inr g ↦ rw (violates_lem d o box.deliveries, g) refl
]

-- the test of the pending cap
abbrev is_full : Env → ℕ → Outbox → Bool
is_full env o box =
    not (env.max_pending_per_org == 0)
    && leb env.max_pending_per_org (count_pending o box.deliveries)

widen :
    (box : Outbox) (e : Option Delivery) (r : Result Delivery × Outbox)
    → Unqueued box none r
    → Unqueued box e r
widen box e (ok d, box') (h, s) = cc
widen box e (err x, box') h = h

existing_or_insert-Unqueued :
    (env : Env) (o id now : ℕ) (r : Request) (e : Option Delivery) (box : Outbox)
    → Unqueued box e (existing_or_insert env o id now r e box)
unfolding existing_or_insert
existing_or_insert-Unqueued env o id now r (some d) box = (refl, refl)
existing_or_insert-Unqueued env o id now r none box = elim (Bool-cases (is_full env o box)) [
  | inl full ↦ rw full refl
  | inr room ↦ rw room (insert-Unqueued (new_delivery env o id now r) o box)
]

-- No call of `enqueue` puts a delivery into the outbox: each returns the delivery that already carries
-- the idempotency key, or raises, and in both cases changes neither table nor counter.
pub enqueue-Unqueued :
    (env : Env) (o id now : ℕ) (r : Request) (box : Outbox)
    → Unqueued box
        (get_by_idempotency o r.idempotency_key box.deliveries)
        (enqueue env o id now r box)
unfolding enqueue
enqueue-Unqueued env o id now r box =
    let earlier = get_by_idempotency o r.idempotency_key box.deliveries in
    let looked = existing_or_insert-Unqueued env o id now r earlier box in
    let made = existing_or_insert-Unqueued env o id now r none box in
    elim (Bool-cases (provider_available r.channel)) [
      | inr missing ↦ rw missing refl
      | inl there ↦ elim (Bool-cases (payload_too_large env r.payload)) [
        | inl large ↦ rw (there, large) refl
        | inr fits ↦ elim (Bool-cases (is_given r.idempotency_key)) [
          | inl given ↦ rw (there, fits, given) looked
          | inr absent ↦
              rw (there, fits, absent)
                (widen box earlier (existing_or_insert env o id now r none box) made)
        ]
      ]
    ]
