-- ===== src/Dispatch/Ticks.antt =====
-- repositories/workflow_trigger.py: `reserve_last_fired` in the hands of many dispatchers.
use agency_os.Prelude.{
  ℕ, ◌+◌, ◌≤◌, ◌≡◌, refl, Bool, true, false, ◌&&◌, List, [], ◌∷◌, map, select, ◌==◌, if◌then◌else◌,
  All, arith, Bool-cases, inl, inr,
}
use agency_os.Db.Tables.{Db, Trigger}
use agency_os.Db.Session.{Result, ok}
use agency_os.Dispatch.Triggers.{is_reservable, reserve_row, reserve_last_fired}

-- a call of `reserve_last_fired`
pub record Reservation : Type 0 where
  pub trigger_id : ℕ
  pub tick : ℕ
  pub now : ℕ

-- `previous_fire` never gives a tick after now
abbrev pub IsPast : Reservation → Type 0
IsPast r = r.tick ≤ r.now

-- no row of the trigger may be reserved for the tick any more
abbrev Spent : ℕ → ℕ → List Trigger → Type 0
Spent trigger_id tick ts = All (λ t. is_reservable trigger_id tick t ≡ false) ts

abbrev won : Result Bool → ℕ
won (ok true) = 1
won _ = 0

-- how many reservations of the trigger for the tick succeed, in a sequence of reservations of any
-- triggers and ticks by any dispatchers
unfoldable pub wins : ℕ → ℕ → List Reservation → Db → ℕ
wins trigger_id tick [] db = 0
wins trigger_id tick (r ∷ rs) db =
    let (result, db') = reserve_last_fired r.trigger_id r.tick r.now db in
    let later = wins trigger_id tick rs db' in
    if r.trigger_id == trigger_id && r.tick == tick then won result + later else later

reserve_row-spent :
    (i tick now : ℕ) (t : Trigger)
    → tick ≤ now
    → is_reservable i tick (reserve_row i tick now t) ≡ false
reserve_row-spent i tick now t past = elim (Bool-cases (is_reservable i tick t)) [
  | inl h ↦ rw h (ground arith)
  | inr h ↦ rw h h
]

reserve_row-keeps :
    (i tick j tick' now' : ℕ) (t : Trigger)
    → tick' ≤ now'
    → is_reservable i tick t ≡ false
    → is_reservable i tick (reserve_row j tick' now' t) ≡ false
reserve_row-keeps i tick j tick' now' t past spent = elim (Bool-cases (is_reservable j tick' t)) [
  | inr h ↦ rw h spent
  | inl h ↦ rw h (ground arith)
]

reserved-Spent :
    (i tick now : ℕ) (ts : List Trigger)
    → tick ≤ now
    → Spent i tick (map (reserve_row i tick now) ts)
reserved-Spent i tick now [] past = tt
reserved-Spent i tick now (t ∷ ts) past =
    (reserve_row-spent i tick now t past, reserved-Spent i tick now ts past)

kept-Spent :
    (i tick j tick' now' : ℕ) (ts : List Trigger)
    → tick' ≤ now'
    → Spent i tick ts
    → Spent i tick (map (reserve_row j tick' now') ts)
kept-Spent i tick j tick' now' [] past s = tt
kept-Spent i tick j tick' now' (t ∷ ts) past (s, ss) =
    (reserve_row-keeps i tick j tick' now' t past s, kept-Spent i tick j tick' now' ts past ss)

none_match :
    (i tick : ℕ) (ts : List Trigger) → Spent i tick ts → select (is_reservable i tick) ts ≡ []
none_match i tick [] s = refl
none_match i tick (t ∷ ts) (s, ss) = rw s (none_match i tick ts ss)

Spent-lost :
    (i tick now : ℕ) (db : Db)
    → Spent i tick db.triggers
    → (reserve_last_fired i tick now db).0 ≡ ok false
unfolding reserve_last_fired
Spent-lost i tick now db s = rw (none_match i tick db.triggers s) refl

reserved-triggers :
    (i tick now : ℕ) (db : Db)
    → (reserve_last_fired i tick now db).1.triggers ≡ map (reserve_row i tick now) db.triggers
unfolding reserve_last_fired
reserved-triggers i tick now db = refl

no_wins :
    (i tick : ℕ) (rs : List Reservation) (db : Db)
    → All IsPast rs
    → Spent i tick db.triggers
    → wins i tick rs db ≡ 0
unfolding wins
no_wins i tick [] db past s = refl
no_wins i tick (r ∷ rs) db (p, past) s =
    let kept = kept-Spent i tick r.trigger_id r.tick r.now db.triggers p s in
    let later =
      no_wins i tick rs (reserve_last_fired r.trigger_id r.tick r.now db).1 past
        (rw (reserved-triggers r.trigger_id r.tick r.now db) kept) in
    elim (Bool-cases (r.trigger_id == i && r.tick == tick)) [
      | inr other ↦ rw other later
      | inl same ↦
          let (e, e') : (r.trigger_id ≡ i) × (r.tick ≡ tick) = ground arith in
          let lost : (reserve_last_fired r.trigger_id r.tick r.now db).0 ≡ ok false =
            rw (e, e') (Spent-lost i tick r.now db s) in
          rw same (rw (later, lost) refl)
    ]

won-at_most : (result : Result Bool) → won result ≤ 1
won-at_most result = ground arith

-- A tick is dispatched at most once: however many dispatchers reserve whatever ticks of whatever
-- triggers, in any order and with any clocks, as long as none reserves a tick in its own future, at
-- most one reservation of a trigger for a given tick succeeds.
pub tick_once :
    (i tick : ℕ) (rs : List Reservation) (db : Db) → All IsPast rs → wins i tick rs db ≤ 1
unfolding wins
tick_once i tick [] db past = omega arith
tick_once i tick (r ∷ rs) db (p, past) = elim (Bool-cases (r.trigger_id == i && r.tick == tick)) [
  | inr other ↦
      rw other (tick_once i tick rs (reserve_last_fired r.trigger_id r.tick r.now db).1 past)
  | inl same ↦
      let (e, e') : (r.trigger_id ≡ i) × (r.tick ≡ tick) = ground arith in
      let spent : Spent i tick (reserve_last_fired r.trigger_id r.tick r.now db).1.triggers =
        rw (reserved-triggers r.trigger_id r.tick r.now db)
          (rw (e, e') (reserved-Spent i tick r.now db.triggers (rw e' at p))) in
      let later =
        no_wins i tick rs (reserve_last_fired r.trigger_id r.tick r.now db).1 past spent in
      rw same
        (rw later (omega (arith, won-at_most (reserve_last_fired r.trigger_id r.tick r.now db).0)))
]
