-- ===== src/Dispatch/Counts.antt =====
-- schedule_dispatcher.py: the counts that `dispatch_due` returns.
use agency_os.Prelude.{
  ℕ, ◌+◌, ◌≡◌, suc, ◌*◌, refl, ◌∙◌, ap, String, Bool, true, false, Option, none, some, List, [],
  ◌∷◌, length, if◌then◌else◌, Bool-cases, inl, inr, arith, Text,
}
use agency_os.Automation.{is_enabled}
use agency_os.Db.Tables.{Db, Trigger, Execution}
use agency_os.Db.Session.{M, Result, ok, err, ◌>>=◌, and_then, pure}
use agency_os.Cron.Fire.{Fire, fires, never, invalid, overflow, minute_us, previous_fire}
use agency_os.Dispatch.Triggers.{list_enabled_schedules, reserve_last_fired}
use agency_os.Dispatch.Sweep.{
  Outcome, dispatched, refused, passed, conflict, Stats, scanned_only, tally, is_fired, settle,
  request_of, reserve_and_queue, dispatch_tick, dispatch_fire, dispatch_trigger, dispatch_all,
  dispatch_listed, dispatch_due,
}
use agency_os.Execution.Outcomes.Clean.{Reads, clean_rules}
use agency_os.Execution.Outcomes.Queued.{
  organization_or_400-Reads, workflow_or_404-Reads, block_if_paused-Reads,
}
use agency_os.Execution.Service.Helpers.{Env, alone, audit, timeline, count}
use agency_os.Execution.Service.Queueing.{WorkflowExecutionCreate, Fresh, queue, enqueue, violates}

-- `m` inserts one execution when it returns
record Adds {A : Type 0} (m : M A) : Type 0 where
  adds : (db : Db) (a : A) → (m db).0 ≡ ok a → length (m db).1.executions ≡ length db.executions + 1

and_then-Adds :
    {A B : Type 0} (r : Result A) (f : A → M B)
    → ((a : A) → Adds (f a))
    → (db : Db) (b : B) → (and_then r f db).0 ≡ ok b
    → length (and_then r f db).1.executions ≡ length db.executions + 1
and_then-Adds (ok a) f g db b h = (g a).adds db b h
and_then-Adds (err e) f g db b h = cc

Adds-bind :
    {A B : Type 0} (m : M A) (f : A → M B) → Reads m → ((a : A) → Adds (f a)) → Adds (m >>= f)
Adds-bind m f rm g = record {
  adds = λ db b h.
      and_then-Adds (m db).0 f g (m db).1 b h ∙ ap (λ d. length d.executions + 1) (rm.same db);
}

enqueue-Adds : (env : Env) (e : Execution) (by : Option ℕ) → Adds (enqueue env e by)
unfolding enqueue audit timeline count
enqueue-Adds env e by = record {
  adds = λ db a. elim (Bool-cases (violates e db)) [
    | inl broken ↦ rw broken (λ h. cc)
    | inr fine ↦ rw fine (λ h. omega arith)
  ];
}

queue-Adds :
    (env : Env) (fresh : Fresh) (d : WorkflowExecutionCreate) (by : Option ℕ) (bypass : Bool)
    → Adds (queue env fresh d by bypass)
unfolding queue
queue-Adds env fresh d by bypass =
    search
      (
        clean_rules, Adds-bind, organization_or_400-Reads, workflow_or_404-Reads,
        block_if_paused-Reads, enqueue-Adds,
      )
      depth 16

-- the executions that an outcome inserts
abbrev pub inserted : Outcome → ℕ
inserted dispatched = 1
inserted _ = 0

-- what a result says of the number of executions, from `before` on
abbrev Counted : List Execution → Result Outcome × Db → Type 0
Counted before (ok o, db') = length db'.executions ≡ length before + inserted o
Counted before (err x, db') = Unit

and_dispatched :
    (before : List Execution) (r : Result Execution) (db' : Db)
    → ((e : Execution) → r ≡ ok e → length db'.executions ≡ length before + 1)
    → Counted before (and_then r (λ execution. pure dispatched) db')
and_dispatched before (ok e) db' h = h e refl
and_dispatched before (err x) db' h = tt

rolled_back :
    (db : Db) (p : Result Outcome × Db)
    → Counted db.executions p
    → Counted db.executions (settle db p)
rolled_back db (ok o, db') h = h
rolled_back db (err x, db') h = omega arith

module _ (env : Env) (fresh : ℕ → Fresh) (isoformat : ℕ → String) (now : ℕ) where
  after_reservation :
      (k : ℕ) (t : Trigger) (tick : ℕ) (db : Db) (reserved : Bool)
      → Counted db.executions (
          (if reserved
              then (do
                execution ←
                    queue env (fresh k) (request_of env alone fresh isoformat now t tick) none false
                pure dispatched)
              else pure conflict)
            db)
  after_reservation k t tick db true = and_dispatched db.executions _ _ (
      (queue-Adds env (fresh k) (request_of env alone fresh isoformat now t tick) none false).adds
        db)
  after_reservation k t tick db false = omega arith

  reserve_and_queue-Counted :
      (k : ℕ) (t : Trigger) (tick : ℕ) (db : Db)
      → Counted db.executions (reserve_and_queue env alone fresh isoformat now k t tick db)
  unfolding reserve_and_queue reserve_last_fired
  reserve_and_queue-Counted k t tick db = after_reservation k t tick _ _

  dispatch_tick-Counted :
      (k : ℕ) (t : Trigger) (tick : ℕ) (db : Db)
      → Counted db.executions (dispatch_tick env alone fresh isoformat now k t tick db)
  unfolding dispatch_tick
  dispatch_tick-Counted k t tick db = elim (Bool-cases (is_fired t.last_fired_at tick)) [
    | inl done ↦ rw done (omega arith)
    | inr due ↦ rw due (
        rolled_back db (reserve_and_queue env alone fresh isoformat now k t tick db)
          (reserve_and_queue-Counted k t tick db))
  ]

  dispatch_fire-Counted :
      (k : ℕ) (t : Trigger) (f : Fire) (db : Db)
      → Counted db.executions (dispatch_fire env alone fresh isoformat now k t f db)
  unfolding dispatch_fire
  dispatch_fire-Counted k t (fires minute) db = dispatch_tick-Counted k t (minute * minute_us) db
  dispatch_fire-Counted k t never db = omega arith
  dispatch_fire-Counted k t invalid db = omega arith
  dispatch_fire-Counted k t overflow db = tt

  dispatch_trigger-Counted :
      (k : ℕ) (t : Trigger) (cron : Option Text) (db : Db)
      → Counted db.executions (dispatch_trigger env alone fresh isoformat now k t cron db)
  unfolding dispatch_trigger
  dispatch_trigger-Counted k t none db = omega arith
  dispatch_trigger-Counted k t (some cron) db =
      dispatch_fire-Counted k t (previous_fire cron now) db

-- the counts but `scanned`
abbrev pub total : Stats → ℕ
total s = s.queued + s.failed + s.skipped + s.conflicts

tally-total : (o : Outcome) (s : Stats) → total (tally o s) ≡ total s + 1
tally-total dispatched s = omega arith
tally-total refused s = omega arith
tally-total passed s = omega arith
tally-total conflict s = omega arith

tally-queued : (o : Outcome) (s : Stats) → (tally o s).queued ≡ s.queued + inserted o
tally-queued dispatched s = refl
tally-queued refused s = omega arith
tally-queued passed s = omega arith
tally-queued conflict s = omega arith

tally-scanned : (o : Outcome) (s : Stats) → (tally o s).scanned ≡ s.scanned
tally-scanned dispatched s = refl
tally-scanned refused s = refl
tally-scanned passed s = refl
tally-scanned conflict s = refl

-- what the rest of a batch adds to the counts and to the executions
record Adding (s s' : Stats) (n : ℕ) (before rest : List Execution) : Type 0 where
  scanned : s'.scanned ≡ s.scanned
  total_of : total s' ≡ total s + n
  rows : length rest + s.queued ≡ length before + s'.queued

abbrev Added : Stats → ℕ → List Execution → Result Stats × Db → Type 0
Added s n before (ok s', db') = Adding s s' n before db'.executions
Added s n before (err x, db') = Unit

one_more :
    (s : Stats) (o : Outcome) (n : ℕ) (before : List Execution) (db : Db) (p : Result Stats × Db)
    → Counted before (ok o, db)
    → Added (tally o s) n db.executions p
    → Added s (suc n) before p
one_more s o n before db (ok s', db') c a = record {
  scanned = a.scanned ∙ tally-scanned o s;
  total_of = omega (arith, a.total_of, tally-total o s);
  rows = omega (arith, a.rows, tally-queued o s, c);
}
one_more s o n before db (err x, db') c a = tt

next_trigger :
    (s : Stats) (n : ℕ) (before : List Execution) (r : Result Outcome) (db : Db)
    (rest : Outcome → M Stats)
    → Counted before (r, db)
    → ((o : Outcome) → Added (tally o s) n db.executions (rest o db))
    → Added s (suc n) before (and_then r rest db)
next_trigger s n before (ok o) db rest c a = one_more s o n before db (rest o db) c (a o)
next_trigger s n before (err x) db rest c a = tt

module _ (env : Env) (fresh : ℕ → Fresh) (isoformat : ℕ → String) (now : ℕ) where
  dispatch_all-Added :
      (k : ℕ) (ts : List Trigger) (s : Stats) (db : Db)
      → Added s (length ts) db.executions (dispatch_all env alone fresh isoformat now k ts s db)
  unfolding dispatch_all
  dispatch_all-Added k [] s db = record { scanned = refl; total_of = omega arith; rows = refl }
  dispatch_all-Added k (t ∷ ts) s db =
      let (r, db') = dispatch_trigger env alone fresh isoformat now k t t.schedule_cron db in
      next_trigger s (length ts) db.executions r db' _
        (dispatch_trigger-Counted env fresh isoformat now k t t.schedule_cron db)
        (λ o. dispatch_all-Added (k + 1) ts (tally o s) db')

  read_off :
      (n : ℕ) (before : List Execution) (p : Result Stats × Db) (s : Stats)
      → Added (scanned_only n) n before p
      → p.0 ≡ ok s
      → (total s ≡ s.scanned) × (length p.1.executions ≡ length before + s.queued)
  read_off n before (ok s', db') s a h =
      let same : s' ≡ s = cc in
      rw (← same) (omega (arith, a.total_of, a.scanned), omega (arith, a.rows))
  read_off n before (err x, db') s a h = cc

  -- A sweep that returns and runs alone accounts for every trigger that it scanned: each is queued,
  -- failed, skipped or in conflict, and the table of executions has grown by the number of those that
  -- are queued.
  pub counts_add_up :
      (limit : ℕ) (db : Db) (s : Stats)
      → (dispatch_due env alone fresh isoformat now limit db).0 ≡ ok s
      → (total s ≡ s.scanned)
        × (length (dispatch_due env alone fresh isoformat now limit db).1.executions
            ≡ length db.executions + s.queued)
  unfolding dispatch_due dispatch_listed list_enabled_schedules
  counts_add_up limit db s = elim (Bool-cases (is_enabled db)) [
    | inr paused ↦
        rw paused (λ h. let same : scanned_only 0 ≡ s = cc in rw (← same) (refl, omega arith))
    | inl opened ↦ rw opened (λ h. read_off _ db.executions _ s (dispatch_all-Added 0 _ _ db) h)
  ]
