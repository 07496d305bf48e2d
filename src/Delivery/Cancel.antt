-- ===== src/Delivery/Cancel.antt =====
-- delivery_service.py, `cancel` and `retry`, while no other session interferes, and a cancel request
-- that meets an attempt.
use agency_os.Prelude.{
  ℕ, ◌+◌, ◌*◌, ◌<◌, ◌≡◌, refl, ap, ◌∙◌, String, Bool, true, false, not, Option, none, some,
  if◌then◌else◌, arith, Bool-cases, inl, inr,
}
use agency_os.Db.Rows.{update_rows, returned, first_row}
use agency_os.Db.Session.{Result, ok, err}
use agency_os.Delivery.Budget.{is_settled, settle-deliveries}
use agency_os.Delivery.Found.{names, Found, first_row-transition, returned-some, returned-none}
use agency_os.Delivery.Outbox.{Outbox, Others, alone, event, apply}
use agency_os.Delivery.Rows.{
  Delivery, Transition, mark_cancel_requested, mark_cancelled, mark_requeued, guard_of, values_of,
  keyed, is_waiting, is_processing, is_unflagged, is_retryable, cancel_values, flag_values,
  requeue_values, retry_values, schedule_retry,
}
use agency_os.Delivery.Service.{
  get, or_fresh, note_withdrawn, withdraw, flag, cancel, note_retried, retry,
}
use agency_os.Delivery.Worker.{Outcome, retryable, provider_available, backoff, landing, attempt}

-- the row as `cancel` and as `retry` are to leave it
abbrev pub called_off : Option ℕ → ℕ → Delivery → Delivery
called_off by now d =
    if is_waiting d
    then cancel_values by now d
    else if is_unflagged d
    then flag_values by now d
    else d

-- a call returned the row that the key names afterwards, and this row is `d`
abbrev pub Leaves : ℕ → ℕ → Delivery → Result Delivery × Outbox → Type 0
Leaves o i d (r, box) = (r ≡ ok d) × (first_row (names o i) box.deliveries ≡ some d)

-- what a call comes to: it leaves the row `d`, or is refused by 409 and leaves the outbox as it was
abbrev pub Answers : Bool → ℕ → ℕ → Delivery → Outbox → Result Delivery × Outbox → Type 0
Answers true o i d box r = Leaves o i d r
Answers false o i d box r =
    r ≡ (err (record { code = "delivery.invalid_state"; status_code = 409 }), box)

module _ (now o i : ℕ) (d : Delivery) (box : Outbox) (f : Found o i d box.deliveries) where
  -- what a transition returns, and the row that it leaves
  hit :
      (t : Transition)
      → guard_of t now d ≡ true
      → (returned (keyed o i (guard_of t now)) (values_of t now) box.deliveries
          ≡ some (values_of t now d))
        × (first_row
              (names o i)
              (update_rows (keyed o i (guard_of t now)) (values_of t now) box.deliveries)
            ≡ some (values_of t now d))
  hit t g = (
    returned-some o i (guard_of t now) (values_of t now) d box.deliveries f.found g,
    first_row-transition o i t now d box.deliveries f.found ∙ rw g refl,
  )

  miss :
      (t : Transition)
      → guard_of t now d ≡ false
      → (returned (keyed o i (guard_of t now)) (values_of t now) box.deliveries ≡ none)
        × (first_row
              (names o i)
              (update_rows (keyed o i (guard_of t now)) (values_of t now) box.deliveries)
            ≡ some d)
  miss t g = (
    returned-none o i (guard_of t now) (values_of t now) d box.deliveries f.only g,
    first_row-transition o i t now d box.deliveries f.found ∙ rw g refl,
  )

  withdraw-Leaves :
      (by : Option ℕ)
      → is_waiting d ≡ true
      → Leaves o i (cancel_values by now d) (withdraw alone now o i by d box)
  unfolding withdraw note_withdrawn or_fresh apply event guard_of values_of
  withdraw-Leaves by w = let (r, l) = hit (mark_cancelled by) w in rw r (refl, l)

  flag-Leaves :
      (by : Option ℕ)
      → is_unflagged d ≡ true
      → Leaves o i (flag_values by now d) (flag alone now o i by box)
  unfolding flag or_fresh apply guard_of values_of
  flag-Leaves by w = let (r, l) = hit (mark_cancel_requested by) w in rw r (refl, l)

  flag_again : (by : Option ℕ) → is_unflagged d ≡ false → Leaves o i d (flag alone now o i by box)
  unfolding flag or_fresh apply guard_of values_of get
  flag_again by w = let (r, l) = miss (mark_cancel_requested by) w in rw (r, l) (refl, l)

  cancel-flags :
      (by : Option ℕ)
      → is_waiting d ≡ false
      → is_processing d ≡ true
      → Leaves o i (called_off by now d) (cancel alone now o i by box)
  unfolding cancel get
  cancel-flags by w p = elim (Bool-cases (is_unflagged d)) [
    | inl u ↦ rw (f.found, w, u, p) (flag-Leaves by u)
    | inr u ↦ rw (f.found, w, u, p) (flag_again by u)
  ]

  cancel-waiting :
      (by : Option ℕ)
      → is_waiting d ≡ true
      → Leaves o i (called_off by now d) (cancel alone now o i by box)
  unfolding cancel get
  cancel-waiting by w = rw (f.found, w) (withdraw-Leaves by w)

  cancel-settled :
      (by : Option ℕ)
      → is_waiting d ≡ false
      → is_processing d ≡ false
      → cancel alone now o i by box
        ≡ (err (record { code = "delivery.invalid_state"; status_code = 409 }), box)
  unfolding cancel get
  cancel-settled by w p = rw (f.found, w, p) refl

  -- While no other session interferes, cancelling a delivery that is queued or waits for a retry
  -- cancels it, cancelling one in flight flags it once and keeps the first request, and the call
  -- returns the row as it then stands in the outbox; one that is delivered, failed or cancelled is
  -- refused with 409, and the outbox stays as it was.
  pub cancel_lem :
      (by : Option ℕ)
      → Answers (not (is_settled d)) o i (called_off by now d) box (cancel alone now o i by box)
  cancel_lem by = elim (Bool-cases (is_waiting d)) [
    | inl w ↦ let n : is_settled d ≡ false = ground arith in rw n (cancel-waiting by w)
    | inr w ↦ elim (Bool-cases (is_processing d)) [
      | inl p ↦ let n : is_settled d ≡ false = ground arith in rw n (cancel-flags by w p)
      | inr p ↦ let n : is_settled d ≡ true = ground arith in rw n (cancel-settled by w p)
    ]
  ]

  -- While no other session interferes, retrying a failed or cancelled delivery queues it for now, with
  -- no attempts counted and no trace of the former ending, and returns the row as it then stands in the
  -- outbox; any other delivery is refused with 409, and the outbox stays as it was.
  pub retry_lem : Answers (is_retryable d) o i (requeue_values now d) box (retry alone now o i box)
  unfolding retry get note_retried or_fresh apply event guard_of values_of
  retry_lem = elim (Bool-cases (is_retryable d)) [
    | inl r ↦ let (back, l) = hit mark_requeued r in rw (f.found, r, back) (refl, l)
    | inr r ↦ rw (f.found, r) refl
  ]

-- another session that asks for the cancellation of a row whenever it may
abbrev pub asks : ℕ → ℕ → ℕ → Option ℕ → Others
asks o i at by n box = (apply o i at (mark_cancel_requested by) box).1

landing-retry :
    (base : ℕ) (c : Delivery) (x : String) (at : ℕ)
    → is_unflagged c ≡ true
    → c.attempts < c.max_attempts
    → landing base c false x at ≡ schedule_retry (at + backoff base c.attempts) x
unfolding landing
landing-retry base c x at u l = ground arith

module _ (base : ℕ) (provider : Delivery → Outcome) (clock : ℕ → ℕ) (k o at : ℕ) (by : Option ℕ)
    (x : String) where
  -- A cancel request that reaches the row while its provider is called is not honoured when the attempt
  -- fails with attempts left: the row waits for another attempt, with the request still on it.
  pub late_cancel-retried :
      (c : Delivery) (box : Outbox)
      → Found o c.id c box.deliveries
      → provider_available c.channel ≡ true
      → provider c ≡ retryable x
      → is_unflagged c ≡ true
      → c.attempts < c.max_attempts
      → first_row
          (names o c.id)
          (attempt base provider (asks o c.id at by) clock k o c box).1.deliveries
        ≡ some (
            retry_values
              (clock (2 * k + 1) + backoff base c.attempts)
              x
              (clock (2 * k + 1))
              (flag_values by at c))
  unfolding attempt event apply guard_of values_of
  late_cancel-retried c box f there fails u l =
      let now = clock (2 * k + 1) in
      let next = now + backoff base c.attempts in
      let t = landing-retry base c x now u l in
      let flagged : first_row (names o c.id) (asks o c.id at by 0 box).deliveries
          ≡ some (flag_values by at c) =
        first_row-transition o c.id (mark_cancel_requested by) at c box.deliveries f.found
        ∙ rw u refl in
      let p : is_processing c ≡ true = ground arith in
      let landed =
        first_row-transition o c.id (schedule_retry next x) now (flag_values by at c) _ flagged
        ∙ rw p refl in
      rw (there, fails)
        (ap (λ ds. first_row (names o c.id) ds)
            (settle-deliveries base provider clock (asks o c.id at by) k o c (retryable x) _)
          ∙ rw t landed)
