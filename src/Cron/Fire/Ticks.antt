-- ===== src/Cron/Fire/Ticks.antt =====
-- schedule_cron.py: `previous_fire` at two points in time.
use agency_os.Prelude.{ℕ, ◌+◌, ◌/◌, ◌≤◌, ◌≡◌, true, arith, ltb, leb, Bool-cases, inl, inr, ap}
use agency_os.Cron.Parse.{Schedule}
use agency_os.Cron.Fire.{Fire, fires, never, invalid, overflow, previous_minute, lookback_days}
use agency_os.Cron.Fire.Recent.{matches, Silent, Says, previous_is_latest}

-- two latest matches at or before the same minute
same_latest :
    (s : Schedule) (t t' n : ℕ)
    → t ≤ n
    → t' ≤ n
    → matches s t ≡ true
    → matches s t' ≡ true
    → Silent s t n
    → Silent s t' n
    → t ≡ t'
same_latest s t t' n a b m m' q q' = elim (Bool-cases (ltb t t')) [
  | inl lt ↦ cc (m', q t' (ground arith) b)
  | inr ge ↦ elim (Bool-cases (ltb t' t)) [
    | inl lt ↦ cc (m, q' t (ground arith) a)
    | inr ge' ↦ ground arith
  ]
]

-- a result that knows of a match at `t`, the latest up to `now`
pinned :
    (s : Schedule) (t now : ℕ) (r : Fire)
    → 1440 ≤ t
    → t ≤ now
    → now / 1440 ≤ t / 1440 + lookback_days
    → matches s t ≡ true
    → Silent s t now
    → Says s now r
    → r ≡ fires t
pinned s t now (fires t') real a near m q (a', m', q') =
    ap fires (same_latest s t' t now a' a m' m q' q)
pinned s t now never real a near m q h = cc (m, h t a near)
pinned s t now invalid real a near m q h = absurd h
pinned s t now overflow real a near m q (le, h) = cc (m, h t real a)

module _ (s : Schedule) (n n' t : ℕ) (real : 1440 ≤ t) (found : previous_minute s n ≡ fires t) where
  says : Says s n (fires t)
  says = rw found at (previous_is_latest s n)

  -- Once `previous_fire` has found a tick, it finds the same tick at every later time before which no
  -- other minute matches, as long as the tick is within 1462 days; and at the tick itself.
  pub previous_stable :
      n ≤ n'
      → Silent s n n'
      → n' / 1440 ≤ t / 1440 + lookback_days
      → (previous_minute s n' ≡ fires t) × (previous_minute s t ≡ fires t)
  previous_stable le quiet near =
      let (a, m, q) = says in
      (
        pinned s t n' (previous_minute s n') real (omega arith) near m
            (λ u x y. elim (Bool-cases (leb u n)) [
              | inl low ↦ q u x (ground arith)
              | inr high ↦ quiet u (ground arith) y
            ])
            (previous_is_latest s n'),
        pinned s t t (previous_minute s t) real (omega arith) (omega arith) m
            (λ u x y. absurd (omega arith)) (previous_is_latest s t),
      )

  -- Ticks never go back: at a later time the tick found is not earlier.
  pub previous_monotone : (t' : ℕ) → n ≤ n' → previous_minute s n' ≡ fires t' → t ≤ t'
  previous_monotone t' le found' =
      let (a, m, q) = says in
      let (a', m', q') : Says s n' (fires t') = rw found' at (previous_is_latest s n') in
      elim (Bool-cases (leb t t')) [
        | inl fine ↦ ground arith
        | inr late ↦ cc (m, q' t (ground arith) (omega arith))
      ]
