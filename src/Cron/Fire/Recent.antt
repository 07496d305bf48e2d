-- ===== src/Cron/Fire/Recent.antt =====
-- schedule_cron.py: what the result of `previous_fire` says of the minutes that match.
use agency_os.Prelude.{
  ℕ, zero, suc, ◌+◌, ◌*◌, ◌/◌, ◌%◌, ◌≤◌, ◌<◌, ◌≡◌, Bool, true, false, ◌&&◌, none, some, arith, ◌==◌,
  Bool-cases, Option-cases, inl, inr,
}
use agency_os.Cron.Parse.{Schedule}
use agency_os.Cron.Fire.{
  Fire, fires, never, invalid, overflow, matches_minute, day_matches, scan, walk, previous_minute,
  lookback_days,
}

-- the schedule fires at the minute
abbrev pub matches : Schedule → ℕ → Bool
matches s t = matches_minute s (t % 1440) && day_matches s (t / 1440)

scan-some :
    (test : ℕ → Bool) (n m : ℕ)
    → scan test n ≡ some m
    → (m < n) × (test m ≡ true) × ((k : ℕ) → m < k → k < n → test k ≡ false)
unfolding scan
scan-some test zero m h = cc
scan-some test (suc n) m h = elim (Bool-cases (test n)) [
  | inl hit ↦
      let same : n ≡ m = ground arith in
      (omega arith, rw (← same) hit, λ k a b. absurd (omega arith))
  | inr miss ↦
      let (lt, good, later) = scan-some test n m (rw miss at h) in
      (
        omega arith,
        good,
        λ k a b. elim (Bool-cases (k == n)) [
          | inl at ↦ let same : k ≡ n = ground arith in rw same miss
          | inr off ↦ later k a (ground arith)
        ],
      )
]

scan-none : (test : ℕ → Bool) (n : ℕ) → scan test n ≡ none → (k : ℕ) → k < n → test k ≡ false
unfolding scan
scan-none test zero h k lt = absurd (omega arith)
scan-none test (suc n) h k lt = elim (Bool-cases (test n)) [
  | inl hit ↦ cc (rw hit at h)
  | inr miss ↦ elim (Bool-cases (k == n)) [
    | inl at ↦ let same : k ≡ n = ground arith in rw same miss
    | inr off ↦ scan-none test n (rw miss at h) k (ground arith)
  ]
]

-- no minute after `t` and up to `n` matches
abbrev pub Silent : Schedule → ℕ → ℕ → Type 0
Silent s t n = (u : ℕ) → t < u → u ≤ n → matches s u ≡ false

-- what a result says of the minutes before the start of `day`, with `fuel` days to walk
abbrev WalkSays : Schedule → ℕ → ℕ → Fire → Type 0
WalkSays s fuel day (fires t) =
    (t < day * 1440)
    × (matches s t ≡ true)
    × ((u : ℕ) → t < u → u < day * 1440 → matches s u ≡ false)
WalkSays s fuel day never = (u : ℕ) → u < day * 1440 → day ≤ u / 1440 + fuel → matches s u ≡ false
WalkSays s fuel day invalid = ⊥
WalkSays s fuel day overflow =
    (day ≤ fuel) × ((u : ℕ) → 1440 ≤ u → u < day * 1440 → matches s u ≡ false)

-- a minute of a day whose minutes up to `k` do not match
of_day :
    (s : Schedule) (day k u : ℕ)
    → ((m : ℕ) → m ≤ k → matches s (day * 1440 + m) ≡ false)
    → (u / 1440 == day) ≡ true
    → u % 1440 ≤ k
    → matches s u ≡ false
of_day s day k u quiet at le =
    let e : u ≡ day * 1440 + u % 1440 = ground arith in rw e (quiet (u % 1440) le)

-- a day on which nothing matches goes on to the days before it
skip_day :
    (s : Schedule) (fuel day : ℕ) (r : Fire)
    → ((m : ℕ) → m ≤ 1439 → matches s (day * 1440 + m) ≡ false)
    → WalkSays s fuel day r
    → WalkSays s (suc fuel) (suc day) r
skip_day s fuel day (fires t) quiet (lt, good, later) = (
  omega arith,
  good,
  λ u a b. elim (Bool-cases (u / 1440 == day)) [
    | inl at ↦ of_day s day 1439 u quiet at (omega arith)
    | inr off ↦ later u a (ground arith)
  ],
)
skip_day s fuel day never quiet before = λ u a b. elim (Bool-cases (u / 1440 == day)) [
  | inl at ↦ of_day s day 1439 u quiet at (omega arith)
  | inr off ↦ before u (ground arith) (ground arith)
]
skip_day s fuel day invalid quiet h = absurd h
skip_day s fuel day overflow quiet (le, before) = (
  omega arith,
  λ u a b. elim (Bool-cases (u / 1440 == day)) [
    | inl at ↦ of_day s day 1439 u quiet at (omega arith)
    | inr off ↦ before u a (ground arith)
  ],
)

-- the parts of a minute that is written as a day and a minute of the day
matches_at :
    (s : Schedule) (day m : ℕ)
    → m < 1440
    → matches s (day * 1440 + m) ≡ (matches_minute s m && day_matches s day)
matches_at s day m h =
    let d : (day * 1440 + m) / 1440 ≡ day = omega arith in
    let r : (day * 1440 + m) % 1440 ≡ m = omega arith in rw (d, r)

-- a hit on the day
hit_day :
    (s : Schedule) (fuel day m : ℕ)
    → day_matches s day ≡ true
    → scan (matches_minute s) 1440 ≡ some m
    → WalkSays s (suc fuel) (suc day) (fires (day * 1440 + m))
hit_day s fuel day m d h =
    let (lt, good, later) = scan-some (matches_minute s) 1440 m h in
    (
      omega arith,
      rw (matches_at s day m lt) (rw (good, d)),
      λ u a b.
          let e : u ≡ day * 1440 + u % 1440 = omega arith in
          rw e (
            rw (matches_at s day (u % 1440) (omega arith))
              (rw (later (u % 1440) (omega arith) (omega arith)))),
    )

first_day : (day u : ℕ) → (day == 0) ≡ true → 1440 ≤ u → u < suc day * 1440 → ⊥
first_day day u h a b = ground arith

walk_says : (s : Schedule) (fuel day : ℕ) → WalkSays s fuel day (walk s fuel day)
unfolding walk
walk_says s zero day = λ u a b. absurd (omega arith)
walk_says s (suc fuel) zero = (omega arith, λ u a b. absurd (omega arith))
walk_says s (suc fuel) (suc day) = elim (Bool-cases (day == 0)) [
  | inl first ↦ rw first (ground arith, λ u a b. absurd (first_day day u first a b))
  | inr later ↦ rw later (elim (Bool-cases (day_matches s day)) [
    | inr closed ↦ rw closed (
        skip_day s fuel day (walk s fuel day)
          (λ m le. rw (matches_at s day m (omega arith)) (rw closed (ground arith)))
          (walk_says s fuel day))
    | inl opens ↦ rw opens (elim (Option-cases (scan (matches_minute s) 1440)) [
      | inl quiet ↦ rw quiet (
          skip_day s fuel day (walk s fuel day)
            (λ m le.
              rw (matches_at s day m (omega arith))
                (rw (scan-none (matches_minute s) 1440 quiet m (omega arith))))
            (walk_says s fuel day))
      | inr (m, hit) ↦ rw hit (hit_day s fuel day m opens hit)
    ])
  ])
]

-- What the result for the minute `now` says: the minute that it returns matches, is not after now,
-- and no minute in between matches; None means that no minute up to now matches, from 1462 days
-- before its day on; an overflow, that the walk has reached ordinal 1 with no match at all.
abbrev pub Says : Schedule → ℕ → Fire → Type 0
Says s now (fires t) = (t ≤ now) × (matches s t ≡ true) × Silent s t now
Says s now never = (u : ℕ) → u ≤ now → now / 1440 ≤ u / 1440 + lookback_days → matches s u ≡ false
Says s now invalid = ⊥
Says s now overflow =
    (now / 1440 ≤ lookback_days) × ((u : ℕ) → 1440 ≤ u → u ≤ now → matches s u ≡ false)

-- what the days before say, once no minute of the day up to now matches
extend_today :
    (s : Schedule) (now : ℕ) (r : Fire)
    → ((m : ℕ) → m ≤ now % 1440 → matches s (now / 1440 * 1440 + m) ≡ false)
    → WalkSays s lookback_days (now / 1440) r
    → Says s now r
extend_today s now (fires t) quiet (lt, good, later) = (
  omega arith,
  good,
  λ u a b. elim (Bool-cases (u / 1440 == now / 1440)) [
    | inl at ↦ of_day s (now / 1440) (now % 1440) u quiet at (ground arith)
    | inr off ↦ later u a (ground arith)
  ],
)
extend_today s now never quiet before = λ u a b. elim (Bool-cases (u / 1440 == now / 1440)) [
  | inl at ↦ of_day s (now / 1440) (now % 1440) u quiet at (ground arith)
  | inr off ↦ before u (ground arith) b
]
extend_today s now invalid quiet h = h
extend_today s now overflow quiet (le, before) = (
  le,
  λ u a b. elim (Bool-cases (u / 1440 == now / 1440)) [
    | inl at ↦ of_day s (now / 1440) (now % 1440) u quiet at (ground arith)
    | inr off ↦ before u a (ground arith)
  ],
)

-- For every schedule and every minute, `previous_fire` returns the latest matching minute at or
-- before it; or None, and no minute matches from 1462 days before its day on; or it runs out of
-- dates at ordinal 1, and no minute before matches.
pub previous_is_latest : (s : Schedule) (now : ℕ) → Says s now (previous_minute s now)
unfolding previous_minute
previous_is_latest s now =
    elim (Option-cases
      (scan (λ m. matches_minute s m && day_matches s (now / 1440)) (now % 1440 + 1))) [
        | inl quiet ↦ rw quiet (
            extend_today s now (walk s lookback_days (now / 1440))
              (λ m le.
                rw (matches_at s (now / 1440) m (omega arith))
                  (scan-none _ (now % 1440 + 1) quiet m (omega arith)))
              (walk_says s lookback_days (now / 1440)))
        | inr (m, hit) ↦
            let (lt, good, later) = scan-some _ (now % 1440 + 1) m hit in
            rw hit (
              omega arith,
              rw (matches_at s (now / 1440) m (omega arith)) good,
              λ u a b.
                  let e : u ≡ now / 1440 * 1440 + u % 1440 = omega arith in
                  rw e (
                    rw (matches_at s (now / 1440) (u % 1440) (omega arith))
                      (later (u % 1440) (omega arith) (omega arith))),
            )
      ]
