-- ===== src/Cooldown/Window.antt =====
-- resend_cooldown.py: one reservation of a key in its window.
use agency_os.Prelude.{
  ℕ, ◌+◌, ◌<◌, ◌≡◌, refl, ◌∙◌, true, false, ◌&&◌, some, List, [], ◌∷◌, length, ◌==◌, ltb,
  if◌then◌else◌, All, arith, Bool-cases, inl, inr,
}
use agency_os.Cooldown.{
  Expiries, lookup, store, live, swept, is_held, acquire, memory_sweep_threshold,
}

lookup-store : (key expiry : ℕ) (m : Expiries) → lookup key (store key expiry m) ≡ some expiry
unfolding lookup store
lookup-store key expiry [] = ground arith
lookup-store key expiry ((k, e) ∷ rest) = elim (Bool-cases (k == key)) [
  | inl same ↦ rw same (rw same refl)
  | inr other ↦ rw other (rw other (lookup-store key expiry rest))
]

lookup-store_other :
    (key j expiry : ℕ) (m : Expiries)
    → (j == key) ≡ false
    → lookup key (store j expiry m) ≡ lookup key m
unfolding lookup store
lookup-store_other key j expiry [] other = rw other refl
lookup-store_other key j expiry ((k, e) ∷ rest) other = elim (Bool-cases (k == j)) [
  | inl same ↦ let apart : (k == key) ≡ false = ground arith in rw same (rw apart refl)
  | inr off ↦ rw off (rw (lookup-store_other key j expiry rest other) refl)
]

lookup-live :
    (key now expiry : ℕ) (m : Expiries)
    → lookup key m ≡ some expiry
    → now < expiry
    → lookup key (live now m) ≡ some expiry
unfolding lookup live
lookup-live key now expiry [] h lt = cc
lookup-live key now expiry ((k, e) ∷ rest) h lt = elim (Bool-cases (k == key)) [
  | inl same ↦
      let at : e ≡ expiry = ground arith in
      let kept : ltb now e ≡ true = ground arith in rw kept (rw (same, at) refl)
  | inr off ↦ elim (Bool-cases (ltb now e)) [
    | inl kept ↦ rw kept (rw off (lookup-live key now expiry rest (rw off at h) lt))
    | inr dropped ↦ rw dropped (lookup-live key now expiry rest (rw off at h) lt)
  ]
]

lookup-swept :
    (key now expiry : ℕ) (m : Expiries)
    → lookup key m ≡ some expiry
    → now < expiry
    → lookup key (swept now m) ≡ some expiry
lookup-swept key now expiry m h lt = elim (Bool-cases (ltb memory_sweep_threshold (length m))) [
  | inl big ↦ rw big (lookup-live key now expiry m h lt)
  | inr small ↦ rw small h
]

-- a held key stays held by every attempt before its expiry
acquire-keeps :
    (key expiry now j ttl : ℕ) (m : Expiries)
    → lookup key m ≡ some expiry
    → now < expiry
    → lookup key (acquire now j ttl m).1 ≡ some expiry
unfolding acquire
acquire-keeps key expiry now j ttl m h lt = elim (Bool-cases (is_held now (lookup j m))) [
  | inl held ↦ rw held h
  | inr free ↦ elim (Bool-cases (j == key)) [
    | inl same ↦ let e : j ≡ key = ground arith in absurd (ground arith)
    | inr other ↦ rw free (
        lookup-swept key now expiry (store j (now + ttl) m)
          (lookup-store_other key j (now + ttl) m other ∙ h) lt)
  ]
]

-- an attempt to reserve a key, at a time
pub record Attempt : Type 0 where
  pub at : ℕ
  pub key : ℕ
  pub ttl_seconds : ℕ

-- how many attempts for the key succeed
unfoldable pub successes : ℕ → List Attempt → Expiries → ℕ
successes key [] m = 0
successes key (a ∷ rest) m =
    let (acquired, m') = acquire a.at a.key a.ttl_seconds m in
    let later = successes key rest m' in if a.key == key && acquired then later + 1 else later

held_refused :
    (key expiry now ttl : ℕ) (m : Expiries)
    → lookup key m ≡ some expiry
    → now < expiry
    → (acquire now key ttl m).0 ≡ false
unfolding acquire
held_refused key expiry now ttl m h lt =
    let held : is_held now (lookup key m) ≡ true = rw h (ground arith) in rw held refl

held_fails :
    (key expiry : ℕ) (attempts : List Attempt) (m : Expiries)
    → lookup key m ≡ some expiry
    → All (λ a. a.at < expiry) attempts
    → successes key attempts m ≡ 0
unfolding successes
held_fails key expiry [] m h early = refl
held_fails key expiry (a ∷ rest) m h (e, early) =
    let later =
      held_fails key expiry rest (acquire a.at a.key a.ttl_seconds m).1
        (acquire-keeps key expiry a.at a.key a.ttl_seconds m h e) early in
    elim (Bool-cases (a.key == key)) [
      | inr other ↦ rw other later
      | inl same ↦
          let k : a.key ≡ key = ground arith in
          let lost : (acquire a.at a.key a.ttl_seconds m).0 ≡ false =
            rw k (held_refused key expiry a.at a.ttl_seconds m h e) in
          rw (same, lost) later
    ]

acquired-lookup :
    (key now ttl : ℕ) (m : Expiries)
    → 0 < ttl
    → (acquire now key ttl m).0 ≡ true
    → lookup key (acquire now key ttl m).1 ≡ some (now + ttl)
unfolding acquire
acquired-lookup key now ttl m pos h = elim (Bool-cases (is_held now (lookup key m))) [
  | inl held ↦ cc (rw held at h)
  | inr free ↦ rw free (
      lookup-swept key now (now + ttl) (store key (now + ttl) m) (lookup-store key (now + ttl) m)
        (omega arith))
]

-- Once a key is reserved, no attempt for it succeeds before its window of `ttl_seconds` has passed,
-- whatever other keys are tried in between and although the store sweeps out expired keys.
pub one_per_window :
    (key now ttl_seconds : ℕ) (m : Expiries) (attempts : List Attempt)
    → 0 < ttl_seconds
    → (acquire now key ttl_seconds m).0 ≡ true
    → All (λ a. a.at < now + ttl_seconds) attempts
    → successes key attempts (acquire now key ttl_seconds m).1 ≡ 0
one_per_window key now ttl_seconds m attempts pos h early =
    held_fails key (now + ttl_seconds) attempts (acquire now key ttl_seconds m).1
      (acquired-lookup key now ttl_seconds m pos h) early
