-- ===== src/Cooldown.antt =====
-- backend/app/services/resend_cooldown.py: `InMemoryCooldownBackend` and `EmailResendCooldown.reserve`
-- over it. A key is the number that its hexadecimal digest writes; the HMAC is a parameter. Times are
-- whole units of the monotonic clock.
mod Examples
pub mod Window
use agency_os.Prelude.{
  ℕ, ◌+◌, Bool, true, false, Option, none, some, List, [], ◌∷◌, length, select, ◌==◌, ltb,
  if◌then◌else◌, Text, strip, to_lower, map,
}

-- the dict of expiries
abbrev pub Expiries : Type 0
Expiries = List (ℕ × ℕ)

unfoldable pub lookup : ℕ → Expiries → Option ℕ
lookup key [] = none
lookup key ((k, expiry) ∷ rest) =
    let found = lookup key rest in if k == key then some expiry else found

-- `expiries[key] = expiry`: in its place, or at the end
unfoldable pub store : ℕ → ℕ → Expiries → Expiries
store key expiry [] = (key, expiry) ∷ []
store key expiry ((k, e) ∷ rest) =
    let stored = store key expiry rest in if k == key then (k, expiry) ∷ rest else (k, e) ∷ stored

abbrev pub memory_sweep_threshold : ℕ
memory_sweep_threshold = 1024

unfoldable pub live : ℕ → Expiries → Expiries
live now expiries = select (λ entry. ltb now entry.1) expiries

abbrev pub swept : ℕ → Expiries → Expiries
swept now expiries =
    if ltb memory_sweep_threshold (length expiries) then live now expiries else expiries

abbrev pub is_held : ℕ → Option ℕ → Bool
is_held now none = false
is_held now (some expiry) = ltb now expiry

-- the clock reads `now`
unfoldable pub acquire : ℕ → ℕ → ℕ → Expiries → Bool × Expiries
acquire now key ttl_seconds expiries =
    if is_held now (lookup key expiries)
    then (false, expiries)
    else (true, swept now (store key (now + ttl_seconds) expiries))

abbrev pub is_enabled : ℕ → Bool
is_enabled cooldown_seconds = ltb 0 cooldown_seconds

unfoldable pub normalize_email : Text → Text
normalize_email email = map to_lower (strip email)

-- `storage_key` is the keyed digest of a normalized address
unfoldable pub reserve : (Text → ℕ) → ℕ → ℕ → Text → Expiries → Bool × Expiries
reserve storage_key cooldown_seconds now email expiries =
    if is_enabled cooldown_seconds
    then acquire now (storage_key (normalize_email email)) cooldown_seconds expiries
    else (true, expiries)
