-- ===== src/Cooldown/Examples.antt =====
-- Two addresses, and a second attempt for the first that comes too early.
use agency_os.Prelude.{arith, ◌≡◌, refl, true, List, [], ◌∷◌, codes}
use agency_os.Cooldown.{acquire, lookup, store, reserve, normalize_email}
use agency_os.Cooldown.Window.{Attempt, successes, one_per_window}

abbrev later : List Attempt
later =
    record { at = 100; key = 8; ttl_seconds = 60 }
    ∷ record { at = 159; key = 7; ttl_seconds = 60 }
    ∷ []

-- the window is over
next_window : (acquire 160 7 60 (acquire 100 7 60 []).1).0 ≡ true
unfolding acquire lookup store
next_window = refl

same_address : normalize_email (codes " Ann@x.io ") ≡ codes "ann@x.io"
unfolding normalize_email
same_address = refl

disabled : (reserve (λ email. 7) 0 100 (codes "a") []).0 ≡ true
unfolding reserve
disabled = refl

one_per_window_example : successes 7 later (acquire 100 7 60 []).1 ≡ 0
one_per_window_example =
    one_per_window 7 100 60 [] later (omega arith) (unfold acquire in unfold lookup in refl)
      (omega arith, (omega arith, tt))
