-- ===== src/Automation/Laws.antt =====
-- What pausing and resuming do to the kill switch and to every operation behind it.
use agency_os.Prelude.{ℕ, String, ◌≡◌, true, false, none, some, arith}
use agency_os.Db.Tables.{Db}
use agency_os.Db.Session.{ok, err}
use agency_os.Automation.{pause, resume, is_enabled, block_if_paused}

module _ (now user organization : ℕ) (reason code : String) (db : Db) where
  -- While automation is enabled, `pause` succeeds, closes the switch, reports who paused it, when
  -- and why, and every `block_*_if_paused` check then raises 409 and changes nothing.
  pub pause_closes :
      is_enabled db ≡ true
      → let (r, db') = pause now user reason organization db in
        (r
          ≡ ok (record {
            enabled = false;
            paused_by = some user;
            paused_at = some now;
            paused_reason = some reason;
          }))
        × (is_enabled db' ≡ false)
        × (block_if_paused code db' ≡ (err (record { code = code; status_code = 409 }), db'))
  unfolding pause is_enabled block_if_paused
  pause_closes h = (ground arith, ground arith, ground arith)

  -- While automation is paused, `pause` raises `automation.already_paused` and leaves the settings
  -- and the audit log as they were.
  pub pause_refused :
      is_enabled db ≡ false
      → let (r, db') = pause now user reason organization db in
        (r ≡ err (record { code = "automation.already_paused"; status_code = 409 }))
        × (db'.settings ≡ db.settings)
        × (db'.logs ≡ db.logs)
  unfolding pause is_enabled
  pause_refused h = (ground arith, ground arith, ground arith)

  -- While automation is paused, `resume` succeeds, removes the pause metadata, and every
  -- `block_*_if_paused` check then passes and changes nothing.
  pub resume_opens :
      is_enabled db ≡ false
      → let (r, db') = resume user organization db in
        (r
          ≡ ok
              (record { enabled = true; paused_by = none; paused_at = none; paused_reason = none }))
        × (is_enabled db' ≡ true)
        × (block_if_paused code db' ≡ (ok tt, db'))
  unfolding resume is_enabled block_if_paused
  resume_opens h = (ground arith, ground arith, ground arith)

  -- On a fresh database, without the row of the switch, automation counts as enabled, and `resume`
  -- succeeds all the same.
  pub resume_fresh :
      db.settings.enabled ≡ none
      → (is_enabled db ≡ true)
        × ((resume user organization db).0
            ≡ ok (record {
              enabled = true;
              paused_by = none;
              paused_at = none;
              paused_reason = none;
            }))
  unfolding resume is_enabled
  resume_fresh h = (ground arith, ground arith)
