-- ===== src/Automation/Examples.antt =====
-- The laws of the kill switch on concrete settings.
use agency_os.Prelude.{◌≡◌, refl, true, false, none, some, []}
use agency_os.Db.Tables.{Db}
use agency_os.Automation.{pause, resume}

abbrev fresh : Db
fresh = record {
  executions = [];
  workflows = [];
  triggers = [];
  settings = record { enabled = none; paused_by = none; paused_at = none; paused_reason = none };
  logs = [];
  events = [];
  metrics = record {
    queued_total = 0;
    drained_total = 0;
    retried_total = 0;
    failed_total = 0;
    timed_out_total = 0;
    cancelled_total = 0;
    automation_paused_total = 0;
    automation_resumed_total = 0;
    automation_status_reads = 0;
    durations = [];
  };
}

abbrev closed : Db
closed = record fresh {
  settings = record {
    enabled = some false;
    paused_by = some 7;
    paused_at = some 40;
    paused_reason = some "incident";
  };
}

-- Resuming after a pause leaves the settings of an enabled switch.
pause_then_resume :
    (resume 7 1 (pause 40 7 "incident" 1 fresh).1).1.settings
    ≡ record { enabled = some true; paused_by = none; paused_at = none; paused_reason = none }
unfolding pause resume
pause_then_resume = refl
