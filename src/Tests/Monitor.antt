-- ===== src/Tests/Monitor.antt =====
-- The monitor's modules on concrete input: the rungs, the stalls, the failures, do-not-disturb, the
-- self-report and the lease.
use sysadmin_assistant.Shared.{
  ℕ, ◌+◌, ◌*◌, ◌≤◌, ◌<◌, String, ◌≡◌, refl, ap, is_some, true, false, ◌&&◌, ◌||◌, not, Option, none,
  some, List, [], ◌∷◌, arith, str_eq, any, keep, length,
}
use sysadmin_assistant.Shared.Text.{words}
use sysadmin_assistant.Escalation.{Datetime, minute, hour, day}
use sysadmin_assistant.Escalation.Rungs.{statements, rungs_at, statements-rungs_at}
use sysadmin_assistant.Watch.Entry.{Entry}
use sysadmin_assistant.Watch.Stalls
use sysadmin_assistant.Watch.Stalls.{stall_ladder}
use sysadmin_assistant.Watch.Stalls.Settling.{rows_after, evaluate_settles}
use sysadmin_assistant.Dnd.{DndScheduleWindow, DndManager, parse_time, should_suppress}
use sysadmin_assistant.Dnd.Windows.{covers, should_suppress_arcs}
use sysadmin_assistant.SelfMonitor.{AgentRun, failure_streak, second}
use sysadmin_assistant.SelfMonitor.Streak.{
  is_running, failed_prefix, newest_error, failure_streak_prefix,
}
use sysadmin_assistant.Lease.{LeaseConfig, wait_budget_seconds, briefing}
use sysadmin_assistant.Lease.Budget.{wait_budget_deadline}

statements-rungs_at_example :
    statements none (rungs_at stall_ladder 0 (24 * hour) (0 ∷ hour ∷ 25 * hour ∷ 26 * hour ∷ []))
    ≤ 2
statements-rungs_at_example =
    statements-rungs_at stall_ladder 0 (24 * hour) (0 ∷ hour ∷ 25 * hour ∷ 26 * hour ∷ [])

abbrev info : String
info = "info"

abbrev critical : String
critical = "critical"

abbrev pub log_agent : Entry
log_agent = record {
  name = some "log_aggregator";
  enabled = true;
  stalled = true;
  consecutive_failures = some 4;
  last_error = some "connection refused";
  last_run_at = some "2026-03-01T00:00:00+00:00";
  stall_reason = some "no run for 7200s";
  seconds_since_last_run = some (7200 * second);
  interval_seconds = some 300;
}

abbrev pub noon : Datetime
noon = record { micros = 60 * day; aware = true }

evaluate_settles_example :
    Stalls.evaluate
      (log_agent ∷ [])
      (rows_after 7 noon (Stalls.evaluate (log_agent ∷ []) [] (24 * hour) noon) [])
      (24 * hour)
      noon
    ≡ []
evaluate_settles_example = evaluate_settles (24 * hour) noon (log_agent ∷ []) [] 7

-- A cut at a number of characters that never happens, for texts that are short enough.
pub whole : String → ℕ → String
whole text limit = text

abbrev night : DndScheduleWindow
night = record { start = "23:00"; end = "07:00" }

abbrev nightly : DndManager
nightly = record {
  manual_override = none;
  config = record { enabled = false; schedule = night ∷ []; allow_critical = true };
}

night_starts : parse_time night.start ≡ some (23 * hour)
unfolding parse_time words
night_starts = refl

night_ends : parse_time night.end ≡ some (7 * hour)
unfolding parse_time words
night_ends = refl

should_suppress_arcs_example :
    should_suppress nightly "warning" (2 * hour)
    ≡ some (
        (any (covers (2 * hour)) (night ∷ []) || false)
        && not (str_eq "warning" "critical" && true))
should_suppress_arcs_example =
    should_suppress_arcs nightly "warning" (2 * hour) (omega arith)
      ((ap is_some night_starts, ap is_some night_ends), tt)

abbrev run_of : String → Option String → AgentRun
run_of status error = record {
  status = status;
  error = error;
  duration_seconds = some (2 * second);
  started_at = some noon;
  run_type = "scheduled";
}

abbrev recent : List AgentRun
recent =
    run_of "running" none
    ∷ run_of "failed" none
    ∷ run_of "failed" (some "disk full")
    ∷ run_of "completed" none
    ∷ []

failure_streak_prefix_example :
    ((failure_streak recent).0 ≡ length (failed_prefix (keep (λ r. not (is_running r)) recent)))
    × ((failure_streak recent).1
        ≡ newest_error (failed_prefix (keep (λ r. not (is_running r)) recent)))
failure_streak_prefix_example = failure_streak_prefix recent

abbrev reviews : LeaseConfig
reviews = record {
  base_url = "http://127.0.0.1:8400/";
  timeout_seconds = 120 * second;
  briefing_hour = 6;
  briefing_minute = 0;
  review_lease_margin_minutes = 10;
}

budget_at_three : wait_budget_seconds (3 * hour) reviews ≡ some 10200
unfolding wait_budget_seconds
budget_at_three = refl

wait_budget_deadline_example :
    (1 ≤ 10200)
    × (3 * hour + 10200 * second + 10 * minute ≤ briefing reviews)
    × (briefing reviews < 3 * hour + (10200 + 1) * second + 10 * minute)
wait_budget_deadline_example = wait_budget_deadline (3 * hour) reviews 10200 budget_at_three
