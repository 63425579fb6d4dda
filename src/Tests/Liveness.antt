-- ===== src/Tests/Liveness.antt =====
-- A run of the liveness check on a report with one stalled agent and one that runs again.
use sysadmin_assistant.Shared.{
  ◌≡◌, refl, ◌&&◌, true, false, none, some, List, [], ◌∷◌, any, is_some, str_eq, ◌*◌,
}
use sysadmin_assistant.Shared.Dict.{Dict, lookup}
use sysadmin_assistant.Escalation.{hour, day}
use sysadmin_assistant.Watch.Entry.{Entry, OpenRow, no_name, name_of}
use sysadmin_assistant.Watch.Liveness.{check_agent_liveness}
use sysadmin_assistant.Watch.Liveness.Presence.{is_stalled_as, check_agent_liveness-present}
use sysadmin_assistant.Watch.Health.{check_agent_health}
use sysadmin_assistant.Watch.Health.Families.{check_agent_health_exclusive}
use sysadmin_assistant.Watch.Liveness.Repeat.{check_agent_liveness_repeats}
use sysadmin_assistant.Tests.Monitor.{log_agent, noon, whole}

abbrev back : Entry
back = record log_agent { name = some "file_organiser"; stalled = false; stall_reason = none }

abbrev report : List Entry
report = log_agent ∷ back ∷ []

abbrev two_days_old : OpenRow
two_days_old = record {
  alert_id = 3;
  severity = "warning";
  created_at = record { micros = 58 * day; aware = true };
}

abbrev open_stalls : Dict OpenRow
open_stalls = ("log_aggregator", two_days_old) ∷ ("file_organiser", two_days_old) ∷ []

named_log : no_name log_agent.name ≡ false
unfolding no_name str_eq
named_log = refl

named_back : no_name back.name ≡ false
unfolding no_name str_eq
named_back = refl

check_agent_liveness-present_example :
    is_some
      (lookup "file_organiser" (check_agent_liveness report open_stalls (24 * hour) 7 noon).rows)
    ≡ any (is_stalled_as "file_organiser") report
check_agent_liveness-present_example =
    check_agent_liveness-present report open_stalls (24 * hour) 7 noon "file_organiser"
      (named_log, (named_back, tt))

check_agent_liveness_repeats_example :
    (check_agent_liveness report
      (check_agent_liveness report open_stalls (24 * hour) 7 noon).rows
      (24 * hour)
      8
      noon).written
    ≡ 0
check_agent_liveness_repeats_example =
    check_agent_liveness_repeats report open_stalls (24 * hour) 7 8 noon
      (named_log, (named_back, tt))

distinct : str_eq (name_of back.name) (name_of log_agent.name) ≡ false
unfolding str_eq
distinct = refl

-- The agent that stalled was failing before, and has a row of each family open.
check_agent_health_exclusive_example :
    (is_some (
        lookup "log_aggregator"
          (check_agent_health whole true report open_stalls open_stalls 3
            (24 * hour)
            7
            noon).open_stalls)
      && is_some (
          lookup "log_aggregator"
            (check_agent_health whole true report open_stalls open_stalls 3
              (24 * hour)
              7
              noon).open_failures))
    ≡ false
check_agent_health_exclusive_example =
    check_agent_health_exclusive whole report open_stalls open_stalls 3 (24 * hour) 7 noon
      "log_aggregator" (named_log, (named_back, tt)) (rw distinct refl, (refl, tt))
