-- ===== src/Watch/Health.antt =====
-- sysadmin/monitor/agent.py: `_check_agent_failures`, the lifecycle of the failure alerts in one run,
-- and `_check_agent_health`, which hands one report to both families. The unresolved rows of the
-- family are the dict that the run builds of them, keyed by the agent.
pub mod Families
use sysadmin_assistant.Shared.{
  ℕ, suc, ◌+◌, String, Bool, true, false, not, Option, none, some, List, [], ◌∷◌, length, map,
  if◌then◌else◌,
}
use sysadmin_assistant.Shared.Dict.{Dict, lookup, insert}
use sysadmin_assistant.Escalation.{Datetime}
use sysadmin_assistant.Watch.Entry.{Entry, OpenRow, name_of}
use sysadmin_assistant.Watch.Failures.{FailureAlert, is_failing, evaluate}
use sysadmin_assistant.Watch.Liveness.{resolve, escalations, raises, Liveness, check_agent_liveness}

-- The set of the failing agents' names, as the keys of a dict.
unfoldable pub failing_from : ℕ → Dict Entry → List Entry → Dict Entry
failing_from threshold d [] = d
failing_from threshold d (a ∷ agents) =
    failing_from threshold (if is_failing a threshold then insert (name_of a.name) a d else d)
      agents

-- The rows when the run has written its alerts, each in place of the fault's quiet row.
unfoldable pub failure_rows : ℕ → Datetime → List FailureAlert → Dict OpenRow → Dict OpenRow
failure_rows alert_id at [] rows = rows
failure_rows alert_id at (a ∷ alerts) rows = failure_rows (suc alert_id) at alerts (
    insert a.agent_name (record { alert_id = alert_id; severity = a.severity; created_at = at })
      rows)

pub record FailureRun : Type 0 where
  pub rows : Dict OpenRow
  pub failing : ℕ
  pub raised : ℕ
  pub escalated : ℕ
  pub written : ℕ

pub record Health : Type 0 where
  pub open_stalls : Dict OpenRow
  pub open_failures : Dict OpenRow
  pub written : ℕ

module _ (truncate_at_word : String → ℕ → String) where
  unfoldable pub check_agent_failures :
      List Entry → Dict OpenRow → ℕ → ℕ → ℕ → Datetime → FailureRun
  unfolding failing_from failure_rows
  check_agent_failures agents open_failures threshold escalate_after_hours next_id now =
      let failing = failing_from threshold [] agents in
      let due = evaluate truncate_at_word agents open_failures threshold escalate_after_hours now in
      let steps = map (λ item. item.step) due in
      record {
        rows = resolve open_failures failing (failure_rows next_id now due open_failures);
        failing = length failing;
        raised = raises steps;
        escalated = escalations steps;
        written = raises steps + escalations steps;
      }

  -- `enabled` is `config.self_monitor.enabled`.
  unfoldable pub check_agent_health :
      Bool → List Entry → Dict OpenRow → Dict OpenRow → ℕ → ℕ → ℕ → Datetime → Health
  check_agent_health enabled agents open_stalls open_failures threshold gap next_id now =
      let stalls = check_agent_liveness agents open_stalls gap next_id now in
      let failures =
        check_agent_failures agents open_failures threshold gap (next_id + stalls.written) now in
      if not enabled
      then record { open_stalls = open_stalls; open_failures = open_failures; written = 0 }
      else record {
        open_stalls = stalls.rows;
        open_failures = failures.rows;
        written = stalls.written + failures.written;
      }
