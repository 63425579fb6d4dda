-- ===== src/Watch/Liveness.antt =====
-- sysadmin/monitor/agent.py: `_check_agent_liveness`, the lifecycle of the stall alerts in one run.
-- The unresolved rows of the family are the dict that the run builds of them, keyed by the agent;
-- the rows that the run resolves leave it. The run reads the clock once.
pub mod Presence
pub mod Repeat
use sysadmin_assistant.Shared.{
  ℕ, ◌+◌, String, Bool, true, false, not, Option, none, some, List, [], ◌∷◌, length, is_some, map,
  if◌then◌else◌,
}
use sysadmin_assistant.Shared.Dict.{Dict, lookup, insert, erase}
use sysadmin_assistant.Escalation.{Step, escalate, Datetime}
use sysadmin_assistant.Watch.Entry.{Entry, OpenRow, name_of}
use sysadmin_assistant.Watch.Stalls.{StallAlert, evaluate}
use sysadmin_assistant.Watch.Stalls.Settling.{rows_after}

-- `{a["name"]: a for a in report["agents"] if a["stalled"]}`, from a dict of the earlier ones.
unfoldable pub stalled_from : Dict Entry → List Entry → Dict Entry
stalled_from d [] = d
stalled_from d (a ∷ agents) =
    stalled_from (if a.stalled then insert (name_of a.name) a d else d) agents

unfoldable pub stalled_of : List Entry → Dict Entry
unfolding stalled_from
stalled_of agents = stalled_from [] agents

-- `list(stalled.values())`
unfoldable pub values : Dict Entry → List Entry
values [] = []
values ((name, entry) ∷ d) = entry ∷ values d

-- The rows less those of the agents that were open before the run and are not stalled.
unfoldable pub resolve : Dict OpenRow → Dict Entry → Dict OpenRow → Dict OpenRow
resolve [] stalled rows = rows
resolve ((name, row) ∷ open_stalls) stalled rows =
    let rest = resolve open_stalls stalled rows in
    if is_some (lookup name stalled) then rest else erase name rest

unfoldable pub escalations : List Step → ℕ
escalations [] = 0
escalations (step ∷ due) =
    let rest = escalations due in elim step [ escalate ↦ rest + 1 | _ ↦ rest ]

unfoldable pub raises : List Step → ℕ
raises [] = 0
raises (step ∷ due) = let rest = raises due in elim step [ escalate ↦ rest | _ ↦ rest + 1 ]

-- What a run leaves: the unresolved rows, its counts, and the number of rows that it wrote.
pub record Liveness : Type 0 where
  pub rows : Dict OpenRow
  pub stalled : ℕ
  pub raised : ℕ
  pub escalated : ℕ
  pub written : ℕ

unfoldable pub check_agent_liveness : List Entry → Dict OpenRow → ℕ → ℕ → Datetime → Liveness
unfolding stalled_of values resolve escalations raises
check_agent_liveness agents open_stalls escalate_after_hours next_id now =
    let stalled = stalled_of agents in
    let due = evaluate (values stalled) open_stalls escalate_after_hours now in
    let steps = map (λ item. item.step) due in
    record {
      rows = resolve open_stalls stalled (rows_after next_id now due open_stalls);
      stalled = length stalled;
      raised = raises steps;
      escalated = escalations steps;
      written = raises steps + escalations steps;
    }
