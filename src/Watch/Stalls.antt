-- ===== src/Watch/Stalls.antt =====
-- sysadmin/monitor/stalls.py: the alerts of a run for the agents that have stopped running. The
-- `details` of an alert, which repeat its fields for the API, are not modelled.
pub mod Settling
use sysadmin_assistant.Shared.{
  ℕ, String, Bool, true, false, ◌&&◌, not, Option, none, some, List, [], ◌∷◌, if◌then◌else◌,
}
use sysadmin_assistant.Shared.Dict.{Dict, lookup}
use sysadmin_assistant.Shared.Text.{concat}
use sysadmin_assistant.Shared.Sort.{sort_by}
use sysadmin_assistant.Escalation.{
  Step, raising, escalate, hold, step_for, Ladder, severity_for, Datetime, hours_since,
  humanise_hours,
}
use sysadmin_assistant.Watch.Entry.{Entry, OpenRow, no_name, name_of, shown, less_key}

abbrev pub stall_title_suffix : String
stall_title_suffix = "agent stalled"

abbrev pub stall_ladder : Ladder
stall_ladder = record { quiet = "warning"; loud = "critical" }

unfoldable pub stall_title : String → String
stall_title agent_name = concat (agent_name ∷ " " ∷ stall_title_suffix ∷ [])

pub record StallAlert : Type 0 where
  pub agent_name : String
  pub severity : String
  pub step : Step
  pub last_run_at : Option String
  pub stall_reason : Option String
  pub seconds_since_last_run : Option ℕ
  pub interval_seconds : Option ℕ
  pub first_alerted_at : Option Datetime
  pub hours_since_first_alert : Option ℕ
  pub escalate_after_hours : ℕ

unfoldable pub title : StallAlert → String
unfolding stall_title
title a = stall_title a.agent_name

plain_message : StallAlert → String
plain_message a =
    let base =
      concat ("The " ∷ a.agent_name ∷ " agent has not run since " ∷ shown a.last_run_at ∷ []) in
    if no_name a.stall_reason then base else concat (base ∷ " — " ∷ name_of a.stall_reason ∷ [])

escalated_message : StallAlert → ℕ → String
escalated_message a hours = concat (
    "Still stalled "
    ∷ humanise_hours hours
    ∷ " after the first warning — "
    ∷ a.agent_name
    ∷ " has not run since "
    ∷ shown a.last_run_at
    ∷ [])

message_by : StallAlert → Step → Option ℕ → String
unfolding plain_message escalated_message
message_by a escalate (some hours) = escalated_message a hours
message_by a escalate none = plain_message a
message_by a raising hours = plain_message a
message_by a hold hours = plain_message a

unfoldable pub message : StallAlert → String
unfolding message_by
message a = message_by a a.step a.hours_since_first_alert

abbrev pub elapsed_of : Option OpenRow → Datetime → ℕ
elapsed_of none at = 0
elapsed_of (some row) at = hours_since row.created_at at

abbrev pub severity_of : Option OpenRow → Option String
severity_of none = none
severity_of (some row) = some row.severity

-- The body of `evaluate`'s loop for a named entry.
unfoldable pub due : ℕ → Datetime → Entry → String → Option OpenRow → Option StallAlert
due escalate_after_hours at entry name existing =
    let elapsed_hours = elapsed_of existing at in
    elim (severity_for stall_ladder elapsed_hours 0 escalate_after_hours) [
      | none ↦ none
      | some severity ↦
          let step = step_for severity (severity_of existing) in
          let alert : StallAlert = record {
            agent_name = name;
            severity = severity;
            step = step;
            last_run_at = entry.last_run_at;
            stall_reason = entry.stall_reason;
            seconds_since_last_run = entry.seconds_since_last_run;
            interval_seconds = entry.interval_seconds;
            first_alerted_at = elim existing [ none ↦ none | some row ↦ some row.created_at ];
            hours_since_first_alert = elim existing [ none ↦ none | some row ↦ some elapsed_hours ];
            escalate_after_hours = escalate_after_hours;
          } in
          elim step [ hold ↦ none | _ ↦ some alert ]
    ]

unfoldable pub alerts_of : ℕ → Datetime → Dict OpenRow → List Entry → List StallAlert
alerts_of gap at open_stalls [] = []
alerts_of gap at open_stalls (entry ∷ entries) =
    let rest = alerts_of gap at open_stalls entries in
    let name = name_of entry.name in
    if no_name entry.name then rest else (elim (due gap at entry name (lookup name open_stalls)) [
      | none ↦ rest
      | some a ↦ a ∷ rest
    ])

unfoldable pub less : StallAlert → StallAlert → Bool
unfolding less_key
less a b = less_key a.severity a.agent_name b.severity b.agent_name

unfoldable pub evaluate : List Entry → Dict OpenRow → ℕ → Datetime → List StallAlert
unfolding alerts_of less
evaluate stalled_entries open_stalls escalate_after_hours now =
    sort_by less (alerts_of escalate_after_hours now open_stalls stalled_entries)
