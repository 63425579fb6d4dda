-- ===== src/Watch/Failures.antt =====
-- sysadmin/monitor/failures.py: the alerts of a run for the agents whose runs fail. `estate.text`'s
-- `truncate_at_word` is the library's, a parameter here. The `details` of an alert, which repeat its
-- fields for the API, are not modelled.
use sysadmin_assistant.Shared.{
  ℕ, String, Bool, false, not, ◌||◌, Option, none, some, List, [], ◌∷◌, leb, ◌==◌, if◌then◌else◌,
  str_eq,
}
use sysadmin_assistant.Shared.Dict.{Dict, lookup}
use sysadmin_assistant.Shared.Text.{concat, join, show, words}
use sysadmin_assistant.Shared.Sort.{sort_by}
use sysadmin_assistant.Escalation.{
  Step, raising, escalate, hold, step_for, Ladder, severity_for, Datetime, humanise_hours,
}
use sysadmin_assistant.Watch.Entry.{Entry, OpenRow, no_name, name_of, less_key}
use sysadmin_assistant.Watch.Stalls.{elapsed_of, severity_of}

abbrev pub failure_title_suffix : String
failure_title_suffix = "agent failing"

abbrev pub failure_ladder : Ladder
failure_ladder = record { quiet = "warning"; loud = "critical" }

abbrev pub error_chars : ℕ
error_chars = 160

unfoldable pub failure_title : String → String
failure_title agent_name = concat (agent_name ∷ " " ∷ failure_title_suffix ∷ [])

-- `int(entry.get("consecutive_failures") or 0)`
abbrev pub failures_of : Option ℕ → ℕ
failures_of none = 0
failures_of (some n) = n

unfoldable pub is_failing : Entry → ℕ → Bool
is_failing entry failure_threshold =
    if not entry.enabled
    then false
    else if entry.stalled
    then false
    else leb failure_threshold (failures_of entry.consecutive_failures)

pub record FailureAlert : Type 0 where
  pub agent_name : String
  pub severity : String
  pub step : Step
  pub consecutive_failures : ℕ
  pub last_error : Option String
  pub last_run_at : Option String
  pub failure_threshold : ℕ
  pub first_alerted_at : Option Datetime
  pub hours_since_first_alert : Option ℕ
  pub escalate_after_hours : ℕ

unfoldable pub title : FailureAlert → String
unfolding failure_title
title a = failure_title a.agent_name

-- `_plural`
unfoldable pub plural : ℕ → String → String
plural count noun =
    if count == 1
    then concat (show count ∷ " " ∷ noun ∷ [])
    else concat (show count ∷ " " ∷ noun ∷ "s" ∷ [])

plain_base : FailureAlert → String
unfolding plural
plain_base a = concat (
    "The "
    ∷ a.agent_name
    ∷ " agent has failed "
    ∷ plural a.consecutive_failures "run"
    ∷ " in a row"
    ∷ [])

escalated_base : FailureAlert → ℕ → String
unfolding plural
escalated_base a hours = concat (
    "Still failing "
    ∷ humanise_hours hours
    ∷ " after the first warning — "
    ∷ a.agent_name
    ∷ " has now failed "
    ∷ plural a.consecutive_failures "run"
    ∷ " in a row"
    ∷ [])

base_by : FailureAlert → Step → Option ℕ → String
unfolding plain_base escalated_base
base_by a escalate (some hours) = escalated_base a hours
base_by a escalate none = plain_base a
base_by a raising hours = plain_base a
base_by a hold hours = plain_base a

unfoldable pub message : FailureAlert → String
unfolding base_by
message a =
    let base = base_by a a.step a.hours_since_first_alert in
    if no_name a.last_error then base else concat (base ∷ ": " ∷ name_of a.last_error ∷ [])

module _ (truncate_at_word : String → ℕ → String) where
  -- `_short_error`
  unfoldable pub short_error : Option String → Option String
  short_error error =
      if no_name error
      then none
      else let flattened = join " " (words (name_of error)) in
        if str_eq flattened "" then none else some (truncate_at_word flattened error_chars)

  -- The body of `evaluate`'s loop for a failing entry.
  unfoldable pub due : ℕ → ℕ → Datetime → Entry → String → Option OpenRow → Option FailureAlert
  unfolding short_error
  due failure_threshold escalate_after_hours at entry name existing =
      let elapsed_hours = elapsed_of existing at in
      elim (severity_for failure_ladder elapsed_hours 0 escalate_after_hours) [
        | none ↦ none
        | some severity ↦
            let step = step_for severity (severity_of existing) in
            let alert : FailureAlert = record {
              agent_name = name;
              severity = severity;
              step = step;
              consecutive_failures = failures_of entry.consecutive_failures;
              last_error = short_error entry.last_error;
              last_run_at = entry.last_run_at;
              failure_threshold = failure_threshold;
              first_alerted_at = elim existing [ none ↦ none | some row ↦ some row.created_at ];
              hours_since_first_alert = elim existing [
                | none ↦ none
                | some row ↦ some elapsed_hours
              ];
              escalate_after_hours = escalate_after_hours;
            } in
            elim step [ hold ↦ none | _ ↦ some alert ]
      ]

  unfoldable pub alerts_of : ℕ → ℕ → Datetime → Dict OpenRow → List Entry → List FailureAlert
  unfolding is_failing
  alerts_of threshold gap at open_failures [] = []
  alerts_of threshold gap at open_failures (entry ∷ entries) =
      let rest = alerts_of threshold gap at open_failures entries in
      let name = name_of entry.name in
      if no_name entry.name || not (is_failing entry threshold)
      then rest
      else (elim (due threshold gap at entry name (lookup name open_failures)) [
        | none ↦ rest
        | some a ↦ a ∷ rest
      ])

  unfoldable pub less : FailureAlert → FailureAlert → Bool
  less a b = less_key a.severity a.agent_name b.severity b.agent_name

  unfoldable pub evaluate : List Entry → Dict OpenRow → ℕ → ℕ → Datetime → List FailureAlert
  unfolding alerts_of
  evaluate agent_entries open_failures failure_threshold escalate_after_hours now =
      sort_by less
        (alerts_of failure_threshold escalate_after_hours now open_failures agent_entries)
