-- ===== src/SelfMonitor.antt =====
-- sysadmin/monitor/self_monitor.py: one agent's health entry (`stall_window_seconds`,
-- `_failure_streak`, `_duration_trend`, `summarise_agent`). Durations are microseconds, the grace
-- multiplier is in millionths, and a ratio of means is compared by cross-multiplication. The
-- rendering of an instant (`isoformat`) is a parameter; the query for the runs is not modelled.
pub mod Streak
pub mod Handover
use sysadmin_assistant.Shared.{
  ℕ, ◌+◌, ◌-◌, ◌*◌, ◌/◌, max, String, Bool, true, false, ◌&&◌, ◌||◌, not, Option, none, some, List,
  [], ◌∷◌, length, take, ltb, leb, ◌==◌, if◌then◌else◌, str_eq,
}
use sysadmin_assistant.Shared.Text.{concat, show}
use sysadmin_assistant.Escalation.{Datetime, round_div}
use sysadmin_assistant.Watch.Entry.{Entry, no_name}

pub record AgentSchedule : Type 0 where
  pub name : String
  pub enabled : Bool
  pub interval_seconds : ℕ
  pub job_id : String

pub record SelfMonitorConfig : Type 0 where
  pub stall_grace_multiplier : ℕ
  pub min_stall_grace_seconds : ℕ

-- The columns of an `agent_runs` row that the summary reads; `error` is `details["error"]`.
pub record AgentRun : Type 0 where
  pub status : String
  pub error : Option String
  pub duration_seconds : Option ℕ
  pub started_at : Option Datetime
  pub run_type : String

abbrev pub second : ℕ
second = 1_000_000

unfoldable pub stall_window_seconds : AgentSchedule → SelfMonitorConfig → ℕ
stall_window_seconds schedule config =
    max (schedule.interval_seconds * config.stall_grace_multiplier)
      (config.min_stall_grace_seconds * second)

-- `str(error) if error else None`, kept only while no error was found yet.
abbrev pub first_error : Option String → Option String → Option String
first_error (some e) error = some e
first_error none error = if no_name error then none else error

unfoldable pub streak_from : ℕ → Option String → List AgentRun → ℕ × Option String
streak_from count last_error [] = (count, last_error)
streak_from count last_error (run ∷ runs) =
    let skipped = streak_from count last_error runs in
    let failed = streak_from (count + 1) (first_error last_error run.error) runs in
    if str_eq run.status "running"
    then skipped
    else if str_eq run.status "failed"
    then failed
    else (count, last_error)

unfoldable pub failure_streak : List AgentRun → ℕ × Option String
unfolding streak_from
failure_streak runs = streak_from 0 none runs

abbrev pub sum : List ℕ → ℕ
sum [] = 0
sum (x ∷ xs) = x + sum xs

abbrev pub drop : ℕ → List ℕ → List ℕ
drop n [] = []
drop n (x ∷ xs) = if n == 0 then x ∷ xs else drop (n - 1) xs

pub data Trend : Type 0 where
  unknown rising falling steady : Trend

abbrev pub min_trend_samples : ℕ
min_trend_samples = 4

-- The ratio of the means against 1.25 and 0.80: the means are `recent / k` and `older / m`.
unfoldable pub ratio_trend : ℕ → ℕ → ℕ → ℕ → Trend
ratio_trend recent k older m =
    if older == 0
    then unknown
    else if leb (5 * (older * k)) (4 * (recent * m))
    then rising
    else if leb (5 * (recent * m)) (4 * (older * k))
    then falling
    else steady

unfoldable pub duration_trend : List ℕ → Trend
unfolding ratio_trend
duration_trend durations =
    let n = length durations in
    let half = n / 2 in
    if ltb n min_trend_samples
    then unknown
    else ratio_trend (sum (take half durations)) half (sum (drop half durations)) (n - half)

unfoldable pub durations_of : List AgentRun → List ℕ
durations_of [] = []
durations_of (run ∷ runs) =
    let rest = durations_of runs in elim run.duration_seconds [ none ↦ rest | some d ↦ d ∷ rest ]

abbrev pub first_run : List AgentRun → Option AgentRun
first_run [] = none
first_run (run ∷ runs) = some run

-- A naive reading is taken as UTC.
abbrev pub as_aware : Datetime → Datetime
as_aware d = if d.aware then d else record d { aware = true }

unfoldable pub last_run_at : List AgentRun → Option Datetime
last_run_at runs = elim (first_run runs) [
  | none ↦ none
  | some run ↦ elim run.started_at [ none ↦ none | some d ↦ some (as_aware d) ]
]

abbrev pub age_of : Datetime → Option Datetime → Option ℕ
age_of now none = none
age_of now (some d) = some (now.micros - d.micros)

unfoldable pub is_stalled : AgentSchedule → ℕ → Option ℕ → Bool
is_stalled schedule window none = false
is_stalled schedule window (some age) = schedule.enabled && ltb window age

unfoldable pub stall_reason : AgentSchedule → ℕ → Option ℕ → Option String
unfolding is_stalled
stall_reason schedule window none = none
stall_reason schedule window (some age) =
    if is_stalled schedule window (some age)
    then some (
        concat (
          "no run for "
          ∷ show (age / second)
          ∷ "s — expected every "
          ∷ show schedule.interval_seconds
          ∷ "s (stall window "
          ∷ show (window / second)
          ∷ "s)"
          ∷ []))
    else none

-- `round(d, 1)` of a number of seconds.
abbrev pub tenths : ℕ → ℕ
tenths duration = round_div duration 100_000 * 100_000

-- The entry, less what only the API shows of it (the job's name, the last run's type and duration,
-- the next expected run, the durations and their mean).
pub record Summary : Type 0 where
  pub entry : Entry
  pub stall_window : ℕ
  pub last_status : String
  pub runs_considered : ℕ
  pub duration_trend : Trend

module _ (isoformat : Datetime → String) where
  unfoldable pub summarise_agent :
      AgentSchedule → List AgentRun → SelfMonitorConfig → Datetime → Summary
  summarise_agent schedule runs config now =
      let window = stall_window_seconds schedule config in
      let at = last_run_at runs in
      let age = age_of now at in
      let (consecutive_failures, last_error) = failure_streak runs in
      record {
        entry = record {
          name = some schedule.name;
          enabled = schedule.enabled;
          stalled = is_stalled schedule window age;
          consecutive_failures = some consecutive_failures;
          last_error = last_error;
          last_run_at = elim at [ none ↦ none | some d ↦ some (isoformat d) ];
          stall_reason = stall_reason schedule window age;
          seconds_since_last_run = elim age [ none ↦ none | some d ↦ some (tenths d) ];
          interval_seconds = some schedule.interval_seconds;
        };
        stall_window = tenths window;
        last_status = elim (first_run runs) [ none ↦ "never" | some run ↦ run.status ];
        runs_considered = length runs;
        duration_trend = duration_trend (durations_of runs);
      }
