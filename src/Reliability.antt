-- ===== src/Reliability.antt =====
-- sysadmin/monitor/reliability.py: the checks of a service, the outages in them, and the service's
-- score. A datetime is its microseconds since the earliest one. A percentage and a number of days
-- are whole hundredths, a length in minutes or hours is whole tenths; the quotients behind them are
-- exact, where the source rounds a float. How Python prints a float with `:g` is the parameter
-- `format_g`, of the number of parts and the parts in one.
pub mod Score
pub mod Service
pub mod Episodes
pub mod Bounds
pub mod Unmeasured
pub mod Listing
use sysadmin_assistant.Shared.{
  ℕ, ◌+◌, ◌-◌, ◌*◌, ◌/◌, ◌≤◌, max, String, Bool, true, false, not, Option, none, some, List, [],
  ◌∷◌, ◌++◌, any, keep, length, leb, if◌then◌else◌, str_eq,
}

abbrev pub downtime_cap : ℕ
downtime_cap = 60

abbrev pub instability_per_episode : ℕ
instability_per_episode = 5

abbrev pub instability_cap : ℕ
instability_cap = 25

abbrev pub unmeasured_status : String
unmeasured_status = "error"

abbrev pub skipped_status : String
skipped_status = "skipped"

abbrev pub unmeasured_statuses : List String
unmeasured_statuses = unmeasured_status ∷ skipped_status ∷ []

abbrev pub down_statuses : List String
down_statuses = "degraded" ∷ "warning" ∷ "critical" ∷ "unreachable" ∷ []

-- `LOW_COVERAGE_FRACTION * 100`, in hundredths of a percent.
abbrev pub low_coverage : ℕ
low_coverage = 5000

-- `MIN_CONFIDENT_HISTORY_DAYS`, in hundredths.
abbrev pub min_confident_history_days : ℕ
min_confident_history_days = 200

pub record HealthPoint : Type 0 where
  pub checked_at : ℕ
  pub status : String

pub record Deduction : Type 0 where
  pub kind : String
  pub points : ℕ
  pub detail : String
  pub waived : Bool

pub record ReliabilityScore : Type 0 where
  pub service : String
  pub score : ℕ
  pub grade : String
  pub uptime_percent : ℕ
  pub checks_recorded : ℕ
  pub checks_measured : ℕ
  pub failed_checks : ℕ
  pub error_checks : ℕ
  pub skipped_checks : ℕ
  pub outage_episodes : ℕ
  pub longest_outage_minutes : ℕ
  pub mean_hours_between_incidents : Option ℕ
  pub episode_starts : List ℕ
  pub checks_expected : ℕ
  pub coverage_percent : ℕ
  pub observed_days : ℕ
  pub confidence : String
  pub confidence_reason : Option String
  pub window_days : ℕ
  pub window_start : Option ℕ
  pub first_check_at : Option ℕ
  pub last_check_at : Option ℕ
  pub muted : Bool
  pub waived_points : ℕ
  pub deductions : List Deduction

-- `ReliabilityScore(service=service)`
unfoldable pub new_score : String → ReliabilityScore
new_score service = record {
  service = service;
  score = 100;
  grade = "reliable";
  uptime_percent = 10000;
  checks_recorded = 0;
  checks_measured = 0;
  failed_checks = 0;
  error_checks = 0;
  skipped_checks = 0;
  outage_episodes = 0;
  longest_outage_minutes = 0;
  mean_hours_between_incidents = none;
  episode_starts = [];
  checks_expected = 0;
  coverage_percent = 0;
  observed_days = 0;
  confidence = "high";
  confidence_reason = none;
  window_days = 7;
  window_start = none;
  first_check_at = none;
  last_check_at = none;
  muted = false;
  waived_points = 0;
  deductions = [];
}

-- Is the check one of a service that was not there?
unfoldable pub is_down : HealthPoint → Bool
is_down p = any (str_eq p.status) down_statuses

-- Did the check measure anything?
unfoldable pub is_measured : HealthPoint → Bool
is_measured p = not (any (str_eq p.status) unmeasured_statuses)

-- The outage that has begun, if any, is closed.
close_episode : Option ℕ → Option ℕ → List (ℕ × ℕ) → List (ℕ × ℕ)
close_episode none last_bad rest = rest
close_episode (some start) none rest = rest
close_episode (some start) (some last_bad) rest = (start, last_bad) ∷ rest

-- `if start is None: start = point.checked_at`
start_or : Option ℕ → ℕ → ℕ
start_or none t = t
start_or (some start) t = start

-- The episodes that the loop still appends, from its `start` and `last_bad`.
episodes_from : Option ℕ → Option ℕ → List HealthPoint → List (ℕ × ℕ)
unfolding close_episode start_or
episodes_from start last_bad [] = close_episode start last_bad []
episodes_from start last_bad (p ∷ ps) =
    let longer = episodes_from (some (start_or start p.checked_at)) (some p.checked_at) ps in
    let closed = episodes_from none none ps in
    let kept = episodes_from start last_bad ps in
    if is_down p then longer else elim start [
      | none ↦ kept
      | some s ↦ elim last_bad [ none ↦ kept | some l ↦ (s, l) ∷ closed ]
    ]

-- `_outage_episodes`
unfoldable pub outage_episodes_of : List HealthPoint → List (ℕ × ℕ)
unfolding episodes_from
outage_episodes_of measured = episodes_from none none measured

-- `_grade`
unfoldable pub grade_of : ℕ → ℕ × ℕ × ℕ → String
grade_of score (reliable_min, degraded_min, unreliable_min) =
    if leb reliable_min score
    then "reliable"
    else if leb degraded_min score
    then "degraded"
    else if leb unreliable_min score
    then "unreliable"
    else "failing"
