-- ===== src/Jobs.antt =====
-- sysadmin/core/jobs.py and the job table of sysadmin/core/scheduler.py: the jobs that a
-- configuration asks for, and how the table is made to match them. Building an APScheduler trigger
-- and printing it are the library's: `trigger_text` is a parameter, and `none` is its exception.
pub mod Plan
pub mod Table
use Prim.Native.Nat.{Ordering}
use Prim.Native.String.{compare}
use sysadmin_assistant.Shared.{
  ℕ, String, Bool, true, false, not, Option, none, some, List, [], ◌∷◌, ◌++◌, any, if◌then◌else◌,
  str_eq,
}
use sysadmin_assistant.Shared.Dict.{Dict, lookup, insert, erase}
use sysadmin_assistant.Shared.Sort.{sort_by}

-- The trigger and its keyword arguments.
pub data Trigger : Type 0 where
  interval_seconds interval_hours : ℕ → Trigger
  cron : ℕ → ℕ → Option String → Trigger

pub record JobSpec : Type 0 where
  pub job_id : String
  pub enabled : Bool
  pub trigger : Trigger
  pub config_paths : List String
  pub first_run_delay_seconds : Option ℕ

-- A scheduled job: its trigger as text, when it was last timed, and the delay of its first run.
pub record Job : Type 0 where
  pub trigger : String
  pub timed_at : ℕ
  pub first_run_delay_seconds : Option ℕ

pub data Outcome : Type 0 where
  added retimed unchanged : Outcome

-- `Scheduler._sync`
unfoldable pub sync : Dict Job → String → String → Option ℕ → ℕ → Dict Job × Outcome
sync jobs job_id trigger delay now = elim (lookup job_id jobs) [
  | some existing ↦
      if str_eq existing.trigger trigger
      then (jobs, unchanged)
      else (insert job_id (record existing { trigger = trigger; timed_at = now }) jobs, retimed)
  | none ↦ (
    insert job_id (record { trigger = trigger; timed_at = now; first_run_delay_seconds = delay })
        jobs,
    added,
  )
]

-- `Scheduler.remove_job`
unfoldable pub remove_job : Dict Job → String → Dict Job × Bool
remove_job jobs job_id = elim (lookup job_id jobs) [
  | none ↦ (jobs, false)
  | some existing ↦ (erase job_id jobs, true)
]

pub record JobSyncReport : Type 0 where
  pub added : List String
  pub removed : List String
  pub retimed : List String
  pub unchanged : List String
  pub failed : List String
  pub failed_config_paths : List String

-- `getattr(report, outcome).append(job_id)`
abbrev pub noted : String → Outcome → JobSyncReport → JobSyncReport
noted job_id added report = record report { added = report.added ++ job_id ∷ [] }
noted job_id retimed report = record report { retimed = report.retimed ++ job_id ∷ [] }
noted job_id unchanged report = record report { unchanged = report.unchanged ++ job_id ∷ [] }

abbrev pub noted_failure : JobSpec → JobSyncReport → JobSyncReport
noted_failure spec report = record report {
  failed = report.failed ++ spec.job_id ∷ [];
  failed_config_paths = report.failed_config_paths ++ spec.config_paths;
}

abbrev pub noted_removal : String → Bool → JobSyncReport → JobSyncReport
noted_removal job_id gone report =
    if gone then record report { removed = report.removed ++ job_id ∷ [] } else report

abbrev pub text_less : String → String → Bool
text_less s t = elim (compare s t) [ Ordering.lt ↦ true | _ ↦ false ]

unfoldable pub without_repeats : List String → List String
without_repeats [] = []
without_repeats (x ∷ xs) =
    let rest = without_repeats xs in if any (λ y. str_eq y x) rest then rest else x ∷ rest

-- `sorted(set(xs))`
unfoldable pub sorted_set : List String → List String
unfolding without_repeats
sorted_set xs = sort_by text_less (without_repeats xs)

abbrev pub empty_report : JobSyncReport
empty_report = record {
  added = [];
  removed = [];
  retimed = [];
  unchanged = [];
  failed = [];
  failed_config_paths = [];
}

-- One turn of the loop, for a spec that is disabled, that the host refuses, and that it accepts.
unfoldable pub apply_spec :
    ℕ → Dict Job → JobSyncReport → JobSpec → Bool → Option String → Dict Job × JobSyncReport
apply_spec now jobs report spec false text =
    let (rest, gone) = remove_job jobs spec.job_id in (rest, noted_removal spec.job_id gone report)
apply_spec now jobs report spec true none = (jobs, noted_failure spec report)
apply_spec now jobs report spec true (some text) =
    let (synced, outcome) = sync jobs spec.job_id text spec.first_run_delay_seconds now in
    (synced, noted spec.job_id outcome report)

-- `targets` is the table of the functions to run, by job; a job that is not in it is a KeyError.
module _ (trigger_text : Trigger → Option String) (targets : List String) where
  -- The text of the trigger of a spec that the host accepts.
  unfoldable pub accepted : JobSpec → Option String
  accepted spec =
      if any (λ t. str_eq t spec.job_id) targets then trigger_text spec.trigger else none

  unfoldable pub apply_job : ℕ → Dict Job × JobSyncReport → JobSpec → Dict Job × JobSyncReport
  unfolding apply_spec
  apply_job now (jobs, report) spec = apply_spec now jobs report spec spec.enabled (accepted spec)

  pub apply_from : ℕ → Dict Job × JobSyncReport → List JobSpec → Dict Job × JobSyncReport
  apply_from now state [] = state
  apply_from now state (spec ∷ specs) = apply_from now (apply_job now state spec) specs

  unfoldable pub apply_jobs : ℕ → Dict Job → List JobSpec → Dict Job × JobSyncReport
  unfolding apply_from
  apply_jobs now jobs specs =
      let (synced, report) = apply_from now (jobs, empty_report) specs in
      (synced, record report { failed_config_paths = sorted_set report.failed_config_paths })
